-- ===== src/Block/Tests.antt =====
-- Runs of the checks of a block's transactions, and their theorems at concrete inputs.
use grapheno.Base.{
  ℕ, ◌+◌, ◌<◌, ◌≡◌, refl, [], ◌∷◌, ok, err, arith, All, invalid_transaction, invalid_signature,
  text_eq, insert, lookup, sum_from,
}
use grapheno.Types.{Block}
use grapheno.Samples.{sample}
use grapheno.Samples.Ledger.{utxos, spend, overspend, coinbase, header_at, output_to, input_of}
use grapheno.Block.{
  block_reward, calculate_miner_fees, verify_transactions, gather, gather_inputs, gather_outputs,
}
use grapheno.Hashing.{hash_output}
use grapheno.Crypto.{to_address, verify, sign_output}
use grapheno.Block.Sums.{spent, created}
use grapheno.Block.Fees.{verify_transactions_conserves}
use grapheno.Block.Spends.{IsCovered, Fresh, all_spent_hashes, verify_transactions_sound}

abbrev good : Block
good = record { header = header_at 1 0 0; transactions = coinbase ∷ spend ∷ [] }

abbrev bad : Block
bad = record { header = header_at 1 0 0; transactions = coinbase ∷ overspend ∷ [] }

fees_of_good : calculate_miner_fees sample utxos good ≡ ok 10
unfolding calculate_miner_fees sample hash_output insert lookup sum_from
fees_of_good = refl

good_passes : verify_transactions sample utxos good 0 ≡ ok tt
unfolding verify_transactions sample hash_output insert lookup sum_from text_eq to_address verify
    sign_output
good_passes = refl

twice_fails :
    verify_transactions sample utxos
      (record { header = header_at 1 0 0; transactions = coinbase ∷ spend ∷ spend ∷ [] })
      0
    ≡ err invalid_transaction
unfolding verify_transactions sample hash_output insert lookup sum_from text_eq to_address verify
    sign_output
twice_fails = refl

-- Key 8 may not spend what key 5 owns.
abbrev theft : Block
theft = record {
  header = header_at 1 0 0;
  transactions =
      coinbase ∷ record { inputs = input_of 7 8 ∷ []; outputs = output_to 6 90 2 ∷ [] } ∷ [];
}

theft_fails : verify_transactions sample utxos theft 0 ≡ err invalid_signature
unfolding verify_transactions sample hash_output insert lookup sum_from text_eq to_address verify
    sign_output
theft_fails = refl

verify_transactions_conserves_example :
    (r : ℕ) × (block_reward 0 ≡ ok r)
    × (created good.transactions ≡ r + spent utxos good.transactions)
verify_transactions_conserves_example =
    verify_transactions_conserves sample utxos good 0 good_passes

verify_transactions_sound_example :
    All (IsCovered sample utxos) (spend ∷ []) × Fresh [] (all_spent_hashes (spend ∷ []))
verify_transactions_sound_example = verify_transactions_sound sample utxos good 0 good_passes

gathered :
    gather sample utxos [] [] (overspend ∷ [])
    ≡ ok (
      (7, output_to 5 100 1) ∷ [],
      (hash_output sample (output_to 6 101 2), output_to 6 101 2) ∷ [],
    )
unfolding gather gather_inputs gather_outputs lookup insert
gathered = refl

spent_100 : spent utxos (overspend ∷ []) < created (overspend ∷ [])
unfolding lookup
spent_100 = omega arith
