-- ===== src/Blockchain/Supply/Tests.antt =====
-- The value of all unspent outputs over concrete blocks.
use grapheno.Base.{
  ℕ, ◌+◌, ◌*◌, ◌≡◌, ◌≤◌, refl, [], ◌∷◌, ok, arith, insert, lookup, sum_from, text_eq,
}
use grapheno.Types.{Block}
use grapheno.Samples.{sample}
use grapheno.Samples.Ledger.{utxos, spend, coinbase, header_at, output_to, genesis}
use grapheno.Hashing.{hash_output}
use grapheno.Crypto.{to_address, verify, sign_output}
use grapheno.Block.{full_reward, block_reward, verify_transactions}
use grapheno.Blockchain.{Blockchain, apply_transactions, rebuild_utxos, new}
use grapheno.Blockchain.Supply.{HasNewOutputs, supply-apply_transactions}
use grapheno.Blockchain.Supply.Values.{IsMap, supply}
use grapheno.Blockchain.Supply.Cap.{issued, IsVerified, supply-rebuild_utxos}

abbrev good : Block
good = record { header = header_at 1 0 0; transactions = coinbase ∷ spend ∷ [] }

good_passes : verify_transactions sample utxos good 0 ≡ ok tt
unfolding verify_transactions sample hash_output insert lookup sum_from text_eq to_address verify
    sign_output
good_passes = refl

good-HasNewOutputs : HasNewOutputs sample utxos good.transactions
unfolding sample hash_output lookup to_address
good-HasNewOutputs = ((refl, (refl, tt)), (refl, (refl, tt)))

utxos-IsMap : IsMap utxos
unfolding lookup
utxos-IsMap = (refl, tt)

supply-apply_transactions_example :
    (r : ℕ) × (block_reward 0 ≡ ok r)
    × (supply (apply_transactions sample good.transactions utxos) ≡ supply utxos + r)
    × IsMap (apply_transactions sample good.transactions utxos)
supply-apply_transactions_example =
    supply-apply_transactions sample utxos good 0 utxos-IsMap good-HasNewOutputs good_passes

-- A block with nothing but the reward.
abbrev second : Block
second = record {
  header = header_at 1 0 0;
  transactions = record { inputs = []; outputs = output_to 6 5000000000 3 ∷ [] } ∷ [];
}

abbrev chain : Blockchain
chain = record new { blocks = genesis ∷ second ∷ [] }

second-IsVerified :
    IsVerified sample (apply_transactions sample genesis.transactions []) 1 (second ∷ [])
unfolding verify_transactions sample hash_output insert lookup sum_from text_eq to_address verify
    sign_output apply_transactions
second-IsVerified = (refl, ((refl, tt), (refl, tt)), tt)

supply-rebuild_utxos_example :
    (supply (rebuild_utxos sample chain).utxos
      ≡ supply (apply_transactions sample genesis.transactions []) + issued 1 1)
    × (issued 1 1 ≤ 420 * full_reward)
supply-rebuild_utxos_example =
    supply-rebuild_utxos sample chain genesis (second ∷ []) refl refl (omega arith)
      second-IsVerified
