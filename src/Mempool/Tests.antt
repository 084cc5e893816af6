-- ===== src/Mempool/Tests.antt =====
-- Runs of the mempool's methods, and their theorems at concrete inputs.
use mathlib.Core.List.{Perm}
use grapheno.Base.{
  ℕ, ◌≡◌, refl, true, none, [], ◌∷◌, ok, err, arith, lookup, modify, sum_from, invalid_transaction,
}
use grapheno.Types.{Transaction, min_target}
use grapheno.Samples.{sample}
use grapheno.Samples.Ledger.{utxos, spend, overspend, output_to, input_of, genesis}
use grapheno.Hashing.{hash_output}
use grapheno.Crypto.{to_address}
use grapheno.Blockchain.{Blockchain}
use grapheno.Mempool.{
  appraise, validate_inputs, sum_inputs, mark_all, miner_fee, with_keys, sort_mempool, put_sorted,
  release_inputs, release_input, find_referencing, add_appraised, add_to_mempool, admit,
  cleanup_mempool,
}
use grapheno.Mempool.Accept.{IsAdmitted, add_to_mempool_sound}
use grapheno.Mempool.Conflicts.{add_to_mempool_conflict}
use grapheno.Mempool.Cleanup.{is_claimed, NoStrayMark, cleanup_mempool-NoStrayMark}

abbrev chain : Blockchain
chain = record { utxos = utxos; target = min_target; blocks = genesis ∷ []; mempool = [] }

add_spend : (add_to_mempool sample 5 spend chain).0 ≡ ok tt
unfolding add_to_mempool add_appraised appraise validate_inputs sum_inputs release_inputs
    release_input admit sort_mempool with_keys miner_fee put_sorted lookup modify mark_all sum_from
add_spend = refl

add_to_mempool_sound_example : IsAdmitted 5 spend chain (add_to_mempool sample 5 spend chain).1
add_to_mempool_sound_example = add_to_mempool_sound sample 5 spend chain add_spend

appraise-overspend : appraise utxos overspend ≡ err invalid_transaction
unfolding appraise validate_inputs sum_inputs lookup sum_from
appraise-overspend = refl

-- The chain with `spend` waiting, which pays 10, and a transaction over the same output, which pays
-- nothing.
abbrev waiting : Blockchain
waiting = record {
  utxos = (7, (true, output_to 5 100 1)) ∷ [];
  target = min_target;
  blocks = genesis ∷ [];
  mempool = (5, spend) ∷ [];
}

abbrev rival : Transaction
rival = record { inputs = input_of 7 5 ∷ []; outputs = output_to 6 100 4 ∷ [] }

appraise-rival : appraise waiting.utxos rival ≡ ok (100, 100, 0)
unfolding appraise validate_inputs sum_inputs lookup sum_from
appraise-rival = refl

not_created : find_referencing sample 7 0 waiting.mempool ≡ none
unfolding find_referencing hash_output sample to_address
not_created = refl

waiting_keys : with_keys waiting.utxos waiting.mempool ≡ ok ((10, (5, spend)) ∷ [])
unfolding with_keys miner_fee sum_inputs lookup sum_from
waiting_keys = refl

add_to_mempool_conflict_example :
    ((add_to_mempool sample 6 rival waiting).0 ≡ ok tt)
    × Perm (add_to_mempool sample 6 rival waiting).1.mempool ((5, spend) ∷ (6, rival) ∷ [])
add_to_mempool_conflict_example =
    add_to_mempool_conflict sample 6 rival waiting (100, 100, 0) _ appraise-rival (not_created, tt)
      waiting_keys

-- An entry whose output, under hash 8, is gone.
abbrev stale : Transaction
stale = record { inputs = input_of 8 5 ∷ []; outputs = [] }

abbrev holding_stale : Blockchain
holding_stale = record waiting { mempool = (5, stale) ∷ [] }

nothing_created : find_referencing sample 7 0 holding_stale.mempool ≡ none
unfolding find_referencing
nothing_created = refl

sort_waiting : (sort_mempool waiting).0 ≡ ok tt
unfolding sort_mempool put_sorted with_keys miner_fee sum_inputs lookup sum_from
sort_waiting = refl

abbrev eleven_minutes : ℕ
eleven_minutes = 660_000_000_000

waiting-NoStrayMark : NoStrayMark waiting
unfolding lookup is_claimed
waiting-NoStrayMark h m = ground (arith, m)

cleanup_mempool-NoStrayMark_example : NoStrayMark (cleanup_mempool eleven_minutes waiting)
cleanup_mempool-NoStrayMark_example =
    cleanup_mempool-NoStrayMark eleven_minutes waiting waiting-NoStrayMark
