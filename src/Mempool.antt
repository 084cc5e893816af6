-- ===== src/Mempool.antt =====
-- The mempool's methods of `Blockchain`: `add_to_mempool` and `cleanup_mempool` of
-- lib/src/types/blockchain.rs. The log lines are left out; they change nothing.
pub mod Sorting
pub mod Marks
pub mod Admission
pub mod Accept
pub mod Conflicts
pub mod Stale
pub mod Cleanup
pub mod Soundness
mod Tests
use grapheno.Base.{
  ℕ, zero, suc, ◌+◌, ◌*◌, Bool, true, false, not, List, [], ◌∷◌, ◌++◌, map, Option, none, some, any,
  retain, erase_idx, ltb, leb, ◌==◌, if◌then◌else◌, contains, lookup, contains_key, modify, Outcome,
  ok, err, panic, ◌>>=◌, ◌>>◌, fail_if, or_err, expect, add_u64, sub_u64, checked_sub, sum_from,
  invalid_transaction,
}
use grapheno.Types.{
  Hash, DateTime, TransactionInput, TransactionOutput, Transaction, nanos_per_second,
  max_mempool_transaction_age,
}
use grapheno.Primitives.{Primitives}
use grapheno.Hashing.{hash_output}
use grapheno.Block.{Utxos, output_values}
use grapheno.Block.Spends.{spent_hashes}
use grapheno.Blockchain.{Blockchain, Done, continue}

abbrev pub Entry : Type 0
Entry = DateTime × Transaction

-- The first loop of `add_to_mempool`: each input exists, and none is named twice.
unfoldable pub validate_inputs : Utxos → List Hash → List TransactionInput → Outcome (Unit {0})
validate_inputs utxos known_inputs [] = ok tt
validate_inputs utxos known_inputs (input ∷ rest) = do
  fail_if (not (contains_key input.prev_transaction_output_hash utxos)) invalid_transaction
  fail_if (contains input.prev_transaction_output_hash known_inputs) invalid_transaction
  validate_inputs utxos (input.prev_transaction_output_hash ∷ known_inputs) rest

-- The sum of the values of the inputs; a missing output panics, as does an overflow.
unfoldable pub sum_inputs : Utxos → ℕ → List TransactionInput → Outcome ℕ
sum_inputs utxos acc [] = ok acc
sum_inputs utxos acc (input ∷ rest) = do
  (_, output) ← expect (lookup input.prev_transaction_output_hash utxos)
  acc' ← add_u64 acc output.value
  sum_inputs utxos acc' rest

-- Inputs less outputs, by `checked_sub`.
pub transaction_fee : Utxos → Transaction → Outcome ℕ
transaction_fee utxos t = do
  inputs_value ← sum_inputs utxos 0 t.inputs
  outputs_value ← sum_from 0 (output_values t.outputs)
  or_err (checked_sub inputs_value outputs_value) invalid_transaction

abbrev pub set_mark : Bool → Bool × TransactionOutput → Bool × TransactionOutput
set_mark b (_, output) = (b, output)

-- `entry(..).and_modify(..)` for each input.
pub mark_all : Bool → List TransactionInput → Utxos → Utxos
mark_all b [] utxos = utxos
mark_all b (input ∷ rest) utxos =
    mark_all b rest (modify input.prev_transaction_output_hash (set_mark b) utxos)

abbrev pub marked : Option (Bool × TransactionOutput) → Bool
marked none = false
marked (some utxo) = utxo.0

-- `sort_by_key` is stable: an entry goes before the first of a key that is not smaller.
pub insert_by_key : ℕ × Entry → List (ℕ × Entry) → List (ℕ × Entry)
insert_by_key e [] = e ∷ []
insert_by_key e (f ∷ fs) = if leb e.0 f.0 then e ∷ f ∷ fs else f ∷ insert_by_key e fs

pub sort_keyed : List (ℕ × Entry) → List (ℕ × Entry)
sort_keyed [] = []
sort_keyed (e ∷ es) = insert_by_key e (sort_keyed es)

-- The sorting key: the miner's fee. Here the subtraction is unchecked, and panics below 0.
pub miner_fee : Utxos → Transaction → Outcome ℕ
miner_fee utxos t = do
  all_inputs ← sum_inputs utxos 0 t.inputs
  all_outputs ← sum_from 0 (output_values t.outputs)
  sub_u64 all_inputs all_outputs

pub with_keys : Utxos → List Entry → Outcome (List (ℕ × Entry))
with_keys utxos [] = ok []
with_keys utxos (e ∷ es) = do
  fee ← miner_fee utxos e.1
  keyed ← with_keys utxos es
  ok ((fee, e) ∷ keyed)

abbrev pub entries : List (ℕ × Entry) → List Entry
entries = map (λ k. k.1)

-- `mempool.sort_by_key(..)`. After a panic the entries stand in some order; here in the old one.
-- On a single entry the standard library computes no key; here its key is that of the entry just
-- pushed, whose inputs have been added up before.
pub put_sorted : Blockchain → Outcome (List (ℕ × Entry)) → Done
put_sorted c (ok keyed) = (ok tt, record c { mempool = entries (sort_keyed keyed) })
put_sorted c (err e) = (err e, c)
put_sorted c panic = (panic, c)

pub sort_mempool : Blockchain → Done
sort_mempool c = put_sorted c (with_keys c.utxos c.mempool)

-- The part of `add_to_mempool` that only reads: the value of the inputs, that of the outputs, and
-- the fee.
unfoldable pub appraise : Utxos → Transaction → Outcome (ℕ × ℕ × ℕ)
appraise utxos t = do
  validate_inputs utxos [] t.inputs
  inputs_value ← sum_inputs utxos 0 t.inputs
  outputs_value ← sum_from 0 (output_values t.outputs)
  fee ← or_err (checked_sub inputs_value outputs_value) invalid_transaction
  ok (inputs_value, outputs_value, fee)

-- The end of `add_to_mempool`.
pub admit : DateTime → Transaction → ℕ → ℕ → Blockchain → Done
admit now t all_inputs all_outputs c =
    if ltb all_inputs all_outputs
    then (err invalid_transaction, c)
    else sort_mempool
        (record c { utxos = mark_all true t.inputs c.utxos; mempool = c.mempool ++ (now, t) ∷ [] })

-- The entry `t` at `idx` gives way to a transaction of a higher fee: its inputs are unmarked.
pub displace : ℕ → ℕ → Transaction → Blockchain → Outcome ℕ → Done
displace fee idx t c (ok referencing_fee) =
    if leb fee referencing_fee then (err invalid_transaction, c) else (
      ok tt,
      record c { utxos = mark_all false t.inputs c.utxos; mempool = erase_idx c.mempool idx },
    )
displace fee idx t c (err e) = (err e, c)
displace fee idx t c panic = (panic, c)

abbrev pub is_old : DateTime → Entry → Bool
is_old now e = ltb (e.0 + max_mempool_transaction_age * nanos_per_second) now

-- The hashes that `cleanup_mempool` collects, in the order of the mempool.
pub hashes_to_unmark : DateTime → List Entry → List Hash
hashes_to_unmark now [] = []
hashes_to_unmark now (e ∷ es) =
    (if is_old now e then spent_hashes e.1.inputs else []) ++ hashes_to_unmark now es

pub unmark : List Hash → Utxos → Utxos
unmark [] utxos = utxos
unmark (h ∷ hs) utxos = unmark hs (modify h (set_mark false) utxos)

-- `cleanup_mempool`, at the time that the clock says
unfoldable pub cleanup_mempool : DateTime → Blockchain → Blockchain
cleanup_mempool now c = record c {
  mempool = retain (λ e. not (is_old now e)) c.mempool;
  utxos = unmark (hashes_to_unmark now c.mempool) c.utxos;
}

module _ (p : Primitives) where
  -- `mempool.iter().enumerate().find(..)`: the first entry with an output of this hash.
  pub find_referencing : Hash → ℕ → List Entry → Option (ℕ × Transaction)
  find_referencing h i [] = none
  find_referencing h i (e ∷ es) =
      if any (λ o. hash_output p o == h) e.1.outputs
      then some (i, e.1)
      else find_referencing h (suc i) es

  -- What `add_to_mempool` does for an input whose output is marked.
  pub release_marked : ℕ → TransactionInput → Option (ℕ × Transaction) → Blockchain → Done
  release_marked fee input (some (idx, t)) c = displace fee idx t c (transaction_fee c.utxos t)
  release_marked fee input none c = (
    ok tt,
    record c { utxos = modify input.prev_transaction_output_hash (set_mark false) c.utxos },
  )

  pub release_input : ℕ → TransactionInput → Blockchain → Done
  release_input fee input c =
      if marked (lookup input.prev_transaction_output_hash c.utxos)
      then release_marked fee input
          (find_referencing input.prev_transaction_output_hash 0 c.mempool) c
      else (ok tt, c)

  pub release_inputs : ℕ → List TransactionInput → Blockchain → Done
  release_inputs fee [] c = (ok tt, c)
  release_inputs fee (input ∷ rest) c =
      continue (release_input fee input c) (release_inputs fee rest)

  unfoldable pub add_appraised : DateTime → Transaction → Blockchain → Outcome (ℕ × ℕ × ℕ) → Done
  add_appraised now t c (ok (inputs_value, outputs_value, fee)) =
      continue (release_inputs fee t.inputs c) (admit now t inputs_value outputs_value)
  add_appraised now t c (err e) = (err e, c)
  add_appraised now t c panic = (panic, c)

  -- `add_to_mempool`, at the time that the clock says
  unfoldable pub add_to_mempool : DateTime → Transaction → Blockchain → Done
  add_to_mempool now t c = add_appraised now t c (appraise c.utxos t)
