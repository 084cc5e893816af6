-- ===== src/Database/Tests.antt =====
-- Runs of the store, and its theorems at concrete inputs.
use grapheno.Base.{
  ℕ, zero, suc, ◌≡◌, refl, Bool, true, false, List, [], ◌∷◌, Option, none, some, arith, lookup,
  ◌==◌, if◌then◌else◌, get_elem?, subst, ap, Bool-cases, inl, inr,
}
use grapheno.Types.{Hash, TransactionOutput, Block, min_target}
use grapheno.Samples.{sample}
use grapheno.Samples.Ledger.{utxos, spend, coinbase, genesis, header_at, output_to}
use grapheno.Blockchain.{Blockchain}
use grapheno.Network.{Codec}
use grapheno.Database.{
  unwrap_or, Codecs, Store, get_all_blocks, get_utxo_keys, get_blocks_from, get_block, put_block,
  put_target, put_block_count, write_utxo, put_utxo_keys,
}
use grapheno.Database.Entries.{get_mempool_keys, put_mempool_keys, write_mempool_tx}
use grapheno.Database.Phases.{Distinct}
use grapheno.Database.Snapshots.{
  write_utxos, delete_utxos, write_entries, delete_entries, put_blocks, save_utxos, save_mempool,
  save_blockchain,
}
use grapheno.Database.Saved.{IsFaithful, IsSaved, save_blockchain-IsSaved}

-- A codec of numbers, and one that knows a single value.
numbers : Codec (List ℕ)
numbers = record { encode = λ x. x; decode = λ bytes. some bytes }

abbrev only {ℓ} : {A : Type ℓ} → A → Codec A
only x = record { encode = λ y. []; decode = λ bytes. some x }

abbrev one_number : Codec ℕ
one_number = record {
  encode = λ n. n ∷ [];
  decode = λ bytes. elim bytes [ [] ↦ none | n ∷ rest ↦ some n ];
}

abbrev second : Block
second = record { header = header_at 10 1 0; transactions = coinbase ∷ spend ∷ [] }

-- Two blocks are known, by their times.
abbrev known_block : List ℕ → Option Block
known_block [] = none
known_block (t ∷ rest) = if t == 0 then some genesis else some second

cbor : Codecs
unfolding numbers
cbor = record {
  block = record { encode = λ b. b.header.timestamp ∷ []; decode = known_block };
  utxo = only (false, output_to 5 100 1);
  mempool_tx = only (5, spend);
  target = one_number;
  utxo_keys = numbers;
  mempool_keys = only [];
  timestamp_nanos = λ t. some t;
}

abbrev ledger : Blockchain
ledger = record {
  utxos = utxos;
  target = min_target;
  blocks = genesis ∷ second ∷ [];
  mempool = (5, spend) ∷ [];
}

abbrev nothing : Store
nothing = λ k. none

save_succeeds : (save_blockchain sample cbor ledger nothing).0 ≡ true
unfolding save_blockchain save_utxos save_mempool get_utxo_keys get_mempool_keys cbor put_target
    put_block_count put_blocks put_block write_utxos write_utxo put_utxo_keys delete_utxos
save_succeeds = refl

ledger_blocks :
    (i : ℕ) (b : Block)
    → get_elem? ledger.blocks i ≡ some b
    → cbor.block.decode (cbor.block.encode b) ≡ some b
unfolding cbor
ledger_blocks zero b e =
    subst (λ x. cbor.block.decode (cbor.block.encode x) ≡ some x) (ap (unwrap_or genesis) e) refl
ledger_blocks (suc zero) b e =
    subst (λ x. cbor.block.decode (cbor.block.encode x) ≡ some x) (ap (unwrap_or genesis) e) refl
ledger_blocks (suc (suc i)) b e = cc

ledger_utxos :
    (h : Hash) (v : Bool × TransactionOutput)
    → lookup h ledger.utxos ≡ some v
    → cbor.utxo.decode (cbor.utxo.encode v) ≡ some v
unfolding cbor lookup
ledger_utxos h v e = elim (Bool-cases (h == 7)) [
  | inl seven ↦ rw seven at e
  | inr other ↦ absurd (ground (arith, other, e))
]

ledger-IsFaithful : IsFaithful cbor ledger
unfolding cbor numbers
ledger-IsFaithful = record {
  block = ledger_blocks;
  utxo = ledger_utxos;
  target = refl;
  utxo_keys = refl;
}

ledger-Distinct : Distinct utxos
unfolding lookup
ledger-Distinct = (refl, tt)

save_blockchain-IsSaved_example :
    IsSaved sample cbor ledger (save_blockchain sample cbor ledger nothing).1
save_blockchain-IsSaved_example =
    save_blockchain-IsSaved sample cbor ledger nothing ledger-IsFaithful ledger-Distinct
      (omega arith) save_succeeds

stored_blocks :
    get_all_blocks cbor 3 (save_blockchain sample cbor ledger nothing).1
    ≡ some (genesis ∷ second ∷ [])
unfolding get_all_blocks get_blocks_from get_block save_blockchain save_utxos save_mempool
    get_utxo_keys get_mempool_keys cbor put_target put_block_count put_blocks put_block write_utxos
    write_utxo put_utxo_keys delete_utxos write_entries write_mempool_tx put_mempool_keys
    delete_entries
stored_blocks = refl
