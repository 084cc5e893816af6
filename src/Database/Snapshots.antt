-- ===== src/Database/Snapshots.antt =====
-- `save_blockchain` and `load_blockchain`. The time of each entry that is loaded is that of the
-- clock then.
use grapheno.Base.{
  ℕ, suc, true, false, List, [], ◌∷◌, map, length, Option, none, some, ok, err, panic,
}
use grapheno.Types.{Hash, DateTime, Block}
use grapheno.Primitives.{Primitives}
use grapheno.Hashing.{hash_transaction}
use grapheno.Block.{Utxos}
use grapheno.Blockchain.{Blockchain, Done, new, block_height, add_block}
use grapheno.Mempool.{Entry, add_to_mempool}
use grapheno.Database.{
  Codecs, Store, Read, Written, unwrap_or, delete, utxo_key, mempool_key, put_block,
  put_block_count, put_target, get_utxo_keys, put_utxo_keys, write_utxo, get_all_blocks,
}
use grapheno.Database.Entries.{
  nanos_of, get_mempool_keys, put_mempool_keys, write_mempool_tx, get_all_mempool_txs,
}

-- What `load_blockchain` comes to. A panic ends the node.
pub data Loaded : Type 0 where
  loaded : Blockchain → Loaded
  not_loaded : Loaded
  crashed : Loaded

-- `add_block(block)?`
abbrev pub go_on : Done → (Blockchain → Loaded) → Loaded
go_on (ok _, c) next = next c
go_on (err e, c) next = not_loaded
go_on (panic, c) next = crashed

-- `add_to_mempool(tx).ok()`
abbrev pub ignore : Done → (Blockchain → Loaded) → Loaded
ignore (ok _, c) next = next c
ignore (err e, c) next = next c
ignore (panic, c) next = crashed

abbrev pub then_load : Loaded → (Blockchain → Loaded) → Loaded
then_load (loaded c) next = next c
then_load not_loaded next = not_loaded
then_load crashed next = crashed

module _ (p : Primitives) (cbor : Codecs) where
  unfoldable pub put_blocks : ℕ → List Block → Store → Store
  put_blocks index [] s = s
  put_blocks index (block ∷ blocks) s = put_blocks (suc index) blocks (put_block cbor index block s)

  unfoldable pub delete_utxos : List Hash → Store → Store
  delete_utxos [] s = s
  delete_utxos (hash ∷ keys) s = delete_utxos keys (delete (utxo_key hash) s)

  unfoldable pub write_utxos : Utxos → Store → Store
  write_utxos [] s = s
  write_utxos ((hash, utxo) ∷ utxos) s = write_utxos utxos (write_utxo cbor hash utxo s)

  unfoldable pub delete_entries : List (Hash × DateTime) → Store → Store
  delete_entries [] s = s
  delete_entries ((tx_hash, timestamp) ∷ keys) s =
      delete_entries keys (delete (mempool_key tx_hash (nanos_of cbor timestamp)) s)

  unfoldable pub write_entries : List Entry → Store → Store
  write_entries [] s = s
  write_entries ((timestamp, tx) ∷ entries) s =
      write_entries entries (write_mempool_tx cbor (hash_transaction p tx) timestamp tx s)

  -- The part on the mempool, behind the read of the old keys.
  unfoldable pub save_mempool : Blockchain → Read (List (Hash × DateTime)) → Store → Written
  save_mempool c none s = (false, s)
  save_mempool c (some old_keys) s =
      let mempool_keys = map (λ e. (hash_transaction p e.1, e.0)) c.mempool in
      (
        true,
        write_entries c.mempool
            (put_mempool_keys cbor mempool_keys (delete_entries (unwrap_or [] old_keys) s)),
      )

  -- The part on the unspent outputs, behind the read of the old keys.
  unfoldable pub save_utxos : Blockchain → Read (List Hash) → Store → Written
  save_utxos c none s = (false, s)
  save_utxos c (some old_keys) s =
      let utxo_hashes = map (λ e. e.0) c.utxos in
      let s' =
        write_utxos c.utxos
          (put_utxo_keys cbor utxo_hashes (delete_utxos (unwrap_or [] old_keys) s)) in
      save_mempool c (get_mempool_keys cbor s') s'

  -- `save_blockchain`
  unfoldable pub save_blockchain : Blockchain → Store → Written
  save_blockchain c s =
      let s' =
        put_target cbor c.target
          (put_block_count cbor (block_height c) (put_blocks 0 c.blocks s)) in
      save_utxos c (get_utxo_keys cbor s') s'

module _ (p : Primitives) where
  -- The loop over the blocks in `load_blockchain`.
  unfoldable pub load_blocks : List Block → Blockchain → Loaded
  load_blocks [] c = loaded c
  load_blocks (block ∷ blocks) c = go_on (add_block p block c) (load_blocks blocks)

  -- The loop over the entries; `clock n` is the time with `n` entries behind it.
  unfoldable pub load_entries : (ℕ → DateTime) → List Entry → Blockchain → Loaded
  load_entries clock [] c = loaded c
  load_entries clock (entry ∷ entries) c =
      ignore (add_to_mempool p (clock (length entries)) entry.1 c) (load_entries clock entries)

  abbrev pub load_both : (ℕ → DateTime) → Option (List Block) → Option (List Entry) → Loaded
  load_both clock none mempool = not_loaded
  load_both clock (some blocks) none = not_loaded
  load_both clock (some blocks) (some mempool) =
      then_load (load_blocks blocks new) (load_entries clock mempool)

  -- `load_blockchain`, with fuel for the indices of blocks
  unfoldable pub load_blockchain : Codecs → (ℕ → DateTime) → ℕ → Store → Loaded
  load_blockchain cbor clock fuel s =
      load_both clock (get_all_blocks cbor fuel s) (get_all_mempool_txs cbor s)
