-- ===== src/Database/Entries.antt =====
-- The mempool in the store: its entries by hash and time, and the list of their keys.
use grapheno.Base.{
  Bool, true, false, not, List, [], ◌∷◌, ◌++◌, Option, none, some, retain, ◌==◌, if◌then◌else◌, ℕ,
}
use grapheno.Types.{Hash, DateTime, Transaction}
use grapheno.Mempool.{Entry}
use grapheno.Database.{
  Codecs, Store, Read, Written, read_as, unwrap_or, write, delete, mempool_key, meta_mempool_keys,
}

module _ (cbor : Codecs) where
  unfoldable pub put_mempool_keys : List (Hash × DateTime) → Store → Store
  put_mempool_keys keys = write meta_mempool_keys (cbor.mempool_keys.encode keys)

  unfoldable pub get_mempool_keys : Store → Read (List (Hash × DateTime))
  get_mempool_keys s = read_as cbor.mempool_keys (s meta_mempool_keys)

  abbrev pub nanos_of : DateTime → ℕ
  nanos_of timestamp = unwrap_or 0 (cbor.timestamp_nanos timestamp)

  abbrev pub pair_eq : Hash × DateTime → Hash × DateTime → Bool
  pair_eq a b = if a.0 == b.0 then a.1 == b.1 else false

  abbrev pub contains_pair : Hash × DateTime → List (Hash × DateTime) → Bool
  contains_pair pair [] = false
  contains_pair pair (k ∷ keys) = if pair_eq pair k then true else contains_pair pair keys

  -- The value of a mempool entry, without the list of the keys.
  unfoldable pub write_mempool_tx : Hash → DateTime → Transaction → Store → Store
  write_mempool_tx tx_hash timestamp tx =
      write (mempool_key tx_hash (nanos_of timestamp)) (cbor.mempool_tx.encode (timestamp, tx))

  pub put_mempool_tx : Hash → DateTime → Transaction → Store → Written
  put_mempool_tx tx_hash timestamp tx s =
      let s' = write_mempool_tx tx_hash timestamp tx s in
      elim (get_mempool_keys s') [
        | none ↦ (false, s')
        | some found ↦
            let keys = unwrap_or [] found in
            if contains_pair (tx_hash, timestamp) keys
            then (true, s')
            else (true, put_mempool_keys (keys ++ (tx_hash, timestamp) ∷ []) s')
      ]

  pub get_mempool_tx : Hash → DateTime → Store → Read Entry
  get_mempool_tx tx_hash timestamp s =
      read_as cbor.mempool_tx (s (mempool_key tx_hash (nanos_of timestamp)))

  pub delete_mempool_tx : Hash → DateTime → Store → Written
  delete_mempool_tx tx_hash timestamp s =
      let s' = delete (mempool_key tx_hash (nanos_of timestamp)) s in
      elim (get_mempool_keys s') [
        | none ↦ (false, s')
        | some found ↦ elim found [
          | none ↦ (true, s')
          | some keys ↦
              (true, put_mempool_keys (retain (λ k. not (pair_eq k (tx_hash, timestamp))) keys) s')
        ]
      ]

  unfoldable pub get_mempool_txs : List (Hash × DateTime) → Store → Option (List Entry)
  get_mempool_txs [] s = some []
  get_mempool_txs ((tx_hash, timestamp) ∷ keys) s =
      let rest = get_mempool_txs keys s in
      elim (get_mempool_tx tx_hash timestamp s) [
        | none ↦ none
        | some found ↦ elim found [
          | none ↦ rest
          | some entry ↦ elim rest [ none ↦ none | some entries ↦ some (entry ∷ entries) ]
        ]
      ]

  unfoldable pub get_all_mempool_txs : Store → Option (List Entry)
  get_all_mempool_txs s = elim (get_mempool_keys s) [
    | none ↦ none
    | some found ↦ get_mempool_txs (unwrap_or [] found) s
  ]

  pub clear_entries : List (Hash × DateTime) → Store → Written
  clear_entries [] s = (true, s)
  clear_entries ((tx_hash, timestamp) ∷ keys) s =
      let (done, s') = delete_mempool_tx tx_hash timestamp s in
      let rest = clear_entries keys s' in if done then rest else (false, s')

  pub clear_mempool : Store → Written
  clear_mempool s = elim (get_mempool_keys s) [
    | none ↦ (false, s)
    | some found ↦ clear_entries (unwrap_or [] found) s
  ]
