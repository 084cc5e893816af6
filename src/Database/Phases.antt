-- ===== src/Database/Phases.antt =====
-- The phases of `save_blockchain`: each writes under prefixes of its own.
use grapheno.Base.{
  ℕ, zero, suc, ◌+◌, ◌<◌, ◌≡◌, refl, ap, ◌∙◌, Bool, true, false, List, [], ◌∷◌, map, Option, none,
  some, inl, inr, get_elem?, ◌==◌, lookup, Bool-cases, arith, map_some,
}
use grapheno.Types.{Hash, DateTime, TransactionOutput, Block}
use grapheno.Primitives.{Primitives}
use grapheno.Block.{Utxos}
use grapheno.Hashing.{hash_transaction}
use grapheno.Blockchain.{Blockchain}
use grapheno.Mempool.{Entry}
use grapheno.Database.{
  Key, block_key, utxo_key, meta_utxo_keys, Codecs, Store, Read, unwrap_or, put_block,
  put_utxo_keys, write_utxo,
}
use grapheno.Database.Entries.{put_mempool_keys, write_mempool_tx}
use grapheno.Database.Snapshots.{
  put_blocks, delete_utxos, write_utxos, delete_entries, write_entries, save_mempool, save_utxos,
}

-- A map holds one entry for a key.
abbrev pub Distinct : Utxos → Type 0
Distinct [] = Unit
Distinct (e ∷ u) = (lookup e.0 u ≡ none) × Distinct u

==→≡ : (a b : ℕ) → a == b ≡ true → a ≡ b
==→≡ a b h = ground arith

module _ (p : Primitives) (cbor : Codecs) where
  -- Each phase writes under its own prefixes.
  write_entries-other :
      (k : Key) (es : List Entry) (s : Store)
      → k.prefix == 2 ≡ false
      → write_entries p cbor es s k ≡ s k
  unfolding write_entries write_mempool_tx
  write_entries-other k [] s h = refl
  write_entries-other k ((t, tx) ∷ es) s h =
      write_entries-other k es (write_mempool_tx cbor (hash_transaction p tx) t tx s) h ∙ rw h refl

  delete_entries-other :
      (k : Key) (keys : List (Hash × DateTime)) (s : Store)
      → k.prefix == 2 ≡ false
      → delete_entries p cbor keys s k ≡ s k
  unfolding delete_entries
  delete_entries-other k [] s h = refl
  delete_entries-other k ((tx_hash, t) ∷ keys) s h = delete_entries-other k keys _ h ∙ rw h refl

  save_mempool-other :
      (k : Key) (c : Blockchain) (o : Read (List (Hash × DateTime))) (s : Store)
      → k.prefix == 2 ≡ false
      → k.prefix == 6 ≡ false
      → (save_mempool p cbor c o s).1 k ≡ s k
  unfolding save_mempool put_mempool_keys
  save_mempool-other k c none s h g = refl
  save_mempool-other k c (some old) s h g =
      write_entries-other k c.mempool _ h ∙ rw g (delete_entries-other k (unwrap_or [] old) s h)

  write_utxos-other :
      (k : Key) (u : Utxos) (s : Store) → k.prefix == 1 ≡ false → write_utxos p cbor u s k ≡ s k
  unfolding write_utxos write_utxo
  write_utxos-other k [] s h = refl
  write_utxos-other k ((hash, utxo) ∷ u) s h =
      write_utxos-other k u (write_utxo cbor hash utxo s) h ∙ rw h refl

  delete_utxos-other :
      (k : Key) (keys : List Hash) (s : Store)
      → k.prefix == 1 ≡ false
      → delete_utxos p cbor keys s k ≡ s k
  unfolding delete_utxos
  delete_utxos-other k [] s h = refl
  delete_utxos-other k (hash ∷ keys) s h = delete_utxos-other k keys _ h ∙ rw h refl

  pub save_utxos-other :
      (k : Key) (c : Blockchain) (o : Read (List Hash)) (s : Store)
      → k.prefix == 1 ≡ false
      → k.prefix == 2 ≡ false
      → k.prefix == 5 ≡ false
      → k.prefix == 6 ≡ false
      → (save_utxos p cbor c o s).1 k ≡ s k
  unfolding save_utxos put_utxo_keys
  save_utxos-other k c none s a b d e = refl
  save_utxos-other k c (some old) s a b d e =
      save_mempool-other k c _ _ b e
      ∙ write_utxos-other k c.utxos _ a
      ∙ rw d (delete_utxos-other k (unwrap_or [] old) s a)

  put_blocks-other :
      (k : Key) (i : ℕ) (bs : List Block) (s : Store)
      → k.prefix == 0 ≡ false
      → put_blocks p cbor i bs s k ≡ s k
  unfolding put_blocks put_block
  put_blocks-other k i [] s h = refl
  put_blocks-other k i (b ∷ bs) s h =
      put_blocks-other k (suc i) bs (put_block cbor i b s) h ∙ rw h refl

  -- Later blocks are written behind the index.
  put_blocks-before :
      (j i : ℕ) (bs : List Block) (s : Store)
      → j < i
      → put_blocks p cbor i bs s (block_key j) ≡ s (block_key j)
  unfolding put_blocks put_block
  put_blocks-before j i [] s h = refl
  put_blocks-before j i (b ∷ bs) s h =
      let apart : j == i ≡ false = ground arith in
      put_blocks-before j (suc i) bs (put_block cbor i b s) (omega arith) ∙ rw apart refl

  pub put_blocks-at :
      (j i : ℕ) (bs : List Block) (b : Block) (s : Store)
      → get_elem? bs j ≡ some b
      → put_blocks p cbor i bs s (block_key (i + j)) ≡ some (cbor.block.encode b)
  unfolding put_blocks put_block
  put_blocks-at j i [] b s h = cc
  put_blocks-at zero i (a ∷ bs) b s h =
      let same : i == i ≡ true = ground arith in
      let end : i + 0 ≡ i = omega arith in
      rw end (
        put_blocks-before i (suc i) bs (put_block cbor i a s) (omega arith)
        ∙ rw same (ap (map_some cbor.block.encode) h))
  put_blocks-at (suc j) i (a ∷ bs) b s h =
      let next : i + suc j ≡ suc i + j = omega arith in
      rw next (put_blocks-at j (suc i) bs b (put_block cbor i a s) h)

  write_utxos-missing :
      (h : Hash) (u : Utxos) (s : Store)
      → lookup h u ≡ none
      → write_utxos p cbor u s (utxo_key h) ≡ s (utxo_key h)
  unfolding write_utxos write_utxo lookup
  write_utxos-missing h [] s e = refl
  write_utxos-missing h ((k, w) ∷ u) s e = elim (Bool-cases (h == k)) [
    | inl same ↦ absurd (ground (arith, same, e))
    | inr other ↦
        write_utxos-missing h u (write_utxo cbor k w s) (ground (arith, other, e)) ∙ rw other refl
  ]

  write_utxos-at :
      (h : Hash) (u : Utxos) (v : Bool × TransactionOutput) (s : Store)
      → Distinct u
      → lookup h u ≡ some v
      → write_utxos p cbor u s (utxo_key h) ≡ some (cbor.utxo.encode v)
  unfolding write_utxos write_utxo lookup
  write_utxos-at h [] v s d e = cc
  write_utxos-at h ((k, w) ∷ u) v s d e = elim (Bool-cases (h == k)) [
    | inl same ↦
        let gone : lookup h u ≡ none = ap (λ x. lookup x u) (==→≡ h k same) ∙ d.0 in
        let head : ◌≡◌ {A = Option (Bool × TransactionOutput)} (some w) (some v) = rw same at e in
        write_utxos-missing h u (write_utxo cbor k w s) gone
        ∙ rw same (ap (map_some cbor.utxo.encode) head)
    | inr other ↦ write_utxos-at h u v (write_utxo cbor k w s) d.1 (rw other at e)
  ]

  pub save_utxos-keys :
      (c : Blockchain) (o : Read (List Hash)) (s : Store)
      → (save_utxos p cbor c o s).0 ≡ true
      → (save_utxos p cbor c o s).1 meta_utxo_keys
        ≡ some (cbor.utxo_keys.encode (map (λ e. e.0) c.utxos))
  unfolding save_utxos put_utxo_keys
  save_utxos-keys c none s h = cc
  save_utxos-keys c (some old) s h =
      save_mempool-other meta_utxo_keys c _ _ refl refl
      ∙ write_utxos-other meta_utxo_keys c.utxos _ refl

  pub save_utxos-at :
      (c : Blockchain) (o : Read (List Hash)) (s : Store) (h : Hash) (v : Bool × TransactionOutput)
      → (save_utxos p cbor c o s).0 ≡ true
      → Distinct c.utxos
      → lookup h c.utxos ≡ some v
      → (save_utxos p cbor c o s).1 (utxo_key h) ≡ some (cbor.utxo.encode v)
  unfolding save_utxos
  save_utxos-at c none s h v done d e = cc
  save_utxos-at c (some old) s h v done d e =
      save_mempool-other (utxo_key h) c _ _ refl refl ∙ write_utxos-at h c.utxos v _ d e
