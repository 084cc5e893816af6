-- ===== src/Database/Saved.antt =====
-- What `save_blockchain` leaves in the store: the blocks, their count, the target and the unspent
-- outputs of the ledger can be read back.
use grapheno.Base.{
  ℕ, zero, suc, ◌+◌, ◌%◌, ◌^◌, ◌<◌, ◌≡◌, refl, sym, ap, ◌∙◌, Bool, true, false, List, [], ◌∷◌, map,
  Option, some, length, take, get_elem?, ltb, lookup, arith,
}
use grapheno.Types.{Hash, TransactionOutput, Block}
use grapheno.Primitives.{Primitives}
use grapheno.Blockchain.{Blockchain, block_height}
use grapheno.Network.{Codec, to_big_endian}
use grapheno.Network.Frames.{from_big_endian-to_big_endian, length-to_big_endian}
use grapheno.Database.{
  block_key, meta_target, meta_block_count, Codecs, Store, read_as, get_block, put_block_count,
  get_block_count, put_target, get_target, get_utxo_keys, get_utxo,
}
use grapheno.Database.Snapshots.{put_blocks, save_blockchain}
use grapheno.Database.Phases.{
  Distinct, save_utxos-other, put_blocks-at, save_utxos-keys, save_utxos-at,
}

-- What serde and ciborium promise, of the parts of a ledger: what was encoded is decoded.
pub record IsFaithful (cbor : Codecs) (c : Blockchain) : Type 0 where
  pub block :
      (i : ℕ) (b : Block)
      → get_elem? c.blocks i ≡ some b
      → cbor.block.decode (cbor.block.encode b) ≡ some b
  pub utxo :
      (h : Hash) (v : Bool × TransactionOutput)
      → lookup h c.utxos ≡ some v
      → cbor.utxo.decode (cbor.utxo.encode v) ≡ some v
  pub target : cbor.target.decode (cbor.target.encode c.target) ≡ some c.target
  pub utxo_keys :
      cbor.utxo_keys.decode (cbor.utxo_keys.encode (map (λ e. e.0) c.utxos))
      ≡ some (map (λ e. e.0) c.utxos)

take-whole {ℓ} : {A : Type ℓ} (n : ℕ) (xs : List A) → length xs ≡ n → take n xs ≡ xs
take-whole zero [] h = refl
take-whole zero (x ∷ xs) h = absurd (omega arith)
take-whole (suc n) [] h = absurd (omega arith)
take-whole (suc n) (x ∷ xs) h = ap (λ ys. x ∷ ys) (take-whole n xs (omega arith))

read_as-some {ℓ} :
    {A : Type ℓ} (codec : Codec A) (o : Option (List ℕ)) (x : A)
    → o ≡ some (codec.encode x)
    → codec.decode (codec.encode x) ≡ some x
    → read_as codec o ≡ some (some x)
read_as-some codec o x stored inverse = rw (stored, inverse, read_as) refl

module _ (p : Primitives) (cbor : Codecs) where
  -- What can be read back from the store `s` of the ledger `c`.
  pub record IsSaved (c : Blockchain) (s : Store) : Type 0 where
    pub blocks :
        (i : ℕ) (b : Block) → get_elem? c.blocks i ≡ some b → get_block cbor i s ≡ some (some b)
    pub count : get_block_count cbor s ≡ some (block_height c)
    pub target : get_target cbor s ≡ some (some c.target)
    pub utxo_keys : get_utxo_keys cbor s ≡ some (some (map (λ e. e.0) c.utxos))
    pub utxos :
        (h : Hash) (v : Bool × TransactionOutput)
        → lookup h c.utxos ≡ some v
        → get_utxo cbor h s ≡ some (some v)

  -- The store before the unspent outputs are saved.
  abbrev first_part : Blockchain → Store → Store
  first_part c s =
      put_target cbor c.target
        (put_block_count cbor (block_height c) (put_blocks p cbor 0 c.blocks s))

  first_part-block :
      (c : Blockchain) (s : Store) (i : ℕ) (b : Block)
      → get_elem? c.blocks i ≡ some b
      → first_part c s (block_key i) ≡ some (cbor.block.encode b)
  unfolding put_target put_block_count
  first_part-block c s i b e =
      let z : 0 + i ≡ i = omega arith in
      ap (λ n. put_blocks p cbor 0 c.blocks s (block_key n)) (sym z)
      ∙ put_blocks-at p cbor i 0 c.blocks b s e

  first_part-target :
      (c : Blockchain) (s : Store) → first_part c s meta_target ≡ some (cbor.target.encode c.target)
  unfolding put_target
  first_part-target c s = refl

  first_part-count :
      (c : Blockchain) (s : Store)
      → first_part c s meta_block_count ≡ some (to_big_endian 8 (block_height c % 2 ^ 64))
  unfolding put_target put_block_count
  first_part-count c s = refl

  get_block_count-stored :
      (s : Store) (n : ℕ)
      → n < 2 ^ 64
      → s meta_block_count ≡ some (to_big_endian 8 (n % 2 ^ 64))
      → get_block_count cbor s ≡ some n
  unfolding get_block_count
  get_block_count-stored s n few stored =
      let whole : n % 2 ^ 64 ≡ n = omega arith in
      let long : ltb (length (to_big_endian 8 n)) 8 ≡ false =
        ground (arith, length-to_big_endian 8 n) in
      let full : take 8 (to_big_endian 8 n) ≡ to_big_endian 8 n =
        take-whole 8 (to_big_endian 8 n) (length-to_big_endian 8 n) in
      rw (stored, whole, long, full, get_block_count)
        (ap some (from_big_endian-to_big_endian 8 n few))

  -- When `save_blockchain` succeeds on a ledger of fewer than 2^64 blocks, whose map of unspent
  -- outputs has each key once and whose parts the codecs decode as they were, then each block, their
  -- count, the target, the keys of the unspent outputs and each of these with its mark are read
  -- back as they were, whatever the store held before.
  pub save_blockchain-IsSaved :
      (c : Blockchain) (s : Store)
      → IsFaithful cbor c
      → Distinct c.utxos
      → block_height c < 2 ^ 64
      → (save_blockchain p cbor c s).0 ≡ true
      → IsSaved c (save_blockchain p cbor c s).1
  unfolding save_blockchain get_block get_target get_utxo get_utxo_keys
  save_blockchain-IsSaved c s good distinct few done =
      let s' = first_part c s in
      let o = get_utxo_keys cbor s' in
      record {
        blocks = λ i b e.
            read_as-some cbor.block _ b
              (save_utxos-other p cbor (block_key i) c o s' refl refl refl refl
                ∙ first_part-block c s i b e)
              (good.block i b e);
        count = get_block_count-stored _ (block_height c) few (
            save_utxos-other p cbor meta_block_count c o s' refl refl refl refl
            ∙ first_part-count c s);
        target =
            read_as-some cbor.target _ c.target
              (save_utxos-other p cbor meta_target c o s' refl refl refl refl
                ∙ first_part-target c s)
              good.target;
        utxo_keys =
            read_as-some cbor.utxo_keys _ _ (save_utxos-keys p cbor c o s' done) good.utxo_keys;
        utxos = λ h v e.
            read_as-some cbor.utxo _ v (save_utxos-at p cbor c o s' h v done distinct e)
              (good.utxo h v e);
      }
