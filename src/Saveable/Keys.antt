-- ===== src/Saveable/Keys.antt =====
-- What was saved is loaded again, and where keys come from.
use grapheno.Base.{
  ℕ, ◌≡◌, refl, ap, false, List, some, length, take, ltb, text_eq, text_eq_self, Text, arith, [],
  ◌∷◌, zero, suc,
}
use grapheno.Types.{PublicKey, PrivateKey}
use grapheno.Primitives.{Primitives}
use grapheno.Blockchain.{Blockchain}
use grapheno.Network.{Codec}
use grapheno.Saveable.{
  done, or_failed, Disk, write_file, load_chain, without_mempool, KeyFormats, key_from_bytes,
  from_seed, load_public, serialize, deserialize,
}

-- What the crates document: each decoder reads what its encoder has written.
pub record IsFormat (f : KeyFormats) : Type 0 where
  pub slice : (key : PrivateKey) → f.key_of_slice (f.bytes_of_key key) ≡ some key
  pub hex : (bytes : List ℕ) → f.hex_decode (f.hex_encode bytes) ≡ some bytes
  pub pem :
      (key : PublicKey)
      → (text : Text) × (f.pem_of_key key ≡ some text)
        × (f.text_of_bytes text ≡ some text)
        × (f.key_of_pem text ≡ some key)
  pub bytes : (slice : List ℕ) → f.cbor_bytes.decode (f.cbor_bytes.encode slice) ≡ some slice

pub read-write_file :
    (path : Text) (bytes : List ℕ) (disk : Disk) → write_file path bytes disk path ≡ some bytes
unfolding write_file
read-write_file path bytes disk = rw (text_eq_self path) refl

pub read-write_file_other :
    (path other : Text) (bytes : List ℕ) (disk : Disk)
    → text_eq other path ≡ false
    → write_file path bytes disk other ≡ disk other
unfolding write_file
read-write_file_other path other bytes disk h = rw h refl

module _ (f : KeyFormats) (good : IsFormat f) where
  pub deserialize-serialize : (key : PrivateKey) → deserialize f (serialize f key) ≡ done key
  unfolding deserialize serialize
  deserialize-serialize key = rw (good.bytes (f.bytes_of_key key), good.slice key) refl

  pub load_public-pem :
      (key : PublicKey) (text : Text)
      → f.text_of_bytes text ≡ some text
      → f.key_of_pem text ≡ some key
      → load_public f text ≡ done key
  unfolding load_public
  load_public-pem key text e h = rw (e, h) refl

  take_all {ℓ} : {A : Type ℓ} (n : ℕ) (xs : List A) → length xs ≡ n → take n xs ≡ xs
  take_all zero [] h = refl
  take_all zero (x ∷ xs) h = absurd (omega arith)
  take_all (suc n) [] h = absurd (omega arith)
  take_all (suc n) (x ∷ xs) h = ap (λ ys. x ∷ ys) (take_all n xs (omega arith))

  -- With a digest of 32 bytes, a seed's key is the one whose bytes are the seed's SHA-256, or an
  -- error where there is none: the way through hex loses nothing, and nothing panics.
  pub from_seed-sha256 :
      (p : Primitives) (seed : List ℕ)
      → length (p.sha256 seed) ≡ 32
      → from_seed p f seed ≡ or_failed (f.key_of_slice (p.sha256 seed))
  unfolding from_seed key_from_bytes
  from_seed-sha256 p seed h =
      let long : ltb (length (p.sha256 seed)) 32 ≡ false = ground (arith, h) in
      rw (good.hex (p.sha256 seed), long, take_all 32 (p.sha256 seed) h) refl

-- A ledger that is saved and loaded is as it was, but for its mempool, which is empty.
pub load_chain-save_chain :
    (codec : Codec Blockchain) (c : Blockchain)
    → codec.decode (codec.encode c) ≡ some c
    → load_chain codec (codec.encode c) ≡ done (without_mempool c)
unfolding load_chain
load_chain-save_chain codec c e = rw e refl
