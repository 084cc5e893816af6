-- ===== src/Hashing.antt =====
-- lib/src/sha256.rs, and the `hash` methods of the hashed types.
use grapheno.Base.{ℕ, zero, suc, ◌+◌, ◌*◌, ◌/◌, ◌%◌, Bool, List, [], ◌∷◌, leb}
use grapheno.Types.{Hash, TransactionOutput, Transaction, BlockHeader, Block}
use grapheno.Primitives.{Primitives}

-- `U256::from_big_endian`
unfoldable pub from_big_endian : ℕ → List ℕ → ℕ
from_big_endian acc [] = acc
from_big_endian acc (b ∷ bs) = from_big_endian (acc * 256 + b) bs

-- The first `n` bytes of a number, least significant first.
pub to_little_endian : ℕ → ℕ → List ℕ
to_little_endian zero x = []
to_little_endian (suc n) x = (x % 256) ∷ to_little_endian n (x / 256)

-- `Hash::matches_target`
abbrev pub matches_target : Hash → ℕ → Bool
matches_target h target = leb h target

-- `Hash::zero`
abbrev pub zero_hash : Hash
zero_hash = 0

-- `Hash::as_bytes`
unfoldable pub as_bytes : Hash → List ℕ
unfolding to_little_endian
as_bytes h = to_little_endian 32 h

module _ (p : Primitives) where
  -- `Hash::hash`, after the serialization
  pub hash_bytes : List ℕ → Hash
  hash_bytes serialized = from_big_endian 0 (p.sha256 serialized)

  unfoldable pub hash_output : TransactionOutput → Hash
  unfolding hash_bytes from_big_endian
  hash_output o = hash_bytes (p.cbor_output o)

  unfoldable pub hash_transaction : Transaction → Hash
  unfolding hash_bytes from_big_endian
  hash_transaction t = hash_bytes (p.cbor_transaction t)

  unfoldable pub hash_header : BlockHeader → Hash
  unfolding hash_bytes from_big_endian
  hash_header h = hash_bytes (p.cbor_header h)

  unfoldable pub hash_block : Block → Hash
  unfolding hash_bytes from_big_endian
  hash_block b = hash_bytes (p.cbor_block b)

  unfoldable pub hash_pair : Hash → Hash → Hash
  unfolding hash_bytes from_big_endian
  hash_pair l r = hash_bytes (p.cbor_pair l r)
