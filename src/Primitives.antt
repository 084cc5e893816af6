-- ===== src/Primitives.antt =====
-- What the library takes from other crates: the CBOR writer (ciborium), SHA-256 and RIPEMD-160,
-- ECDSA over secp256k1, Base58, and the decimal arithmetic of bigdecimal. They are parameters.
use grapheno.Base.{ℕ, ℤ, Bool, Option, List, Text}
use grapheno.Types.{
  Hash, PublicKey, PrivateKey, Signature, TransactionOutput, Transaction, BlockHeader, Block,
}

pub record Primitives : Type 0 where
  -- `ciborium::into_writer`, for each type that the program hashes
  pub cbor_output : TransactionOutput → List ℕ
  pub cbor_transaction : Transaction → List ℕ
  pub cbor_header : BlockHeader → List ℕ
  pub cbor_block : Block → List ℕ
  pub cbor_pair : Hash → Hash → List ℕ
  pub sha256 : List ℕ → List ℕ
  pub ripemd160 : List ℕ → List ℕ
  -- the compressed SEC1 encoding of a key
  pub encode_point : PublicKey → List ℕ
  pub verifying_key : PrivateKey → PublicKey
  pub ecdsa_sign : PrivateKey → List ℕ → Signature
  pub ecdsa_verify : PublicKey → List ℕ → Signature → Bool
  pub base58_encode : List ℕ → Text
  pub base58_decode : Text → Option (List ℕ)
  -- `scale_decimal t n d` writes `t * (n / d)` in decimal, and reads what stands before the point
  -- as a `U256`; nothing, where that is no such number
  pub scale_decimal : ℕ → ℤ → ℕ → Option ℕ
