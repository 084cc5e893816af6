-- ===== src/Crypto.antt =====
-- lib/src/crypto.rs: addresses and signatures. The curve, the digests and Base58 are parameters.
pub mod Address
mod Tests
use grapheno.Base.{
  ℕ, zero, suc, ◌+◌, ◌-◌, ◌≡◌, Bool, true, false, not, Option, none, some, List, [], ◌∷◌, ◌++◌,
  Text, text_eq, ltb, ◌==◌, if◌then◌else◌, length, take, drop, get_elem?,
}
use grapheno.Types.{Hash, PublicKey, PrivateKey, Signature}
use grapheno.Primitives.{Primitives}
use grapheno.Hashing.{as_bytes}

-- `Err` carries a message that only the caller's own error shows.
abbrev pub Checked : Type 0
Checked = Option Bool

module _ (p : Primitives) where
  -- The first four bytes of the double SHA-256.
  unfoldable pub checksum : List ℕ → List ℕ
  checksum bytes = take 4 (p.sha256 (p.sha256 bytes))

  -- `PublicKey::to_address`
  unfoldable pub to_address : PublicKey → Text
  unfolding checksum
  to_address key =
      let pub_key_hash = p.ripemd160 (p.sha256 (p.encode_point key)) in
      let versioned_hash = 0 ∷ pub_key_hash in
      p.base58_encode (versioned_hash ++ checksum versioned_hash)

  -- The tests of `validate_address` on the decoded bytes, split before the last four.
  pub check_parts : List ℕ → List ℕ → List ℕ → Checked
  check_parts decoded version_and_hash provided_checksum =
      if not (text_eq provided_checksum (checksum version_and_hash))
      then some false
      else elim (get_elem? decoded 0) [
        | none ↦ some false
        | some version ↦ if not (version == 0) then some false else some true
      ]

  pub check_decoded : List ℕ → Checked
  unfolding check_parts
  check_decoded decoded =
      if ltb (length decoded) 25
      then some false
      else check_parts decoded (take (length decoded - 4) decoded)
          (drop (length decoded - 4) decoded)

  -- `PublicKey::validate_address`
  unfoldable pub validate_address : Text → Checked
  unfolding check_decoded checksum
  validate_address address = elim (p.base58_decode address) [
    | none ↦ none
    | some decoded ↦ check_decoded decoded
  ]

  -- `Signature::sign_output`
  unfoldable pub sign_output : Hash → PrivateKey → Signature
  unfolding as_bytes
  sign_output output_hash key = p.ecdsa_sign key (as_bytes output_hash)

  -- `Signature::verify`
  unfoldable pub verify : Signature → Hash → PublicKey → Bool
  unfolding as_bytes
  verify signature output_hash key = p.ecdsa_verify key (as_bytes output_hash) signature
