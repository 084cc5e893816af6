-- ===== src/Crypto/Address.antt =====
-- Addresses that the program makes are those that it accepts.
use grapheno.Base.{
  ℕ, zero, suc, ◌+◌, ◌-◌, ◌≡◌, refl, ap, true, some, List, [], ◌∷◌, ◌++◌, Text, text_eq_self,
  text_eq→eq, length, ◌≤◌, get_elem?, Option-cases, inl, inr, length-append, take, drop, arith,
}
use grapheno.Types.{PublicKey}
use grapheno.Primitives.{Primitives}
use grapheno.Crypto.{checksum, to_address, check_decoded, validate_address}

-- What the crates promise: digests of the documented sizes, and a decoder that undoes the encoder.
pub record IsStandard (p : Primitives) : Type 0 where
  pub sha256_size : (bytes : List ℕ) → length (p.sha256 bytes) ≡ 32
  pub ripemd160_size : (bytes : List ℕ) → length (p.ripemd160 bytes) ≡ 20
  pub base58_inverse : (bytes : List ℕ) → p.base58_decode (p.base58_encode bytes) ≡ some bytes

take_append {ℓ} : {A : Type ℓ} (xs ys : List A) (n : ℕ) → length xs ≡ n → take n (xs ++ ys) ≡ xs
take_append [] ys zero e = refl
take_append [] ys (suc n) e = absurd (omega arith)
take_append (x ∷ xs) ys zero e = absurd (omega arith)
take_append (x ∷ xs) ys (suc n) e = ap (◌∷◌ x) (take_append xs ys n (omega arith))

drop_append {ℓ} : {A : Type ℓ} (xs ys : List A) (n : ℕ) → length xs ≡ n → drop n (xs ++ ys) ≡ ys
drop_append [] ys zero e = refl
drop_append [] ys (suc n) e = absurd (omega arith)
drop_append (x ∷ xs) ys zero e = absurd (omega arith)
drop_append (x ∷ xs) ys (suc n) e = drop_append xs ys n (omega arith)

length-take {ℓ} :
    {A : Type ℓ} (n : ℕ) (xs : List A) → length xs ≡ n + (length xs - n) → length (take n xs) ≡ n
length-take zero xs h = refl
length-take (suc n) [] h = absurd (omega arith)
length-take (suc n) (x ∷ xs) h = omega (arith, length-take n xs)

module _ (p : Primitives) (std : IsStandard p) where
  length-checksum : (bytes : List ℕ) → length (checksum p bytes) ≡ 4
  unfolding checksum
  length-checksum bytes =
      length-take 4 (p.sha256 (p.sha256 bytes)) (omega (arith, std.sha256_size (p.sha256 bytes)))

  -- Version 0, any twenty-byte body, and the right checksum pass every test.
  check_decoded-accepts :
      (body : List ℕ)
      → length body ≡ 20
      → check_decoded p (0 ∷ (body ++ checksum p (0 ∷ body))) ≡ some true
  unfolding check_decoded
  check_decoded-accepts body e = ground (
    arith,
    take_append (0 ∷ body) tag (length (0 ∷ (body ++ tag)) - 4)
        (omega (arith, size, length-checksum (0 ∷ body))),
    drop_append (0 ∷ body) tag (length (0 ∷ (body ++ tag)) - 4)
        (omega (arith, size, length-checksum (0 ∷ body))),
    text_eq_self tag,
    size,
    length-checksum (0 ∷ body),
  )
    where
      tag : List ℕ
      tag = checksum p (0 ∷ body)

      size : length ((0 ∷ body) ++ tag) ≡ 21 + length tag
      size = omega (arith, length-append (0 ∷ body) tag)

  -- Where the digests have their sizes and Base58 decodes what it encodes, the address of a key is
  -- accepted.
  pub validate_address-to_address :
      (key : PublicKey) → validate_address p (to_address p key) ≡ some true
  unfolding validate_address to_address
  validate_address-to_address key =
      rw (std.base58_inverse, validate_address)
        (check_decoded-accepts _ (std.ripemd160_size (p.sha256 (p.encode_point key))))

module _ (p : Primitives) where
  check_decoded_sound :
      (bytes : List ℕ)
      → check_decoded p bytes ≡ some true
      → (25 ≤ length bytes)
        × (get_elem? bytes 0 ≡ some 0)
        × (drop (length bytes - 4) bytes ≡ checksum p (take (length bytes - 4) bytes))
  unfolding check_decoded
  check_decoded_sound bytes e = ground (
    arith,
    text_eq→eq (drop (length bytes - 4) bytes) (checksum p (take (length bytes - 4) bytes)),
  )

  -- An accepted text decodes to at least 25 bytes that begin with the version 0 and end with the
  -- checksum of what stands before it.
  validate_address_sound :
      (address : Text)
      → validate_address p address ≡ some true
      → (bytes : List ℕ) × (p.base58_decode address ≡ some bytes)
        × (25 ≤ length bytes)
        × (get_elem? bytes 0 ≡ some 0)
        × (drop (length bytes - 4) bytes ≡ checksum p (take (length bytes - 4) bytes))
  unfolding validate_address
  validate_address_sound address e = elim (Option-cases (p.base58_decode address)) [
    | inl bad ↦ absurd (ground arith)
    | inr (bytes, decoded) ↦
        let (long, version, tag) = check_decoded_sound bytes (ground arith) in
        (bytes, decoded, long, version, tag)
  ]
