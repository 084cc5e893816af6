-- ===== src/Network/Frames.antt =====
-- Frames over a stream: what was sent is received, and a frame that is cut short is not.
use mathlib.Core.List.{append_assoc, append-nil}
use native.Mathlib.Nat.{pow-suc}
use native.Mathlib.Decide.{dec_lt}
use grapheno.Base.{
  ℕ, zero, suc, ◌+◌, ◌-◌, ◌*◌, ◌/◌, ◌%◌, ◌^◌, ◌<◌, ◌≤◌, ◌≡◌, refl, ap, sym, ◌∙◌, true, false, List,
  [], ◌∷◌, ◌++◌, none, some, arith, length, length-append, map, take, drop, ltb,
}
use grapheno.Hashing.{from_big_endian}
use grapheno.Network.{
  Codec, unexpected_eof, Received, received, failed, to_big_endian, read_exact, decoded, frame,
  send, receive_data, receive_length, receive,
}

from_big_endian-snoc :
    (acc : ℕ) (bs : List ℕ) (b : ℕ)
    → from_big_endian acc (bs ++ b ∷ []) ≡ from_big_endian acc bs * 256 + b
unfolding from_big_endian
from_big_endian-snoc acc [] b = refl
from_big_endian-snoc acc (c ∷ bs) b = from_big_endian-snoc (acc * 256 + c) bs b

pub from_big_endian-to_big_endian :
    (n x : ℕ) → x < 256 ^ n → from_big_endian 0 (to_big_endian n x) ≡ x
unfolding to_big_endian from_big_endian
from_big_endian-to_big_endian zero x h = omega arith
from_big_endian-to_big_endian (suc n) x h =
    let p : 256 ^ suc n ≡ 256 ^ n * 256 = pow-suc _ _ in
    let ih = from_big_endian-to_big_endian n (x / 256) (omega arith) in
    omega (arith, ih, from_big_endian-snoc 0 (to_big_endian n (x / 256)) (x % 256))

pub length-to_big_endian : (n x : ℕ) → length (to_big_endian n x) ≡ n
unfolding to_big_endian
length-to_big_endian zero x = refl
length-to_big_endian (suc n) x = omega (
  arith,
  length-append (to_big_endian n (x / 256)) ((x % 256) ∷ []),
  length-to_big_endian n (x / 256),
)

module _ {ℓ} {A : Type ℓ} where
  take-append : (xs ys : List A) → take (length xs) (xs ++ ys) ≡ xs
  take-append [] ys = refl
  take-append (x ∷ xs) ys = ap (λ zs. x ∷ zs) (take-append xs ys)

  drop-append : (xs ys : List A) → drop (length xs) (xs ++ ys) ≡ ys
  drop-append [] ys = refl
  drop-append (x ∷ xs) ys = drop-append xs ys

  length-take : (k : ℕ) (xs : List A) → k ≤ length xs → length (take k xs) ≡ k
  length-take zero xs h = refl
  length-take (suc k) [] h = absurd (omega arith)
  length-take (suc k) (x ∷ xs) h = omega (arith, length-take k xs (omega arith))

  take-append_beyond : (k : ℕ) (xs ys : List A) → take (length xs + k) (xs ++ ys) ≡ xs ++ take k ys
  take-append_beyond k [] ys = let z : 0 + k ≡ k = omega arith in rw z refl
  take-append_beyond k (x ∷ xs) ys =
      let z : length (x ∷ xs) + k ≡ suc (length xs + k) = omega arith in
      rw z (ap (λ zs. x ∷ zs) (take-append_beyond k xs ys))

read_exact-append :
    (xs ys : List ℕ) (n : ℕ) → length xs ≡ n → read_exact n (xs ++ ys) ≡ some (xs, ys)
unfolding read_exact
read_exact-append xs ys n h =
    let long : ltb (length (xs ++ ys)) n ≡ false = ground (arith, length-append xs ys) in
    rw (long, sym h, take-append xs ys, drop-append xs ys) refl

module _ {ℓ} {A : Type ℓ} (codec : Codec A) where
  pub receive-frame :
      (x : A) (rest : List ℕ)
      → length (codec.encode x) < 2 ^ 64
      → receive codec (frame codec x ++ rest) ≡ (decoded (codec.decode (codec.encode x)), rest)
  unfolding frame receive receive_length receive_data
  receive-frame x rest short =
      let bytes = codec.encode x in
      let len : length bytes % 2 ^ 64 ≡ length bytes = omega arith in
      rw
        (
          len,
          append_assoc,
          read_exact-append (to_big_endian 8 (length bytes)) (bytes ++ rest) 8
              (length-to_big_endian 8 (length bytes)),
        )
        (rw
          (
            from_big_endian-to_big_endian 8 (length bytes) short,
            read_exact-append bytes rest (length bytes) refl,
          )
          refl)

  -- What serde and ciborium promise: a value is read back from its own bytes, which are fewer
  -- than a `u64` counts.
  pub record IsCodec : Type ℓ where
    pub inverse : (x : A) → codec.decode (codec.encode x) ≡ some x
    pub short : (x : A) → length (codec.encode x) < 2 ^ 64

  -- Several calls of `send`, and as many of `receive`.
  abbrev pub send_all : List A → List ℕ → List ℕ
  send_all [] stream = stream
  send_all (x ∷ xs) stream = send_all xs (send codec x stream)

  abbrev pub receive_all : ℕ → List ℕ → List (Received A) × List ℕ
  receive_all zero stream = ([], stream)
  receive_all (suc n) stream =
      let (x, rest) = receive codec stream in let (xs, left) = receive_all n rest in (x ∷ xs, left)

  unfoldable pub frames : List A → List ℕ
  frames [] = []
  frames (x ∷ xs) = frame codec x ++ frames xs

  send_all-frames : (xs : List A) (stream : List ℕ) → send_all xs stream ≡ stream ++ frames xs
  unfolding frames send
  send_all-frames [] stream = sym (append-nil stream)
  send_all-frames (x ∷ xs) stream =
      send_all-frames xs (stream ++ frame codec x) ∙ append_assoc stream (frame codec x) (frames xs)

  receive_all-frames :
      IsCodec → (xs : List A) → receive_all (length xs) (frames xs) ≡ (map received xs, [])
  unfolding frames
  receive_all-frames good [] = refl
  receive_all-frames good (x ∷ xs) =
      rw (receive-frame x (frames xs) (good.short x), good.inverse x, receive_all-frames good xs)
        refl

  -- Where values are read back from their own bytes, and these are fewer than 2^64: what is sent on
  -- an empty stream, by however many calls, is received by as many, in its order, and nothing is
  -- left.
  pub receive_all-send_all :
      IsCodec → (xs : List A) → receive_all (length xs) (send_all xs []) ≡ (map received xs, [])
  receive_all-send_all good xs = rw (send_all-frames xs []) (receive_all-frames good xs)

  receive_early :
      (stream : List ℕ) → length stream < 8 → receive codec stream ≡ (failed unexpected_eof, [])
  unfolding receive receive_length read_exact
  receive_early stream h = let early : ltb (length stream) 8 ≡ true = ground arith in rw early refl

  read_exact-early : (n : ℕ) (stream : List ℕ) → length stream < n → read_exact n stream ≡ none
  unfolding read_exact
  read_exact-early n stream h =
      let early : ltb (length stream) n ≡ true = ground arith in rw early refl

  receive_late :
      (x : A) (j : ℕ)
      → length (codec.encode x) < 2 ^ 64
      → j < length (codec.encode x)
      → receive codec (take (8 + j) (frame codec x)) ≡ (failed unexpected_eof, [])
  unfolding frame receive receive_length receive_data
  receive_late x j short cut =
      let bytes = codec.encode x in
      let header = to_big_endian 8 (length bytes) in
      let len : length bytes % 2 ^ 64 ≡ length bytes = omega arith in
      let split : take (8 + j) (header ++ bytes) ≡ header ++ take j bytes =
        ap (λ n. take (n + j) (header ++ bytes)) (sym (length-to_big_endian 8 (length bytes)))
        ∙ take-append_beyond j header bytes in
      rw
        (
          len,
          split,
          read_exact-append header (take j bytes) 8 (length-to_big_endian 8 (length bytes)),
        )
        (rw
          (
            from_big_endian-to_big_endian 8 (length bytes) short,
            read_exact-early (length bytes) (take j bytes)
                (omega (arith, length-take j bytes (omega arith))),
          )
          refl)

  length-frame : (x : A) → length (frame codec x) ≡ 8 + length (codec.encode x)
  unfolding frame
  length-frame x =
      let len = length (codec.encode x) % 2 ^ 64 in
      omega
        (arith, length-append (to_big_endian 8 len) (codec.encode x), length-to_big_endian 8 len)

  -- A frame of fewer than 2^64 bytes of data that is cut short anywhere is no message: the reader
  -- fails, and has used it up.
  pub receive_cut :
      (x : A) (k : ℕ)
      → length (codec.encode x) < 2 ^ 64
      → k < length (frame codec x)
      → receive codec (take k (frame codec x)) ≡ (failed unexpected_eof, [])
  receive_cut x k short cut = elim (dec_lt k 8) [
    | yes early ↦
        receive_early (take k (frame codec x))
          (omega (arith, length-take k (frame codec x) (omega arith)))
    | no late ↦
        let e : k ≡ 8 + (k - 8) = omega arith in
        rw e (receive_late x (k - 8) short (omega (arith, length-frame x)))
  ]
