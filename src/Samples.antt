-- ===== src/Samples.antt =====
-- A concrete instance of the primitives, for tests: "hashes" that are injective codes of what
-- they hash, signatures that are sums, and addresses that are the encoded key.
pub mod Ledger
pub mod Sized
pub mod Wallet
use mathlib.Core.Logic.{ite}
use native.Mathlib.Decide.{dec_lt}
use grapheno.Base.{
  ℕ, zero, suc, ◌+◌, ◌-◌, ◌*◌, ◌/◌, ◌≤◌, ◌<◌, ◌≡◌, refl, ap, Option, some, List, [], ◌∷◌, Text,
  ◌==◌, arith, map, total, ℤ, pos, negsuc, none, ltb, u256_mod, if◌then◌else◌,
}
use grapheno.Types.{Transaction, TransactionInput, TransactionOutput}
use grapheno.Primitives.{Primitives}

-- An injection of pairs of numbers.
unfoldable pub code_pair : ℕ → ℕ → ℕ
code_pair a b = (a + b) * (a + b) + a

square_gap : (s t : ℕ) → s < t → s * s + s < t * t
square_gap s t h = let e : t ≡ s + 1 + (t - s - 1) = omega arith in rw e (omega arith)

root_unique : (s t a c : ℕ) → a ≤ s → c ≤ t → s * s + a ≡ t * t + c → s ≡ t
root_unique s t a c h k e = elim (dec_lt s t) [
  | yes l ↦ absurd (omega (arith, square_gap s t l))
  | no n ↦ elim (dec_lt t s) [
    | yes l ↦ absurd (omega (arith, square_gap t s l))
    | no m ↦ omega arith
  ]
]

code_pair_sum : (a b c d : ℕ) → code_pair a b ≡ code_pair c d → a + b ≡ c + d
unfolding code_pair
code_pair_sum a b c d e = root_unique (a + b) (c + d) a c (omega arith) (omega arith) e

pub code_pair_left : (a b c d : ℕ) → code_pair a b ≡ code_pair c d → a ≡ c
unfolding code_pair
code_pair_left a b c d e = let s = code_pair_sum a b c d e in omega (arith, ap (λ (n : ℕ). n * n) s)

pub code_pair_right : (a b c d : ℕ) → code_pair a b ≡ code_pair c d → b ≡ d
code_pair_right a b c d e = omega (arith, code_pair_sum a b c d e, code_pair_left a b c d e)

code_list : List ℕ → ℕ
code_list [] = 0
code_list (x ∷ xs) = suc (code_pair x (code_list xs))

code_list_inj : (xs ys : List ℕ) → code_list xs ≡ code_list ys → xs ≡ ys
unfolding code_list
code_list_inj [] [] e = refl
code_list_inj [] (y ∷ ys) e = absurd (omega arith)
code_list_inj (x ∷ xs) [] e = absurd (omega arith)
code_list_inj (x ∷ xs) (y ∷ ys) e =
    let tails : xs ≡ ys =
      code_list_inj xs ys (code_pair_right x (code_list xs) y (code_list ys) (omega arith)) in
    ground (arith, tails, code_pair_left x (code_list xs) y (code_list ys))

code_output : TransactionOutput → ℕ
code_output o = code_list (o.value ∷ o.unique_id ∷ o.address)

code_output_inj : (o q : TransactionOutput) → code_output o ≡ code_output q → o ≡ q
unfolding code_output
code_output_inj o q e =
    ground (
      arith,
      code_list_inj (o.value ∷ o.unique_id ∷ o.address) (q.value ∷ q.unique_id ∷ q.address) e,
    )

code_input : TransactionInput → ℕ
code_input i = code_list (i.prev_transaction_output_hash ∷ i.public_key ∷ i.signature ∷ [])

code_input_inj : (i j : TransactionInput) → code_input i ≡ code_input j → i ≡ j
unfolding code_input
code_input_inj i j e = ground (
  arith,
  code_list_inj (i.prev_transaction_output_hash ∷ i.public_key ∷ i.signature ∷ [])
      (j.prev_transaction_output_hash ∷ j.public_key ∷ j.signature ∷ []) e,
)

map_inj {ℓ} :
    {A : Type ℓ} (f : A → ℕ) (inj : (a b : A) → f a ≡ f b → a ≡ b) (xs ys : List A)
    → map f xs ≡ map f ys
    → xs ≡ ys
map_inj f inj [] [] e = refl
map_inj f inj [] (y ∷ ys) e = cc
map_inj f inj (x ∷ xs) [] e = cc
map_inj f inj (x ∷ xs) (y ∷ ys) e = ground (arith, inj x y, map_inj f inj xs ys)

unfoldable pub code_transaction : Transaction → ℕ
unfolding code_list code_input code_output
code_transaction t =
    code_pair (code_list (map code_input t.inputs)) (code_list (map code_output t.outputs))

pub code_transaction_inj : (s t : Transaction) → code_transaction s ≡ code_transaction t → s ≡ t
unfolding code_transaction
code_transaction_inj s t e =
    let ins =
      code_list_inj (map code_input s.inputs) (map code_input t.inputs)
        (code_pair_left _ _ _ _ e) in
    let outs =
      code_list_inj (map code_output s.outputs) (map code_output t.outputs)
        (code_pair_right _ _ _ _ e) in
    ground (
      arith,
      map_inj code_input code_input_inj s.inputs t.inputs ins,
      map_inj code_output code_output_inj s.outputs t.outputs outs,
    )

-- Exact, within the range of a `U256`.
unfoldable pub scale : ℕ → ℤ → ℕ → Option ℕ
scale t (pos n) d = if ltb (t * n / d) u256_mod then some (t * n / d) else none
scale t (negsuc n) d = if t == 0 then some 0 else none

unfoldable pub sample : Primitives
unfolding code_transaction code_pair scale
sample = record {
  cbor_output = λ o. code_output o ∷ [];
  cbor_transaction = λ t. code_transaction t ∷ [];
  cbor_header = λ h. h.nonce ∷ [];
  cbor_block = λ b. (b.header.timestamp + 1) ∷ [];
  cbor_pair = λ l r. code_pair l r ∷ [];
  sha256 = λ bytes. bytes;
  ripemd160 = λ bytes. bytes;
  encode_point = λ k. k ∷ [];
  verifying_key = λ k. k;
  ecdsa_sign = λ k bytes. k + total bytes;
  ecdsa_verify = λ k bytes s. s == k + total bytes;
  base58_encode = λ bytes. bytes;
  base58_decode = λ text. some text;
  scale_decimal = scale;
}
