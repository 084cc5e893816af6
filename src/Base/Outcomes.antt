-- ===== src/Base/Outcomes.antt =====
-- `Result<T, BtcError>` of lib/src/error.rs, with a panic as a third outcome: an arithmetic
-- overflow (the workspace sets no profile, so a plain `cargo run` checks for it), an index out of range,
-- an `expect` on `None`.
use Prim.Native.Nat.{ℕ, ◌+◌, ◌-◌, ◌^◌, ◌<◌}
use mathlib.Core.Path.{◌≡◌, refl}
use mathlib.Core.Logic.{◌⊎◌, inl, inr}
use mathlib.Core.Bool.{Bool, true, false}
use mathlib.Core.List.{List, [], ◌∷◌}
use mathlib.Core.Option.{Option, none, some}
use native.Mathlib.Omega.{arith}
use grapheno.Base.Tests.{if◌then◌else◌, ltb}

pub data BtcError : Type 0 where
  invalid_transaction : BtcError
  invalid_block : BtcError
  invalid_block_header : BtcError
  invalid_transaction_input : BtcError
  invalid_transaction_output : BtcError
  invalid_merkle_root : BtcError
  invalid_hash : BtcError
  invalid_signature : BtcError
  invalid_public_key : BtcError
  invalid_private_key : BtcError

pub data Outcome {ℓ} (A : Type ℓ) : Type ℓ where
  ok : A → Outcome A
  err : BtcError → Outcome A
  panic : Outcome A

-- `?`: an error or a panic ends the function. The second form forgets the value.
infixl 5 ◌>>=◌ ◌>>◌
abbrev pub ◌>>=◌ {μ ν} : {X : Type μ} {Y : Type ν} → Outcome X → (X → Outcome Y) → Outcome Y
panic >>= next = panic
err e >>= next = err e
ok x >>= next = next x

abbrev pub ◌>>◌ {ν} : {Y : Type ν} → Outcome (Unit {0}) → Outcome Y → Outcome Y
first >> second = first >>= (λ done. second)

-- `if test { return Err(e) }`
abbrev pub fail_if : Bool → BtcError → Outcome (Unit {0})
fail_if true e = err e
fail_if false e = ok tt

-- `option.ok_or(e)?`
abbrev pub or_err {ℓ} : {A : Type ℓ} → Option A → BtcError → Outcome A
or_err none e = err e
or_err (some a) e = ok a

-- `option.expect(..)`
abbrev pub expect {ℓ} : {A : Type ℓ} → Option A → Outcome A
expect none = panic
expect (some a) = ok a

abbrev pub u64_mod : ℕ
u64_mod = 2 ^ 64

abbrev pub u256_mod : ℕ
u256_mod = 2 ^ 256

-- `a + b` on `u64`, with the overflow check.
abbrev pub add_u64 : ℕ → ℕ → Outcome ℕ
add_u64 a b = if ltb (a + b) u64_mod then ok (a + b) else panic

-- `a - b` on `u64`, with the overflow check.
abbrev pub sub_u64 : ℕ → ℕ → Outcome ℕ
sub_u64 a b = if ltb a b then panic else ok (a - b)

-- `checked_sub`
abbrev pub checked_sub : ℕ → ℕ → Option ℕ
checked_sub a b = if ltb a b then none else some (a - b)

-- `iter().sum::<u64>()`, from the left.
unfoldable pub sum_from : ℕ → List ℕ → Outcome ℕ
sum_from acc [] = ok acc
sum_from acc (x ∷ xs) = do acc' ← add_u64 acc x; sum_from acc' xs

-- The same sum on unbounded numbers.
abbrev pub total : List ℕ → ℕ
total [] = 0
total (x ∷ xs) = x + total xs

pub sum_from-eq-ok :
    (acc : ℕ) (xs : List ℕ) → acc + total xs < u64_mod → sum_from acc xs ≡ ok (acc + total xs)
unfolding sum_from
sum_from-eq-ok acc [] h = ground arith
sum_from-eq-ok acc (x ∷ xs) h = ground (arith, sum_from-eq-ok (acc + x) xs)

pub total-of-sum_from :
    (acc : ℕ) (xs : List ℕ) {r : ℕ} → sum_from acc xs ≡ ok r → r ≡ acc + total xs
unfolding sum_from
total-of-sum_from acc [] {r} h = ground arith
total-of-sum_from acc (x ∷ xs) {r} h = ground (arith, total-of-sum_from (acc + x) xs {r = r})

pub sum_from-lt :
    (acc : ℕ) (xs : List ℕ) {r : ℕ} → acc < u64_mod → sum_from acc xs ≡ ok r → r < u64_mod
unfolding sum_from
sum_from-lt acc [] {r} l h = ground arith
sum_from-lt acc (x ∷ xs) {r} l h = ground (arith, sum_from-lt (acc + x) xs {r = r})

-- A chain that ends well has a first step that does, and a rest that ends as the chain.
pub >>=-eq-ok {μ ν} :
    {X : Type μ} {Y : Type ν} (first : Outcome X) (next : X → Outcome Y) {y : Y}
    → first >>= next ≡ ok y
    → (x : X) × (first ≡ ok x) × (next x ≡ ok y)
>>=-eq-ok panic next e = cc
>>=-eq-ok (err b) next e = cc
>>=-eq-ok (ok x) next e = (x, refl, e)

pub Outcome-cases {ℓ} :
    {A : Type ℓ} (m : Outcome A)
    → ((a : A) × (m ≡ ok a)) ⊎ (((e : BtcError) × (m ≡ err e)) ⊎ (m ≡ panic))
Outcome-cases (ok a) = inl (a, refl)
Outcome-cases (err e) = inr (inl (e, refl))
Outcome-cases panic = inr (inr refl)
