-- ===== src/Wallet/Inversion.antt =====
-- What a call of the wallet that ends well says of its steps.
use grapheno.Base.{
  ◌≡◌, refl, ap, List, [], ◌∷◌, Option, none, some, inl, inr, ◌⊎◌, ◌==◌, Bool-cases, Outcome, ok,
  err, panic, arith,
}
use grapheno.Types.{PublicKey, PrivateKey}
use grapheno.Wallet.{
  WalletError, LoadedKey, Made, made, refused, crashed, and_then, summed, found_or, find_private,
}

-- Membership.
abbrev pub In : {A : Type 0} → A → List A → Type 0
In x [] = ⊥
In x (y ∷ ys) = (y ≡ x) ⊎ In x ys

value_of {ℓ} : {A : Type ℓ} → A → Made A → A
value_of d (made x) = x
value_of d (refused e) = d
value_of d crashed = d

pub made_inj {ℓ} : {A : Type ℓ} (x y : A) → made x ≡ made y → x ≡ y
unfolding value_of
made_inj x y h = ap (value_of x) h

pub and_then-eq-made {ℓ κ} :
    {A : Type ℓ} {B : Type κ} (m : Made A) (next : A → Made B) {y : B}
    → and_then m next ≡ made y
    → (x : A) × (m ≡ made x) × (next x ≡ made y)
and_then-eq-made (made x) next h = (x, refl, h)
and_then-eq-made (refused e) next h = cc
and_then-eq-made crashed next h = cc

pub summed-eq-made {ℓ} : {A : Type ℓ} (o : Outcome A) {x : A} → summed o ≡ made x → o ≡ ok x
summed-eq-made (ok y) h = ground arith
summed-eq-made (err e) h = cc
summed-eq-made panic h = cc

pub found_or-eq-made {ℓ} :
    {A : Type ℓ} (e : WalletError) (o : Option A) {x : A} → found_or e o ≡ made x → o ≡ some x
found_or-eq-made e none h = cc
found_or-eq-made e (some y) h = ground arith

pub find_private-In :
    (public : PublicKey) (ks : List LoadedKey) {private : PrivateKey}
    → find_private public ks ≡ some private
    → (k : LoadedKey) × In k ks × (k.public ≡ public) × (k.private ≡ private)
find_private-In public [] h = cc
find_private-In public (k ∷ ks) {private} h = elim (Bool-cases (k.public == public)) [
  | inl same ↦ (k, inl refl, ground (arith, same), ground (arith, same, h))
  | inr other ↦
      let (l, there, a, b) = find_private-In public ks {private = private} (rw other at h) in
      (l, inr there, a, b)
]

pub Made-cases {ℓ} :
    {A : Type ℓ} (m : Made A)
    → ((x : A) × (m ≡ made x)) ⊎ ((e : WalletError) × (m ≡ refused e)) ⊎ (m ≡ crashed)
Made-cases (made x) = inl (x, refl)
Made-cases (refused e) = inr (inl (e, refl))
Made-cases crashed = inr (inr refl)

pub List-cases {ℓ} :
    {A : Type ℓ} (xs : List A) → (xs ≡ []) ⊎ ((y : A) × (ys : List A) × (xs ≡ y ∷ ys))
List-cases [] = inl refl
List-cases (x ∷ xs) = inr (x, xs, refl)
