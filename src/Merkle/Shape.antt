-- ===== src/Merkle/Shape.antt =====
-- The loop of `MerkleRoot::calculate` ends, and what a repeated last transaction does to the root.
use grapheno.Base.{
  ℕ, zero, suc, ◌+◌, ◌/◌, ◌%◌, ◌≤◌, ◌<◌, ◌≡◌, refl, ap, List, [], ◌∷◌, ◌++◌, map, some, length,
  length-append, arith,
}
use grapheno.Types.{Hash, Transaction}
use grapheno.Primitives.{Primitives}
use grapheno.Hashing.{hash_transaction, hash_pair}
use grapheno.Merkle.{pair_up, climb, leaves, calculate}

pub length-map {ℓ κ} :
    {A : Type ℓ} {B : Type κ} (f : A → B) (xs : List A) → length (map f xs) ≡ length xs
length-map f [] = refl
length-map f (x ∷ xs) = ap suc (length-map f xs)

map-append {ℓ κ} :
    {A : Type ℓ} {B : Type κ} (f : A → B) (xs ys : List A) → map f (xs ++ ys) ≡ map f xs ++ map f ys
map-append f [] ys = refl
map-append f (x ∷ xs) ys = ap (◌∷◌ (f x)) (map-append f xs ys)

module _ (p : Primitives) where
  pub length-pair_up : (xs : List Hash) → length (pair_up p xs) ≡ (length xs + 1) / 2
  unfolding pair_up
  length-pair_up [] = omega arith
  length-pair_up (x ∷ []) = omega arith
  length-pair_up (x ∷ y ∷ xs) = omega (arith, length-pair_up xs)

  -- From a layer that is not empty, the loop comes to its single hash.
  pub climb_total :
      (rounds : ℕ) (xs : List Hash)
      → 0 < length xs
      → length xs ≤ rounds + 1
      → (r : Hash) × (climb p rounds xs ≡ some r)
  unfolding climb
  climb_total rounds [] h k = absurd (omega arith)
  climb_total rounds (x ∷ []) h k = (x, refl)
  climb_total zero (x ∷ y ∷ xs) h k = absurd (omega arith)
  climb_total (suc rounds) (x ∷ y ∷ xs) h k =
      climb_total rounds (pair_up p (x ∷ y ∷ xs)) (omega (arith, length-pair_up (x ∷ y ∷ xs)))
        (omega (arith, length-pair_up (x ∷ y ∷ xs)))

  -- More rounds than needed change nothing.
  climb_more :
      (rounds : ℕ) (xs : List Hash) {r : Hash}
      → climb p rounds xs ≡ some r
      → climb p (suc rounds) xs ≡ some r
  unfolding climb
  climb_more rounds [] h = h
  climb_more rounds (x ∷ []) h = h
  climb_more zero (x ∷ y ∷ xs) h = cc
  climb_more (suc rounds) (x ∷ y ∷ xs) h = climb_more rounds (pair_up p (x ∷ y ∷ xs)) h

  -- The root of a non-empty list is what the loop comes to; the fuel never runs out.
  pub calculate-climb :
      (txs : List Transaction)
      → 0 < length txs
      → climb p (length txs) (leaves p txs) ≡ some (calculate p txs)
  unfolding calculate
  calculate-climb txs h = ground (
    arith,
    climb_total (length txs) (leaves p txs) (omega (arith, length-map (hash_transaction p) txs))
        (omega (arith, length-map (hash_transaction p) txs)),
  )

  -- Behind an even number of hashes, a repeated last one leaves the next layer as it was.
  pair_up-repeat :
      (xs : List Hash) (h : Hash)
      → length xs % 2 ≡ 0
      → pair_up p (xs ++ h ∷ h ∷ []) ≡ pair_up p (xs ++ h ∷ [])
  unfolding pair_up
  pair_up-repeat [] h e = refl
  pair_up-repeat (x ∷ []) h e = absurd (omega arith)
  pair_up-repeat (x ∷ y ∷ xs) h e = ap (◌∷◌ (hash_pair p x y)) (pair_up-repeat xs h (omega arith))

  climb-repeat :
      (rounds : ℕ) (xs : List Hash) (h : Hash)
      → length xs % 2 ≡ 0
      → 0 < length xs
      → climb p rounds (xs ++ h ∷ h ∷ []) ≡ climb p rounds (xs ++ h ∷ [])
  unfolding climb
  climb-repeat rounds [] h e k = absurd (omega arith)
  climb-repeat zero (x ∷ []) h e k = refl
  climb-repeat zero (x ∷ y ∷ xs) h e k = refl
  climb-repeat (suc rounds) (x ∷ []) h e k = absurd (omega arith)
  climb-repeat (suc rounds) (x ∷ y ∷ xs) h e k =
      ap (climb p rounds) (pair_up-repeat (x ∷ y ∷ xs) h e)

  -- Behind an even, non-zero number of transactions, a last transaction that is repeated gives
  -- the same root as one that is not: the root does not tell the two blocks apart.
  pub calculate-repeat_last :
      (txs : List Transaction) (t : Transaction)
      → length txs % 2 ≡ 0
      → 0 < length txs
      → calculate p (txs ++ t ∷ t ∷ []) ≡ calculate p (txs ++ t ∷ [])
  calculate-repeat_last txs t e k = cc (
    grow,
    map-append (hash_transaction p) txs (t ∷ t ∷ []),
    map-append (hash_transaction p) txs (t ∷ []),
    climb-repeat (length (txs ++ t ∷ t ∷ [])) (leaves p txs) (hash_transaction p t)
        (omega (arith, length-map (hash_transaction p) txs))
        (omega (arith, length-map (hash_transaction p) txs)),
    climb_more _ _ (calculate-climb (txs ++ t ∷ []) (omega (arith, length-append txs (t ∷ [])))),
    calculate-climb (txs ++ t ∷ t ∷ []) (omega (arith, length-append txs (t ∷ t ∷ []))),
  )
    where
      grow : length (txs ++ t ∷ t ∷ []) ≡ suc (length (txs ++ t ∷ []))
      grow = omega (arith, length-append txs (t ∷ t ∷ []), length-append txs (t ∷ []))
