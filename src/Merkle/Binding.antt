-- ===== src/Merkle/Binding.antt =====
-- The root commits to the transactions, as far as the hashes have no collisions.
use grapheno.Base.{ℕ, zero, suc, ◌<◌, ◌≡◌, refl, List, [], ◌∷◌, some, length, arith}
use grapheno.Types.{Hash, Transaction}
use grapheno.Primitives.{Primitives}
use grapheno.Hashing.{hash_transaction, hash_pair}
use grapheno.Merkle.{pair_up, climb, leaves, calculate}
use grapheno.Merkle.Shape.{length-pair_up, length-map, calculate-climb}

-- No two pairs, and no two transactions, have one hash.
pub record IsCollisionFree (p : Primitives) : Type 0 where
  pub pair_left : (a b c d : Hash) → hash_pair p a b ≡ hash_pair p c d → a ≡ c
  pub pair_right : (a b c d : Hash) → hash_pair p a b ≡ hash_pair p c d → b ≡ d
  pub transactions : (s t : Transaction) → hash_transaction p s ≡ hash_transaction p t → s ≡ t

module _ (p : Primitives) (free : IsCollisionFree p) where
  pair_up_inj : (xs ys : List Hash) → length xs ≡ length ys → pair_up p xs ≡ pair_up p ys → xs ≡ ys
  unfolding pair_up
  pair_up_inj [] [] l e = refl
  pair_up_inj [] (y ∷ ys) l e = absurd (omega arith)
  pair_up_inj (x ∷ xs) [] l e = absurd (omega arith)
  pair_up_inj (x ∷ []) (y ∷ []) l e = ground (arith, free.pair_left x x y y)
  pair_up_inj (x ∷ []) (y ∷ y' ∷ ys) l e = absurd (omega arith)
  pair_up_inj (x ∷ x' ∷ xs) (y ∷ []) l e = absurd (omega arith)
  pair_up_inj (x ∷ x' ∷ xs) (y ∷ y' ∷ ys) l e =
      ground (arith, free.pair_left x x' y y', free.pair_right x x' y y', pair_up_inj xs ys)

  climb_inj :
      (rounds : ℕ) (xs ys : List Hash) {r : Hash}
      → length xs ≡ length ys
      → climb p rounds xs ≡ some r
      → climb p rounds ys ≡ some r
      → xs ≡ ys
  unfolding climb
  climb_inj rounds [] ys l e f = cc
  climb_inj rounds (x ∷ xs) [] l e f = cc
  climb_inj rounds (x ∷ []) (y ∷ []) l e f = cc
  climb_inj rounds (x ∷ []) (y ∷ y' ∷ ys) l e f = absurd (omega arith)
  climb_inj rounds (x ∷ x' ∷ xs) (y ∷ []) l e f = absurd (omega arith)
  climb_inj zero (x ∷ x' ∷ xs) (y ∷ y' ∷ ys) l e f = cc
  climb_inj (suc rounds) (x ∷ x' ∷ xs) (y ∷ y' ∷ ys) l e f =
      pair_up_inj (x ∷ x' ∷ xs) (y ∷ y' ∷ ys) l (
        climb_inj rounds (pair_up p (x ∷ x' ∷ xs)) (pair_up p (y ∷ y' ∷ ys))
          (omega (arith, length-pair_up p (x ∷ x' ∷ xs), length-pair_up p (y ∷ y' ∷ ys))) e f)

  leaves_inj : (ss ts : List Transaction) → leaves p ss ≡ leaves p ts → ss ≡ ts
  leaves_inj [] [] e = refl
  leaves_inj [] (t ∷ ts) e = cc
  leaves_inj (s ∷ ss) [] e = cc
  leaves_inj (s ∷ ss) (t ∷ ts) e = ground (arith, free.transactions s t, leaves_inj ss ts)

  -- Where the hashes have no collisions, two non-empty lists of as many transactions with one
  -- root are the same list.
  pub calculate_inj :
      (ss ts : List Transaction)
      → 0 < length ss
      → length ss ≡ length ts
      → calculate p ss ≡ calculate p ts
      → ss ≡ ts
  calculate_inj ss ts h l e = leaves_inj ss ts (
      climb_inj (length ss) (leaves p ss) (leaves p ts)
        (omega (arith, length-map (hash_transaction p) ss, length-map (hash_transaction p) ts))
        (calculate-climb p ss h) (rw (l, e) (calculate-climb p ts (omega arith))))
