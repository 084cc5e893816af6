-- ===== src/Merkle.antt =====
-- `MerkleRoot::calculate` of lib/src/util.rs.
pub mod Shape
pub mod Binding
mod Tests
use grapheno.Base.{ℕ, zero, suc, List, [], ◌∷◌, map, Option, none, some, length}
use grapheno.Types.{Hash, Transaction}
use grapheno.Primitives.{Primitives}
use grapheno.Hashing.{hash_transaction, hash_pair, zero_hash}

module _ (p : Primitives) where
  -- One round of the loop, over `layer.chunks(2)`: an odd last hash is paired with itself.
  pub pair_up : List Hash → List Hash
  pair_up [] = []
  pair_up (left ∷ []) = hash_pair p left left ∷ []
  pair_up (left ∷ right ∷ rest) = hash_pair p left right ∷ pair_up rest

  -- `while layer.len() > 1`, and then `layer[0]`. Nothing on an empty layer, and where the rounds
  -- allowed do not suffice.
  pub climb : ℕ → List Hash → Option Hash
  climb rounds [] = none
  climb rounds (h ∷ []) = some h
  climb zero (l ∷ r ∷ rest) = none
  climb (suc rounds) (l ∷ r ∷ rest) = climb rounds (pair_up (l ∷ r ∷ rest))

  abbrev pub or_zero : Option Hash → Hash
  or_zero none = zero_hash
  or_zero (some h) = h

  abbrev pub leaves : List Transaction → List Hash
  leaves = map (hash_transaction p)

  -- As many rounds as there are transactions are enough: each at least halves the layer.
  unfoldable pub calculate : List Transaction → Hash
  unfolding pair_up climb
  calculate transactions = or_zero (climb (length transactions) (leaves transactions))
