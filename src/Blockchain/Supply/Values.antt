-- ===== src/Blockchain/Supply/Values.antt =====
-- A set of unspent outputs with one entry for each hash, and the value of its outputs.
use grapheno.Base.{
  ℕ, ◌+◌, ◌≡◌, refl, Bool, false, [], ◌∷◌, some, arith, lookup, insert, remove, contains_key,
  lookup-insert, lookup-remove, Bool-cases, inl, inr, ◌==◌,
}
use grapheno.Types.{Hash, TransactionOutput}
use grapheno.Block.{Utxos}

abbrev pub IsMap : Utxos → Type 0
IsMap [] = Unit
IsMap (e ∷ u) = (contains_key e.0 u ≡ false) × IsMap u

abbrev pub supply : Utxos → ℕ
supply [] = 0
supply (e ∷ u) = e.1.1.value + supply u

module _ (k : Hash) where
  pub supply-insert :
      (v : Bool × TransactionOutput) (u : Utxos)
      → contains_key k u ≡ false
      → supply (insert k v u) ≡ supply u + v.1.value
  unfolding lookup insert
  supply-insert v [] h = omega arith
  supply-insert v (e ∷ u) h = ground (arith, supply-insert v u)

  remove_missing : (u : Utxos) → contains_key k u ≡ false → remove k u ≡ u
  unfolding lookup remove
  remove_missing [] h = refl
  remove_missing (e ∷ u) h = ground (arith, remove_missing u)

  pub supply-remove :
      (u : Utxos) {v : Bool × TransactionOutput}
      → IsMap u
      → lookup k u ≡ some v
      → supply (remove k u) + v.1.value ≡ supply u
  unfolding lookup remove
  supply-remove [] {v} m h = absurd (ground arith)
  supply-remove (e ∷ u) {v} m h = elim (Bool-cases (k == e.0)) [
    | inl hit ↦ ground (arith, hit, m.0, remove_missing u)
    | inr miss ↦ ground (arith, miss, supply-remove u {v = v} m.1)
  ]

  pub IsMap-insert : (v : Bool × TransactionOutput) (u : Utxos) → IsMap u → IsMap (insert k v u)
  unfolding lookup insert
  IsMap-insert v [] m = (refl, tt)
  IsMap-insert v (e ∷ u) m = elim (Bool-cases (k == e.0)) [
    | inl hit ↦ rw (hit, insert) (ground (arith, m.0, hit), m.1)
    | inr miss ↦
        rw (miss, insert) (ground (arith, m.0, miss, lookup-insert e.0 k v u), IsMap-insert v u m.1)
  ]

  pub IsMap-remove : (u : Utxos) → IsMap u → IsMap (remove k u)
  unfolding lookup remove
  IsMap-remove [] m = tt
  IsMap-remove (e ∷ u) m = elim (Bool-cases (k == e.0)) [
    | inl hit ↦ rw (hit, remove) (IsMap-remove u m.1)
    | inr miss ↦
        rw (miss, remove) (ground (arith, m.0, miss, lookup-remove e.0 k u), IsMap-remove u m.1)
  ]
