-- ===== src/Mempool/Sorting.antt =====
-- The order of the mempool after `sort_by_key`: the smallest fee first.
use mathlib.Core.List.{Perm}
use mathlib.Core.List.Perm
use native.Mathlib.Nat.{le_trans}
use grapheno.Base.{
  ℕ, ◌≤◌, ◌≡◌, refl, List, [], ◌∷◌, inl, inr, arith, leb, All, Outcome, ok, err, panic, >>=-eq-ok,
  Bool-cases, ap, subst,
}
use grapheno.Block.{Utxos}
use grapheno.Blockchain.{Blockchain}
use grapheno.Mempool.{
  Entry, insert_by_key, sort_keyed, miner_fee, with_keys, entries, put_sorted, sort_mempool,
}

abbrev pub Ascending : List (ℕ × Entry) → Type 0
Ascending [] = Unit
Ascending (e ∷ es) = All (λ f. e.0 ≤ f.0) es × Ascending es

All-weaken :
    (m n : ℕ) (es : List (ℕ × Entry)) → m ≤ n → All (λ f. n ≤ f.0) es → All (λ f. m ≤ f.0) es
All-weaken m n [] le h = tt
All-weaken m n (e ∷ es) le h = (le_trans le h.0, All-weaken m n es le h.1)

All-insert :
    (P : ℕ × Entry → Type 0) (e : ℕ × Entry) (es : List (ℕ × Entry))
    → P e
    → All P es
    → All P (insert_by_key e es)
unfolding insert_by_key
All-insert P e [] pe h = (pe, tt)
All-insert P e (f ∷ fs) pe h = elim (Bool-cases (leb e.0 f.0)) [
  | inl le ↦ rw le (pe, h)
  | inr gt ↦ rw gt (h.0, All-insert P e fs pe h.1)
]

insert_by_key-Ascending :
    (e : ℕ × Entry) (es : List (ℕ × Entry)) → Ascending es → Ascending (insert_by_key e es)
unfolding insert_by_key
insert_by_key-Ascending e [] h = (tt, tt)
insert_by_key-Ascending e (f ∷ fs) h = elim (Bool-cases (leb e.0 f.0)) [
  | inl le ↦ let l : e.0 ≤ f.0 = ground arith in rw le ((l, All-weaken e.0 f.0 fs l h.0), h)
  | inr gt ↦
      let l : f.0 ≤ e.0 = ground arith in
      rw gt (All-insert (λ g. f.0 ≤ g.0) e fs l h.0, insert_by_key-Ascending e fs h.1)
]

insert_by_key-perm : (e : ℕ × Entry) (es : List (ℕ × Entry)) → Perm (insert_by_key e es) (e ∷ es)
unfolding insert_by_key
insert_by_key-perm e [] = Perm.rfl
insert_by_key-perm e (f ∷ fs) = elim (Bool-cases (leb e.0 f.0)) [
  | inl le ↦ rw le Perm.rfl
  | inr gt ↦ rw gt (Perm.trans (Perm.cons f (insert_by_key-perm e fs)) (Perm.swap e f fs))
]

sort_keyed-Ascending : (es : List (ℕ × Entry)) → Ascending (sort_keyed es)
unfolding sort_keyed
sort_keyed-Ascending [] = tt
sort_keyed-Ascending (e ∷ es) = insert_by_key-Ascending e (sort_keyed es) (sort_keyed-Ascending es)

sort_keyed-perm : (es : List (ℕ × Entry)) → Perm (sort_keyed es) es
unfolding sort_keyed
sort_keyed-perm [] = Perm.rfl
sort_keyed-perm (e ∷ es) =
    Perm.trans (insert_by_key-perm e (sort_keyed es)) (Perm.cons e (sort_keyed-perm es))

All-sort : (P : ℕ × Entry → Type 0) (es : List (ℕ × Entry)) → All P es → All P (sort_keyed es)
unfolding sort_keyed
All-sort P [] h = tt
All-sort P (e ∷ es) h = All-insert P e (sort_keyed es) h.0 (All-sort P es h.1)

module _ (utxos : Utxos) where
  abbrev HasFee : ℕ × Entry → Type 0
  HasFee k = miner_fee utxos k.1.1 ≡ ok k.0

  with_keys-HasFee :
      (es : List Entry) {keyed : List (ℕ × Entry)}
      → with_keys utxos es ≡ ok keyed
      → All HasFee keyed × (entries keyed ≡ es)
  unfolding with_keys
  with_keys-HasFee [] {keyed} h = let e : keyed ≡ [] = ground arith in rw e (tt, refl)
  with_keys-HasFee (e ∷ es) {keyed} h =
      let (fee, f, h1) = >>=-eq-ok (miner_fee utxos e.1) _ h in
      let (rest, g, h2) = >>=-eq-ok (with_keys utxos es) _ h1 in
      let (fees, same) = with_keys-HasFee es {keyed = rest} g in
      let split : keyed ≡ (fee, e) ∷ rest = ground arith in rw split ((f, fees), ap (◌∷◌ e) same)

  HasFee-with_keys :
      (keyed : List (ℕ × Entry)) → All HasFee keyed → with_keys utxos (entries keyed) ≡ ok keyed
  unfolding with_keys
  HasFee-with_keys [] h = refl
  HasFee-with_keys (k ∷ ks) h = rw (h.0, HasFee-with_keys ks h.1) refl

-- Every entry has a fee over these unspent outputs, and none behind it a smaller one.
abbrev pub IsSortedByFee : Utxos → List Entry → Type 0
IsSortedByFee utxos es =
    (keyed : List (ℕ × Entry)) × (with_keys utxos es ≡ ok keyed) × Ascending keyed

put_sorted-IsSortedByFee :
    (c : Blockchain) (o : Outcome (List (ℕ × Entry)))
    → with_keys c.utxos c.mempool ≡ o
    → (put_sorted c o).0 ≡ ok tt
    → IsSortedByFee c.utxos (put_sorted c o).1.mempool × Perm (put_sorted c o).1.mempool c.mempool
unfolding put_sorted
put_sorted-IsSortedByFee c (ok keyed) e h =
    let (fees, same) = with_keys-HasFee c.utxos c.mempool {keyed = keyed} e in
    (
      (
        sort_keyed keyed,
        HasFee-with_keys c.utxos (sort_keyed keyed) (All-sort (HasFee c.utxos) keyed fees),
        sort_keyed-Ascending keyed,
      ),
      subst (Perm (entries (sort_keyed keyed))) same (Perm.map (λ k. k.1) (sort_keyed-perm keyed)),
    )
put_sorted-IsSortedByFee c (err x) e h = cc
put_sorted-IsSortedByFee c panic e h = cc

-- A sort that ends well leaves the same entries, in the order of their fees.
pub sort_mempool-IsSortedByFee :
    (c : Blockchain)
    → (sort_mempool c).0 ≡ ok tt
    → IsSortedByFee c.utxos (sort_mempool c).1.mempool × Perm (sort_mempool c).1.mempool c.mempool
unfolding sort_mempool
sort_mempool-IsSortedByFee c h = put_sorted-IsSortedByFee c (with_keys c.utxos c.mempool) refl h

-- The sort touches the mempool alone.
pub record SameLedger (c d : Blockchain) : Type 0 where
  pub utxos : d.utxos ≡ c.utxos
  pub blocks : d.blocks ≡ c.blocks
  pub target : d.target ≡ c.target

put_sorted-SameLedger :
    (c : Blockchain) (o : Outcome (List (ℕ × Entry))) → SameLedger c (put_sorted c o).1
unfolding put_sorted
put_sorted-SameLedger c (ok keyed) = ground arith
put_sorted-SameLedger c (err x) = ground arith
put_sorted-SameLedger c panic = ground arith

pub sort_mempool-SameLedger : (c : Blockchain) → SameLedger c (sort_mempool c).1
unfolding sort_mempool
sort_mempool-SameLedger c = put_sorted-SameLedger c (with_keys c.utxos c.mempool)
