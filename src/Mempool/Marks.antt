-- ===== src/Mempool/Marks.antt =====
-- Marks come and go; the outputs that the map holds stay.
use grapheno.Base.{
  ℕ, ◌≡◌, refl, ◌∙◌, Bool, true, false, List, [], ◌∷◌, Option, none, some, arith, All, lookup,
  lookup-modify, map_some, modify, contains_key, inl, inr, ◌+◌, All-map, Option-cases,
}
use grapheno.Types.{Hash, TransactionInput, TransactionOutput}
use grapheno.Block.{Utxos}
use grapheno.Block.Sums.{spent_value}
use grapheno.Mempool.{set_mark, mark_all, unmark, marked, sum_inputs}

abbrev pub output_of : Option (Bool × TransactionOutput) → Option TransactionOutput
output_of none = none
output_of (some utxo) = some utxo.1

-- The same outputs under the same hashes, whatever their marks.
abbrev pub SameOutputs : Utxos → Utxos → Type 0
SameOutputs u v = (h : Hash) → output_of (lookup h v) ≡ output_of (lookup h u)

pub SameOutputs-trans : (u v w : Utxos) → SameOutputs u v → SameOutputs v w → SameOutputs u w
SameOutputs-trans u v w a b h = b h ∙ a h

output_of-set_mark :
    (b : Bool) (e : Option (Bool × TransactionOutput))
    → output_of (map_some (set_mark b) e) ≡ output_of e
output_of-set_mark b none = refl
output_of-set_mark b (some x) = refl

pub modify-SameOutputs : (k : Hash) (b : Bool) (u : Utxos) → SameOutputs u (modify k (set_mark b) u)
modify-SameOutputs k b u h =
    ground (arith, lookup-modify h k (set_mark b) u, output_of-set_mark b (lookup h u))

pub mark_all-SameOutputs :
    (b : Bool) (is : List TransactionInput) (u : Utxos) → SameOutputs u (mark_all b is u)
unfolding mark_all
mark_all-SameOutputs b [] u h = refl
mark_all-SameOutputs b (i ∷ is) u h =
    mark_all-SameOutputs b is (modify i.prev_transaction_output_hash (set_mark b) u) h
    ∙ modify-SameOutputs i.prev_transaction_output_hash b u h

pub unmark-SameOutputs : (hs : List Hash) (u : Utxos) → SameOutputs u (unmark hs u)
unfolding unmark
unmark-SameOutputs [] u h = refl
unmark-SameOutputs (k ∷ hs) u h =
    unmark-SameOutputs hs (modify k (set_mark false) u) h ∙ modify-SameOutputs k false u h

-- A mark that is set stays set while more are.
mark_all_keeps :
    (is : List TransactionInput) (u : Utxos) (h : Hash)
    → marked (lookup h u) ≡ true
    → marked (lookup h (mark_all true is u)) ≡ true
unfolding mark_all
mark_all_keeps [] u h m = m
mark_all_keeps (i ∷ is) u h m =
    mark_all_keeps is (modify i.prev_transaction_output_hash (set_mark true) u) h
      (ground (arith, lookup-modify h i.prev_transaction_output_hash (set_mark true) u))

-- After marking, every input whose output exists is marked.
pub mark_all-marked :
    (is : List TransactionInput) (u : Utxos)
    → All (λ i. contains_key i.prev_transaction_output_hash u ≡ true) is
    → All (λ i. marked (lookup i.prev_transaction_output_hash (mark_all true is u)) ≡ true) is
unfolding mark_all
mark_all-marked [] u h = tt
mark_all-marked (i ∷ is) u h = (
  mark_all_keeps is after i.prev_transaction_output_hash (
      ground (
        arith,
        lookup-modify i.prev_transaction_output_hash i.prev_transaction_output_hash (set_mark true)
            u,
      )),
  mark_all-marked is after (All-map _ _ (λ j. contains_key-modify j) is h.1),
)
  where
    after : Utxos
    after = modify i.prev_transaction_output_hash (set_mark true) u

    contains_key-modify :
        (j : TransactionInput)
        → contains_key j.prev_transaction_output_hash u ≡ true
        → contains_key j.prev_transaction_output_hash after ≡ true
    contains_key-modify j e = ground (
      arith,
      lookup-modify j.prev_transaction_output_hash i.prev_transaction_output_hash (set_mark true) u,
    )

-- The values that inputs spend do not depend on marks.
pub spent_value-SameOutputs :
    (u v : Utxos) (i : TransactionInput) → SameOutputs u v → spent_value v i ≡ spent_value u i
spent_value-SameOutputs u v i s = ground (arith, s i.prev_transaction_output_hash)

pub sum_inputs-SameOutputs :
    (u v : Utxos) (acc : ℕ) (is : List TransactionInput)
    → SameOutputs u v
    → sum_inputs v acc is ≡ sum_inputs u acc is
unfolding sum_inputs
sum_inputs-SameOutputs u v acc [] s = refl
sum_inputs-SameOutputs u v acc (i ∷ is) s =
    elim (Option-cases (lookup i.prev_transaction_output_hash u)) [
      | inl missing ↦ ground (arith, s i.prev_transaction_output_hash)
      | inr (x, found) ↦ ground (
        arith,
        s i.prev_transaction_output_hash,
        sum_inputs-SameOutputs u v (acc + x.1.value) is s,
      )
    ]
