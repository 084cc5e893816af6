-- ===== src/Mempool/Stale.antt =====
-- Entries of the mempool whose outputs are gone, and what the sort makes of them.
use grapheno.Base.{
  ℕ, ◌+◌, ◌≡◌, refl, ap, ◌∙◌, true, false, List, [], ◌∷◌, ◌++◌, Option, none, some, arith, ltb,
  lookup, contains_key, Outcome, ok, err, panic, ◌>>=◌, expect, add_u64, sub_u64, u64_mod, sum_from,
  Bool-cases, inl, inr,
}
use grapheno.Types.{DateTime, TransactionInput, Transaction}
use grapheno.Primitives.{Primitives}
use grapheno.Block.{Utxos, output_values}
use grapheno.Blockchain.{Blockchain}
use grapheno.Mempool.{
  Entry, sum_inputs, appraise, miner_fee, with_keys, put_sorted, sort_mempool, add_to_mempool,
}
use grapheno.Mempool.Marks.{SameOutputs-trans, mark_all-SameOutputs}
use grapheno.Mempool.Accept.{pushed}
use grapheno.Mempool.Conflicts.{Uncreated, with_keys-SameOutputs, add_to_mempool-sort_mempool}

-- An input names an output that is gone.
abbrev pub IsStale : Utxos → List TransactionInput → Type 0
IsStale u is =
    (before : List TransactionInput) × (i : TransactionInput) × (after : List TransactionInput)
    × (is ≡ before ++ i ∷ after)
    × (contains_key i.prev_transaction_output_hash u ≡ false)

-- Sums end well or panic.
abbrev NoErr {ℓ} : {A : Type ℓ} → Outcome A → Type 0
NoErr (ok x) = Unit
NoErr (err e) = ⊥
NoErr panic = Unit

>>=-NoErr {ℓ ℓ'} :
    {A : Type ℓ} {B : Type ℓ'} (m : Outcome A) (f : A → Outcome B)
    → NoErr m
    → ((x : A) → NoErr (f x))
    → NoErr (m >>= f)
>>=-NoErr (ok x) f h k = k x
>>=-NoErr (err e) f h k = h
>>=-NoErr panic f h k = tt

>>=-panic {ℓ ℓ'} :
    {A : Type ℓ} {B : Type ℓ'} (m : Outcome A) (f : A → Outcome B)
    → NoErr m
    → ((x : A) → f x ≡ panic)
    → m >>= f ≡ panic
>>=-panic (ok x) f h k = k x
>>=-panic (err e) f h k = absurd h
>>=-panic panic f h k = refl

expect-NoErr {ℓ} : {A : Type ℓ} (o : Option A) → NoErr (expect o)
expect-NoErr (some x) = tt
expect-NoErr none = tt

add_u64-NoErr : (a b : ℕ) → NoErr (add_u64 a b)
add_u64-NoErr a b = elim (Bool-cases (ltb (a + b) u64_mod)) [
  | inl fits ↦ rw fits tt
  | inr over ↦ rw over tt
]

sub_u64-NoErr : (a b : ℕ) → NoErr (sub_u64 a b)
sub_u64-NoErr a b = elim (Bool-cases (ltb a b)) [
  | inl short ↦ rw short tt
  | inr enough ↦ rw enough tt
]

sum_from-NoErr : (acc : ℕ) (xs : List ℕ) → NoErr (sum_from acc xs)
unfolding sum_from
sum_from-NoErr acc [] = tt
sum_from-NoErr acc (x ∷ xs) =
    >>=-NoErr (add_u64 acc x) _ (add_u64-NoErr acc x) (λ a. sum_from-NoErr a xs)

sum_inputs-NoErr : (u : Utxos) (acc : ℕ) (is : List TransactionInput) → NoErr (sum_inputs u acc is)
unfolding sum_inputs
sum_inputs-NoErr u acc [] = tt
sum_inputs-NoErr u acc (i ∷ is) =
    >>=-NoErr (expect (lookup i.prev_transaction_output_hash u)) _ (expect-NoErr _) (λ x.
      >>=-NoErr (add_u64 acc x.1.value) _ (add_u64-NoErr acc x.1.value)
        (λ a. sum_inputs-NoErr u a is))

sum_inputs-stale :
    (u : Utxos) (acc : ℕ) (before after : List TransactionInput) (i : TransactionInput)
    → contains_key i.prev_transaction_output_hash u ≡ false
    → sum_inputs u acc (before ++ i ∷ after) ≡ panic
unfolding sum_inputs
sum_inputs-stale u acc [] after i gone = ground (arith, gone)
sum_inputs-stale u acc (j ∷ before) after i gone =
    >>=-panic (expect (lookup j.prev_transaction_output_hash u)) _ (expect-NoErr _) (λ x.
      >>=-panic (add_u64 acc x.1.value) _ (add_u64-NoErr acc x.1.value)
        (λ a. sum_inputs-stale u a before after i gone))

miner_fee-NoErr : (u : Utxos) (t : Transaction) → NoErr (miner_fee u t)
unfolding miner_fee
miner_fee-NoErr u t = >>=-NoErr (sum_inputs u 0 t.inputs) _ (sum_inputs-NoErr u 0 t.inputs) (λ a.
    >>=-NoErr (sum_from 0 (output_values t.outputs)) _ (sum_from-NoErr 0 _)
      (λ b. sub_u64-NoErr a b))

with_keys-stale :
    (u : Utxos) (before after : List Entry) (e : Entry) (rest : List Entry)
    → IsStale u e.1.inputs
    → with_keys u ((before ++ e ∷ after) ++ rest) ≡ panic
unfolding with_keys miner_fee
with_keys-stale u [] after e rest (b, i, a, split, gone) =
    rw (split, sum_inputs-stale u 0 b a i gone) refl
with_keys-stale u (f ∷ before) after e rest stale =
    >>=-panic (miner_fee u f.1) _ (miner_fee-NoErr u f.1)
      (λ x. rw (with_keys-stale u before after e rest stale) refl)

module _ (p : Primitives) where
  -- An entry with an input whose output is gone, such as one that `rebuild_utxos` has taken out,
  -- makes `add_to_mempool` panic for every transaction that passes the reading part and spends
  -- no output that an entry of the mempool creates.
  add_to_mempool_stale :
      (now : DateTime) (t : Transaction) (c : Blockchain) (r : ℕ × ℕ × ℕ)
      (before after : List Entry) (e : Entry)
      → appraise c.utxos t ≡ ok r
      → Uncreated p c.mempool t.inputs
      → c.mempool ≡ before ++ e ∷ after
      → IsStale c.utxos e.1.inputs
      → (add_to_mempool p now t c).0 ≡ panic
  unfolding pushed sort_mempool put_sorted
  add_to_mempool_stale now t c r before after e a unc split stale =
      let (u, s, q) = add_to_mempool-sort_mempool p now t c r a unc in
      let d = pushed now t (record c { utxos = u }) in
      let same = SameOutputs-trans c.utxos u d.utxos s (mark_all-SameOutputs true t.inputs u) in
      let keys =
        with_keys-SameOutputs c.utxos d.utxos d.mempool same
        ∙ ap (λ m. with_keys c.utxos (m ++ (now, t) ∷ [])) split
        ∙ with_keys-stale c.utxos before after e ((now, t) ∷ []) stale in
      rw (q, keys) refl
