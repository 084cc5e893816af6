-- ===== src/Block/Sums.antt =====
-- What the loops of block.rs add up: the values in their maps are those of the lists they walked.
use grapheno.Base.{
  ℕ, ◌+◌, ◌≡◌, false, List, [], ◌∷◌, map, none, some, inl, inr, arith, lookup, insert, contains_key,
  ok, total, Option-cases, >>=-eq-ok,
}
use grapheno.Types.{TransactionInput, TransactionOutput, Transaction}
use grapheno.Primitives.{Primitives}
use grapheno.Hashing.{hash_output}
use grapheno.Block.{Utxos, Outputs, values, output_values, gather_inputs, gather_outputs, gather}

pub total-insert :
    (k : ℕ) (o : TransactionOutput) (m : Outputs)
    → contains_key k m ≡ false
    → total (values (insert k o m)) ≡ total (values m) + o.value
unfolding insert lookup
total-insert k o [] h = omega arith
total-insert k o (e ∷ m) h = ground (arith, total-insert k o m)

-- The value of the output that an input spends; 0 where there is none.
abbrev pub spent_value : Utxos → TransactionInput → ℕ
spent_value utxos input = elim (lookup input.prev_transaction_output_hash utxos) [
  | none ↦ 0
  | some utxo ↦ utxo.1.value
]

abbrev pub spent_values : Utxos → List TransactionInput → List ℕ
spent_values utxos = map (spent_value utxos)

-- All that the transactions spend, and all that they create.
abbrev pub spent : Utxos → List Transaction → ℕ
spent utxos [] = 0
spent utxos (t ∷ ts) = total (spent_values utxos t.inputs) + spent utxos ts

abbrev pub created : List Transaction → ℕ
created [] = 0
created (t ∷ ts) = total (output_values t.outputs) + created ts

module _ (p : Primitives) (utxos : Utxos) where
  pub total-gather_inputs :
      (is : List TransactionInput) (m : Outputs) {m' : Outputs}
      → gather_inputs p utxos m is ≡ ok m'
      → total (values m') ≡ total (values m) + total (spent_values utxos is)
  unfolding gather_inputs
  total-gather_inputs [] m {m'} h = ground arith
  total-gather_inputs (i ∷ is) m {m'} h =
      elim (Option-cases (lookup i.prev_transaction_output_hash utxos)) [
        | inl e ↦ ground arith
        | inr (u, e) ↦ ground (
          arith,
          total-insert i.prev_transaction_output_hash u.1 m,
          total-gather_inputs is (insert i.prev_transaction_output_hash u.1 m) {m' = m'},
        )
      ]

  pub total-gather_outputs :
      (os : List TransactionOutput) (m : Outputs) {m' : Outputs}
      → gather_outputs p utxos m os ≡ ok m'
      → total (values m') ≡ total (values m) + total (output_values os)
  unfolding gather_outputs
  total-gather_outputs [] m {m'} h = ground arith
  total-gather_outputs (o ∷ os) m {m'} h = ground (
    arith,
    total-insert (hash_output p o) o m,
    total-gather_outputs os (insert (hash_output p o) o m) {m' = m'},
  )

  pub total-gather :
      (ts : List Transaction) (ins outs : Outputs) {r : Outputs × Outputs}
      → gather p utxos ins outs ts ≡ ok r
      → (total (values r.0) ≡ total (values ins) + spent utxos ts)
        × (total (values r.1) ≡ total (values outs) + created ts)
  unfolding gather
  total-gather [] ins outs {r} h = ground arith
  total-gather (t ∷ ts) ins outs {r} h =
      let (ins', e, h') = >>=-eq-ok (gather_inputs p utxos ins t.inputs) _ h in
      let (outs', f, rest) = >>=-eq-ok (gather_outputs p utxos outs t.outputs) _ h' in
      let (i, o) = total-gather ts ins' outs' {r = r} rest in
      (
        omega (arith, i, total-gather_inputs t.inputs ins {m' = ins'} e),
        omega (arith, o, total-gather_outputs t.outputs outs {m' = outs'} f),
      )
