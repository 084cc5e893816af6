-- ===== src/Mempool/Conflicts.antt =====
-- Double spends in the mempool: two entries over one output.
use mathlib.Core.List.{Perm}
use grapheno.Base.{
  ℕ, ◌≤◌, ◌≡◌, refl, ◌∙◌, true, false, List, [], ◌∷◌, ◌++◌, none, arith, All, lookup, modify, ok,
  or_err, checked_sub, sum_from, >>=-eq-ok, Bool-cases, inl, inr, invalid_transaction,
}
use grapheno.Types.{DateTime, TransactionInput, Transaction}
use grapheno.Primitives.{Primitives}
use grapheno.Block.{Utxos, output_values}
use grapheno.Blockchain.{Blockchain}
use grapheno.Mempool.{
  Entry, validate_inputs, sum_inputs, appraise, set_mark, marked, miner_fee, with_keys, put_sorted,
  sort_mempool, admit, release_marked, release_input, release_inputs, find_referencing,
  add_appraised, add_to_mempool,
}
use grapheno.Mempool.Marks.{
  SameOutputs, SameOutputs-trans, modify-SameOutputs, mark_all-SameOutputs, sum_inputs-SameOutputs,
}
use grapheno.Mempool.Sorting.{sort_mempool-IsSortedByFee}
use grapheno.Mempool.Accept.{pushed}

miner_fee-SameOutputs :
    (u v : Utxos) (t : Transaction) → SameOutputs u v → miner_fee v t ≡ miner_fee u t
unfolding miner_fee
miner_fee-SameOutputs u v t s = rw (sum_inputs-SameOutputs u v 0 t.inputs s) refl

pub with_keys-SameOutputs :
    (u v : Utxos) (es : List Entry) → SameOutputs u v → with_keys v es ≡ with_keys u es
unfolding with_keys
with_keys-SameOutputs u v [] s = refl
with_keys-SameOutputs u v (e ∷ es) s =
    rw (miner_fee-SameOutputs u v e.1 s, with_keys-SameOutputs u v es s) refl

with_keys-snoc :
    (u : Utxos) (es : List Entry) (e : Entry) (keyed : List (ℕ × Entry)) (fee : ℕ)
    → with_keys u es ≡ ok keyed
    → miner_fee u e.1 ≡ ok fee
    → with_keys u (es ++ e ∷ []) ≡ ok (keyed ++ (fee, e) ∷ [])
unfolding with_keys
with_keys-snoc u [] e keyed fee h k = ground arith
with_keys-snoc u (f ∷ es) e keyed fee h k =
    let (x, e1, h1) = >>=-eq-ok (miner_fee u f.1) _ h in
    let (rest, e2, h2) = >>=-eq-ok (with_keys u es) _ h1 in
    ground (arith, e1, h2, with_keys-snoc u es e rest fee e2 k)

-- What has been appraised has a fee.
miner_fee-appraise :
    (u : Utxos) (t : Transaction) (r : ℕ × ℕ × ℕ)
    → appraise u t ≡ ok r
    → (miner_fee u t ≡ ok r.2) × (r.1 ≤ r.0)
unfolding appraise miner_fee
miner_fee-appraise u t r h =
    let (_, e1, h1) = >>=-eq-ok (validate_inputs u [] t.inputs) _ h in
    let (ins, e2, h2) = >>=-eq-ok (sum_inputs u 0 t.inputs) _ h1 in
    let (outs, e3, h3) = >>=-eq-ok (sum_from 0 (output_values t.outputs)) _ h2 in
    let (fee, e4, h4) = >>=-eq-ok (or_err (checked_sub ins outs) invalid_transaction) _ h3 in
    (ground (arith, e2, e3, e4, h4), ground (arith, e4, h4))

module _ (p : Primitives) where
  -- No entry of the mempool creates an output that the inputs spend.
  abbrev pub Uncreated : List Entry → List TransactionInput → Type 0
  Uncreated es = All (λ i. find_referencing p i.prev_transaction_output_hash 0 es ≡ none)

  -- The releases then end well: they take off the marks of the inputs, and no entry gives way.
  release_inputs-Uncreated :
      (fee : ℕ) (is : List TransactionInput) (c : Blockchain)
      → Uncreated c.mempool is
      → (u : Utxos) × SameOutputs c.utxos u
        × (release_inputs p fee is c ≡ (ok tt, record c { utxos = u }))
  unfolding release_inputs release_input release_marked
  release_inputs-Uncreated fee [] c h = (c.utxos, λ h. refl, refl)
  release_inputs-Uncreated fee (i ∷ is) c h =
      elim (Bool-cases (marked (lookup i.prev_transaction_output_hash c.utxos))) [
        | inl taken ↦
            let v = modify i.prev_transaction_output_hash (set_mark false) c.utxos in
            let (u, s, e) = release_inputs-Uncreated fee is (record c { utxos = v }) h.1 in
            (
              u,
              SameOutputs-trans c.utxos v u
                  (modify-SameOutputs i.prev_transaction_output_hash false c.utxos) s,
              rw (taken, h.0) e,
            )
        | inr free ↦ let (u, s, e) = release_inputs-Uncreated fee is c h.1 in (u, s, rw free e)
      ]

  admit_sorts :
      (now : DateTime) (t : Transaction) (ins outs : ℕ) (c : Blockchain)
      → outs ≤ ins
      → admit now t ins outs c ≡ sort_mempool (pushed now t c)
  unfolding admit pushed
  admit_sorts now t ins outs c h = ground arith

  sort_mempool_ok :
      (c : Blockchain) (keyed : List (ℕ × Entry))
      → with_keys c.utxos c.mempool ≡ ok keyed
      → (sort_mempool c).0 ≡ ok tt
  unfolding sort_mempool put_sorted
  sort_mempool_ok c keyed e = rw e refl

  -- The steps of `add_to_mempool` when no entry gives way: it ends in the sort.
  pub add_to_mempool-sort_mempool :
      (now : DateTime) (t : Transaction) (c : Blockchain) (r : ℕ × ℕ × ℕ)
      → appraise c.utxos t ≡ ok r
      → Uncreated c.mempool t.inputs
      → (u : Utxos) × SameOutputs c.utxos u
        × (add_to_mempool p now t c ≡ sort_mempool (pushed now t (record c { utxos = u })))
  unfolding add_to_mempool add_appraised
  add_to_mempool-sort_mempool now t c r a unc =
      let (u, s, e) = release_inputs-Uncreated r.2 t.inputs c unc in
      let (_, le) = miner_fee-appraise c.utxos t r a in
      (u, s, rw (a, e) (admit_sorts now t r.0 r.1 (record c { utxos = u }) le))

  -- A transaction that passes the reading part is taken beside every entry that spends the same
  -- outputs, whatever the fees are, when no entry of the mempool creates an output that it
  -- spends and the entries have fees: it ends well, and no entry gives way.
  pub add_to_mempool_conflict :
      (now : DateTime) (t : Transaction) (c : Blockchain) (r : ℕ × ℕ × ℕ) (keyed : List (ℕ × Entry))
      → appraise c.utxos t ≡ ok r
      → Uncreated c.mempool t.inputs
      → with_keys c.utxos c.mempool ≡ ok keyed
      → ((add_to_mempool p now t c).0 ≡ ok tt)
        × Perm (add_to_mempool p now t c).1.mempool (c.mempool ++ (now, t) ∷ [])
  unfolding pushed
  add_to_mempool_conflict now t c r keyed a unc keys =
      let (u, s, e) = add_to_mempool-sort_mempool now t c r a unc in
      let (fee, _) = miner_fee-appraise c.utxos t r a in
      let d = pushed now t (record c { utxos = u }) in
      let same = SameOutputs-trans c.utxos u d.utxos s (mark_all-SameOutputs true t.inputs u) in
      let keys' =
        with_keys-SameOutputs c.utxos d.utxos d.mempool same
        ∙ with_keys-snoc c.utxos c.mempool (now, t) keyed r.2 keys fee in
      let done = sort_mempool_ok d _ keys' in
      let (_, perm) = sort_mempool-IsSortedByFee d done in rw e (done, perm)
