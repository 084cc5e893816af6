-- ===== src/Mempool/Accept.antt =====
-- `add_to_mempool`, whole: the state after it ends well, and what no outcome changes.
use mathlib.Core.List.{Perm, Sublist}
use grapheno.Base.{
  ℕ, ◌≤◌, ◌≡◌, refl, ap, sym, ◌∙◌, true, List, [], ◌∷◌, ◌++◌, arith, ltb, All, All-map, lookup,
  Outcome, ok, err, panic, total, Bool-cases, inl, inr,
}
use grapheno.Types.{DateTime, TransactionInput, Transaction}
use grapheno.Primitives.{Primitives}
use grapheno.Block.{Utxos, output_values}
use grapheno.Block.Sums.{spent_values}
use grapheno.Block.Spends.{spent_hashes, Fresh}
use grapheno.Blockchain.{Blockchain, Done, continue}
use grapheno.Mempool.{
  Entry, appraise, mark_all, marked, sort_mempool, admit, release_inputs, add_appraised,
  add_to_mempool,
}
use grapheno.Mempool.Marks.{SameOutputs, SameOutputs-trans, mark_all-SameOutputs, mark_all-marked}
use grapheno.Mempool.Sorting.{IsSortedByFee, sort_mempool-IsSortedByFee, sort_mempool-SameLedger}
use grapheno.Mempool.Admission.{
  Exists, IsAppraised, appraise-IsAppraised, Yields, release_inputs-Yields,
}

-- The state `d` behind a call that took the transaction `t` into the mempool of `c`.
pub record IsAdmitted (now : DateTime) (t : Transaction) (c d : Blockchain) : Type 0 where
  -- each input names an output that exists, and no other input of `t` names it
  pub exist : All (Exists c.utxos) t.inputs
  pub distinct : Fresh [] (spent_hashes t.inputs)
  -- no value is made
  pub covered : total (output_values t.outputs) ≤ total (spent_values c.utxos t.inputs)
  -- the outputs that `t` spends are marked
  pub claimed : All (λ i. marked (lookup i.prev_transaction_output_hash d.utxos) ≡ true) t.inputs
  -- the chain, the target and the outputs are as before
  pub blocks : d.blocks ≡ c.blocks
  pub target : d.target ≡ c.target
  pub outputs : SameOutputs c.utxos d.utxos
  -- the entries that stay were there before, and `t` is the only new one
  pub stayed : List Entry
  pub were_there : Sublist stayed c.mempool
  pub entries : Perm d.mempool (stayed ++ (now, t) ∷ [])
  -- the mempool is in the order of the fees, the smallest first
  pub sorted : IsSortedByFee d.utxos d.mempool

continue_ok :
    (d : Done) (f : Blockchain → Done)
    → (continue d f).0 ≡ ok tt
    → (d.0 ≡ ok tt) × (continue d f ≡ f d.1)
continue_ok (ok tt, b) f h = (refl, refl)
continue_ok (err e, b) f h = cc
continue_ok (panic, b) f h = cc

unfoldable pub pushed : DateTime → Transaction → Blockchain → Blockchain
pushed now t c = record c {
  utxos = mark_all true t.inputs c.utxos;
  mempool = c.mempool ++ (now, t) ∷ [];
}

admit_ok :
    (now : DateTime) (t : Transaction) (ins outs : ℕ) (c : Blockchain)
    → (admit now t ins outs c).0 ≡ ok tt
    → ((sort_mempool (pushed now t c)).0 ≡ ok tt)
      × (admit now t ins outs c ≡ sort_mempool (pushed now t c))
unfolding admit pushed
admit_ok now t ins outs c h = elim (Bool-cases (ltb ins outs)) [
  | inl short ↦ absurd (ground arith)
  | inr enough ↦ (ground arith, rw (enough, admit) refl)
]

Exists-SameOutputs :
    (u v : Utxos) (i : TransactionInput) → SameOutputs u v → Exists u i → Exists v i
Exists-SameOutputs u v i s e = ground (arith, s i.prev_transaction_output_hash)

-- The end of an admission from the state `b`, which came from `c` by releases.
sort_pushed-IsAdmitted :
    (now : DateTime) (t : Transaction) (c b : Blockchain) (ins outs fee : ℕ)
    → IsAppraised c.utxos t ins outs fee
    → Yields c b
    → (sort_mempool (pushed now t b)).0 ≡ ok tt
    → IsAdmitted now t c (sort_mempool (pushed now t b)).1
unfolding pushed
sort_pushed-IsAdmitted now t c b ins outs fee app yields done =
    let same = sort_mempool-SameLedger (pushed now t b) in
    let (sorted, perm) = sort_mempool-IsSortedByFee (pushed now t b) done in
    let exist =
      All-map _ _ (λ i. Exists-SameOutputs c.utxos b.utxos i yields.outputs) t.inputs app.exist in
    record {
      exist = app.exist;
      distinct = app.distinct;
      covered = omega (arith, app.inputs_value, app.outputs_value, app.balanced);
      claimed = rw same.utxos (mark_all-marked t.inputs b.utxos exist);
      blocks = same.blocks ∙ yields.blocks;
      target = same.target ∙ yields.target;
      outputs = rw same.utxos (
          SameOutputs-trans c.utxos b.utxos _ yields.outputs
            (mark_all-SameOutputs true t.inputs b.utxos));
      stayed = b.mempool;
      were_there = yields.mempool;
      entries = perm;
      sorted = rw same.utxos sorted;
    }

module _ (p : Primitives) (now : DateTime) (t : Transaction) where
  add_appraised_sound :
      (c : Blockchain) (o : Outcome (ℕ × ℕ × ℕ))
      → appraise c.utxos t ≡ o
      → (add_appraised p now t c o).0 ≡ ok tt
      → IsAdmitted now t c (add_appraised p now t c o).1
  unfolding add_appraised
  add_appraised_sound c (err e) a h = cc
  add_appraised_sound c panic a h = cc
  add_appraised_sound c (ok r) a h =
      let (_, e1) = continue_ok (release_inputs p r.2 t.inputs c) (admit now t r.0 r.1) h in
      let b = (release_inputs p r.2 t.inputs c).1 in
      let (done, e2) = admit_ok now t r.0 r.1 b (ap (λ d. d.0) (sym e1) ∙ h) in
      rw (e1, e2)
        (sort_pushed-IsAdmitted now t c b r.0 r.1 r.2 (appraise-IsAppraised c.utxos t r a)
          (release_inputs-Yields p r.2 t.inputs c) done)

  -- When `add_to_mempool` ends well, the transaction spends existing outputs once each and creates
  -- no more than they hold; these outputs are then marked; the transaction is the one new entry
  -- of the mempool, which is in the order of the fees; and the chain, the target and the
  -- outputs are as before.
  pub add_to_mempool_sound :
      (c : Blockchain)
      → (add_to_mempool p now t c).0 ≡ ok tt
      → IsAdmitted now t c (add_to_mempool p now t c).1
  unfolding add_to_mempool
  add_to_mempool_sound c h = add_appraised_sound c (appraise c.utxos t) refl h
