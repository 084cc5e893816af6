-- ===== src/Mempool/Admission.antt =====
-- `add_to_mempool`: what it has checked when it ends well, and what it leaves alone.
use mathlib.Core.List.{Sublist}
use mathlib.Core.List.Sublist
use grapheno.Base.{
  ℕ, zero, suc, ◌+◌, ◌≡◌, refl, ◌∙◌, true, false, not, List, [], ◌∷◌, Option, none, some, arith,
  leb, All, erase_idx, contains, lookup, contains_key, Outcome, ok, err, panic, fail_if, or_err,
  expect, add_u64, checked_sub, sum_from, total, total-of-sum_from, >>=-eq-ok, Bool-cases, inl, inr,
  invalid_transaction,
}
use grapheno.Types.{Hash, TransactionInput, Transaction}
use grapheno.Primitives.{Primitives}
use grapheno.Block.{Utxos, output_values}
use grapheno.Block.Sums.{spent_values}
use grapheno.Block.Spends.{spent_hashes, Fresh}
use grapheno.Blockchain.{Blockchain, Done, continue}
use grapheno.Mempool.{
  validate_inputs, sum_inputs, transaction_fee, appraise, marked, displace, release_marked,
  release_input, release_inputs,
}
use grapheno.Mempool.Marks.{
  SameOutputs, SameOutputs-trans, modify-SameOutputs, mark_all-SameOutputs,
}

abbrev pub Exists : Utxos → TransactionInput → Type 0
Exists utxos input = contains_key input.prev_transaction_output_hash utxos ≡ true

pub validate_inputs_sound :
    (utxos : Utxos) (seen : List Hash) (is : List TransactionInput)
    → validate_inputs utxos seen is ≡ ok tt
    → All (Exists utxos) is × Fresh seen (spent_hashes is)
unfolding validate_inputs
validate_inputs_sound utxos seen [] h = (tt, tt)
validate_inputs_sound utxos seen (i ∷ is) h =
    let (_, e1, h1) =
      >>=-eq-ok
        (fail_if (not (contains_key i.prev_transaction_output_hash utxos)) invalid_transaction) _
        h in
    let (_, e2, h2) =
      >>=-eq-ok (fail_if (contains i.prev_transaction_output_hash seen) invalid_transaction) _ h1 in
    let (all, fresh) = validate_inputs_sound utxos (i.prev_transaction_output_hash ∷ seen) is h2 in
    ((ground arith, all), (ground arith, fresh))

pub total-of-sum_inputs :
    (utxos : Utxos) (acc : ℕ) (is : List TransactionInput) {r : ℕ}
    → sum_inputs utxos acc is ≡ ok r
    → r ≡ acc + total (spent_values utxos is)
unfolding sum_inputs
total-of-sum_inputs utxos acc [] {r} h = ground arith
total-of-sum_inputs utxos acc (i ∷ is) {r} h =
    let (x, e1, h1) = >>=-eq-ok (expect (lookup i.prev_transaction_output_hash utxos)) _ h in
    let (acc', e2, h2) = >>=-eq-ok (add_u64 acc x.1.value) _ h1 in
    ground (arith, e1, e2, total-of-sum_inputs utxos acc' is {r = r} h2)

-- What the reading part of `add_to_mempool` establishes.
pub record IsAppraised (utxos : Utxos) (t : Transaction) (ins outs fee : ℕ) : Type 0 where
  pub exist : All (Exists utxos) t.inputs
  pub distinct : Fresh [] (spent_hashes t.inputs)
  pub inputs_value : ins ≡ total (spent_values utxos t.inputs)
  pub outputs_value : outs ≡ total (output_values t.outputs)
  pub balanced : fee + outs ≡ ins

pub appraise-IsAppraised :
    (utxos : Utxos) (t : Transaction) (r : ℕ × ℕ × ℕ)
    → appraise utxos t ≡ ok r
    → IsAppraised utxos t r.0 r.1 r.2
unfolding appraise
appraise-IsAppraised utxos t r h =
    let (_, e1, h1) = >>=-eq-ok (validate_inputs utxos [] t.inputs) _ h in
    let (ins, e2, h2) = >>=-eq-ok (sum_inputs utxos 0 t.inputs) _ h1 in
    let (outs, e3, h3) = >>=-eq-ok (sum_from 0 (output_values t.outputs)) _ h2 in
    let (fee, e4, h4) = >>=-eq-ok (or_err (checked_sub ins outs) invalid_transaction) _ h3 in
    let (exist, distinct) = validate_inputs_sound utxos [] t.inputs e1 in
    record {
      exist = exist;
      distinct = distinct;
      inputs_value = ground (arith, h4, total-of-sum_inputs utxos 0 t.inputs e2);
      outputs_value = ground (arith, h4, total-of-sum_from 0 (output_values t.outputs) e3);
      balanced = ground (arith, h4, e4);
    }

-- The same chain and the same outputs; marks may differ, and entries of the mempool may be gone.
pub record Yields (c d : Blockchain) : Type 0 where
  pub outputs : SameOutputs c.utxos d.utxos
  pub blocks : d.blocks ≡ c.blocks
  pub target : d.target ≡ c.target
  pub mempool : Sublist d.mempool c.mempool

pub Yields-self : (c : Blockchain) → Yields c c
Yields-self c = record {
  outputs = λ h. refl;
  blocks = refl;
  target = refl;
  mempool = Sublist.refl _;
}

Yields-trans : (a b c : Blockchain) → Yields a b → Yields b c → Yields a c
Yields-trans a b c x y = record {
  outputs = SameOutputs-trans a.utxos b.utxos c.utxos x.outputs y.outputs;
  blocks = y.blocks ∙ x.blocks;
  target = y.target ∙ x.target;
  mempool = Sublist.trans y.mempool x.mempool;
}

erase_idx-sublist {ℓ} : {A : Type ℓ} (xs : List A) (i : ℕ) → Sublist (erase_idx xs i) xs
erase_idx-sublist [] i = Sublist.refl _
erase_idx-sublist (x ∷ xs) zero = Sublist.cons x (Sublist.refl _)
erase_idx-sublist (x ∷ xs) (suc i) = Sublist.cons-cons x (erase_idx-sublist xs i)

displace-Yields :
    (fee idx : ℕ) (t : Transaction) (c : Blockchain) (o : Outcome ℕ)
    → Yields c (displace fee idx t c o).1
unfolding displace
displace-Yields fee idx t c (err e) = Yields-self c
displace-Yields fee idx t c panic = Yields-self c
displace-Yields fee idx t c (ok r) = elim (Bool-cases (leb fee r)) [
  | inl low ↦ rw low (Yields-self c)
  | inr high ↦ rw high (record {
    outputs = mark_all-SameOutputs false t.inputs c.utxos;
    blocks = refl;
    target = refl;
    mempool = erase_idx-sublist c.mempool idx;
  })
]

module _ (p : Primitives) where
  release_marked-Yields :
      (fee : ℕ) (i : TransactionInput) (o : Option (ℕ × Transaction)) (c : Blockchain)
      → Yields c (release_marked p fee i o c).1
  unfolding release_marked
  release_marked-Yields fee i (some (idx, t)) c =
      displace-Yields fee idx t c (transaction_fee c.utxos t)
  release_marked-Yields fee i none c = record {
    outputs = modify-SameOutputs i.prev_transaction_output_hash false c.utxos;
    blocks = refl;
    target = refl;
    mempool = Sublist.refl _;
  }

  release_input-Yields :
      (fee : ℕ) (i : TransactionInput) (c : Blockchain) → Yields c (release_input p fee i c).1
  unfolding release_input
  release_input-Yields fee i c =
      elim (Bool-cases (marked (lookup i.prev_transaction_output_hash c.utxos))) [
        | inl m ↦ rw (m, release_input) (release_marked-Yields fee i _ c)
        | inr m ↦ rw (m, release_input) (Yields-self c)
      ]

  continue-Yields :
      (c : Blockchain) (d : Done) (f : Blockchain → Done)
      → Yields c d.1
      → ((b : Blockchain) → Yields b (f b).1)
      → Yields c (continue d f).1
  continue-Yields c (ok _, b) f x y = Yields-trans c b (f b).1 x (y b)
  continue-Yields c (err e, b) f x y = x
  continue-Yields c (panic, b) f x y = x

  pub release_inputs-Yields :
      (fee : ℕ) (is : List TransactionInput) (c : Blockchain)
      → Yields c (release_inputs p fee is c).1
  unfolding release_inputs
  release_inputs-Yields fee [] c = Yields-self c
  release_inputs-Yields fee (i ∷ is) c =
      continue-Yields c (release_input p fee i c) (release_inputs p fee is)
        (release_input-Yields fee i c) (release_inputs-Yields fee is)
