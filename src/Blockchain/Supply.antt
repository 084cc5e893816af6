-- ===== src/Blockchain/Supply.antt =====
-- The value of all unspent outputs, and how a block changes it.
pub mod Values
pub mod Cap
mod Tests
use grapheno.Base.{
  ℕ, ◌+◌, ◌≡◌, refl, ◌∙◌, false, true, List, [], ◌∷◌, ◌++◌, none, some, arith, All, All-map,
  All-split, Bool, lookup, contains, contains_key, insert, remove, lookup-insert, lookup-remove,
  total, ok, drop, inl, inr, Option-cases,
}
use grapheno.Types.{Hash, TransactionInput, TransactionOutput, Transaction, Block}
use grapheno.Primitives.{Primitives}
use grapheno.Hashing.{hash_output}
use grapheno.Block.{Utxos, block_reward, output_values, verify_transactions}
use grapheno.Block.Sums.{spent_value, spent_values, spent, created}
use grapheno.Block.Fees.{verify_transactions_conserves, verify_transactions-coinbase}
use grapheno.Block.Spends.{
  Fresh, Fresh-split, after, spent_hashes, all_spent_hashes, IsCovered, verify_transactions_sound,
}
use grapheno.Blockchain.{spend_inputs, add_outputs, apply_transactions}
use grapheno.Blockchain.Supply.Values.{
  IsMap, supply, supply-insert, supply-remove, IsMap-insert, IsMap-remove,
}

module _ (p : Primitives) where
  spend_inputs-IsMap :
      (is : List TransactionInput) (u : Utxos) → IsMap u → IsMap (spend_inputs p is u)
  unfolding spend_inputs
  spend_inputs-IsMap [] u m = m
  spend_inputs-IsMap (i ∷ is) u m =
      spend_inputs-IsMap is _ (IsMap-remove i.prev_transaction_output_hash u m)

  add_outputs-IsMap :
      (os : List TransactionOutput) (u : Utxos) → IsMap u → IsMap (add_outputs p os u)
  unfolding add_outputs
  add_outputs-IsMap [] u m = m
  add_outputs-IsMap (o ∷ os) u m =
      add_outputs-IsMap os _ (IsMap-insert (hash_output p o) (false, o) u m)

  pub apply_transactions-IsMap :
      (ts : List Transaction) (u : Utxos) → IsMap u → IsMap (apply_transactions p ts u)
  unfolding apply_transactions
  apply_transactions-IsMap [] u m = m
  apply_transactions-IsMap (t ∷ ts) u m =
      apply_transactions-IsMap ts _
        (add_outputs-IsMap t.outputs _ (spend_inputs-IsMap t.inputs u m))

module _ (p : Primitives) (start : Utxos) where
  -- A set on the way through a block that starts at `start`: what was not spent is as it was, and
  -- what was neither there nor created is not there.
  record View (gone made : List Hash) (u : Utxos) : Type 0 where
    distinct : IsMap u
    same :
        (k : Hash)
        → contains k gone ≡ false
        → contains_key k start ≡ true
        → lookup k u ≡ lookup k start
    absent :
        (k : Hash)
        → contains_key k start ≡ false
        → contains k made ≡ false
        → contains_key k u ≡ false

  abbrev output_hashes : List TransactionOutput → List Hash
  output_hashes [] = []
  output_hashes (o ∷ os) = hash_output p o ∷ output_hashes os

  abbrev pub IsKnown : TransactionInput → Type 0
  IsKnown i = contains_key i.prev_transaction_output_hash start ≡ true

  spend_step :
      (gone made : List Hash) (u : Utxos) (i : TransactionInput)
      → View gone made u
      → contains i.prev_transaction_output_hash gone ≡ false
      → IsKnown i
      → View (i.prev_transaction_output_hash ∷ gone) made (remove i.prev_transaction_output_hash u)
        × (supply (remove i.prev_transaction_output_hash u) + spent_value start i ≡ supply u)
  spend_step gone made u i v new known =
      let k = i.prev_transaction_output_hash in
      (
        record {
          distinct = IsMap-remove k u v.distinct;
          same = λ j n h. ground (arith, lookup-remove j k u, v.same j, n, h);
          absent = λ j n h. ground (arith, lookup-remove j k u, v.absent j n h);
        },
        elim (Option-cases (lookup k start)) [
          | inl missing ↦ absurd (ground (arith, missing, known))
          | inr (w, found) ↦
              ground (arith, found, v.same k new known, supply-remove k u {v = w} v.distinct)
        ],
      )

  spend_inputs-View :
      (is : List TransactionInput) (gone made : List Hash) (u : Utxos)
      → View gone made u
      → Fresh gone (spent_hashes is)
      → All IsKnown is
      → View (after gone (spent_hashes is)) made (spend_inputs p is u)
        × (supply (spend_inputs p is u) + total (spent_values start is) ≡ supply u)
  unfolding spend_inputs
  spend_inputs-View [] gone made u v f k = (v, omega arith)
  spend_inputs-View (i ∷ is) gone made u v (new, f) (known, k) =
      let (w, first) = spend_step gone made u i v new known in
      let (z, rest) = spend_inputs-View is (i.prev_transaction_output_hash ∷ gone) made _ w f k in
      (z, omega (arith, first, rest))

  create_step :
      (gone made : List Hash) (u : Utxos) (o : TransactionOutput)
      → View gone made u
      → contains (hash_output p o) made ≡ false
      → contains_key (hash_output p o) start ≡ false
      → View gone (hash_output p o ∷ made) (insert (hash_output p o) (false, o) u)
        × (supply (insert (hash_output p o) (false, o) u) ≡ supply u + o.value)
  create_step gone made u o v new missing =
      let k = hash_output p o in
      (
        record {
          distinct = IsMap-insert k (false, o) u v.distinct;
          same = λ j n h. ground (arith, lookup-insert j k (false, o) u, v.same j n h, missing);
          absent = λ j n h. ground (arith, lookup-insert j k (false, o) u, v.absent j n);
        },
        supply-insert k (false, o) u (v.absent k missing new),
      )

  abbrev IsMissing : Hash → Type 0
  IsMissing k = contains_key k start ≡ false

  add_outputs-View :
      (os : List TransactionOutput) (gone made : List Hash) (u : Utxos)
      → View gone made u
      → Fresh made (output_hashes os)
      → All IsMissing (output_hashes os)
      → View gone (after made (output_hashes os)) (add_outputs p os u)
        × (supply (add_outputs p os u) ≡ supply u + total (output_values os))
  unfolding add_outputs
  add_outputs-View [] gone made u v f m = (v, omega arith)
  add_outputs-View (o ∷ os) gone made u v (new, f) (missing, m) =
      let (w, first) = create_step gone made u o v new missing in
      let (z, rest) = add_outputs-View os gone (hash_output p o ∷ made) _ w f m in
      (z, omega (arith, first, rest))

  abbrev all_output_hashes : List Transaction → List Hash
  all_output_hashes [] = []
  all_output_hashes (t ∷ ts) = output_hashes t.outputs ++ all_output_hashes ts

  apply_transactions-View :
      (ts : List Transaction) (gone made : List Hash) (u : Utxos)
      → View gone made u
      → Fresh gone (all_spent_hashes ts)
      → All (λ (t : Transaction). All IsKnown t.inputs) ts
      → Fresh made (all_output_hashes ts)
      → All IsMissing (all_output_hashes ts)
      → IsMap (apply_transactions p ts u)
        × (supply (apply_transactions p ts u) + spent start ts ≡ supply u + created ts)
  unfolding apply_transactions
  apply_transactions-View [] gone made u v f k n m = (v.distinct, refl)
  apply_transactions-View (t ∷ ts) gone made u v f (known, k) n m =
      let (f1, f2) = Fresh-split gone (spent_hashes t.inputs) (all_spent_hashes ts) f in
      let (n1, n2) = Fresh-split made (output_hashes t.outputs) (all_output_hashes ts) n in
      let (m1, m2) = All-split IsMissing (output_hashes t.outputs) (all_output_hashes ts) m in
      let (w, taken) = spend_inputs-View t.inputs gone made u v f1 known in
      let (z, given) =
        add_outputs-View t.outputs (after gone (spent_hashes t.inputs)) made _ w n1 m1 in
      let (distinct, rest) = apply_transactions-View ts _ _ _ z f2 k n2 m2 in
      (distinct, omega (arith, taken, given, rest))

  -- The hashes of the outputs that the transactions create are all different, and none is the hash
  -- of an output that is there. Outputs carry fresh uuids for this.
  abbrev pub HasNewOutputs : List Transaction → Type 0
  HasNewOutputs ts = Fresh [] (all_output_hashes ts) × All IsMissing (all_output_hashes ts)

  IsKnown-of_lookup :
      (i : TransactionInput) (v : Bool × TransactionOutput)
      → lookup i.prev_transaction_output_hash start ≡ some v
      → IsKnown i
  IsKnown-of_lookup i v e = ground (arith, e)

  covered-IsKnown :
      (ts : List Transaction)
      → All (IsCovered p start) ts
      → All (λ (t : Transaction). All IsKnown t.inputs) ts
  covered-IsKnown ts =
      All-map _ _ (λ t c. All-map _ _ (λ i a. IsKnown-of_lookup i a.0 a.1) t.inputs c.0) ts

  -- Applying a block that passes `verify_transactions` to a set of unspent outputs, with one entry
  -- for each hash and none for the hashes of the block's different outputs, raises the value of
  -- the set by the reward of the block's height, no more and no less, and leaves one entry for
  -- each hash.
  pub supply-apply_transactions :
      (block : Block) (height : ℕ)
      → IsMap start
      → HasNewOutputs block.transactions
      → verify_transactions p start block height ≡ ok tt
      → (r : ℕ) × (block_reward height ≡ ok r)
        × (supply (apply_transactions p block.transactions start) ≡ supply start + r)
        × IsMap (apply_transactions p block.transactions start)
  supply-apply_transactions block height distinct (new, missing) h =
      let (covered, fresh) = verify_transactions_sound p start block height h in
      let (r, reward, conserved) = verify_transactions_conserves p start block height h in
      let (c, split, nothing) = verify_transactions-coinbase p start block height h in
      let (left, balance) =
        apply_transactions-View block.transactions [] [] start
          (record { distinct = distinct; same = λ k n e. refl; absent = λ k e n. e })
          (rw split (rw nothing fresh))
          (rw split (rw nothing (tt, covered-IsKnown (drop 1 block.transactions) covered))) new
          missing in
      (r, reward, omega (arith, balance, conserved), left)
