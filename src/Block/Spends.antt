-- ===== src/Block/Spends.antt =====
-- Who may spend: the loop over the inputs in `verify_transactions`.
use grapheno.Base.{
  ℕ, ◌+◌, ◌≤◌, ◌≡◌, refl, true, false, not, List, [], ◌∷◌, ◌++◌, some, arith, drop, length, ltb,
  ◌==◌, All, lookup, insert, lookup-insert, contains, contains_key, text_eq, text_eq→eq, ok, or_err,
  fail_if, add_u64, sum_from, total, ap, ◌∙◌, total-of-sum_from, >>=-eq-ok, invalid_transaction,
  invalid_transaction_input, invalid_transaction_output, invalid_signature, Bool,
}
use grapheno.Types.{Hash, TransactionInput, TransactionOutput, Transaction, Block}
use grapheno.Primitives.{Primitives}
use grapheno.Crypto.{to_address, verify}
use grapheno.Block.{
  Utxos, Outputs, output_values, verify_inputs, verify_rest, verify_coinbase_transaction,
  verify_transactions,
}
use grapheno.Block.Sums.{spent_values}

-- The input names an unspent output whose address is that of the input's key, and bears that
-- key's signature of the output's hash.
abbrev pub IsAuthorised : Primitives → Utxos → TransactionInput → Type 0
IsAuthorised p utxos input =
    (utxo : Bool × TransactionOutput) × (lookup input.prev_transaction_output_hash utxos
      ≡ some utxo)
    × (to_address p input.public_key ≡ utxo.1.address)
    × (verify p input.signature input.prev_transaction_output_hash input.public_key ≡ true)

abbrev pub spent_hashes : List TransactionInput → List Hash
spent_hashes [] = []
spent_hashes (i ∷ is) = i.prev_transaction_output_hash ∷ spent_hashes is

abbrev pub all_spent_hashes : List Transaction → List Hash
all_spent_hashes [] = []
all_spent_hashes (t ∷ ts) = spent_hashes t.inputs ++ all_spent_hashes ts

-- No hash of the list is among those seen, nor stands in the list before.
abbrev pub Fresh : List Hash → List Hash → Type 0
Fresh seen [] = Unit
Fresh seen (k ∷ ks) = (contains k seen ≡ false) × Fresh (k ∷ seen) ks

abbrev pub after : List Hash → List Hash → List Hash
after seen [] = seen
after seen (k ∷ ks) = after (k ∷ seen) ks

Fresh-append :
    (seen ks ls : List Hash) → Fresh seen ks → Fresh (after seen ks) ls → Fresh seen (ks ++ ls)
Fresh-append seen [] ls f g = g
Fresh-append seen (k ∷ ks) ls f g = (f.0, Fresh-append (k ∷ seen) ks ls f.1 g)

pub Fresh-split :
    (seen ks ls : List Hash) → Fresh seen (ks ++ ls) → Fresh seen ks × Fresh (after seen ks) ls
Fresh-split seen [] ls f = (tt, f)
Fresh-split seen (k ∷ ks) ls f =
    let (front, back) = Fresh-split (k ∷ seen) ks ls f.1 in ((f.0, front), back)

-- The map has the keys of the list.
abbrev Agrees : List Hash → Outputs → Type 0
Agrees seen m = (k : Hash) → contains_key k m ≡ contains k seen

Agrees-insert :
    (seen : List Hash) (m : Outputs) (k : Hash) (o : TransactionOutput)
    → Agrees seen m
    → Agrees (k ∷ seen) (insert k o m)
Agrees-insert seen m k o a j = ground (arith, a j, lookup-insert j k o m)

-- A transaction's own promise: its inputs are authorised, and it creates no more than they hold.
abbrev pub IsCovered : Primitives → Utxos → Transaction → Type 0
IsCovered p utxos t =
    All (IsAuthorised p utxos) t.inputs
    × (total (output_values t.outputs) ≤ total (spent_values utxos t.inputs))

module _ (p : Primitives) (utxos : Utxos) where
  -- One turn of the loop.
  verify_input_step :
      (i : TransactionInput) (is : List TransactionInput) (m : Outputs) (v : ℕ) {r : Outputs × ℕ}
      → verify_inputs p utxos m v (i ∷ is) ≡ ok r
      → (a : IsAuthorised p utxos i) × (contains_key i.prev_transaction_output_hash m ≡ false)
        × (verify_inputs p utxos
              (insert i.prev_transaction_output_hash a.0.1 m)
              (v + a.0.1.value)
              is
            ≡ ok r)
  unfolding verify_inputs
  verify_input_step i is m v h =
      let (u, e1, h1) =
        >>=-eq-ok (or_err (lookup i.prev_transaction_output_hash utxos) invalid_transaction_input) _
          h in
      let (_, e2, h2) =
        >>=-eq-ok
          (fail_if (contains_key i.prev_transaction_output_hash m) invalid_transaction_input) _
          h1 in
      let (_, e3, h3) =
        >>=-eq-ok
          (fail_if (not (text_eq (to_address p i.public_key) u.1.address)) invalid_signature) _
          h2 in
      let (_, e4, h4) =
        >>=-eq-ok
          (fail_if (not (verify p i.signature i.prev_transaction_output_hash i.public_key))
            invalid_signature)
          _ h3 in
      let (v', e5, h5) = >>=-eq-ok (add_u64 v u.1.value) _ h4 in
      (
        (
          u,
          ground arith,
          ground (arith, text_eq→eq (to_address p i.public_key) u.1.address),
          ground arith,
        ),
        ground arith,
        ground arith,
      )

  verify_inputs_nil :
      (m : Outputs) (v : ℕ) (r : Outputs × ℕ) → verify_inputs p utxos m v [] ≡ ok r → r ≡ (m, v)
  unfolding verify_inputs
  verify_inputs_nil m v r h = ground arith

  verify_inputs_sound :
      (is : List TransactionInput) (seen : List Hash) (m : Outputs) (v : ℕ) {r : Outputs × ℕ}
      → Agrees seen m
      → verify_inputs p utxos m v is ≡ ok r
      → All (IsAuthorised p utxos) is
        × Fresh seen (spent_hashes is)
        × Agrees (after seen (spent_hashes is)) r.0
        × (r.1 ≡ v + total (spent_values utxos is))
  verify_inputs_sound [] seen m v {r} a h =
      let e = verify_inputs_nil m v r h in
      (tt, tt, λ k. ap (λ s. contains_key k s.0) e ∙ a k, omega (arith, ap (λ s. s.1) e))
  verify_inputs_sound (i ∷ is) seen m v {r} a h =
      let (auth, new, rest) = verify_input_step i is m v h in
      let (auths, fresh, agrees, sum) =
        verify_inputs_sound is (i.prev_transaction_output_hash ∷ seen) _ _ {r = r}
          (Agrees-insert seen m i.prev_transaction_output_hash auth.0.1 a) rest in
      (
        (auth, auths),
        (ground (arith, a i.prev_transaction_output_hash), fresh),
        agrees,
        ground (arith, auth.1),
      )

  verify_rest_sound :
      (ts : List Transaction) (seen : List Hash) (m : Outputs)
      → Agrees seen m
      → verify_rest p utxos m ts ≡ ok tt
      → All (IsCovered p utxos) ts × Fresh seen (all_spent_hashes ts)
  unfolding verify_rest
  verify_rest_sound [] seen m a h = (tt, tt)
  verify_rest_sound (t ∷ ts) seen m a h =
      let (r, e1, h1) = >>=-eq-ok (verify_inputs p utxos m 0 t.inputs) _ h in
      let (o, e2, h2) = >>=-eq-ok (sum_from 0 (output_values t.outputs)) _ h1 in
      let (_, e3, h3) = >>=-eq-ok (fail_if (ltb r.1 o) invalid_transaction_output) _ h2 in
      let (auths, fresh, agrees, sum) = verify_inputs_sound t.inputs seen m 0 {r = r} a e1 in
      let (covered, later) =
        verify_rest_sound ts (after seen (spent_hashes t.inputs)) r.0 agrees h3 in
      (
        ((auths, ground (arith, e3, total-of-sum_from 0 (output_values t.outputs) e2)), covered),
        Fresh-append seen (spent_hashes t.inputs) (all_spent_hashes ts) fresh later,
      )

  -- In a block that passes `verify_transactions`, every input behind the coinbase names an existing
  -- unspent output of its key's address under a valid signature of that key, no transaction
  -- creates more than it spends, and no output is spent twice in the block.
  pub verify_transactions_sound :
      (block : Block) (height : ℕ)
      → verify_transactions p utxos block height ≡ ok tt
      → All (IsCovered p utxos) (drop 1 block.transactions)
        × Fresh [] (all_spent_hashes (drop 1 block.transactions))
  unfolding verify_transactions lookup
  verify_transactions_sound block height h =
      let (_, e1, h1) =
        >>=-eq-ok (fail_if (length block.transactions == 0) invalid_transaction) _ h in
      let (_, e2, h2) = >>=-eq-ok (verify_coinbase_transaction p utxos block height) _ h1 in
      verify_rest_sound (drop 1 block.transactions) [] [] (λ k. refl) h2
