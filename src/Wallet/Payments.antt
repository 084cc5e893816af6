-- ===== src/Wallet/Payments.antt =====
-- `create_transaction`: what it spends, under whose signature, and that no value is lost.
use grapheno.Base.{
  ℕ, ◌+◌, ◌-◌, ◌≡◌, refl, sym, ap, subst, ◌∙◌, Bool, true, false, not, List, [], ◌∷◌, ◌++◌, some,
  inl, inr, ltb, leb, ◌==◌, Bool-cases, add_u64, total, arith, All, Text,
}
use grapheno.Types.{TransactionInput, TransactionOutput, Transaction}
use grapheno.Primitives.{Primitives}
use grapheno.Hashing.{hash_output}
use grapheno.Crypto.{to_address, sign_output}
use grapheno.Block.{output_values}
use grapheno.Wallet.{
  LoadedKey, Owned, UtxoStore, Made, made, refused, summed, found_or, find_key, find_private,
  has_utxos, log_totals, signed_input, pick, pick_all, output_for, with_change, finish,
  create_transaction, no_unspent_utxos, no_public_key, no_private_key,
}
use grapheno.Wallet.Inversion.{
  In, made_inj, and_then-eq-made, summed-eq-made, found_or-eq-made, find_private-In, List-cases,
}

module _ (p : Primitives) (store : UtxoStore) where
  -- The input spends the output: one of the wallet's, not marked, under the key of its address,
  -- with a signature of the private key that the wallet has for it.
  pub record IsChosen (i : TransactionInput) (o : TransactionOutput) : Type 0 where
    pub owner : Owned
    pub owned : In owner store.utxos
    pub unmarked : In (false, o) owner.1
    pub spends : i.prev_transaction_output_hash ≡ hash_output p o
    pub addressed : find_key owner.0 store.address_to_key ≡ some i.public_key
    pub key : LoadedKey
    pub held : In key store.my_keys
    pub same_key : key.public ≡ i.public_key
    pub signed : i.signature ≡ sign_output p (hash_output p o) key.private

  abbrev pub AllChosen : List TransactionInput → List TransactionOutput → Type 0
  AllChosen [] [] = Unit
  AllChosen [] (o ∷ os) = ⊥
  AllChosen (i ∷ is) [] = ⊥
  AllChosen (i ∷ is) (o ∷ os) = IsChosen i o × AllChosen is os

  AllChosen-snoc :
      (is : List TransactionInput) (os : List TransactionOutput) (i : TransactionInput)
      (o : TransactionOutput)
      → AllChosen is os
      → IsChosen i o
      → AllChosen (is ++ i ∷ []) (os ++ o ∷ [])
  AllChosen-snoc [] [] i o h c = (c, tt)
  AllChosen-snoc [] (q ∷ os) i o h c = absurd h
  AllChosen-snoc (j ∷ is) [] i o h c = absurd h
  AllChosen-snoc (j ∷ is) (q ∷ os) i o h c = (h.0, AllChosen-snoc is os i o h.1 c)

  total-snoc :
      (os : List TransactionOutput) (o : TransactionOutput)
      → total (output_values (os ++ o ∷ [])) ≡ total (output_values os) + o.value
  total-snoc [] o = omega arith
  total-snoc (q ∷ os) o = omega (arith, total-snoc os o)

  -- The inputs stand for chosen outputs, and the sum is that of their values.
  abbrev IsPicked : List TransactionInput × ℕ → Type 0
  IsPicked r = (os : List TransactionOutput) × AllChosen r.0 os × (r.1 ≡ total (output_values os))

  module _ (e : Owned) (here_owned : In e store.utxos) (k : LoadedKey)
      (here_key : In k store.my_keys)
      (address : find_key e.0 store.address_to_key ≡ some k.public) where
    pick-IsPicked :
        (amount : ℕ) (us : List (Bool × TransactionOutput))
        → ((o : TransactionOutput) → In (false, o) us → In (false, o) e.1)
        → (r : List TransactionInput × ℕ) {r' : List TransactionInput × ℕ} → IsPicked r
        → pick p k.public k.private amount us r ≡ made r'
        → IsPicked r'
    unfolding pick
    pick-IsPicked amount [] sub r {r'} good h = subst IsPicked (made_inj r r' h) good
    pick-IsPicked amount ((true, o) ∷ us) sub (is, sum) {r'} good h =
        pick-IsPicked amount us (λ q there. sub q (inr there)) (is, sum) {r' = r'} good h
    pick-IsPicked amount ((false, o) ∷ us) sub (is, sum) {r'} (os, chosen, adds) h =
        elim (Bool-cases (leb amount sum)) [
          | inl enough ↦ subst IsPicked (made_inj (is, sum) r' (rw enough at h)) (os, chosen, adds)
          | inr more ↦
              let (sum', e1, h1) =
                and_then-eq-made (summed (add_u64 sum o.value)) _ (rw more at h) in
              let added = summed-eq-made (add_u64 sum o.value) e1 in
              pick-IsPicked amount us (λ q there. sub q (inr there))
                (is ++ signed_input p k.public k.private o ∷ [], sum') {r' = r'}
                (
                  os ++ o ∷ [],
                  AllChosen-snoc is os (signed_input p k.public k.private o) o chosen (record {
                    owner = e;
                    owned = here_owned;
                    unmarked = sub o (inl refl);
                    spends = refl;
                    addressed = address;
                    key = k;
                    held = here_key;
                    same_key = refl;
                    signed = refl;
                  }),
                  ground (arith, added, adds, total-snoc os o),
                )
                h1
        ]

  pick_all-IsPicked :
      (amount : ℕ) (es : List Owned)
      → ((e : Owned) → In e es → In e store.utxos)
      → (r : List TransactionInput × ℕ) {r' : List TransactionInput × ℕ} → IsPicked r
      → pick_all p store amount es r ≡ made r'
      → IsPicked r'
  unfolding pick_all
  pick_all-IsPicked amount [] sub r {r'} good h = subst IsPicked (made_inj r r' h) good
  pick_all-IsPicked amount ((address, us) ∷ es) sub r {r'} good h =
      let (public, e1, h1) =
        and_then-eq-made (found_or no_public_key (find_key address store.address_to_key)) _ h in
      let (private, e2, h2) =
        and_then-eq-made (found_or no_private_key (find_private public store.my_keys)) _ h1 in
      let (r1, e3, h3) = and_then-eq-made (pick p public private amount us r) _ h2 in
      let found =
        found_or-eq-made no_public_key (find_key address store.address_to_key) {x = public} e1 in
      let held =
        found_or-eq-made no_private_key (find_private public store.my_keys) {x = private} e2 in
      let (k, there, same, kept) = find_private-In public store.my_keys {private = private} held in
      let picked =
        pick-IsPicked (address, us) (sub (address, us) (inl refl)) k there
          (found ∙ ap some (sym same)) amount us (λ o o_there. o_there) r {r' = r1} good
          (rw (same, kept) e3) in
      elim (Bool-cases (leb amount r1.1)) [
        | inl enough ↦ subst IsPicked (made_inj r1 r' (rw enough at h3)) picked
        | inr more ↦
            pick_all-IsPicked amount es (λ e e_there. sub e (inr e_there)) r1 {r' = r'} picked
              (rw more at h3)
      ]

  -- Change: an output to the wallet's first key.
  abbrev pub IsChange : TransactionOutput → Type 0
  IsChange o =
      (k : LoadedKey) × (ks : List LoadedKey) × (store.my_keys ≡ k ∷ ks)
      × (o.address ≡ to_address p k.public)

  -- The payment comes first, and behind it is nothing but change.
  abbrev pub Pays : TransactionOutput → List TransactionOutput → Type 0
  Pays payment outputs =
      (rest : List TransactionOutput) × (outputs ≡ payment ∷ rest) × All IsChange rest

  with_change-Pays :
      (change unique_id : ℕ) (payment : TransactionOutput) {os : List TransactionOutput}
      → with_change p store change unique_id payment ≡ made os
      → Pays payment os
  unfolding with_change
  with_change-Pays change unique_id payment {os} h = elim (Bool-cases (change == 0)) [
    | inl exact ↦ subst (Pays payment) (made_inj (payment ∷ []) os (rw exact at h)) ([], refl, tt)
    | inr over ↦ elim (List-cases store.my_keys) [
      | inl no_keys ↦ absurd (ground (arith, over, no_keys, h))
      | inr (k, ks, keys) ↦
          let back = output_for p (to_address p k.public) change unique_id in
          subst (Pays payment) (made_inj (payment ∷ back ∷ []) os (rw (over, keys) at h))
            (back ∷ [], refl, ((k, ks, keys, refl), tt))
    ]
  ]

  with_change-total :
      (change unique_id : ℕ) (payment : TransactionOutput) {os : List TransactionOutput}
      → with_change p store change unique_id payment ≡ made os
      → total (output_values os) ≡ payment.value + change
  unfolding with_change
  with_change-total change unique_id payment {os} h = elim (Bool-cases (change == 0)) [
    | inl exact ↦
        subst (λ xs. total (output_values xs) ≡ payment.value + change)
          (made_inj (payment ∷ []) os (rw exact at h)) (ground (arith, exact))
    | inr over ↦ elim (List-cases store.my_keys) [
      | inl no_keys ↦ absurd (ground (arith, over, no_keys, h))
      | inr (k, ks, keys) ↦
          subst (λ xs. total (output_values xs) ≡ payment.value + change)
            (made_inj (payment ∷ output_for p (to_address p k.public) change unique_id ∷ []) os
              (rw (over, keys) at h))
            (omega arith)
    ]
  ]

  -- What `create_transaction` has made: a payment of the amount to the recipient, change, and the
  -- outputs that the inputs spend.
  pub record IsPayment (recipient : Text) (amount fee unique_id : ℕ) (t : Transaction)
      : Type 0 where
    pub pays : Pays (output_for p recipient amount unique_id) t.outputs
    pub chosen : List TransactionOutput
    pub inputs_chosen : AllChosen t.inputs chosen
    pub balanced : total (output_values t.outputs) + fee ≡ total (output_values chosen)

  finish-IsPayment :
      (amount fee total_amount : ℕ) (ids : ℕ × ℕ) (address : Text) (r : List TransactionInput × ℕ)
      (t : Transaction)
      → total_amount ≡ amount + fee
      → IsPicked r
      → finish p store amount total_amount ids address r ≡ made t
      → IsPayment address amount fee ids.0 t
  finish-IsPayment amount fee total_amount ids address (is, sum) t e (os, chosen, adds) h =
      elim (Bool-cases (ltb sum total_amount)) [
        | inl short ↦ absurd (ground (arith, short, h))
        | inr enough ↦
            let payment = output_for p address amount ids.0 in
            let (outputs, made_outputs, last) =
              and_then-eq-made (with_change p store (sum - total_amount) ids.1 payment) _
                (rw enough at h) in
            let sums =
              with_change-total (sum - total_amount) ids.1 payment {os = outputs} made_outputs in
            subst (IsPayment address amount fee ids.0)
              (made_inj (record { inputs = is; outputs = outputs }) t last)
              (record {
                pays =
                    with_change-Pays (sum - total_amount) ids.1 payment {os = outputs} made_outputs;
                chosen = os;
                inputs_chosen = chosen;
                balanced = ground (arith, sums, e, enough, adds);
              })
      ]

  -- A transaction that `create_transaction` makes has the amount for the recipient as its first
  -- output, and behind it only change to the wallet's first key; it spends outputs of the wallet
  -- that are not marked, each under the key of its address and the signature of that key's private
  -- half; and what it creates and the fee come to exactly what it spends.
  pub create_transaction-IsPayment :
      (fee : ℕ) (ids : ℕ × ℕ) (recipient : Text) (amount : ℕ) (t : Transaction)
      → create_transaction p fee ids recipient amount store ≡ made t
      → IsPayment recipient amount fee ids.0 t
  unfolding create_transaction
  create_transaction-IsPayment fee ids recipient amount t h =
      let (total_amount, e1, h1) = and_then-eq-made (summed (add_u64 amount fee)) _ h in
      let sum = summed-eq-made (add_u64 amount fee) {x = total_amount} e1 in
      elim (Bool-cases (not (has_utxos p store.utxos))) [
        | inl nothing ↦
            let fails : ◌≡◌ {A = Made Transaction} (refused no_unspent_utxos) (made t) =
              rw nothing at h1 in
            absurd cc
        | inr some_left ↦
            let (_, e2, h2) = and_then-eq-made (log_totals store.utxos) _ (rw some_left at h1) in
            let (r, e3, h3) =
              and_then-eq-made (pick_all p store total_amount store.utxos ([], 0)) _ h2 in
            finish-IsPayment amount fee total_amount ids recipient r t (ground (arith, sum))
              (pick_all-IsPicked total_amount store.utxos (λ e there. there) ([], 0) {r' = r}
                ([], tt, refl) e3)
              h3
      ]
