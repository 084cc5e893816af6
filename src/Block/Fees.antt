-- ===== src/Block/Fees.antt =====
-- The fees of a block, and the conservation of value by `verify_transactions`.
use grapheno.Base.{
  ℕ, ◌+◌, ◌<◌, ◌≡◌, refl, false, List, [], ◌∷◌, some, arith, drop, length, get_elem?, ok, panic,
  total, sum_from, sum_from-eq-ok, total-of-sum_from, >>=-eq-ok, u64_mod, not, ◌==◌, expect,
  fail_if, invalid_transaction, ◌≢◌,
}
use grapheno.Types.{Transaction, Block}
use grapheno.Primitives.{Primitives}
use grapheno.Block.{
  Utxos, Outputs, values, output_values, block_reward, gather, calculate_miner_fees,
  verify_coinbase_transaction, verify_transactions,
}
use grapheno.Block.Sums.{spent, created, total-gather}

module _ (p : Primitives) (utxos : Utxos) (block : Block) where
  -- The fees that are returned are what the transactions after the coinbase spend, less what
  -- they create.
  calculate_miner_fees_lem :
      {fees : ℕ}
      → calculate_miner_fees p utxos block ≡ ok fees
      → fees + created (drop 1 block.transactions) ≡ spent utxos (drop 1 block.transactions)
  unfolding calculate_miner_fees
  calculate_miner_fees_lem {fees} h =
      let (r, e, h1) = >>=-eq-ok (gather p utxos [] [] (drop 1 block.transactions)) _ h in
      let (i, f, h2) = >>=-eq-ok (sum_from 0 (values r.0)) _ h1 in
      let (o, g, h3) = >>=-eq-ok (sum_from 0 (values r.1)) _ h2 in
      ground (
        arith,
        h3,
        total-gather p utxos (drop 1 block.transactions) [] [] {r = r} e,
        total-of-sum_from 0 (values r.0) f,
        total-of-sum_from 0 (values r.1) g,
      )

  -- A block whose transactions after the coinbase pass the loops of `calculate_miner_fees`, but
  -- create more than they spend, makes it panic: it returns no error.
  pub calculate_miner_fees_overspend :
      (ins outs : Outputs)
      → gather p utxos [] [] (drop 1 block.transactions) ≡ ok (ins, outs)
      → spent utxos (drop 1 block.transactions) < created (drop 1 block.transactions)
      → created (drop 1 block.transactions) < u64_mod
      → calculate_miner_fees p utxos block ≡ panic
  unfolding calculate_miner_fees
  calculate_miner_fees_overspend ins outs e over fits =
      let (i, o) = total-gather p utxos (drop 1 block.transactions) [] [] {r = (ins, outs)} e in
      ground (arith, i, o, sum_from-eq-ok 0 (values ins), sum_from-eq-ok 0 (values outs))

head-drop {ℓ} : {A : Type ℓ} (xs : List A) {x : A} → get_elem? xs 0 ≡ some x → xs ≡ x ∷ drop 1 xs
head-drop [] h = cc
head-drop (y ∷ xs) h = ground arith

no-inputs {ℓ} : {A : Type ℓ} (xs : List A) → not (length xs == 0) ≡ false → xs ≡ []
no-inputs [] h = refl
no-inputs (x ∷ xs) h = absurd (ground arith)

module _ (p : Primitives) (utxos : Utxos) (block : Block) (height : ℕ) where
  -- What a passing coinbase says: it spends nothing, and pays the reward and the fees.
  coinbase_pays :
      verify_coinbase_transaction p utxos block height ≡ ok tt
      → (r : ℕ) × (fees : ℕ) × (c : Transaction) × (block_reward height ≡ ok r)
        × (calculate_miner_fees p utxos block ≡ ok fees)
        × (block.transactions ≡ c ∷ drop 1 block.transactions)
        × (c.inputs ≡ [])
        × (total (output_values c.outputs) ≡ r + fees)
  unfolding verify_coinbase_transaction
  coinbase_pays h =
      let (c, e1, h1) = >>=-eq-ok (expect (get_elem? block.transactions 0)) _ h in
      let (_, e2, h2) = >>=-eq-ok (fail_if (not (length c.inputs == 0)) invalid_transaction) _ h1 in
      let (_, e3, h3) = >>=-eq-ok (fail_if (length c.outputs == 0) invalid_transaction) _ h2 in
      let (fees, e4, h4) = >>=-eq-ok (calculate_miner_fees p utxos block) _ h3 in
      let (r, e5, h5) = >>=-eq-ok (block_reward height) _ h4 in
      let (t, e6, h6) = >>=-eq-ok (sum_from 0 (output_values c.outputs)) _ h5 in
      (
        r,
        fees,
        c,
        e5,
        e4,
        head-drop block.transactions (ground arith),
        no-inputs c.inputs (ground arith),
        ground (arith, h6, total-of-sum_from 0 (output_values c.outputs) e6),
      )

  -- A block that passes `verify_transactions` creates the value that it spends and the reward of
  -- its height, no more and no less.
  pub verify_transactions_conserves :
      verify_transactions p utxos block height ≡ ok tt
      → (r : ℕ) × (block_reward height ≡ ok r)
        × (created block.transactions ≡ r + spent utxos block.transactions)
  unfolding verify_transactions
  verify_transactions_conserves h =
      let (_, e1, h1) =
        >>=-eq-ok (fail_if (length block.transactions == 0) invalid_transaction) _ h in
      let (_, e2, h2) = >>=-eq-ok (verify_coinbase_transaction p utxos block height) _ h1 in
      let (r, fees, c, reward, paid, split, nothing, pays) = coinbase_pays (ground arith) in
      (
        r,
        reward,
        rw split (rw nothing (omega (arith, pays, calculate_miner_fees_lem p utxos block paid))),
      )

  -- A block that passes has a first transaction, which spends nothing.
  pub verify_transactions-coinbase :
      verify_transactions p utxos block height ≡ ok tt
      → (c : Transaction) × (block.transactions ≡ c ∷ drop 1 block.transactions) × (c.inputs ≡ [])
  unfolding verify_transactions
  verify_transactions-coinbase h =
      let (_, e1, h1) =
        >>=-eq-ok (fail_if (length block.transactions == 0) invalid_transaction) _ h in
      let (_, e2, h2) = >>=-eq-ok (verify_coinbase_transaction p utxos block height) _ h1 in
      let (r, fees, c, reward, paid, split, nothing, pays) = coinbase_pays (ground arith) in
      (c, split, nothing)

  -- A block with a well-formed coinbase, and further transactions that spend existing outputs
  -- once each and create outputs of different hashes, but of more value than they spend, makes
  -- `verify_transactions` panic, when the value created is below 2^64.
  verify_transactions_overspend :
      (c : Transaction) (ins outs : Outputs)
      → get_elem? block.transactions 0 ≡ some c
      → c.inputs ≡ []
      → c.outputs ≢ []
      → gather p utxos [] [] (drop 1 block.transactions) ≡ ok (ins, outs)
      → spent utxos (drop 1 block.transactions) < created (drop 1 block.transactions)
      → created (drop 1 block.transactions) < u64_mod
      → verify_transactions p utxos block height ≡ panic
  unfolding verify_transactions verify_coinbase_transaction
  verify_transactions_overspend c ins outs e none_spent pays g over fits =
      ground (arith, calculate_miner_fees_overspend p utxos block ins outs g over fits)
