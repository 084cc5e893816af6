-- ===== src/Block.antt =====
-- `Block` of lib/src/types/block.rs: the miner's fees, the coinbase, and the check of the
-- transactions. Arithmetic on `u64` panics where it overflows.
pub mod Sums
pub mod Fees
pub mod Spends
mod Tests
use grapheno.Base.{
  ℕ, ◌+◌, ◌*◌, ◌/◌, ◌%◌, ◌^◌, Bool, not, List, [], ◌∷◌, map, Option, none, some, arith, length,
  drop, get_elem?, ltb, ◌==◌, text_eq, if◌then◌else◌, Map, lookup, insert, contains_key, Outcome,
  ok, err, panic, ◌>>=◌, ◌>>◌, fail_if, or_err, expect, add_u64, sub_u64, sum_from, u64_mod,
  invalid_transaction, invalid_transaction_input, invalid_transaction_output, invalid_signature,
}
use grapheno.Types.{
  TransactionInput, TransactionOutput, Transaction, Block, initial_reward, halving_interval,
}
use grapheno.Primitives.{Primitives}
use grapheno.Hashing.{hash_output}
use grapheno.Crypto.{to_address, verify}

-- The unspent outputs by their hash, each with its mark.
abbrev pub Utxos : Type 0
Utxos = Map (Bool × TransactionOutput)

abbrev pub Outputs : Type 0
Outputs = Map TransactionOutput

abbrev pub values : Outputs → List ℕ
values m = map (λ e. e.1.value) m

abbrev pub output_values : List TransactionOutput → List ℕ
output_values os = map (λ o. o.value) os

-- `INITIAL_REWARD * 10u64.pow(8)`
abbrev pub full_reward : ℕ
full_reward = initial_reward * 10 ^ 8

-- The reward in `verify_coinbase_transaction`: `2u64.pow` panics from the exponent 64 on.
unfoldable pub block_reward : ℕ → Outcome ℕ
block_reward height =
    let exponent = height / halving_interval % 2 ^ 32 in
    if ltb exponent 64 then ok (full_reward / 2 ^ exponent) else panic

module _ (p : Primitives) (utxos : Utxos) where
  -- The loop over the inputs in `calculate_miner_fees`.
  pub gather_inputs : Outputs → List TransactionInput → Outcome Outputs
  gather_inputs inputs [] = ok inputs
  gather_inputs inputs (input ∷ rest) = do
    (_, prev_output) ← or_err (lookup input.prev_transaction_output_hash utxos) invalid_transaction
    fail_if (contains_key input.prev_transaction_output_hash inputs) invalid_transaction
    gather_inputs (insert input.prev_transaction_output_hash prev_output inputs) rest

  -- The loop over the outputs in `calculate_miner_fees`.
  pub gather_outputs : Outputs → List TransactionOutput → Outcome Outputs
  gather_outputs outputs [] = ok outputs
  gather_outputs outputs (output ∷ rest) = do
    fail_if (contains_key (hash_output p output) outputs) invalid_transaction
    gather_outputs (insert (hash_output p output) output outputs) rest

  pub gather : Outputs → Outputs → List Transaction → Outcome (Outputs × Outputs)
  gather inputs outputs [] = ok (inputs, outputs)
  gather inputs outputs (t ∷ ts) = do
    inputs' ← gather_inputs inputs t.inputs
    outputs' ← gather_outputs outputs t.outputs
    gather inputs' outputs' ts

  -- `Block::calculate_miner_fees`
  unfoldable pub calculate_miner_fees : Block → Outcome ℕ
  unfolding gather_inputs gather_outputs gather
  calculate_miner_fees block = do
    (inputs, outputs) ← gather [] [] (drop 1 block.transactions)
    input_value ← sum_from 0 (values inputs)
    output_value ← sum_from 0 (values outputs)
    sub_u64 input_value output_value

  -- `Block::verify_coinbase_transaction`
  unfoldable pub verify_coinbase_transaction : Block → ℕ → Outcome (Unit {0})
  unfolding calculate_miner_fees block_reward
  verify_coinbase_transaction block predicted_block_height = do
    coinbase ← expect (get_elem? block.transactions 0)
    fail_if (not (length coinbase.inputs == 0)) invalid_transaction
    fail_if (length coinbase.outputs == 0) invalid_transaction
    miner_fees ← calculate_miner_fees block
    reward ← block_reward predicted_block_height
    total_coinbase_outputs ← sum_from 0 (output_values coinbase.outputs)
    expected ← add_u64 reward miner_fees
    fail_if (not (total_coinbase_outputs == expected)) invalid_transaction

  -- The loop over the inputs in `verify_transactions`: the outputs spent so far, and the value of
  -- this transaction's inputs so far.
  unfoldable pub verify_inputs : Outputs → ℕ → List TransactionInput → Outcome (Outputs × ℕ)
  verify_inputs inputs input_value [] = ok (inputs, input_value)
  verify_inputs inputs input_value (input ∷ rest) = do
    (_, prev_output) ←
        or_err (lookup input.prev_transaction_output_hash utxos) invalid_transaction_input
    fail_if (contains_key input.prev_transaction_output_hash inputs) invalid_transaction_input
    fail_if (not (text_eq (to_address p input.public_key) prev_output.address)) invalid_signature
    fail_if (not (verify p input.signature input.prev_transaction_output_hash input.public_key))
        invalid_signature
    input_value' ← add_u64 input_value prev_output.value
    verify_inputs (insert input.prev_transaction_output_hash prev_output inputs) input_value' rest

  -- The loop over the transactions after the coinbase.
  unfoldable pub verify_rest : Outputs → List Transaction → Outcome (Unit {0})
  verify_rest inputs [] = ok tt
  verify_rest inputs (t ∷ ts) = do
    (inputs', input_value) ← verify_inputs inputs 0 t.inputs
    output_value ← sum_from 0 (output_values t.outputs)
    fail_if (ltb input_value output_value) invalid_transaction_output
    verify_rest inputs' ts

  -- `Block::verify_transactions`
  unfoldable pub verify_transactions : Block → ℕ → Outcome (Unit {0})
  unfolding verify_coinbase_transaction verify_inputs verify_rest
  verify_transactions block predicted_block_height = do
    fail_if (length block.transactions == 0) invalid_transaction
    verify_coinbase_transaction block predicted_block_height
    verify_rest [] (drop 1 block.transactions)
