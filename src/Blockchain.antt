-- ===== src/Blockchain.antt =====
-- `Blockchain` of lib/src/types/blockchain.rs, but for the mempool's methods (module Mempool).
-- A method returns how it ended beside the new state; an error or a panic keeps what was written.
pub mod Target
pub mod Chain
pub mod Unspent
pub mod Reward
pub mod Supply
mod Tests
use grapheno.Base.{
  ℕ, ◌+◌, ◌-◌, ◌*◌, ◌/◌, ◌%◌, ◌^◌, min, Bool, true, false, not, List, [], ◌∷◌, ◌++◌, map, Option,
  none, some, length, get_elem?, last?, retain, ltb, leb, ◌==◌, if◌then◌else◌, ℤ, diff_div,
  contains, insert, remove, Outcome, ok, err, panic, ◌>>=◌, ◌>>◌, expect, fail_if, u256_mod,
  invalid_block, invalid_merkle_root,
}
use grapheno.Types.{
  Hash, DateTime, TransactionInput, TransactionOutput, Transaction, Block, nanos_per_second,
  min_target, halving_interval, difficulty_update_interval, ideal_block_time,
}
use grapheno.Primitives.{Primitives}
use grapheno.Hashing.{
  hash_block, hash_header, hash_transaction, hash_output, matches_target, zero_hash,
}
use grapheno.Merkle.{calculate}
use grapheno.Block.{Utxos, full_reward, verify_transactions}

pub record Blockchain : Type 0 where
  pub utxos : Utxos
  pub target : ℕ
  pub blocks : List Block
  pub mempool : List (DateTime × Transaction)

-- `Blockchain::new`
abbrev pub new : Blockchain
new = record { utxos = []; target = min_target; blocks = []; mempool = [] }

abbrev pub block_height : Blockchain → ℕ
block_height c = length c.blocks

abbrev pub Done : Type 0
Done = Outcome (Unit {0}) × Blockchain

-- What follows a call that ended well.
abbrev pub continue : Done → (Blockchain → Done) → Done
continue (ok _, c) f = f c
continue (err e, c) f = (err e, c)
continue (panic, c) f = (panic, c)

abbrev pub timestamp_of : Option Block → DateTime
timestamp_of none = 0
timestamp_of (some b) = b.header.timestamp

-- The new target is held between a quarter and four times the old one. `U256` panics where a
-- product overflows.
unfoldable pub clamp : ℕ → ℕ → Outcome ℕ
clamp target new_target =
    if ltb new_target (target / 4)
    then ok (target / 4)
    else if not (ltb (target * 4) u256_mod)
    then panic
    else if ltb (target * 4) new_target
    then ok (target * 4)
    else ok new_target

-- `Blockchain::calculate_block_reward`: a shift of a `u64` by 64 or more panics.
unfoldable pub calculate_block_reward : Blockchain → Outcome ℕ
calculate_block_reward c =
    let halvings = block_height c / halving_interval in
    if ltb halvings 64 then ok (full_reward / 2 ^ halvings) else panic

-- The end of `try_adjust_target`: at most `MIN_TARGET`.
pub set_target : Blockchain → Outcome ℕ → Done
set_target c (ok t) = (ok tt, record c { target = min t min_target })
set_target c (err e) = (err e, c)
set_target c panic = (panic, c)

module _ (p : Primitives) where
  -- The target after the last `difficulty_update_interval` blocks.
  unfoldable pub new_target : Blockchain → Outcome ℕ
  unfolding clamp
  new_target c =
      let start_time =
        timestamp_of (get_elem? c.blocks (block_height c - difficulty_update_interval)) in
      let end_time = timestamp_of (last? c.blocks) in
      let time_diff_seconds = diff_div end_time start_time nanos_per_second in
      let target_seconds = ideal_block_time * difficulty_update_interval in
      do
        scaled ← expect (p.scale_decimal c.target time_diff_seconds target_seconds)
        clamp c.target scaled

  -- `Blockchain::try_adjust_target`
  unfoldable pub try_adjust_target : Blockchain → Done
  try_adjust_target c =
      if block_height c == 0
      then (ok tt, c)
      else if not (block_height c % difficulty_update_interval == 0)
      then (ok tt, c)
      else set_target c (new_target c)

  -- The tests of `add_block`, against the last block, if there is one.
  unfoldable pub check_block : Option Block → Utxos → ℕ → Block → Outcome (Unit {0})
  check_block none utxos height block =
      fail_if (not (block.header.prev_block_hash == zero_hash)) invalid_block
  check_block (some last_block) utxos height block = do
    fail_if (not (block.header.prev_block_hash == hash_block p last_block)) invalid_block
    fail_if (not (matches_target (hash_header p block.header) block.header.target)) invalid_block
    fail_if (not (calculate p block.transactions == block.header.merkle_root)) invalid_merkle_root
    fail_if (leb block.header.timestamp last_block.header.timestamp) invalid_block
    verify_transactions p utxos block height

  -- The mempool without the block's transactions, and the block at the end of the chain.
  unfoldable pub push_block : Block → Blockchain → Blockchain
  push_block block c =
      let block_transactions = map (hash_transaction p) block.transactions in
      record c {
        mempool =
            retain (λ e. not (contains (hash_transaction p e.1) block_transactions)) c.mempool;
        blocks = c.blocks ++ block ∷ [];
      }

  -- `Blockchain::add_block`
  unfoldable pub add_block : Block → Blockchain → Done
  add_block block c = elim (check_block (last? c.blocks) c.utxos (block_height c) block) [
    | ok _ ↦ try_adjust_target (push_block block c)
    | err e ↦ (err e, c)
    | panic ↦ (panic, c)
  ]

  -- The loops of `rebuild_utxos`.
  pub spend_inputs : List TransactionInput → Utxos → Utxos
  spend_inputs [] u = u
  spend_inputs (i ∷ is) u = spend_inputs is (remove i.prev_transaction_output_hash u)

  pub add_outputs : List TransactionOutput → Utxos → Utxos
  add_outputs [] u = u
  add_outputs (o ∷ os) u = add_outputs os (insert (hash_output p o) (false, o) u)

  pub apply_transactions : List Transaction → Utxos → Utxos
  apply_transactions [] u = u
  apply_transactions (t ∷ ts) u =
      apply_transactions ts (add_outputs t.outputs (spend_inputs t.inputs u))

  pub apply_blocks : List Block → Utxos → Utxos
  apply_blocks [] u = u
  apply_blocks (b ∷ bs) u = apply_blocks bs (apply_transactions b.transactions u)

  -- `Blockchain::rebuild_utxos`
  unfoldable pub rebuild_utxos : Blockchain → Blockchain
  unfolding spend_inputs add_outputs apply_transactions apply_blocks
  rebuild_utxos c = record c { utxos = apply_blocks c.blocks c.utxos }
