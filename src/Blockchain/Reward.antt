-- ===== src/Blockchain/Reward.antt =====
-- The block reward, as the miner's template and the validator compute it.
use native.Mathlib.Nat.{pow-suc, div-div-eq-div-mul}
use native.Mathlib.Numerals.{add-one}
use grapheno.Base.{
  sym, ◌⊎◌, ℕ, ◌+◌, ◌*◌, ◌/◌, ◌%◌, ◌^◌, ◌≤◌, ◌<◌, ◌≡◌, refl, length, ok, panic, arith,
}
use grapheno.Block.{block_reward, full_reward}
use grapheno.Blockchain.{Blockchain, block_height, calculate_block_reward}

-- Below 210 * 2^32 blocks, the reward that a template asks for and the one that
-- `verify_coinbase_transaction` expects at that height are the same, the panic included.
pub calculate_block_reward-block_reward :
    (c : Blockchain)
    → block_height c < 210 * 2 ^ 32
    → calculate_block_reward c ≡ block_reward (block_height c)
unfolding calculate_block_reward block_reward
calculate_block_reward-block_reward c h =
    let e : length c.blocks / 210 % 2 ^ 32 ≡ length c.blocks / 210 = omega arith in rw e refl

-- Below height 13440 there is a reward, of at most the full one; from there on, and up to
-- 210 * 2^32 blocks, the computation panics.
pub block_reward_cases :
    (height : ℕ)
    → height < 210 * 2 ^ 32
    → ((height < 13440) × (block_reward height ≡ ok (full_reward / 2 ^ (height / 210))))
      ⊎ ((13440 ≤ height) × (block_reward height ≡ panic))
unfolding block_reward
block_reward_cases height h =
    let e : height / 210 % 2 ^ 32 ≡ height / 210 = omega arith in rw e (ground arith)

pub pow-suc_two : (x k : ℕ) → x / 2 ^ (k + 1) ≡ x / 2 ^ k / 2
pow-suc_two x k = rw (add-one, pow-suc) (sym (div-div-eq-div-mul x (2 ^ k) 2))

-- Each `halving_interval` blocks further on the reward is half of what it was, rounded down.
block_reward_halves :
    (height : ℕ) {r : ℕ}
    → height + 210 < 13440
    → block_reward height ≡ ok r
    → block_reward (height + 210) ≡ ok (r / 2)
unfolding block_reward
block_reward_halves height {r} h e =
    let e1 : (height + 210) / 210 % 2 ^ 32 ≡ height / 210 % 2 ^ 32 + 1 = omega arith in
    rw e1 (ground (arith, pow-suc_two full_reward (height / 210 % 2 ^ 32)))
