-- ===== src/Miner/Search.antt =====
-- One round of the mining thread: it loads the flag, clones the template, and searches.
use native.Mathlib.Decide.{dec_lt}
use grapheno.Base.{
  ℕ, zero, suc, ◌+◌, ◌<◌, ◌≤◌, ◌≡◌, refl, ap, ◌∙◌, Bool, true, false, [], ◌∷◌, ◌++◌, some, inl, inr,
  u64_mod, arith,
}
use grapheno.Types.{DateTime, Block}
use grapheno.Primitives.{Primitives}
use grapheno.Mining.{is_mined, mine}
use grapheno.Mining.Search.{Searched, at_nonce, mine_first}
use grapheno.Miner.{
  Miner, looping, cloning, searching, sent, task_holds, clone_template, mine_batch, end_search,
  thread_step,
}

-- The thread is about to load the flag, which is set, over this template, and the task does not
-- hold the template's mutex.
pub record IsMining (block : Block) (m : Miner) : Type 0 where
  pub thread : m.thread ≡ looping
  pub mining : m.mining ≡ true
  pub template : m.current_template ≡ some block
  pub unlocked : task_holds m.task ≡ false

abbrev pub with_nonce : Block → ℕ → Block
with_nonce block n = record block { header = record block.header { nonce = n } }

module _ (p : Primitives) (now : ℕ → DateTime) where
  abbrev pub round : Miner → Miner
  round m = thread_step p now (thread_step p now (thread_step p now m))

  abbrev pub rounds : ℕ → Miner → Miner
  rounds zero m = m
  rounds (suc n) m = rounds n (round m)

  -- Whether the block, with the nonce `k` behind its own, meets its target.
  abbrev pub is_mined_at : Block → ℕ → Bool
  is_mined_at block k = is_mined p now (at_nonce p now block.header (block.header.nonce + k))

  thread_step_looping :
      (m : Miner)
      → m.thread ≡ looping
      → m.mining ≡ true
      → thread_step p now m ≡ record m { thread = cloning }
  unfolding thread_step
  thread_step_looping m e f = ground arith

  thread_step_cloning :
      (m : Miner) (block : Block)
      → m.thread ≡ cloning
      → m.current_template ≡ some block
      → task_holds m.task ≡ false
      → thread_step p now m ≡ record m { thread = searching block }
  unfolding thread_step clone_template
  thread_step_cloning m block e f g = ground arith

  thread_step_searching :
      (m : Miner) (block : Block)
      → thread_step p now (record m { thread = searching block })
        ≡ end_search p now (mine_batch p now block) (record m { thread = searching block })
  unfolding thread_step
  thread_step_searching m block = refl

  -- A round over a template is its search.
  round-end_search :
      (m : Miner) (block : Block)
      → IsMining block m
      → round m ≡ end_search p now (mine_batch p now block) (record m { thread = searching block })
  round-end_search m block h =
      ap (λ s. thread_step p now (thread_step p now s)) (thread_step_looping m h.thread h.mining)
      ∙ ap (thread_step p now)
          (thread_step_cloning (record m { thread = cloning }) block refl h.template h.unlocked)
      ∙ thread_step_searching m block

  -- A search of 2,000,000 steps from a nonce that leaves room for them.
  mine_batch-Searched :
      (block : Block)
      → block.header.nonce + 2000000 < u64_mod
      → Searched p now 2000000 block.header (mine p now 2000000 block.header)
  mine_batch-Searched block fits = mine_first p now 2000000 block.header fits

  mine_batch_finds :
      (block : Block) (k : ℕ)
      → block.header.nonce + 2000000 < u64_mod
      → k ≤ 2000000
      → is_mined_at block k ≡ true
      → (j : ℕ) × (j ≤ k)
        × (is_mined_at block j ≡ true)
        × (mine_batch p now block ≡ (with_nonce block (block.header.nonce + j), true))
  unfolding mine_batch
  mine_batch_finds block k fits le hit = elim (mine_batch-Searched block fits) [
    | inl (j, small, found, at_j, before) ↦ (j, least j before, at_j, rw found refl)
    | inr (none_found, misses) ↦ absurd (ground (arith, misses k le))
  ]
    where
      least : (j : ℕ) → ((i : ℕ) → i < j → is_mined_at block i ≡ false) → j ≤ k
      least j before = elim (dec_lt k j) [
        | yes l ↦ absurd (ground (arith, before k l))
        | no n ↦ omega arith
      ]

  mine_batch_fails :
      (block : Block)
      → block.header.nonce + 2000000 < u64_mod
      → ((k : ℕ) → k ≤ 2000000 → is_mined_at block k ≡ false)
      → (b : Block) × (mine_batch p now block ≡ (b, false))
  unfolding mine_batch
  mine_batch_fails block fits misses = elim (mine_batch-Searched block fits) [
    | inl (j, small, found, at_j, before) ↦ absurd (ground (arith, misses j small))
    | inr (none_found, rest) ↦ (with_nonce block (block.header.nonce + 2000000), rw none_found refl)
  ]

  -- A thread that is about to load the flag, with the flag set and the mutex free, over a template
  -- of whose nonce and the 2,000,000 behind it, within 64 bits, one meets the target, has in three
  -- turns put the template with such a nonce, none further on, at the end of the channel.
  pub round_sends :
      (m : Miner) (block : Block) (k : ℕ)
      → IsMining block m
      → block.header.nonce + 2000000 < u64_mod
      → k ≤ 2000000
      → is_mined_at block k ≡ true
      → (j : ℕ) × (j ≤ k)
        × (is_mined_at block j ≡ true)
        × (round m ≡ record m {
          mined_blocks = m.mined_blocks ++ with_nonce block (block.header.nonce + j) ∷ [];
          thread = sent;
        })
  unfolding end_search
  round_sends m block k h fits le hit =
      let (j, least, at_j, found) = mine_batch_finds block k fits le hit in
      (
        j,
        least,
        at_j,
        round-end_search m block h
            ∙ ap (λ r. end_search p now r (record m { thread = searching block })) found,
      )

  round_repeats :
      (m : Miner) (block : Block)
      → IsMining block m
      → block.header.nonce + 2000000 < u64_mod
      → ((k : ℕ) → k ≤ 2000000 → is_mined_at block k ≡ false)
      → round m ≡ m
  unfolding end_search
  round_repeats m block h fits misses =
      let (b, failed) = mine_batch_fails block fits misses in
      round-end_search m block h
      ∙ ap (λ r. end_search p now r (record m { thread = searching block })) failed
      ∙ (ground (arith, h.thread))

  -- Where neither the nonce of the template nor one of the 2,000,000 behind it, within 64 bits,
  -- meets the target, a thread that is about to load the flag, with the flag set and the mutex
  -- free, is after any number of rounds where it was: it searches the same nonces again and sends
  -- nothing.
  pub rounds_stuck :
      (n : ℕ) (m : Miner) (block : Block)
      → IsMining block m
      → block.header.nonce + 2000000 < u64_mod
      → ((k : ℕ) → k ≤ 2000000 → is_mined_at block k ≡ false)
      → rounds n m ≡ m
  rounds_stuck zero m block h fits misses = refl
  rounds_stuck (suc n) m block h fits misses =
      let e = round_repeats m block h fits misses in
      ap (rounds n) e ∙ rounds_stuck n m block h fits misses
