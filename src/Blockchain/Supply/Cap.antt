-- ===== src/Blockchain/Supply/Cap.antt =====
-- What all block rewards together come to, and the value that a chain can hold.
use native.Mathlib.Nat.{div-le_self, mul-le-mul}
use native.Mathlib.Numerals.{add-one}
use native.Mathlib.Decide.{ℕ_discrete}
use grapheno.Base.{
  ℕ, zero, suc, ◌+◌, ◌-◌, ◌*◌, ◌/◌, ◌%◌, ◌^◌, ◌≤◌, ◌<◌, ◌≡◌, sym, ap, ◌∙◌, List, [], ◌∷◌, inl, inr,
  arith, length, ok,
}
use grapheno.Types.{Block}
use grapheno.Primitives.{Primitives}
use grapheno.Block.{Utxos, full_reward, block_reward, verify_transactions}
use grapheno.Blockchain.{Blockchain, apply_transactions, apply_blocks, rebuild_utxos}
use grapheno.Blockchain.Reward.{pow-suc_two, block_reward_cases}
use grapheno.Blockchain.Supply.{HasNewOutputs, supply-apply_transactions, apply_transactions-IsMap}
use grapheno.Blockchain.Supply.Values.{IsMap, supply}

abbrev pub reward_at : ℕ → ℕ
reward_at height = full_reward / 2 ^ (height / 210)

-- The rewards of `n` heights from this one on.
abbrev pub issued : ℕ → ℕ → ℕ
issued height zero = 0
issued height (suc n) = reward_at height + issued (suc height) n

-- A bound of all rewards from this height on: those of the interval that has begun, and as much
-- again for the others.
left_from : ℕ → ℕ
left_from height = (420 - height % 210) * reward_at height

mul-suc_left : (a x : ℕ) → (a + 1) * x ≡ a * x + x
mul-suc_left a x = omega arith

left_within : (h x : ℕ) → h % 210 < 209 → x + (420 - (h + 1) % 210) * x ≤ (420 - h % 210) * x
left_within h x l =
    let e : 420 - h % 210 ≡ (420 - (h + 1) % 210) + 1 = omega arith in
    rw (e, mul-suc_left) (omega arith)

left-step : (h : ℕ) → reward_at h + left_from (h + 1) ≤ left_from h
unfolding left_from
left-step h = elim (ℕ_discrete (h % 210) 209) [
  | yes last ↦
      let e : (h + 1) / 210 ≡ h / 210 + 1 = omega arith in
      let m : (h + 1) % 210 ≡ 0 = omega arith in rw (e, m, last, pow-suc_two) (omega arith)
  | no inside ↦
      let e : (h + 1) / 210 ≡ h / 210 = omega arith in
      rw e (left_within h (reward_at h) (omega arith))
]

issued-le : (n h : ℕ) → issued h n ≤ left_from h
issued-le zero h = omega arith
issued-le (suc n) h =
    let next : issued (suc h) n ≤ left_from (h + 1) = rw add-one (issued-le n (suc h)) in
    omega (arith, next, left-step h)

-- However many blocks, the rewards come to at most 420 full ones.
issued-cap : (n h : ℕ) → issued h n ≤ 420 * full_reward
unfolding left_from
issued-cap n h =
    let few : 420 - h % 210 ≤ 420 = omega arith in
    let bound : left_from h ≤ 420 * full_reward =
      mul-le-mul few (div-le_self full_reward (2 ^ (h / 210))) in
    omega (arith, issued-le n h, bound)

block_reward-eq :
    (height r : ℕ) → height < 210 * 2 ^ 32 → block_reward height ≡ ok r → r ≡ reward_at height
block_reward-eq height r low e = elim (block_reward_cases height low) [
  | inl (paid, f) ↦ ground (arith, sym e ∙ f)
  | inr (late, f) ↦ absurd (ground (arith, sym e ∙ f))
]

module _ (p : Primitives) where
  -- Each block passes `verify_transactions` over what those before it left, and creates new
  -- outputs.
  abbrev pub IsVerified : Utxos → ℕ → List Block → Type 0
  IsVerified u height [] = Unit
  IsVerified u height (b ∷ bs) =
      (verify_transactions p u b height ≡ ok tt)
      × HasNewOutputs p u b.transactions
      × IsVerified (apply_transactions p b.transactions u) (suc height) bs

  supply-apply_blocks :
      (bs : List Block) (u : Utxos) (height : ℕ)
      → IsMap u
      → height + length bs ≤ 210 * 2 ^ 32
      → IsVerified u height bs
      → supply (apply_blocks p bs u) ≡ supply u + issued height (length bs)
  unfolding apply_blocks
  supply-apply_blocks [] u height m low v = omega arith
  supply-apply_blocks (b ∷ bs) u height m low (passed, new, v) =
      let (r, reward, raised, m') = supply-apply_transactions p u b height m new passed in
      let rest =
        supply-apply_blocks bs (apply_transactions p b.transactions u) (suc height) m' (omega arith)
          v in
      omega (arith, rest, raised, block_reward-eq height r (omega arith) reward)

  -- Where the unspent outputs of an empty set are rebuilt from a chain of at most 210 * 2^32 blocks,
  -- of which those behind the first pass `verify_transactions` in their order and create new
  -- outputs, their value is that which the first block leaves and the reward of each later
  -- height; and these rewards come to at most 420 times the first one.
  pub supply-rebuild_utxos :
      (c : Blockchain) (first : Block) (rest : List Block)
      → c.utxos ≡ []
      → c.blocks ≡ first ∷ rest
      → 1 + length rest ≤ 210 * 2 ^ 32
      → IsVerified (apply_transactions p first.transactions []) 1 rest
      → (supply (rebuild_utxos p c).utxos
          ≡ supply (apply_transactions p first.transactions []) + issued 1 (length rest))
        × (issued 1 (length rest) ≤ 420 * full_reward)
  unfolding rebuild_utxos apply_blocks
  supply-rebuild_utxos c first rest empty chain low v =
      let m = apply_transactions-IsMap p first.transactions [] tt in
      (
        ap (λ u. supply (apply_blocks p c.blocks u)) empty
            ∙ ap (λ bs. supply (apply_blocks p bs [])) chain
            ∙ supply-apply_blocks rest (apply_transactions p first.transactions []) 1 m low v,
        issued-cap (length rest) 1,
      )
