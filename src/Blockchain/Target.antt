-- ===== src/Blockchain/Target.antt =====
-- The difficulty: how far one adjustment moves the target, and when it panics.
use grapheno.Base.{
  ℕ, ◌-◌, ◌*◌, ◌/◌, ◌%◌, ◌≤◌, ◌<◌, min, max, ◌≡◌, refl, not, none, some, inl, inr, get_elem?, last?,
  ◌==◌, pos, diff_div, Outcome, ok, err, panic, u256_mod, arith, Bool-cases, sym, ◌⊎◌, >>=-eq-ok,
  expect,
}
use grapheno.Types.{min_target, nanos_per_second}
use grapheno.Primitives.{Primitives}
use grapheno.Blockchain.{
  Blockchain, block_height, timestamp_of, clamp, new_target, set_target, try_adjust_target,
}

-- A clamped target is within a factor of four of the old one.
clamp_bounds :
    (target scaled : ℕ) {r : ℕ} → clamp target scaled ≡ ok r → (target / 4 ≤ r) × (r ≤ target * 4)
unfolding clamp
clamp_bounds target scaled {r} h = ground arith

-- What an adjustment may have done to the chain `c`, whatever the decimal arithmetic returns:
-- nothing but a step of the target. It goes up by a factor of four at most; it goes down by a factor
-- of four at most from where the program's maximum allows that, and else to that maximum; and where
-- it moves, it is not above the maximum.
pub record Adjusts (c d : Blockchain) : Type 0 where
  pub utxos_kept : d.utxos ≡ c.utxos
  pub blocks_kept : d.blocks ≡ c.blocks
  pub mempool_kept : d.mempool ≡ c.mempool
  pub not_far_down : min (c.target / 4) min_target ≤ d.target
  pub not_far_up : d.target ≤ c.target * 4
  pub quarter_kept : c.target ≤ min_target * 4 → c.target / 4 ≤ d.target
  pub moved : (d.target ≡ c.target) ⊎ (d.target ≤ min_target)
  pub capped : c.target ≤ min_target → d.target ≤ min_target

Adjusts-self : (c : Blockchain) → Adjusts c c
Adjusts-self c = record {
  utxos_kept = refl;
  blocks_kept = refl;
  mempool_kept = refl;
  not_far_down = omega arith;
  not_far_up = omega arith;
  quarter_kept = λ h. omega arith;
  moved = inl refl;
  capped = λ h. h;
}

Adjusts-target :
    (c : Blockchain) (t : ℕ)
    → (c.target / 4 ≤ t) × (t ≤ c.target * 4)
    → Adjusts c (record c { target = min t min_target })
Adjusts-target c t h' = record {
  utxos_kept = refl;
  blocks_kept = refl;
  mempool_kept = refl;
  not_far_down = omega arith;
  not_far_up = omega arith;
  quarter_kept = λ h. omega arith;
  moved = inr (omega arith);
  capped = λ _. omega arith;
}

module _ (p : Primitives) where
  new_target_bounds :
      (c : Blockchain) {t : ℕ} → new_target p c ≡ ok t → (c.target / 4 ≤ t) × (t ≤ c.target * 4)
  unfolding new_target
  new_target_bounds c {t} h =
      let (scaled, _, e) = >>=-eq-ok (expect (p.scale_decimal c.target _ _)) _ h in
      clamp_bounds c.target scaled {r = t} e

  set_target-Adjusts :
      (c : Blockchain) (r : Outcome ℕ) → r ≡ new_target p c → Adjusts c (set_target c r).1
  unfolding set_target
  set_target-Adjusts c (ok t) h = Adjusts-target c t (new_target_bounds c {t = t} (sym h))
  set_target-Adjusts c (err e) h = Adjusts-self c
  set_target-Adjusts c panic h = Adjusts-self c

  -- However an adjustment ends, it changes nothing but the target. This goes up by a factor of four
  -- at most. From a target of at most four times the program's maximum it goes down by a factor of
  -- four at most, and from a larger one to no less than the maximum. Where it moves at all, it is
  -- then not above the maximum.
  pub try_adjust_target-Adjusts : (c : Blockchain) → Adjusts c (try_adjust_target p c).1
  unfolding try_adjust_target
  try_adjust_target-Adjusts c = elim (Bool-cases (block_height c == 0)) [
    | inl empty ↦ rw (empty, try_adjust_target) (Adjusts-self c)
    | inr some_blocks ↦ elim (Bool-cases (not (block_height c % 50 == 0))) [
      | inl between ↦ rw (some_blocks, between, try_adjust_target) (Adjusts-self c)
      | inr due ↦
          rw (some_blocks, due, try_adjust_target) (set_target-Adjusts c (new_target p c) refl)
    ]
  ]

-- What bigdecimal and uint promise for this division, whose quotients end after three decimals:
-- the whole part of the quotient, or a failed parse where it needs more than 256 bits.
pub record IsExact (p : Primitives) : Type 0 where
  pub fits : (t n : ℕ) → t * n / 500 < u256_mod → p.scale_decimal t (pos n) 500 ≡ some (t * n / 500)
  pub too_large : (t n : ℕ) → u256_mod ≤ t * n / 500 → p.scale_decimal t (pos n) 500 ≡ none

-- The whole seconds from the first to the last of the last fifty blocks.
abbrev pub elapsed : Blockchain → ℕ
elapsed c =
    (timestamp_of (last? c.blocks) - timestamp_of (get_elem? c.blocks (block_height c - 50)))
    / nanos_per_second

-- An adjustment is due: after every fifty blocks.
pub record IsDue (c : Blockchain) : Type 0 where
  pub some_blocks : 0 < block_height c
  pub multiple : block_height c % 50 ≡ 0
  pub in_order :
      timestamp_of (get_elem? c.blocks (block_height c - 50)) ≤ timestamp_of (last? c.blocks)

clamp_value :
    (target scaled : ℕ)
    → target ≤ min_target
    → clamp target scaled ≡ ok (max (target / 4) (min (target * 4) scaled))
unfolding clamp
clamp_value target scaled h = ground arith

module _ (p : Primitives) (exact : IsExact p) (c : Blockchain) (due : IsDue c) where
  elapsed-diff_div :
      diff_div
        (timestamp_of (last? c.blocks))
        (timestamp_of (get_elem? c.blocks (block_height c - 50)))
        nanos_per_second
      ≡ pos (elapsed c)
  elapsed-diff_div = let h = due.in_order in ground arith

  try_adjust_target_due : try_adjust_target p c ≡ set_target c (new_target p c)
  unfolding try_adjust_target
  try_adjust_target_due = let a = due.some_blocks in let b = due.multiple in ground arith

  -- Where the decimal division is exact: when an adjustment is due, the target is in its range and
  -- the scaled target fits into 256 bits, the new target is the old one times
  -- the elapsed over the ideal seconds, held between a quarter and four times the old one and
  -- then to the program's maximum.
  try_adjust_target_exact :
      c.target ≤ min_target
      → c.target * elapsed c / 500 < u256_mod
      → try_adjust_target p c ≡ (
        ok tt,
        record c {
          target =
              min (max (c.target / 4) (min (c.target * 4) (c.target * elapsed c / 500))) min_target;
        },
      )
  unfolding new_target set_target
  try_adjust_target_exact small fit =
      rw (try_adjust_target_due, elapsed-diff_div, new_target)
        (rw (
          exact.fits c.target (elapsed c) fit,
          clamp_value c.target (c.target * elapsed c / 500) small,
        ))

  -- Where the decimal division is exact: when an adjustment is due, and the scaled target needs more
  -- than 256 bits, it panics: for
  -- the largest target, when fifty blocks took longer than 500 * 2^16 seconds (some 379 days).
  try_adjust_target_slow :
      u256_mod ≤ c.target * elapsed c / 500 → try_adjust_target p c ≡ (panic, c)
  unfolding new_target set_target
  try_adjust_target_slow large =
      rw (try_adjust_target_due, elapsed-diff_div, new_target)
        (rw (exact.too_large c.target (elapsed c) large))
