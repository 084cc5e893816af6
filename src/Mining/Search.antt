-- ===== src/Mining/Search.antt =====
-- What a call of `mine` has tried, and what it leaves alone.
use grapheno.Base.{
  ℕ, zero, suc, ◌+◌, ◌<◌, ◌≤◌, ◌≡◌, refl, ap, Bool, true, false, inl, inr, ◌⊎◌, u64_mod, arith,
  Bool-cases,
}
use grapheno.Types.{DateTime, BlockHeader}
use grapheno.Primitives.{Primitives}
use grapheno.Mining.{advance, is_mined, mine_steps, mine}

-- What mining may change: the nonce, within 64 bits, and the time.
pub record Keeps (h k : BlockHeader) : Type 0 where
  pub prev_block_hash : k.prev_block_hash ≡ h.prev_block_hash
  pub merkle_root : k.merkle_root ≡ h.merkle_root
  pub target : k.target ≡ h.target
  pub nonce : h.nonce < u64_mod → k.nonce < u64_mod

advance-Keeps : (now : DateTime) (h : BlockHeader) → Keeps h (advance now h)
unfolding advance
advance-Keeps now h = ground arith

module _ (p : Primitives) (now : ℕ → DateTime) where
  mine_steps-Keeps : (n : ℕ) (h : BlockHeader) → Keeps h (mine_steps p now n h).0
  unfolding mine_steps
  mine_steps-Keeps zero h = ground arith
  mine_steps-Keeps (suc n) h =
      ground (arith, advance-Keeps (now n) h, mine_steps-Keeps n (advance (now n) h))

  -- `mine` changes nothing of the header but the nonce and the time, and keeps the nonce within
  -- 64 bits.
  pub mine-Keeps : (steps : ℕ) (h : BlockHeader) → Keeps h (mine p now steps h).0
  unfolding mine
  mine-Keeps steps h = ground (arith, mine_steps-Keeps steps h)

  mine_steps-is_mined :
      (n : ℕ) (h : BlockHeader) {k : BlockHeader}
      → mine_steps p now n h ≡ (k, true)
      → is_mined p now k ≡ true
  unfolding mine_steps
  mine_steps-is_mined zero h {k} e = let f : false ≡ true = ap (λ r. r.1) e in cc
  mine_steps-is_mined (suc n) h {k} e =
      ground (arith, mine_steps-is_mined n (advance (now n) h) {k = k})

  -- A header that `mine` reports as mined meets its target.
  pub mine-is_mined :
      (steps : ℕ) (h : BlockHeader) {k : BlockHeader}
      → mine p now steps h ≡ (k, true)
      → is_mined p now k ≡ true
  unfolding mine
  mine-is_mined steps h {k} e = ground (arith, mine_steps-is_mined steps h {k = k})

  abbrev pub at_nonce : BlockHeader → ℕ → BlockHeader
  at_nonce h n = record h { nonce = n }

  -- The search over the nonces behind the header's: the first that is mined, or none.
  abbrev pub Searched : ℕ → BlockHeader → BlockHeader × Bool → Type 0
  Searched steps h r =
      ((k : ℕ) × (k ≤ steps)
        × (r ≡ (at_nonce h (h.nonce + k), true))
        × (is_mined p now (at_nonce h (h.nonce + k)) ≡ true)
        × ((j : ℕ) → j < k → is_mined p now (at_nonce h (h.nonce + j)) ≡ false))
      ⊎ ((r ≡ (at_nonce h (h.nonce + steps), false))
          × ((j : ℕ) → j ≤ steps → is_mined p now (at_nonce h (h.nonce + j)) ≡ false))

  ap_zero :
      (h : BlockHeader) (b : Bool)
      → is_mined p now h ≡ b
      → is_mined p now (at_nonce h (h.nonce + 0)) ≡ b
  ap_zero h b e = let z : h.nonce + 0 ≡ h.nonce = omega arith in rw z e

  pair_at_zero :
      {b : Bool} (h : BlockHeader)
      → ◌≡◌ {A = BlockHeader × Bool} (h, b) (at_nonce h (h.nonce + 0), b)
  pair_at_zero h = let z : h.nonce + 0 ≡ h.nonce = omega arith in rw z refl

  -- A search from the next nonce, behind a header that is not mined.
  Searched-shift :
      (n : ℕ) (h : BlockHeader) (r : BlockHeader × Bool)
      → is_mined p now h ≡ false
      → Searched n (at_nonce h (h.nonce + 1)) r
      → Searched (suc n) h r
  Searched-shift n h r miss (inl (k, le, e, hit, before)) =
      let s : h.nonce + suc k ≡ h.nonce + 1 + k = omega arith in
      inl (suc k, omega arith, rw s e, rw s hit, misses)
    where
      misses : (j : ℕ) → j < suc k → is_mined p now (at_nonce h (h.nonce + j)) ≡ false
      misses zero l = ap_zero h false miss
      misses (suc j) l =
          let s : h.nonce + suc j ≡ h.nonce + 1 + j = omega arith in rw s (before j (omega arith))
  Searched-shift n h r miss (inr (e, before)) =
      let s : h.nonce + suc n ≡ h.nonce + 1 + n = omega arith in inr (rw s e, misses)
    where
      misses : (j : ℕ) → j ≤ suc n → is_mined p now (at_nonce h (h.nonce + j)) ≡ false
      misses zero l = ap_zero h false miss
      misses (suc j) l =
          let s : h.nonce + suc j ≡ h.nonce + 1 + j = omega arith in rw s (before j (omega arith))

  advance-at_nonce :
      (t : DateTime) (h : BlockHeader)
      → h.nonce + 1 < u64_mod
      → advance t h ≡ at_nonce h (h.nonce + 1)
  unfolding advance
  advance-at_nonce t h l = ground arith

  mine_steps-Searched :
      (n : ℕ) (h : BlockHeader)
      → h.nonce + n < u64_mod
      → is_mined p now h ≡ false
      → Searched n h (mine_steps p now n h)
  unfolding mine_steps
  mine_steps-Searched zero h fits miss =
      inr (pair_at_zero h, λ j l. let z : j ≡ 0 = omega arith in rw z (ap_zero h false miss))
  mine_steps-Searched (suc n) h fits miss =
      rw (advance-at_nonce (now n) h (omega arith))
        (elim (Bool-cases (is_mined p now (at_nonce h (h.nonce + 1)))) [
          | inl hit ↦ rw hit (
              inl (
                1,
                omega arith,
                refl,
                hit,
                λ j l. let z : j ≡ 0 = omega arith in rw z (ap_zero h false miss),
              ))
          | inr next ↦ rw next (
              Searched-shift n h _ miss
                (mine_steps-Searched n (at_nonce h (h.nonce + 1)) (omega arith) next))
        ])

  -- Where the nonces do not run out, `mine` ends with the first of the header's nonce and the
  -- `steps` behind it whose header hash meets the target; or it reports that none of them does.
  pub mine_first :
      (steps : ℕ) (h : BlockHeader)
      → h.nonce + steps < u64_mod
      → Searched steps h (mine p now steps h)
  unfolding mine
  mine_first steps h fits = elim (Bool-cases (is_mined p now h)) [
    | inl hit ↦
        rw (hit, mine)
          (inl (0, omega arith, pair_at_zero h, ap_zero h true hit, λ j l. absurd (omega arith)))
    | inr miss ↦ rw (miss, mine) (mine_steps-Searched steps h fits miss)
  ]
