-- ===== src/Mining.antt =====
-- `BlockHeader::mine` of lib/src/types/block.rs.
pub mod Search
mod Tests
use grapheno.Base.{ℕ, zero, suc, ◌+◌, ◌<◌, ◌≤◌, ◌≡◌, Bool, true, false, ltb, u64_mod, if◌then◌else◌}
use grapheno.Types.{DateTime, BlockHeader}
use grapheno.Primitives.{Primitives}
use grapheno.Hashing.{hash_header, matches_target}

-- The next nonce; behind the last one, 0 and the time of the clock.
pub advance : DateTime → BlockHeader → BlockHeader
advance now header =
    if ltb (header.nonce + 1) u64_mod
    then record header { nonce = header.nonce + 1 }
    else record header { nonce = 0; timestamp = now }

module _ (p : Primitives) (now : ℕ → DateTime) where
  abbrev pub is_mined : BlockHeader → Bool
  is_mined header = matches_target (hash_header p header) header.target

  -- The loop over the steps that are left; `now n` is what the clock says with `n` behind it.
  pub mine_steps : ℕ → BlockHeader → BlockHeader × Bool
  mine_steps zero header = (header, false)
  mine_steps (suc n) header =
      let header' = advance (now n) header in
      let rest = mine_steps n header' in if is_mined header' then (header', true) else rest

  -- `mine`: the header after the call, and whether it was mined.
  unfoldable pub mine : ℕ → BlockHeader → BlockHeader × Bool
  unfolding mine_steps advance
  mine steps header = if is_mined header then (header, true) else mine_steps steps header
