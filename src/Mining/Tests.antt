-- ===== src/Mining/Tests.antt =====
-- Runs of the search for a nonce, and its theorems at concrete inputs.
use grapheno.Base.{ℕ, ◌+◌, ◌-◌, [], ◌∷◌, ◌≡◌, refl, true, false, arith}
use grapheno.Types.{DateTime, BlockHeader}
use grapheno.Primitives.{Primitives}
use grapheno.Hashing.{hash_header}
use grapheno.Samples.{sample}
use grapheno.Mining.{mine}
use grapheno.Mining.Search.{Searched, at_nonce, mine_first}

-- A header's hash is its distance to the nonce 5.
near_five : Primitives
unfolding sample
near_five = record sample { cbor_header = λ h. ((5 - h.nonce) + (h.nonce - 5)) ∷ [] }

abbrev clock : ℕ → DateTime
clock n = 100 + n

abbrev header : BlockHeader
header = record { timestamp = 1; nonce = 2; prev_block_hash = 0; merkle_root = 0; target = 0 }

mine_finds : mine near_five clock 10 header ≡ (at_nonce near_five clock header 5, true)
unfolding mine near_five hash_header
mine_finds = refl

-- At the last nonce the search starts again from 0, at the time of the clock.
mine_wraps :
    mine near_five clock 1 (record header { nonce = 18446744073709551615 })
    ≡ (record header { nonce = 0; timestamp = 100 }, false)
unfolding mine near_five hash_header
mine_wraps = refl

mine_first_example : Searched near_five clock 10 header (mine near_five clock 10 header)
mine_first_example = mine_first near_five clock 10 header (omega arith)
