-- ===== src/Blockchain/Tests.antt =====
-- Runs of the blockchain's methods, and their theorems at concrete inputs.
use grapheno.Base.{
  ℕ, zero, suc, ◌+◌, ◌*◌, ◌≡◌, refl, ◌^◌, none, List, [], ◌∷◌, ◌++◌, ok, arith, lookup, insert,
  remove, err, invalid_block,
}
use grapheno.Types.{Block, min_target, nanos_per_second}
use grapheno.Samples.{sample, scale}
use grapheno.Samples.Ledger.{utxos, spend, coinbase, header_at, genesis}
use grapheno.Hashing.{hash_block, hash_output}
use grapheno.Crypto.{to_address}
use grapheno.Merkle.{calculate}
use grapheno.Block.{block_reward}
use grapheno.Blockchain.{Blockchain, try_adjust_target, check_block, add_block, rebuild_utxos}
use grapheno.Blockchain.Target.{Adjusts, try_adjust_target-Adjusts, IsExact, IsDue}
use grapheno.Blockchain.Unspent.{replay, chain_events, lookup-rebuild_utxos}

abbrev chain : Blockchain
chain = record { utxos = utxos; target = min_target; blocks = genesis ∷ []; mempool = [] }

abbrev second : Block
second = record {
  header = header_at 10 1 (calculate sample (coinbase ∷ spend ∷ []));
  transactions = coinbase ∷ spend ∷ [];
}

-- A block that does not name the last one is refused.
add_block_refuses : add_block sample genesis chain ≡ (err invalid_block, chain)
unfolding add_block check_block hash_block sample
add_block_refuses = refl

abbrev longer : Blockchain
longer = record chain { blocks = genesis ∷ second ∷ [] }

-- The output under hash 7 is spent in the second block.
rebuild_spends : lookup 7 (rebuild_utxos sample longer).utxos ≡ none
unfolding rebuild_utxos lookup remove insert sample hash_output to_address
rebuild_spends = refl

lookup-rebuild_utxos_example :
    lookup 7 (rebuild_utxos sample longer).utxos
    ≡ replay 7 (chain_events sample (genesis ∷ second ∷ [])) (lookup 7 utxos)
lookup-rebuild_utxos_example = lookup-rebuild_utxos sample 7 longer

abbrev repeat : ℕ → Block → List Block
repeat zero b = []
repeat (suc n) b = b ∷ repeat n b

-- Fifty blocks, the last of them so many seconds behind the first.
abbrev fifty : ℕ → ℕ → Blockchain
fifty target seconds = record {
  utxos = [];
  target = target;
  blocks =
      repeat 49 genesis
      ++ record { header = header_at (seconds * nanos_per_second) 0 0; transactions = [] } ∷ [];
  mempool = [];
}

sample-IsExact : IsExact sample
unfolding sample scale
sample-IsExact = record { fits = λ t n h. ground arith; too_large = λ t n h. ground arith }

abbrev fast : Blockchain
fast = fifty 1000 250

fast-IsDue : IsDue fast
fast-IsDue = record { some_blocks = omega arith; multiple = refl; in_order = omega arith }

abbrev slow : Blockchain
slow = fifty min_target (500 * 2 ^ 16 + 1)

slow-IsDue : IsDue slow
slow-IsDue = record { some_blocks = omega arith; multiple = refl; in_order = omega arith }

try_adjust_target-Adjusts_example : Adjusts fast (try_adjust_target sample fast).1
try_adjust_target-Adjusts_example = try_adjust_target-Adjusts sample fast

reward_at_210 : block_reward 210 ≡ ok 2_500_000_000
unfolding block_reward
reward_at_210 = refl
