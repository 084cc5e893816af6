-- ===== src/Miner/Tests.antt =====
-- Schedules of the miner, and its theorems at concrete inputs.
use grapheno.Base.{
  ℕ, ◌+◌, ◌-◌, ◌≡◌, ◌≤◌, refl, true, false, [], ◌∷◌, some, ok, All, arith, lookup, insert, sum_from,
  text_eq,
}
use grapheno.Types.{DateTime, Block, min_target}
use grapheno.Primitives.{Primitives}
use grapheno.Samples.{sample}
use grapheno.Samples.Ledger.{utxos, spend, genesis}
use grapheno.Hashing.{hash_header, hash_output}
use grapheno.Crypto.{to_address, verify, sign_output}
use grapheno.Block.{calculate_miner_fees, verify_rest, verify_inputs}
use grapheno.Blockchain.{Blockchain, calculate_block_reward, check_block}
use grapheno.Mining.{mine}
use grapheno.Network.{Envelope, template}
use grapheno.Node.Dispatch.{Draw, make_template, finished, taken}
use grapheno.Miner.{
  Miner, searching, sent, selecting, start, tick, receive_reply, store_mining, submit_mined,
  thread_step, mine_batch, end_search, clone_template, take_template, lock_template, thread_holds,
  task_holds,
}
use grapheno.Miner.Search.{with_nonce, round, rounds, is_mined_at, round_sends, rounds_stuck}
use grapheno.Miner.Honest.{Request}
use grapheno.Miner.Safety.{
  starts, then_step, ticks, receives, locks, stores, turns, takes_mined, Reach, Reach-Requests,
  Reach-Excludes,
}
use grapheno.Miner.Accepted.{round-check_block}

-- A header's hash is its distance to the nonce 5, and one more than its nonce.
near_five : Primitives
unfolding sample
near_five = record sample { cbor_header = λ h. ((5 - h.nonce) + (h.nonce - 5)) ∷ [] }

above : Primitives
unfolding sample
above = record sample { cbor_header = λ h. (h.nonce + 1) ∷ [] }

abbrev clock : ℕ → DateTime
clock n = 100 + n

abbrev block : Block
block = record {
  header = record { timestamp = 1; nonce = 0; prev_block_hash = 0; merkle_root = 0; target = 0 };
  transactions = [];
}

abbrev m0 : Miner
m0 = start (9 ∷ []) 5

abbrev over : Block → Miner
over b = record m0 { current_template = some b; mining = true }

round_sends_example :
    (j : ℕ) × (j ≤ 5)
    × (is_mined_at near_five clock block j ≡ true)
    × (round near_five clock (over block)
        ≡ record (over block) { mined_blocks = with_nonce block (0 + j) ∷ []; thread = sent })
unfolding near_five hash_header task_holds
round_sends_example =
    round_sends near_five clock (over block) block 5
      (record { thread = refl; mining = refl; template = refl; unlocked = refl }) (omega arith)
      (omega arith) refl

never_mined : (k : ℕ) → k ≤ 2000000 → is_mined_at above clock block k ≡ false
unfolding above hash_header
never_mined k h = ground arith

rounds_stuck_example : rounds above clock 7 (over block) ≡ over block
unfolding task_holds
rounds_stuck_example =
    rounds_stuck above clock 7 (over block) block
      (record { thread = refl; mining = refl; template = refl; unlocked = refl }) (omega arith)
      never_mined

-- The miner fetches a template, mines it, and submits it.
abbrev m1 : Miner
m1 = tick near_five 1 m0

abbrev m3 : Miner
m3 =
    let m = receive_reply (some (template block)) m1 in
    let n = lock_template 2 m.task m in store_mining n.task n

abbrev m6 : Miner
m6 = round near_five clock m3

abbrev m7 : Miner
m7 = submit_mined 3 m6.mined_blocks m6

m6_lem : m6 ≡ record m3 { mined_blocks = with_nonce block 5 ∷ []; thread = sent }
unfolding near_five hash_header tick receive_reply store_mining thread_step mine_batch end_search
    clone_template mine take_template lock_template thread_holds task_holds
m6_lem = refl

m6_selecting : m6.task ≡ selecting
unfolding near_five hash_header tick receive_reply store_mining thread_step mine_batch end_search
    clone_template mine take_template lock_template thread_holds task_holds
m6_selecting = refl

m5_lem : (thread_step near_five clock (thread_step near_five clock m3)).thread ≡ searching block
unfolding near_five hash_header tick receive_reply store_mining thread_step clone_template
    take_template lock_template thread_holds task_holds
m5_lem = refl

-- The thread has the template, and is about to search.
m5-Reach : Reach near_five (9 ∷ []) 5 (thread_step near_five clock (thread_step near_five clock m3))
m5-Reach =
    then_step
      (then_step
        (then_step
          (then_step
            (then_step (then_step starts (ticks 1 m0 refl)) (receives (some (template block)) m1))
            (locks 2 _))
          (stores _))
        (turns clock _))
      (turns clock _)

Reach-Excludes_example :
    ((thread_step near_five clock (thread_step near_five clock m3)).current_template ≡ some block)
    × (task_holds (thread_step near_five clock (thread_step near_five clock m3)).task ≡ false)
Reach-Excludes_example = Reach-Excludes near_five block m5-Reach m5_lem

Reach-Requests_example : All (λ (e : Envelope). Request near_five 5 m7.read e.msg) m7.written
Reach-Requests_example =
    Reach-Requests near_five {node_id = 9 ∷ []} {key = 5} {m = m7}
      (then_step (then_step m5-Reach (turns clock _)) (takes_mined 3 m6 m6_selecting))

abbrev draw : Draw
draw = record { envelope_id = 100; unique_id = 3; now = 9 }

abbrev chain : Blockchain
chain = record {
  utxos = utxos;
  target = min_target;
  blocks = genesis ∷ [];
  mempool = (5, spend) ∷ [];
}

made :
    make_template sample draw (6 ∷ []) chain ≡ ok (finished sample draw (6 ∷ []) chain 5000000010)
unfolding make_template calculate_miner_fees calculate_block_reward sample hash_output lookup insert
    sum_from
made = refl

taken_pass : verify_rest sample utxos [] (taken chain) ≡ ok tt
unfolding verify_rest verify_inputs sample hash_output lookup insert sum_from text_eq to_address
    verify sign_output
taken_pass = refl

header_meets :
    hash_header sample
      (record (finished sample draw (6 ∷ []) chain 5000000010).header { nonce = 3 })
    ≤ min_target
unfolding hash_header sample
header_meets = omega arith

round-check_block_example :
    (b : Block) × (round sample clock (over (finished sample draw (6 ∷ []) chain 5000000010))
      ≡ record (over (finished sample draw (6 ∷ []) chain 5000000010)) {
        mined_blocks = b ∷ [];
        thread = sent;
      })
    × (check_block sample (some genesis) utxos 1 b ≡ ok tt)
unfolding task_holds
round-check_block_example =
    round-check_block sample draw (6 ∷ []) chain clock
      (over (finished sample draw (6 ∷ []) chain 5000000010))
      (finished sample draw (6 ∷ []) chain 5000000010) genesis 3 made refl (omega arith) taken_pass
      (omega arith) (record { thread = refl; mining = refl; template = refl; unlocked = refl })
      (omega arith) header_meets
