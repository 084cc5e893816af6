-- ===== src/Miner.antt =====
-- The miner, miner/src/main.rs: the thread that searches for a nonce and the task that talks to the
-- node, which share the template, the flag `mining` and a channel of mined blocks. Each function is
-- what one of the two does between two accesses to what they share, or two waits. The guard of the
-- template's mutex lives as long as the `if let` that takes the clone: the thread holds the mutex
-- from the clone to the end of its search, the task while it waits for a validity.
pub mod Search
pub mod Honest
pub mod Turns
pub mod Safety
pub mod Accepted
mod Tests
use grapheno.Base.{
  ℕ, Bool, true, false, not, List, [], ◌∷◌, ◌++◌, Option, none, some, Text, if◌then◌else◌,
}
use grapheno.Types.{DateTime, PublicKey, BlockHeader, Block}
use grapheno.Primitives.{Primitives}
use grapheno.Crypto.{to_address}
use grapheno.Mining.{mine}
use grapheno.Network.{
  Message, Envelope, fetch_utxos, utxos, submit_transaction, new_transaction, fetch_template,
  template, validate_template, template_validity, submit_template, discover_nodes, node_list,
  ask_difference, difference, fetch_block, fetch_all_blocks, all_blocks, new_block,
}

abbrev pub default_ttl : ℕ
default_ttl = 8

-- Where the thread of `spawn_mining_thread` stands.
pub data Thread : Type 0 where
  looping : Thread  -- before it loads `mining`
  cloning : Thread  -- `mining` was set; before it locks the template
  searching : Block → Thread  -- with its own copy of the template
  sent : Thread  -- behind `sender.send`, before it clears `mining`

-- Where the task of `run` stands.
pub data Task : Type 0 where
  selecting : Task  -- in the `select!`
  fetching : Task  -- waits for the answer to `FetchTemplate`
  answered : Block → Task  -- has the template; before it locks the mutex to store it
  fetched : Task  -- the template is stored; before it sets `mining`
  locking : Task  -- at the start of `validate_template`, before it locks the mutex
  validating : Task  -- waits for the answer to `ValidateTemplate`
  submitting : Task  -- the block is written; before it clears `mining`
  stopped : Task  -- `run` has returned an error

-- `Miner`, the two that run, and what was written to the stream and read from it.
pub record Miner : Type 0 where
  pub node_id : Text
  pub public_key : PublicKey
  pub current_template : Option Block
  pub mining : Bool
  pub mined_blocks : List Block
  pub thread : Thread
  pub task : Task
  pub written : List Envelope
  pub read : List Message

-- `Miner::new`, and the start of `run`.
abbrev pub start : Text → PublicKey → Miner
start node_id public_key = record {
  node_id = node_id;
  public_key = public_key;
  current_template = none;
  mining = false;
  mined_blocks = [];
  thread = looping;
  task = selecting;
  written = [];
  read = [];
}

-- The writing half of `send_only` and `send_and_receive`; the envelope's id is drawn.
abbrev pub send_message : ℕ → Message → Miner → Miner
send_message id msg m = record m {
  written = m.written ++ record { id = id; origin = m.node_id; ttl = default_ttl; msg = msg } ∷ [];
}

-- Who holds the mutex of the template.
unfoldable pub thread_holds : Thread → Bool
thread_holds looping = false
thread_holds cloning = false
thread_holds (searching _) = true
thread_holds sent = true

unfoldable pub task_holds : Task → Bool
task_holds validating = true
task_holds selecting = false
task_holds fetching = false
task_holds (answered _) = false
task_holds fetched = false
task_holds locking = false
task_holds submitting = false
task_holds stopped = false

-- `fetch_template`, behind its answer.
unfoldable pub take_template : Message → Miner → Miner
take_template (template block) m = record m { task = answered block }
take_template (fetch_utxos _) m = record m { task = stopped }
take_template (utxos _) m = record m { task = stopped }
take_template (submit_transaction _) m = record m { task = stopped }
take_template (new_transaction _) m = record m { task = stopped }
take_template (fetch_template _) m = record m { task = stopped }
take_template (validate_template _) m = record m { task = stopped }
take_template (template_validity _) m = record m { task = stopped }
take_template (submit_template _) m = record m { task = stopped }
take_template discover_nodes m = record m { task = stopped }
take_template (node_list _) m = record m { task = stopped }
take_template (ask_difference _) m = record m { task = stopped }
take_template (difference _) m = record m { task = stopped }
take_template (fetch_block _) m = record m { task = stopped }
take_template fetch_all_blocks m = record m { task = stopped }
take_template (all_blocks _) m = record m { task = stopped }
take_template (new_block _) m = record m { task = stopped }

-- `validate_template`, behind its answer.
unfoldable pub take_validity : Message → Miner → Miner
take_validity (template_validity valid) m = record m {
  mining = if valid then m.mining else false;
  task = selecting;
}
take_validity (template _) m = record m { task = stopped }
take_validity (fetch_utxos _) m = record m { task = stopped }
take_validity (utxos _) m = record m { task = stopped }
take_validity (submit_transaction _) m = record m { task = stopped }
take_validity (new_transaction _) m = record m { task = stopped }
take_validity (fetch_template _) m = record m { task = stopped }
take_validity (validate_template _) m = record m { task = stopped }
take_validity (submit_template _) m = record m { task = stopped }
take_validity discover_nodes m = record m { task = stopped }
take_validity (node_list _) m = record m { task = stopped }
take_validity (ask_difference _) m = record m { task = stopped }
take_validity (difference _) m = record m { task = stopped }
take_validity (fetch_block _) m = record m { task = stopped }
take_validity fetch_all_blocks m = record m { task = stopped }
take_validity (all_blocks _) m = record m { task = stopped }
take_validity (new_block _) m = record m { task = stopped }

-- The answer that `send_and_receive` returns; none, where the stream fails.
unfoldable pub receive_reply : Option Message → Miner → Miner
unfolding take_template take_validity
receive_reply none m = record m { task = stopped }
receive_reply (some msg) m =
    let got = record m { read = m.read ++ msg ∷ [] } in
    elim m.task [
      | fetching ↦ take_template msg got
      | validating ↦ take_validity msg got
      | selecting ↦ m
      | answered _ ↦ m
      | fetched ↦ m
      | locking ↦ m
      | submitting ↦ m
      | stopped ↦ m
    ]

-- `validate_template` with the mutex locked, as far as the request; without a template there is
-- nothing to do.
unfoldable pub validate_current : ℕ → Option Block → Miner → Miner
validate_current id none m = record m { task = selecting }
validate_current id (some block) m = record (send_message id (validate_template block) m) {
  task = validating;
}

-- A tick of the interval: `fetch_and_validate_template`, as far as the request for a template, or
-- the mutex.
module _ (p : Primitives) where
  unfoldable pub tick : ℕ → Miner → Miner
  tick id m =
      if not m.mining
      then record (send_message id (fetch_template (to_address p m.public_key)) m) {
        task = fetching;
      }
      else record m { task = locking }

-- The other arm of the `select!`: a mined block, and `submit_block` as far as the sending.
unfoldable pub submit_mined : ℕ → List Block → Miner → Miner
submit_mined id [] m = m
submit_mined id (block ∷ rest) m = record (send_message id (submit_template block) m) {
  mined_blocks = rest;
  task = submitting;
}

-- What the task does with the mutex locked: `fetch_template` stores its template, and
-- `validate_template` clones the current one. It waits while the thread holds the mutex.
unfoldable pub lock_template : ℕ → Task → Miner → Miner
unfolding validate_current
lock_template id (answered block) m =
    if thread_holds m.thread then m else record m { current_template = some block; task = fetched }
lock_template id locking m =
    if thread_holds m.thread then m else validate_current id m.current_template m
lock_template id selecting m = m
lock_template id fetching m = m
lock_template id fetched m = m
lock_template id validating m = m
lock_template id submitting m = m
lock_template id stopped m = m

-- The stores behind the waits: `fetch_template` sets the flag, `submit_block` clears it.
unfoldable pub store_mining : Task → Miner → Miner
store_mining fetched m = record m { mining = true; task = selecting }
store_mining submitting m = record m { mining = false; task = selecting }
store_mining selecting m = m
store_mining fetching m = m
store_mining (answered _) m = m
store_mining locking m = m
store_mining validating m = m
store_mining stopped m = m

-- An error of the stream while the task writes: `?` ends `run`.
abbrev pub fail_write : Miner → Miner
fail_write m = record m { task = stopped }

-- `template.lock().unwrap().clone()`, and the mutex kept where there is a template.
unfoldable pub clone_template : Option Block → Thread
clone_template none = looping
clone_template (some block) = searching block

module _ (p : Primitives) (now : ℕ → DateTime) where
  -- `block.header.mine(2_000_000)`
  unfoldable pub mine_batch : Block → Block × Bool
  mine_batch block = let r = mine p now 2000000 block.header in (record block { header = r.0 }, r.1)

  -- What the search brought: `sender.send`, or the loop again.
  unfoldable pub end_search : Block × Bool → Miner → Miner
  end_search (block, true) m = record m {
    mined_blocks = m.mined_blocks ++ block ∷ [];
    thread = sent;
  }
  end_search (block, false) m = record m { thread = looping }

  -- The next access of the mining thread.
  unfoldable pub thread_step : Miner → Miner
  unfolding clone_template end_search
  thread_step m = elim m.thread [
    | looping ↦ record m { thread = if m.mining then cloning else looping }
    | cloning ↦ record m {
      thread = if task_holds m.task then cloning else clone_template m.current_template;
    }
    | searching block ↦ end_search (mine_batch block) m
    | sent ↦ record m { mining = false; thread = looping }
  ]
