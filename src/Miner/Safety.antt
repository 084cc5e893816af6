-- ===== src/Miner/Safety.antt =====
-- What the miner sends, however its thread, its task and the answers of the node interleave.
use grapheno.Base.{ℕ, ◌≡◌, refl, false, Option, some, Text, All, arith}
use grapheno.Types.{DateTime, PublicKey, Block}
use grapheno.Primitives.{Primitives}
use grapheno.Network.{Message, Envelope}
use grapheno.Miner.{
  Miner, searching, selecting, start, receive_reply, tick, submit_mined, store_mining, fail_write,
  thread_holds, task_holds, lock_template, thread_step,
}
use grapheno.Miner.Honest.{Request, IsHonest, thread_step-IsHonest}
use grapheno.Miner.Turns.{
  stop-IsHonest, tick-IsHonest, submit_mined-IsHonest, lock_template-IsHonest,
  store_mining-IsHonest, receive_reply-IsHonest,
}

module _ (p : Primitives) where
  -- A turn of the thread, or of the task where it stands.
  pub data Step : Miner → Miner → Type 0 where
    turns : (now : ℕ → DateTime) (m : Miner) → Step m (thread_step p now m)
    ticks : (id : ℕ) (m : Miner) → m.task ≡ selecting → Step m (tick p id m)
    takes_mined :
        (id : ℕ) (m : Miner) → m.task ≡ selecting → Step m (submit_mined id m.mined_blocks m)
    receives : (reply : Option Message) (m : Miner) → Step m (receive_reply reply m)
    locks : (id : ℕ) (m : Miner) → Step m (lock_template id m.task m)
    stores : (m : Miner) → Step m (store_mining m.task m)
    fails : (m : Miner) → Step m (fail_write m)

  pub data Reach (node_id : Text) (key : PublicKey) : Miner → Type 0 where
    starts : Reach node_id key (start node_id key)
    then_step : {m n : Miner} → Reach node_id key m → Step m n → Reach node_id key n

  start-IsHonest : (node_id : Text) (key : PublicKey) → IsHonest p key (start node_id key)
  unfolding thread_holds
  start-IsHonest node_id key = record {
    owner = refl;
    current = λ b e. cc;
    copy = λ b e. cc;
    pending = λ b e. cc;
    exclusive = λ e. refl;
    queue = tt;
    sent = tt;
  }

  Step-IsHonest : {key : PublicKey} {m n : Miner} → Step m n → IsHonest p key m → IsHonest p key n
  Step-IsHonest {key} (turns now m) h =
      thread_step-IsHonest p now key m m.thread m.current_template refl refl h
  Step-IsHonest {key} (ticks id m e) h = tick-IsHonest p key id m h
  Step-IsHonest {key} (takes_mined id m e) h =
      submit_mined-IsHonest p key id m m.mined_blocks refl h
  Step-IsHonest {key} (receives r m) h = receive_reply-IsHonest p key r m m.task refl h
  Step-IsHonest {key} (locks id m) h = lock_template-IsHonest p key id m.task m refl h
  Step-IsHonest {key} (stores m) h = store_mining-IsHonest p key m.task m h
  Step-IsHonest {key} (fails m) h = stop-IsHonest p key m h

  Reach-IsHonest :
      {node_id : Text} {key : PublicKey} {m : Miner} → Reach node_id key m → IsHonest p key m
  Reach-IsHonest {node_id} {key} starts = start-IsHonest node_id key
  Reach-IsHonest (then_step r step) = Step-IsHonest step (Reach-IsHonest r)

  -- However the mining thread, the task and the answers of the node interleave, stream errors
  -- included, every message that the miner has written is one of three: a request for a template
  -- that pays its own address, a question about a template that it was sent, or a block that
  -- meets its target and is a template it was sent but for the nonce and the time.
  pub Reach-Requests :
      {node_id : Text} {key : PublicKey} {m : Miner}
      → Reach node_id key m
      → All (λ (e : Envelope). Request p key m.read e.msg) m.written
  Reach-Requests r = (Reach-IsHonest r).sent

  -- However they interleave, while the thread searches, its copy is the current template, and the
  -- task does not hold the template's mutex: a template is never replaced under a search.
  pub Reach-Excludes :
      {node_id : Text} {key : PublicKey} {m : Miner} (block : Block)
      → Reach node_id key m
      → m.thread ≡ searching block
      → (m.current_template ≡ some block) × (task_holds m.task ≡ false)
  unfolding thread_holds
  Reach-Excludes {node_id} {key} {m} block r e =
      let h = Reach-IsHonest r in (h.copy block e, ground (arith, h.exclusive))
