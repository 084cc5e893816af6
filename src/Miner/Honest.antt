-- ===== src/Miner/Honest.antt =====
-- Where the blocks of the miner come from: the templates that it was sent. The invariant, and the
-- turns of the mining thread.
use mathlib.Core.List.{append_assoc}
use grapheno.Base.{
  ℕ, ◌≡◌, refl, subst, if◌then◌else◌, Bool, true, false, List, [], ◌∷◌, ◌++◌, Option, none, some,
  Text, All, All-map, All-snoc, arith,
}
use grapheno.Types.{DateTime, PublicKey, Block}
use grapheno.Primitives.{Primitives}
use grapheno.Hashing.{hash_header, matches_target}
use grapheno.Crypto.{to_address}
use grapheno.Mining.Search.{mine-Keeps, mine-is_mined}
use grapheno.Network.{
  Message, Envelope, fetch_template, template, validate_template, submit_template,
}
use grapheno.Node.Templates.{mined}
use grapheno.Miner.{
  Miner, Thread, looping, cloning, searching, sent, Task, answered, send_message, clone_template,
  thread_holds, task_holds, mine_batch, end_search, thread_step,
}

-- The template stands among the answers that were read.
abbrev pub IsReceived : List Message → Block → Type 0
IsReceived read block =
    (before : List Message) × (behind : List Message) × (read ≡ before ++ (template block ∷ behind))

module _ (p : Primitives) where
  -- A template that was read, with a nonce and a time under which its hash meets its target.
  abbrev pub IsFound : List Message → Block → Type 0
  IsFound read block =
      (from : Block) × (nonce : ℕ) × (timestamp : DateTime) × IsReceived read from
      × (block ≡ mined from nonce timestamp)
      × (matches_target (hash_header p block.header) block.header.target ≡ true)

  -- The requests that a miner with this key makes.
  pub data Request (key : PublicKey) (read : List Message) : Message → Type 0 where
    asks : {a : Text} → a ≡ to_address p key → Request key read (fetch_template a)
    checks : {block : Block} → IsReceived read block → Request key read (validate_template block)
    submits : {block : Block} → IsFound read block → Request key read (submit_template block)

  pub record IsHonest (key : PublicKey) (m : Miner) : Type 0 where
    pub owner : m.public_key ≡ key
    pub current : (block : Block) → m.current_template ≡ some block → IsReceived m.read block
    pub copy : (block : Block) → m.thread ≡ searching block → m.current_template ≡ some block
    pub pending : (block : Block) → m.task ≡ answered block → IsReceived m.read block
    pub exclusive : task_holds m.task ≡ true → thread_holds m.thread ≡ false
    pub queue : All (IsFound m.read) m.mined_blocks
    pub sent : All (λ (e : Envelope). Request key m.read e.msg) m.written

  IsReceived-snoc :
      (read : List Message) (msg : Message) (block : Block)
      → IsReceived read block
      → IsReceived (read ++ msg ∷ []) block
  IsReceived-snoc read msg block (before, behind, e) =
      (before, behind ++ msg ∷ [], rw e (append_assoc before (template block ∷ behind) (msg ∷ [])))

  IsFound-snoc :
      (read : List Message) (msg : Message) (block : Block)
      → IsFound read block
      → IsFound (read ++ msg ∷ []) block
  IsFound-snoc read msg block (from, nonce, timestamp, got, e, hit) =
      (from, nonce, timestamp, IsReceived-snoc read msg from got, e, hit)

  Request-snoc :
      (key : PublicKey) (read : List Message) (msg : Message) {r : Message}
      → Request key read r
      → Request key (read ++ msg ∷ []) r
  Request-snoc key read msg (asks e) = asks e
  Request-snoc key read msg (checks got) = checks (IsReceived-snoc read msg _ got)
  Request-snoc key read msg (submits found) = submits (IsFound-snoc read msg _ found)

  -- Reading an answer loses nothing.
  pub IsHonest-read :
      (key : PublicKey) (msg : Message) (m : Miner)
      → IsHonest key m
      → IsHonest key (record m { read = m.read ++ msg ∷ [] })
  IsHonest-read key msg m h = record {
    owner = h.owner;
    current = λ b e. IsReceived-snoc m.read msg b (h.current b e);
    copy = h.copy;
    pending = λ b e. IsReceived-snoc m.read msg b (h.pending b e);
    exclusive = h.exclusive;
    queue = All-map _ _ (IsFound-snoc m.read msg) m.mined_blocks h.queue;
    sent = All-map _ _ (λ e r. Request-snoc key m.read msg r) m.written h.sent;
  }

  pub IsHonest-send :
      (key : PublicKey) (id : ℕ) (msg : Message) (m : Miner)
      → IsHonest key m
      → Request key m.read msg
      → IsHonest key (send_message id msg m)
  IsHonest-send key id msg m h r = record {
    owner = h.owner;
    current = h.current;
    copy = h.copy;
    pending = h.pending;
    exclusive = h.exclusive;
    queue = h.queue;
    sent = All-snoc (λ (e : Envelope). Request key m.read e.msg) m.written h.sent r;
  }

  -- What the invariant does not speak of may change.
  pub IsHonest-task :
      (key : PublicKey) (flag : Bool) (task : Task) (m : Miner)
      → IsHonest key m
      → ((block : Block) → task ≡ answered block → IsReceived m.read block)
      → (task_holds task ≡ true → thread_holds m.thread ≡ false)
      → IsHonest key (record m { mining = flag; task = task })
  IsHonest-task key flag task m h k x = record {
    owner = h.owner;
    current = h.current;
    copy = h.copy;
    pending = k;
    exclusive = x;
    queue = h.queue;
    sent = h.sent;
  }

  IsHonest-thread :
      (key : PublicKey) (flag : Bool) (thread : Thread) (m : Miner)
      → IsHonest key m
      → ((block : Block) → thread ≡ searching block → m.current_template ≡ some block)
      → (task_holds m.task ≡ true → thread_holds thread ≡ false)
      → IsHonest key (record m { mining = flag; thread = thread })
  IsHonest-thread key flag thread m h k x = record {
    owner = h.owner;
    current = h.current;
    copy = k;
    pending = h.pending;
    exclusive = x;
    queue = h.queue;
    sent = h.sent;
  }

  module _ (now : ℕ → DateTime) where
    mine_batch-IsFound :
        (read : List Message) (block found : Block)
        → IsReceived read block
        → mine_batch p now block ≡ (found, true)
        → IsFound read found
    unfolding mine_batch
    mine_batch-IsFound read block found got e = (
      block,
      found.header.nonce,
      found.header.timestamp,
      got,
      ground (arith, mine-Keeps p now 2000000 block.header),
      mine-is_mined p now 2000000 block.header {k = found.header} (ground arith),
    )

    end_search-IsHonest :
        (key : PublicKey) (m : Miner) (block : Block) (r : Block × Bool)
        → IsHonest key m
        → m.thread ≡ searching block
        → mine_batch p now block ≡ r
        → IsHonest key (end_search p now r m)
    unfolding end_search thread_holds
    end_search-IsHonest key m block (found, false) h here e =
        IsHonest-thread key m.mining looping m h (λ b q. cc) (λ q. refl)
    end_search-IsHonest key m block (found, true) h here e = record {
      owner = h.owner;
      current = h.current;
      copy = λ b q. cc;
      pending = h.pending;
      exclusive = λ q. ground (arith, h.exclusive q);
      queue =
          All-snoc (IsFound m.read) m.mined_blocks h.queue
            (mine_batch-IsFound m.read block found (h.current block (h.copy block here)) e);
      sent = h.sent;
    }

    thread_step_searching :
        (m : Miner) (block : Block)
        → m.thread ≡ searching block
        → end_search p now (mine_batch p now block) m ≡ thread_step p now m
    unfolding thread_step
    thread_step_searching m block e = ground arith

    pub thread_step-IsHonest :
        (key : PublicKey) (m : Miner) (t : Thread) (c : Option Block)
        → m.thread ≡ t
        → m.current_template ≡ c
        → IsHonest key m
        → IsHonest key (thread_step p now m)
    unfolding thread_step clone_template thread_holds
    thread_step-IsHonest key m looping c e f h = subst (IsHonest key) (ground arith) (
        IsHonest-thread key m.mining (if m.mining then cloning else looping) m h
          (λ b q. ground arith) (λ q. ground arith))
    thread_step-IsHonest key m cloning none e f h = subst (IsHonest key) (ground arith) (
        IsHonest-thread key m.mining (if task_holds m.task then cloning else looping) m h
          (λ b q. ground arith) (λ q. ground arith))
    thread_step-IsHonest key m cloning (some block) e f h = subst (IsHonest key) (ground arith) (
        IsHonest-thread key m.mining (if task_holds m.task then cloning else searching block) m h
          (λ b q. ground arith) (λ q. ground arith))
    thread_step-IsHonest key m (searching block) c e f h =
        subst (IsHonest key) (thread_step_searching m block e)
          (end_search-IsHonest key m block _ h e refl)
    thread_step-IsHonest key m sent c e f h =
        subst (IsHonest key) (ground arith)
          (IsHonest-thread key false looping m h (λ b q. cc) (λ q. refl))
