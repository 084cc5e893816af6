-- ===== src/Miner/Turns.antt =====
-- The turns of the miner's task keep the invariant.
use grapheno.Base.{
  ℕ, ◌≡◌, ◌≢◌, refl, ap, subst, if◌then◌else◌, Bool, true, false, List, [], ◌∷◌, ◌++◌, Option, none,
  some, All, arith, Bool-cases, inl, inr,
}
use grapheno.Types.{PublicKey, Block}
use grapheno.Primitives.{Primitives}
use grapheno.Crypto.{to_address}
use grapheno.Network.{
  Message, fetch_utxos, utxos, submit_transaction, new_transaction, fetch_template, template,
  validate_template, template_validity, submit_template, discover_nodes, node_list, ask_difference,
  difference, fetch_block, fetch_all_blocks, all_blocks, new_block,
}
use grapheno.Miner.{
  Miner, Task, selecting, fetching, answered, fetched, locking, validating, submitting, stopped,
  send_message, take_template, take_validity, receive_reply, validate_current, tick, submit_mined,
  store_mining, thread_holds, task_holds, lock_template,
}
use grapheno.Miner.Honest.{
  IsReceived, IsFound, asks, checks, submits, IsHonest, IsHonest-read, IsHonest-send, IsHonest-task,
}

module _ (p : Primitives) (key : PublicKey) where
  -- Where the task neither has a template to store nor holds the mutex.
  IsHonest-plain :
      (flag : Bool) (t : Task) (m : Miner)
      → ((block : Block) → t ≢ answered block)
      → task_holds t ≡ false
      → IsHonest p key m
      → IsHonest p key (record m { mining = flag; task = t })
  IsHonest-plain flag t m k x h =
      IsHonest-task p key flag t m h (λ b e. absurd (k b e)) (λ e. ground arith)

  pub stop-IsHonest : (m : Miner) → IsHonest p key m → IsHonest p key (record m { task = stopped })
  unfolding task_holds
  stop-IsHonest m h = IsHonest-plain m.mining stopped m (λ b e. cc) refl h

  validate_current-IsHonest :
      (id : ℕ) (m : Miner) (c : Option Block)
      → m.current_template ≡ c
      → thread_holds m.thread ≡ false
      → IsHonest p key m
      → IsHonest p key (validate_current id c m)
  unfolding validate_current task_holds
  validate_current-IsHonest id m none e free h =
      IsHonest-plain m.mining selecting m (λ b q. cc) refl h
  validate_current-IsHonest id m (some block) e free h =
      IsHonest-task p key m.mining validating (send_message id (validate_template block) m)
        (IsHonest-send p key id (validate_template block) m h (checks (h.current block e)))
        (λ b q. cc) (λ q. free)

  pub tick-IsHonest : (id : ℕ) (m : Miner) → IsHonest p key m → IsHonest p key (tick p id m)
  unfolding tick task_holds
  tick-IsHonest id m h = elim (Bool-cases m.mining) [
    | inl on ↦
        subst (IsHonest p key) (ground arith) (IsHonest-plain m.mining locking m (λ b q. cc) refl h)
    | inr off ↦ subst (IsHonest p key) (ground arith) (
        IsHonest-plain m.mining fetching
          (send_message id (fetch_template (to_address p m.public_key)) m) (λ b q. cc) refl
          (IsHonest-send p key id (fetch_template (to_address p m.public_key)) m h
            (asks (ap (to_address p) h.owner))))
  ]

  pub submit_mined-IsHonest :
      (id : ℕ) (m : Miner) (q : List Block)
      → m.mined_blocks ≡ q
      → IsHonest p key m
      → IsHonest p key (submit_mined id q m)
  unfolding submit_mined task_holds
  submit_mined-IsHonest id m [] e h = h
  submit_mined-IsHonest id m (block ∷ rest) e h =
      let (first, others) = subst (All (IsFound p m.read)) e h.queue in
      let s = IsHonest-send p key id (submit_template block) m h (submits first) in
      record {
        owner = s.owner;
        current = s.current;
        copy = s.copy;
        pending = λ b q. cc;
        exclusive = λ q. cc;
        queue = others;
        sent = s.sent;
      }

  -- The template that was read becomes the current one, while nobody searches.
  set_template-IsHonest :
      (m : Miner) (block : Block)
      → thread_holds m.thread ≡ false
      → IsReceived m.read block
      → IsHonest p key m
      → IsHonest p key (record m { current_template = some block; task = fetched })
  unfolding thread_holds task_holds
  set_template-IsHonest m block free got h = record {
    owner = h.owner;
    current = λ b e. ground (arith, got);
    copy = λ b e. ground arith;
    pending = λ b e. cc;
    exclusive = λ e. cc;
    queue = h.queue;
    sent = h.sent;
  }

  pub lock_template-IsHonest :
      (id : ℕ) (t : Task) (m : Miner)
      → m.task ≡ t
      → IsHonest p key m
      → IsHonest p key (lock_template id t m)
  unfolding lock_template
  lock_template-IsHonest id (answered block) m e h = elim (Bool-cases (thread_holds m.thread)) [
    | inl held ↦ subst (IsHonest p key) (ground arith) h
    | inr free ↦
        subst (IsHonest p key) (ground arith)
          (set_template-IsHonest m block free (h.pending block e) h)
  ]
  lock_template-IsHonest id locking m e h = elim (Bool-cases (thread_holds m.thread)) [
    | inl held ↦ subst (IsHonest p key) (ground arith) h
    | inr free ↦
        subst (IsHonest p key) (ground arith)
          (validate_current-IsHonest id m m.current_template refl free h)
  ]
  lock_template-IsHonest id selecting m e h = h
  lock_template-IsHonest id fetching m e h = h
  lock_template-IsHonest id fetched m e h = h
  lock_template-IsHonest id validating m e h = h
  lock_template-IsHonest id submitting m e h = h
  lock_template-IsHonest id stopped m e h = h

  pub store_mining-IsHonest :
      (t : Task) (m : Miner) → IsHonest p key m → IsHonest p key (store_mining t m)
  unfolding store_mining task_holds
  store_mining-IsHonest fetched m h = IsHonest-plain true selecting m (λ b q. cc) refl h
  store_mining-IsHonest submitting m h = IsHonest-plain false selecting m (λ b q. cc) refl h
  store_mining-IsHonest selecting m h = h
  store_mining-IsHonest fetching m h = h
  store_mining-IsHonest (answered _) m h = h
  store_mining-IsHonest locking m h = h
  store_mining-IsHonest validating m h = h
  store_mining-IsHonest stopped m h = h

  take_template-IsHonest :
      (msg : Message) (m : Miner)
      → IsHonest p key m
      → IsHonest p key (take_template msg (record m { read = m.read ++ msg ∷ [] }))
  unfolding take_template task_holds
  take_template-IsHonest (template block) m h =
      IsHonest-task p key m.mining (answered block) _ (IsHonest-read p key (template block) m h)
        (λ b e. (m.read, [], ground arith)) (λ e. cc)
  take_template-IsHonest (fetch_utxos a) m h =
      stop-IsHonest _ (IsHonest-read p key (fetch_utxos a) m h)
  take_template-IsHonest (utxos a) m h = stop-IsHonest _ (IsHonest-read p key (utxos a) m h)
  take_template-IsHonest (submit_transaction a) m h =
      stop-IsHonest _ (IsHonest-read p key (submit_transaction a) m h)
  take_template-IsHonest (new_transaction a) m h =
      stop-IsHonest _ (IsHonest-read p key (new_transaction a) m h)
  take_template-IsHonest (fetch_template a) m h =
      stop-IsHonest _ (IsHonest-read p key (fetch_template a) m h)
  take_template-IsHonest (validate_template a) m h =
      stop-IsHonest _ (IsHonest-read p key (validate_template a) m h)
  take_template-IsHonest (template_validity a) m h =
      stop-IsHonest _ (IsHonest-read p key (template_validity a) m h)
  take_template-IsHonest (submit_template a) m h =
      stop-IsHonest _ (IsHonest-read p key (submit_template a) m h)
  take_template-IsHonest discover_nodes m h =
      stop-IsHonest _ (IsHonest-read p key discover_nodes m h)
  take_template-IsHonest (node_list a) m h = stop-IsHonest _ (IsHonest-read p key (node_list a) m h)
  take_template-IsHonest (ask_difference a) m h =
      stop-IsHonest _ (IsHonest-read p key (ask_difference a) m h)
  take_template-IsHonest (difference a) m h =
      stop-IsHonest _ (IsHonest-read p key (difference a) m h)
  take_template-IsHonest (fetch_block a) m h =
      stop-IsHonest _ (IsHonest-read p key (fetch_block a) m h)
  take_template-IsHonest fetch_all_blocks m h =
      stop-IsHonest _ (IsHonest-read p key fetch_all_blocks m h)
  take_template-IsHonest (all_blocks a) m h =
      stop-IsHonest _ (IsHonest-read p key (all_blocks a) m h)
  take_template-IsHonest (new_block a) m h = stop-IsHonest _ (IsHonest-read p key (new_block a) m h)

  take_validity-IsHonest :
      (msg : Message) (m : Miner)
      → IsHonest p key m
      → IsHonest p key (take_validity msg (record m { read = m.read ++ msg ∷ [] }))
  unfolding take_validity task_holds
  take_validity-IsHonest (template_validity valid) m h =
      IsHonest-plain (if valid then m.mining else false) selecting _ (λ b q. cc) refl
        (IsHonest-read p key (template_validity valid) m h)
  take_validity-IsHonest (fetch_utxos a) m h =
      stop-IsHonest _ (IsHonest-read p key (fetch_utxos a) m h)
  take_validity-IsHonest (utxos a) m h = stop-IsHonest _ (IsHonest-read p key (utxos a) m h)
  take_validity-IsHonest (submit_transaction a) m h =
      stop-IsHonest _ (IsHonest-read p key (submit_transaction a) m h)
  take_validity-IsHonest (new_transaction a) m h =
      stop-IsHonest _ (IsHonest-read p key (new_transaction a) m h)
  take_validity-IsHonest (fetch_template a) m h =
      stop-IsHonest _ (IsHonest-read p key (fetch_template a) m h)
  take_validity-IsHonest (validate_template a) m h =
      stop-IsHonest _ (IsHonest-read p key (validate_template a) m h)
  take_validity-IsHonest (submit_template a) m h =
      stop-IsHonest _ (IsHonest-read p key (submit_template a) m h)
  take_validity-IsHonest discover_nodes m h =
      stop-IsHonest _ (IsHonest-read p key discover_nodes m h)
  take_validity-IsHonest (node_list a) m h = stop-IsHonest _ (IsHonest-read p key (node_list a) m h)
  take_validity-IsHonest (ask_difference a) m h =
      stop-IsHonest _ (IsHonest-read p key (ask_difference a) m h)
  take_validity-IsHonest (difference a) m h =
      stop-IsHonest _ (IsHonest-read p key (difference a) m h)
  take_validity-IsHonest (fetch_block a) m h =
      stop-IsHonest _ (IsHonest-read p key (fetch_block a) m h)
  take_validity-IsHonest fetch_all_blocks m h =
      stop-IsHonest _ (IsHonest-read p key fetch_all_blocks m h)
  take_validity-IsHonest (all_blocks a) m h =
      stop-IsHonest _ (IsHonest-read p key (all_blocks a) m h)
  take_validity-IsHonest (new_block a) m h = stop-IsHonest _ (IsHonest-read p key (new_block a) m h)
  take_validity-IsHonest (template a) m h = stop-IsHonest _ (IsHonest-read p key (template a) m h)

  pub receive_reply-IsHonest :
      (r : Option Message) (m : Miner) (t : Task)
      → m.task ≡ t
      → IsHonest p key m
      → IsHonest p key (receive_reply r m)
  unfolding receive_reply
  receive_reply-IsHonest none m t e h = stop-IsHonest m h
  receive_reply-IsHonest (some msg) m fetching e h =
      subst (IsHonest p key) (ground arith) (take_template-IsHonest msg m h)
  receive_reply-IsHonest (some msg) m validating e h =
      subst (IsHonest p key) (ground arith) (take_validity-IsHonest msg m h)
  receive_reply-IsHonest (some msg) m selecting e h = subst (IsHonest p key) (ground arith) h
  receive_reply-IsHonest (some msg) m (answered b) e h = subst (IsHonest p key) (ground arith) h
  receive_reply-IsHonest (some msg) m locking e h = subst (IsHonest p key) (ground arith) h
  receive_reply-IsHonest (some msg) m fetched e h = subst (IsHonest p key) (ground arith) h
  receive_reply-IsHonest (some msg) m submitting e h = subst (IsHonest p key) (ground arith) h
  receive_reply-IsHonest (some msg) m stopped e h = subst (IsHonest p key) (ground arith) h
