-- ===== src/Node/Dispatch.antt =====
-- The node's message handling, node/src/handler.rs: one turn of `dispatcher_loop`. A panic ends
-- the loop. What a turn draws, the ids of new envelopes and outputs and the time, is an argument.
-- The filter of `FetchUTXOs` names a field `pubkey` that an output does not have; here it reads the
-- address, and the coinbase of a template is given a copy of the address asked for.
use grapheno.Base.{
  ℕ, ◌+◌, ◌-◌, ◌%◌, ◌^◌, Bool, true, false, List, [], ◌∷◌, map, Option, none, some, ℤ, pos, neg,
  get_elem?, last?, take, retain, ltb, leb, ◌==◌, text_eq, if◌then◌else◌, Outcome, ok, err, panic,
  ◌>>=◌, add_u64, Text,
}
use grapheno.Types.{
  Hash, DateTime, TransactionOutput, Transaction, BlockHeader, Block, block_transaction_cap,
}
use grapheno.Primitives.{Primitives}
use grapheno.Hashing.{hash_block, zero_hash}
use grapheno.Merkle.{calculate}
use grapheno.Block.{Utxos, calculate_miner_fees}
use grapheno.Blockchain.{
  Blockchain, Done, block_height, calculate_block_reward, add_block, rebuild_utxos,
}
use grapheno.Mempool.{add_to_mempool}
use grapheno.Network.{
  Message, Envelope, fetch_utxos, utxos, submit_transaction, new_transaction, fetch_template,
  template, validate_template, template_validity, submit_template, discover_nodes, node_list,
  ask_difference, difference, fetch_block, fetch_all_blocks, all_blocks, new_block,
}
use grapheno.Node.{LruCache, PeerId, Node, send_to, broadcast_except, peer_ids, track_if_new}

abbrev pub default_ttl : ℕ
default_ttl = 8

-- What one turn draws from the outside.
pub record Draw : Type 0 where
  pub envelope_id : ℕ
  pub unique_id : ℕ
  pub now : DateTime

-- `as i32` keeps the low 32 bits, and the difference panics where it overflows. Both numbers are
-- moved up by 2^31 here, which leaves their difference.
unfoldable pub sub_i32 : ℕ → ℕ → Outcome ℤ
sub_i32 a b =
    let x = (a + 2 ^ 31) % 2 ^ 32 in
    let y = (b + 2 ^ 31) % 2 ^ 32 in
    if ltb (x + 2 ^ 31) y
    then panic
    else if leb (y + 2 ^ 31) x
    then panic
    else if ltb x y
    then ok (neg (y - x))
    else ok (pos (x - y))

-- The answer to `FetchUTXOs`.
unfoldable pub utxos_of : Text → Utxos → List (TransactionOutput × Bool)
utxos_of key u = map (λ e. (e.1.1, e.1.0)) (retain (λ e. text_eq e.1.1.address key) u)

abbrev pub coinbase_to : Text → ℕ → ℕ → Transaction
coinbase_to address unique_id value = record {
  inputs = [];
  outputs = record { value = value; unique_id = unique_id; address = address } ∷ [];
}

-- The first transactions of the mempool.
abbrev pub taken : Blockchain → List Transaction
taken c = map (λ e. e.1) (take block_transaction_cap c.mempool)

module _ (p : Primitives) where
  -- `get_last_block_hash`
  unfoldable pub get_last_block_hash : Blockchain → Hash
  get_last_block_hash c = elim (last? c.blocks) [
    | none ↦ zero_hash
    | some last_block ↦ hash_block p last_block
  ]

  abbrev pub header_for : Blockchain → DateTime → Hash → BlockHeader
  header_for c now merkle_root = record {
    timestamp = now;
    nonce = 0;
    prev_block_hash = get_last_block_hash c;
    merkle_root = merkle_root;
    target = c.target;
  }

  -- The block before the value of its coinbase is known, and the one that is sent.
  abbrev pub placeholder : Draw → Text → Blockchain → Block
  placeholder draw address c = record {
    header = header_for c draw.now (calculate p []);
    transactions = coinbase_to address draw.unique_id 0 ∷ taken c;
  }

  abbrev pub finished : Draw → Text → Blockchain → ℕ → Block
  finished draw address c value = record {
    header =
        header_for c draw.now (calculate p (coinbase_to address draw.unique_id value ∷ taken c));
    transactions = coinbase_to address draw.unique_id value ∷ taken c;
  }

  -- The template of `FetchTemplate`: the coinbase first, its value set once the fees are known,
  -- and the root last.
  unfoldable pub make_template : Draw → Text → Blockchain → Outcome Block
  make_template draw address c = do
    miner_fees ← calculate_miner_fees p c.utxos (placeholder draw address c)
    reward ← calculate_block_reward c
    value ← add_u64 reward miner_fees
    ok (finished draw address c value)

module _ (p : Primitives) (lru : LruCache) (draw : Draw) (from_peer : PeerId) where
  -- `Envelope::new`, with this node as the origin
  abbrev pub envelope : Node lru → Message → Envelope
  envelope n msg = record {
    id = draw.envelope_id;
    origin = n.self_id;
    ttl = default_ttl;
    msg = msg;
  }

  abbrev pub reply : Node lru → Message → Node lru
  reply n msg = record n { peers = send_to from_peer (envelope n msg) n.peers }

  abbrev pub gossip : Node lru → Message → Node lru
  gossip n msg = record n { peers = broadcast_except from_peer (envelope n msg) n.peers }

  -- How a message was handled: whether the turn goes on to gossip it, or a panic.
  abbrev pub Handled : Type 0
  Handled = Outcome Bool × Node lru

  -- `NewBlock` and `NewTransaction`: gossip what the ledger took.
  unfoldable pub took : Node lru → Done → Handled
  took n (ok _, c) = (ok true, record n { blockchain = c })
  took n (err e, c) = (ok false, record n { blockchain = c })
  took n (panic, c) = (panic, record n { blockchain = c })

  -- `SubmitTemplate` and `SubmitTransaction`: broadcast what the ledger took, under a new id.
  unfoldable pub submitted : Node lru → (Blockchain → Blockchain) → Message → Done → Handled
  submitted n finish msg (ok _, c) = (ok false, gossip (record n { blockchain = finish c }) msg)
  submitted n finish msg (err e, c) = (ok false, record n { blockchain = c })
  submitted n finish msg (panic, c) = (panic, record n { blockchain = c })

  unfoldable pub replied : Node lru → Outcome Message → Handled
  replied n (ok msg) = (ok false, reply n msg)
  replied n (err e) = (ok false, n)
  replied n panic = (panic, n)

  abbrev pub block_reply : Node lru → Option Block → Node lru
  block_reply n none = n
  block_reply n (some block) = reply n (new_block block)

  -- The match on the message.
  unfoldable pub handle_message : Node lru → Message → Handled
  handle_message n (utxos _) = (ok false, n)
  handle_message n (template _) = (ok false, n)
  handle_message n (difference _) = (ok false, n)
  handle_message n (template_validity _) = (ok false, n)
  handle_message n (node_list _) = (ok false, n)
  handle_message n (all_blocks _) = (ok false, n)
  handle_message n (fetch_block height) =
      (ok false, block_reply n (get_elem? n.blockchain.blocks height))
  handle_message n fetch_all_blocks = (ok false, reply n (all_blocks n.blockchain.blocks))
  handle_message n discover_nodes = (ok false, reply n (node_list (peer_ids n.peers)))
  handle_message n (ask_difference height) =
      replied n (do d ← sub_i32 (block_height n.blockchain) height; ok (difference d))
  handle_message n (fetch_utxos key) = (ok false, reply n (utxos (utxos_of key n.blockchain.utxos)))
  handle_message n (new_block block) = took n (add_block p block n.blockchain)
  handle_message n (new_transaction tx) = took n (add_to_mempool p draw.now tx n.blockchain)
  handle_message n (validate_template block) = (
    ok false,
    reply n
        (template_validity (block.header.prev_block_hash == get_last_block_hash p n.blockchain)),
  )
  handle_message n (submit_template block) =
      submitted n (rebuild_utxos p) (new_block block) (add_block p block n.blockchain)
  handle_message n (submit_transaction tx) =
      submitted n (λ c. c) (new_transaction tx) (add_to_mempool p draw.now tx n.blockchain)
  handle_message n (fetch_template address) =
      replied n (do block ← make_template p draw address n.blockchain; ok (template block))

  -- `if should_gossip && env.ttl > 0`
  unfoldable pub pass_on : Envelope → Handled → Outcome (Unit {0}) × Node lru
  pass_on env (ok false, n) = (ok tt, n)
  pass_on env (ok true, n) = if env.ttl == 0 then (ok tt, n) else (
    ok tt,
    record n { peers = broadcast_except from_peer (record env { ttl = env.ttl - 1 }) n.peers },
  )
  pass_on env (err e, n) = (err e, n)
  pass_on env (panic, n) = (panic, n)

  unfoldable pub handle_new : Envelope → Bool × Node lru → Outcome (Unit {0}) × Node lru
  handle_new env (false, n) = (ok tt, n)
  handle_new env (true, n) = pass_on env (handle_message n env.msg)

  -- One turn of `dispatcher_loop`.
  unfoldable pub dispatch : Envelope → Node lru → Outcome (Unit {0}) × Node lru
  dispatch env n =
      if text_eq env.origin n.self_id
      then (ok tt, n)
      else handle_new env (track_if_new lru env.id n)
