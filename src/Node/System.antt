-- ===== src/Node/System.antt =====
-- A node that runs: node/src/context.rs, util.rs and main.rs, `accept_peer` of handler.rs, and the
-- inbound channel of network.rs, around the dispatcher and the database. The tasks take their turns
-- in any order; a turn holds the lock of the ledger. What is saved outlives the node.
pub mod Restarts
mod Tests
use grapheno.Base.{
  ℕ, ◌<◌, ◌≡◌, Bool, true, false, List, [], ◌∷◌, ◌++◌, Option, none, some, length, text_eq,
  if◌then◌else◌, Text, Outcome, ok, err, panic,
}
use grapheno.Types.{DateTime}
use grapheno.Primitives.{Primitives}
use grapheno.Blockchain.{Blockchain, new}
use grapheno.Mempool.{cleanup_mempool}
use grapheno.Network.{Envelope}
use grapheno.Node.{LruCache, PeerId, Peer, Node}
use grapheno.Node.Dispatch.{Draw, dispatch}
use grapheno.Database.{Codecs, Store}
use grapheno.Database.Snapshots.{
  Loaded, loaded, not_loaded, crashed, save_blockchain, load_blockchain,
}

abbrev pub inbound_buffer : ℕ
inbound_buffer = 128

-- `NodeContext`: the hub with the ledger, its inbound channel, and the database. `dispatching` tells
-- whether the dispatcher still runs; `sent` is what the writers have written, by peer.
pub record System (lru : LruCache) : Type 0 where
  pub node : Node lru
  pub inbound : List (PeerId × Envelope)
  pub db : Store
  pub dispatching : Bool
  pub sent : List (PeerId × Envelope)

-- `DashMap::insert` in `accept_peer`: a new channel, and an old one under the same address is gone.
unfoldable pub accept_peer : PeerId → List Peer → List Peer
accept_peer peer_id [] = (peer_id, []) ∷ []
accept_peer peer_id ((key, queue) ∷ rest) =
    if text_eq key peer_id then (peer_id, []) ∷ rest else (key, queue) ∷ accept_peer peer_id rest

-- `populate_connections`: the nodes that can be reached, by the addresses of their ends.
unfoldable pub populate_connections : (Text → Option PeerId) → List Text → List Peer → List Peer
unfolding accept_peer
populate_connections connect [] peers = peers
populate_connections connect (address ∷ addresses) peers = elim (connect address) [
  | none ↦ populate_connections connect addresses peers
  | some peer_id ↦ populate_connections connect addresses (accept_peer peer_id peers)
]

-- The writer of `accept_peer`: the next envelope of a peer's channel, and the channels behind it.
unfoldable pub next_outbound : PeerId → List Peer → Option Envelope × List Peer
next_outbound peer_id [] = (none, [])
next_outbound peer_id ((key, []) ∷ rest) =
    let r = next_outbound peer_id rest in
    if text_eq key peer_id then (none, (key, []) ∷ rest) else (r.0, (key, []) ∷ r.1)
next_outbound peer_id ((key, env ∷ queue) ∷ rest) =
    let r = next_outbound peer_id rest in
    if text_eq key peer_id then (some env, (key, queue) ∷ rest) else (r.0, (key, env ∷ queue) ∷ r.1)

abbrev pub log_sent : PeerId → Option Envelope → List (PeerId × Envelope) → List (PeerId × Envelope)
log_sent peer_id none sent = sent
log_sent peer_id (some env) sent = sent ++ (peer_id, env) ∷ []

-- The ledger of `NodeContext::new`: what the database holds, or a new one. A panic ends the start.
abbrev pub ledger_of : Loaded → Option Blockchain
ledger_of (loaded c) = some c
ledger_of not_loaded = some new
ledger_of crashed = none

-- Whether the dispatcher goes on behind a turn.
abbrev pub goes_on : Outcome (Unit {0}) → Bool
goes_on (ok _) = true
goes_on (err e) = false
goes_on panic = false

module _ (lru : LruCache) where
  -- `NetworkHub::new` and `NodeContext::new` with this ledger; `peers` are those connected to.
  unfoldable pub started :
      Text → lru.Cache → List Peer → Store → Option Blockchain → Option (System lru)
  started self_id empty peers db none = none
  started self_id empty peers db (some c) = some (record {
    node = record { self_id = self_id; peers = peers; seen = empty; blockchain = c };
    inbound = [];
    db = db;
    dispatching = true;
    sent = [];
  })

  -- The writer of a peer takes its turn.
  unfoldable pub write_outbound : PeerId → System lru → System lru
  unfolding next_outbound
  write_outbound peer_id s =
      let (env, peers) = next_outbound peer_id s.node.peers in
      record s { node = record s.node { peers = peers }; sent = log_sent peer_id env s.sent }

module _ (p : Primitives) (lru : LruCache) (cbor : Codecs) where
  -- `NodeContext::new`; `clock` is what `load_blockchain` reads of the time, and `fuel` bounds the
  -- indices of its blocks.
  unfoldable pub new_context :
      (ℕ → DateTime)
      → ℕ
      → Text
      → lru.Cache
      → (Text → Option PeerId)
      → List Text
      → Store
      → Option (System lru)
  unfolding started populate_connections
  new_context clock fuel self_id empty connect nodes db =
      started lru self_id empty (populate_connections connect nodes []) db
        (ledger_of (load_blockchain p cbor clock fuel db))

  -- `next_inbound`, and one turn of `dispatcher_loop`; a panic ends it.
  unfoldable pub dispatch_next : Draw → List (PeerId × Envelope) → System lru → System lru
  dispatch_next draw [] s = s
  dispatch_next draw ((from_peer, env) ∷ rest) s =
      if s.dispatching
      then (let (outcome, n) = dispatch p lru draw from_peer env s.node in
          record s { node = n; inbound = rest; dispatching = goes_on outcome })
      else s

  -- One turn of `save`; what an error leaves in the database stays.
  abbrev pub save : System lru → System lru
  save s = record s { db = (save_blockchain p cbor s.node.blockchain s.db).1 }

  -- What happens to a node.
  pub data Turn : System lru → System lru → Type 0 where
    reads :
        (from_peer : PeerId) (env : Envelope) (s : System lru)
        → length s.inbound < inbound_buffer
        → Turn s (record s { inbound = s.inbound ++ (from_peer, env) ∷ [] })
    dispatches : (draw : Draw) (s : System lru) → Turn s (dispatch_next draw s.inbound s)
    writes : (peer_id : PeerId) (s : System lru) → Turn s (write_outbound lru peer_id s)
    accepts :
        (peer_id : PeerId) (s : System lru)
        → Turn s (record s { node = record s.node { peers = accept_peer peer_id s.node.peers } })
    cleans :
        (now : DateTime) (s : System lru)
        → Turn s (record s {
          node = record s.node { blockchain = cleanup_mempool now s.node.blockchain };
        })
    saves : (s : System lru) → Turn s (save s)
    restarts :
        {t : System lru} (clock : ℕ → DateTime) (fuel : ℕ) (self_id : Text) (empty : lru.Cache)
        (connect : Text → Option PeerId) (nodes : List Text) (s : System lru)
        → new_context clock fuel self_id empty connect nodes s.db ≡ some t
        → Turn s t

  -- A node that was started on any database, and what happens to it.
  pub data Lives : System lru → Type 0 where
    starts :
        {t : System lru} (clock : ℕ → DateTime) (fuel : ℕ) (self_id : Text) (empty : lru.Cache)
        (connect : Text → Option PeerId) (nodes : List Text) (db : Store)
        → new_context clock fuel self_id empty connect nodes db ≡ some t
        → Lives t
    then_turn : {s t : System lru} → Lives s → Turn s t → Lives t
