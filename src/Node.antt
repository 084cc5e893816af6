-- ===== src/Node.antt =====
-- The node's network hub, node/src/network.rs: the peers with what waits for each to be written,
-- and the ids of the messages seen. What a peer's writer has taken off its queue is not kept.
pub mod Channels
pub mod Dispatch
pub mod Routing
pub mod Templates
pub mod Ledger
pub mod System
mod Tests
use grapheno.Base.{
  ℕ, ◌+◌, Bool, true, false, List, [], ◌∷◌, ◌++◌, map, length, ltb, text_eq, if◌then◌else◌, Text,
}
use grapheno.Network.{Envelope}
use grapheno.Blockchain.{Blockchain}

abbrev pub PeerId : Type 0
PeerId = Text

-- The `LruCache` of the crate lru, with the room that the hub gives it.
pub record LruCache : Type 1 where
  pub Cache : Type 0
  pub contains : ℕ → Cache → Bool
  pub put : ℕ → Cache → Cache

abbrev pub outbound_buffer : ℕ
outbound_buffer = 256

-- A peer and the envelopes of its outbound channel, the oldest first.
abbrev pub Peer : Type 0
Peer = PeerId × List Envelope

-- `NodeContext`, with `NetworkHub` inside
pub record Node (lru : LruCache) : Type 0 where
  pub self_id : Text
  pub peers : List Peer
  pub seen : lru.Cache
  pub blockchain : Blockchain

-- `NetworkHub::send_to`: `send` waits while the channel is full, so the envelope is in it behind
-- the call. A peer that is not there gets nothing.
unfoldable pub send_to : PeerId → Envelope → List Peer → List Peer
send_to peer_id env [] = []
send_to peer_id env ((key, queue) ∷ rest) =
    if text_eq key peer_id
    then (key, queue ++ env ∷ []) ∷ rest
    else (key, queue) ∷ send_to peer_id env rest

-- `try_send`: a full channel drops the envelope.
unfoldable pub try_send : Envelope → List Envelope → List Envelope
try_send env queue = if ltb (length queue) outbound_buffer then queue ++ env ∷ [] else queue

-- `broadcast_except`, with the peer that is left out
unfoldable pub broadcast_except : PeerId → Envelope → List Peer → List Peer
unfolding try_send
broadcast_except except env [] = []
broadcast_except except env ((key, queue) ∷ rest) =
    (if text_eq key except then (key, queue) else (key, try_send env queue))
    ∷ broadcast_except except env rest

-- `NetworkHub::peer_ids`
abbrev pub peer_ids : List Peer → List PeerId
peer_ids = map (λ p. p.0)

module _ (lru : LruCache) where
  -- `NetworkHub::track_if_new`: whether the id is new, and the hub behind the call.
  unfoldable pub track_if_new : ℕ → Node lru → Bool × Node lru
  track_if_new id n =
      if lru.contains id n.seen then (false, n) else (true, record n { seen = lru.put id n.seen })
