-- ===== src/Wallet/Client/Verdict.antt =====
-- A payment and the turn of the node that takes it: what the wallet concludes, and from what.
use grapheno.Base.{
  ℕ, ◌≡◌, ◌∙◌, refl, sym, subst, Bool, true, false, List, [], ◌∷◌, Option, none, some, Bool-cases,
  inl, inr, if◌then◌else◌, text_eq, arith, Text, ok, err, panic,
}
use grapheno.Types.{Transaction}
use grapheno.Primitives.{Primitives}
use grapheno.Blockchain.{Done}
use grapheno.Mempool.{add_to_mempool}
use grapheno.Network.{Envelope, Codec, new_transaction, Message}
use grapheno.Network.Frames.{frames}
use grapheno.Node.{LruCache, PeerId, Peer, Node, track_if_new, broadcast_except}
use grapheno.Node.Dispatch.{Draw, submitted, handle_message, pass_on, handle_new, dispatch}
use grapheno.Wallet.{made}
use grapheno.Wallet.Client.{Core, success, Meanwhile, probe, send_transaction}
use grapheno.Wallet.Client.Sending.{submission}

-- The channel of a peer, where the peer is connected.
unfoldable pub queue_of : PeerId → List Peer → Option (List Envelope)
queue_of peer_id [] = none
queue_of peer_id ((key, queue) ∷ rest) =
    if text_eq key peer_id then some queue else queue_of peer_id rest

-- What comes to a peer of the node: the writer empties its channel into the connection, which is
-- open for as long as the node has the peer.
unfoldable pub delivered : Codec Envelope → Bool → Option (List Envelope) → Meanwhile
delivered codec reachable none = record { arrived = []; stays_open = false; reachable = reachable }
delivered codec reachable (some queue) = record {
  arrived = frames codec queue;
  stays_open = true;
  reachable = reachable;
}

queue_of-broadcast_except :
    (peer_id : PeerId) (e : Envelope) (ps : List Peer)
    → queue_of peer_id (broadcast_except peer_id e ps) ≡ queue_of peer_id ps
unfolding queue_of broadcast_except
queue_of-broadcast_except peer_id e [] = refl
queue_of-broadcast_except peer_id e ((key, queue) ∷ ps) = elim (Bool-cases (text_eq key peer_id)) [
  | inl same ↦ rw (same, same) refl
  | inr other ↦ rw (other, other) (queue_of-broadcast_except peer_id e ps)
]

module _ (p : Primitives) (lru : LruCache) (draw : Draw) (from_peer : PeerId) where
  queue_of-submitted :
      (n : Node lru) (env : Envelope) (msg : Message) (d : Done)
      → queue_of from_peer
          (pass_on p lru draw from_peer env
            (submitted p lru draw from_peer n (λ c. c) msg d)).1.peers
        ≡ queue_of from_peer n.peers
  unfolding submitted pass_on
  queue_of-submitted n env msg (ok _, c) = queue_of-broadcast_except from_peer _ n.peers
  queue_of-submitted n env msg (err e, c) = refl
  queue_of-submitted n env msg (panic, c) = refl

  -- The turn for a submitted transaction writes nothing to the peer that it came from.
  queue_of-dispatch :
      (n : Node lru) (id : ℕ) (origin : Text) (t : Transaction)
      → queue_of from_peer (dispatch p lru draw from_peer (submission id origin t) n).1.peers
        ≡ queue_of from_peer n.peers
  unfolding dispatch track_if_new handle_new handle_message
  queue_of-dispatch n id origin t = elim (Bool-cases (text_eq origin n.self_id)) [
    | inl own ↦ rw (own, dispatch) refl
    | inr other ↦ elim (Bool-cases (lru.contains id n.seen)) [
      | inl old ↦ rw (other, old, dispatch) refl
      | inr fresh ↦
          rw (other, fresh, dispatch)
            (queue_of-submitted (record n { seen = lru.put id n.seen }) (submission id origin t)
              (new_transaction t) (add_to_mempool p draw.now t n.blockchain))
    ]
  ]

-- A wallet on an open, idle connection, for which nothing waits in the node's channel, sends a
-- transaction, and the node takes its turn for it. Whatever this turn does, so also where
-- `add_to_mempool` refuses the transaction or panics: the node writes nothing to the wallet and
-- keeps it as a peer, and so the wallet takes the transaction for accepted.
pub send_transaction-dispatch :
    (p : Primitives) (codec : Codec Envelope) (lru : LruCache) (draw : Draw) (from_peer : PeerId)
    (n : Node lru) (id : ℕ) (t : Transaction) (c : Core) (reachable : Bool)
    → queue_of from_peer n.peers ≡ some []
    → c.stream ≡ record { inbound = []; open_end = true }
    → let queue =
        queue_of from_peer
          (dispatch p lru draw from_peer (submission id c.wallet_id t) n).1.peers in
      (queue ≡ some [])
      × ((send_transaction id (delivered codec reachable queue) t c).0 ≡ made success)
unfolding send_transaction probe delivered frames
send_transaction-dispatch p codec lru draw from_peer n id t c reachable idle quiet =
    let same = queue_of-dispatch p lru draw from_peer n id c.wallet_id t ∙ idle in
    (
      same,
      subst (λ q. (send_transaction id (delivered codec reachable q) t c).0 ≡ made success)
          (sym same) (ground (arith, quiet)),
    )
