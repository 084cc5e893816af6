-- ===== src/Node/System/Restarts.antt =====
-- The ledger over the whole life of a node, restarts included.
use grapheno.Base.{
  ℕ, ◌≤◌, ◌≡◌, ◌≢◌, refl, ap, subst, List, [], ◌∷◌, ◌++◌, Option, none, some, length, length-append,
  arith, Text, inl, inr, Bool-cases,
}
use grapheno.Types.{DateTime, Block}
use grapheno.Primitives.{Primitives}
use grapheno.Blockchain.{Blockchain, new}
use grapheno.Mempool.Soundness.{IsSound, IsSound-SameChain, cleanup_mempool-SameChain}
use grapheno.Network.{Envelope}
use grapheno.Node.{LruCache, PeerId, Peer}
use grapheno.Node.Dispatch.{Draw}
use grapheno.Node.Ledger.{dispatch-Keeps}
use grapheno.Database.{Codecs, Store, get_all_blocks}
use grapheno.Database.Snapshots.{Loaded, loaded, not_loaded, crashed, load_blockchain}
use grapheno.Database.Restart.{Spends, load_blockchain-Spends}
use grapheno.Node.System.{
  System, inbound_buffer, ledger_of, started, new_context, write_outbound, dispatch_next, Turn,
  reads, dispatches, writes, accepts, cleans, saves, restarts, Lives, starts, then_turn,
}
use grapheno.Database.Loading.{IsSoundLoaded, load_blockchain-IsSound, new-IsSound}

module _ (p : Primitives) (lru : LruCache) (cbor : Codecs) where
  -- The ledger is sound, and the inbound channel no longer than its buffer.
  abbrev pub IsWell : System lru → Type 0
  IsWell s = IsSound p s.node.blockchain × (length s.inbound ≤ inbound_buffer)

  started-IsWell :
      (self_id : Text) (empty : lru.Cache) (peers : List Peer) (db : Store) (l : Loaded)
      {t : System lru}
      → IsSoundLoaded p l
      → started lru self_id empty peers db (ledger_of l) ≡ some t
      → IsWell t
  unfolding started
  started-IsWell self_id empty peers db (loaded c) {t} s e =
      subst (λ (o : Option (System lru)). elim o [ none ↦ Unit | some x ↦ IsWell x ]) e
        (s, omega arith)
  started-IsWell self_id empty peers db not_loaded {t} s e =
      subst (λ (o : Option (System lru)). elim o [ none ↦ Unit | some x ↦ IsWell x ]) e
        (new-IsSound p, omega arith)
  started-IsWell self_id empty peers db crashed {t} s e = cc

  new_context-IsWell :
      (clock : ℕ → DateTime) (fuel : ℕ) (self_id : Text) (empty : lru.Cache)
      (connect : Text → Option PeerId) (nodes : List Text) (db : Store) {t : System lru}
      → new_context p lru cbor clock fuel self_id empty connect nodes db ≡ some t
      → IsWell t
  unfolding new_context
  new_context-IsWell clock fuel self_id empty connect nodes db {t} e =
      started-IsWell self_id empty _ db (load_blockchain p cbor clock fuel db) {t = t}
        (load_blockchain-IsSound p cbor clock fuel db) e

  dispatch_next-IsWell :
      (draw : Draw) (q : List (PeerId × Envelope)) (s : System lru)
      → s.inbound ≡ q
      → IsWell s
      → IsWell (dispatch_next p lru cbor draw q s)
  unfolding dispatch_next
  dispatch_next-IsWell draw [] s e h = h
  dispatch_next-IsWell draw ((from_peer, env) ∷ rest) s e (sound, short) =
      elim (Bool-cases s.dispatching) [
        | inl on ↦
            rw (on, dispatch_next)
              (
                dispatch-Keeps p lru draw from_peer env s.node sound,
                omega (arith, ap (λ q. length q) e),
              )
        | inr off ↦ rw (off, dispatch_next) (sound, short)
      ]

  write_outbound-IsWell :
      (peer_id : PeerId) (s : System lru) → IsWell s → IsWell (write_outbound lru peer_id s)
  unfolding write_outbound
  write_outbound-IsWell peer_id s h = h

  Turn-IsWell : {s t : System lru} → Turn p lru cbor s t → IsWell s → IsWell t
  Turn-IsWell (reads from_peer env s room) h =
      (h.0, omega (arith, length-append s.inbound ((from_peer, env) ∷ [])))
  Turn-IsWell (dispatches draw s) h = dispatch_next-IsWell draw s.inbound s refl h
  Turn-IsWell (writes peer_id s) h = write_outbound-IsWell peer_id s h
  Turn-IsWell (accepts peer_id s) h = h
  Turn-IsWell (cleans now s) h =
      (IsSound-SameChain p _ _ (cleanup_mempool-SameChain now s.node.blockchain) h.0, h.1)
  Turn-IsWell (saves s) h = h
  Turn-IsWell (restarts clock fuel self_id empty connect nodes s e) h =
      new_context-IsWell clock fuel self_id empty connect nodes s.db e

  -- On whatever database a node starts, and however messages, clean-ups, savings, new peers and
  -- restarts follow each other: its blocks form a chain, its target is no easier than the program
  -- allows, and no more messages wait than its inbound channel has room for.
  pub Lives-IsWell : {s : System lru} → Lives p lru cbor s → IsWell s
  Lives-IsWell (starts clock fuel self_id empty connect nodes db e) =
      new_context-IsWell clock fuel self_id empty connect nodes db e
  Lives-IsWell (then_turn l turn) = Turn-IsWell turn (Lives-IsWell l)

  started-new :
      (self_id : Text) (empty : lru.Cache) (peers : List Peer) (db : Store) (l : Loaded)
      {t : System lru}
      → ((c : Blockchain) → l ≢ loaded c)
      → started lru self_id empty peers db (ledger_of l) ≡ some t
      → t.node.blockchain ≡ new
  unfolding started
  started-new self_id empty peers db (loaded c) {t} fails e = absurd (fails c refl)
  started-new self_id empty peers db not_loaded {t} fails e =
      subst (λ (o : Option (System lru)). elim o [ none ↦ Unit | some x ↦ x.node.blockchain ≡ new ])
        e refl
  started-new self_id empty peers db crashed {t} fails e = cc

  -- A node that starts on a database whose blocks contain, anywhere behind the first, one with an
  -- input behind its coinbase, starts with an empty chain.
  pub new_context-Spends :
      (clock : ℕ → DateTime) (fuel : ℕ) (self_id : Text) (empty : lru.Cache)
      (connect : Text → Option PeerId) (nodes : List Text) (db : Store) (first : Block)
      (before after : List Block) (b : Block) (t : System lru)
      → get_all_blocks cbor fuel db ≡ some (first ∷ (before ++ b ∷ after))
      → Spends b
      → new_context p lru cbor clock fuel self_id empty connect nodes db ≡ some t
      → t.node.blockchain ≡ new
  unfolding new_context
  new_context-Spends clock fuel self_id empty connect nodes db first before after b t stored spends
        e =
      started-new self_id empty _ db (load_blockchain p cbor clock fuel db) {t = t}
        (λ c. load_blockchain-Spends p cbor clock fuel db first before after b c stored spends) e
