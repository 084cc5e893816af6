-- ===== src/Node/Routing.antt =====
-- Where envelopes go: what a turn of the dispatcher puts into the peers' channels, and that it
-- handles no envelope twice.
use grapheno.Base.{
  ℕ, ◌-◌, ◌<◌, ◌≡◌, ◌≢◌, refl, sym, ◌∙◌, ap, true, false, Option, none, some, Outcome, ok, err,
  panic, inl, inr, ◌⊎◌, Bool-cases, text_eq, text_eq_self, ◌==◌, arith,
}
use grapheno.Types.{Block}
use grapheno.Primitives.{Primitives}
use grapheno.Blockchain.{Blockchain, Done}
use grapheno.Network.{
  Message, Envelope, fetch_utxos, utxos, submit_transaction, new_transaction, fetch_template,
  template, validate_template, template_validity, submit_template, discover_nodes, node_list,
  ask_difference, difference, fetch_block, fetch_all_blocks, all_blocks, new_block,
}
use grapheno.Node.{LruCache, PeerId, Node, track_if_new}
use grapheno.Node.Channels.{Grows, Grows-self, send_to-Grows, broadcast_except-Grows}
use grapheno.Node.Dispatch.{
  Draw, default_ttl, envelope, reply, Handled, took, submitted, replied, block_reply,
  handle_message, pass_on, handle_new, dispatch,
}

-- What the crate lru promises of an id that was just put into the cache.
abbrev pub Remembers : LruCache → Type 0
Remembers lru = (id : ℕ) (s : lru.Cache) → lru.contains id (lru.put id s) ≡ true

module _ (p : Primitives) (lru : LruCache) (draw : Draw) (from_peer : PeerId) where
  -- What a turn of the node `n` for the envelope `env` may put into the channel of a peer: an
  -- envelope of its own, or `env` with one hop less, but not back to where it came from.
  abbrev pub Emits : Node lru → Envelope → PeerId → Envelope → Type 0
  Emits n env key e =
      ((e.id ≡ draw.envelope_id) × (e.origin ≡ n.self_id) × (e.ttl ≡ default_ttl))
      ⊎ ((e ≡ record env { ttl = env.ttl - 1 }) × (0 < env.ttl) × (key ≢ from_peer))

  text_eq-≢ : (key : PeerId) → text_eq key from_peer ≡ false → key ≢ from_peer
  text_eq-≢ key other e =
      let same : text_eq key from_peer ≡ true = ap (text_eq key) (sym e) ∙ text_eq_self key in cc

  -- What the match on the message leaves: the hub's name and its memory; and its channels too,
  -- where the message goes on to be passed on.
  abbrev Leaves : Node lru → Envelope → Handled p lru draw from_peer → Type 0
  Leaves n env (r, m) = (m.self_id ≡ n.self_id) × (m.seen ≡ n.seen) × (elim r [
    | ok b ↦ elim b [ true ↦ m.peers ≡ n.peers | false ↦ Grows (Emits n env) n.peers m.peers ]
    | err e ↦ Grows (Emits n env) n.peers m.peers
    | panic ↦ Grows (Emits n env) n.peers m.peers
  ])

  reply-Leaves :
      (n : Node lru) (env : Envelope) (msg : Message)
      → Leaves n env (ok false, reply p lru draw from_peer n msg)
  reply-Leaves n env msg = (
    refl,
    refl,
    send_to-Grows (Emits n env) from_peer (envelope p lru draw from_peer n msg) n.peers
        (inl (refl, refl, refl)),
  )

  nothing-Leaves : (n : Node lru) (env : Envelope) → Leaves n env (ok false, n)
  nothing-Leaves n env = (refl, refl, Grows-self (Emits n env) n.peers)

  took-Leaves :
      (n : Node lru) (env : Envelope) (d : Done) → Leaves n env (took p lru draw from_peer n d)
  unfolding took
  took-Leaves n env (ok _, c) = (refl, refl, refl)
  took-Leaves n env (err e, c) = (refl, refl, Grows-self (Emits n env) n.peers)
  took-Leaves n env (panic, c) = (refl, refl, Grows-self (Emits n env) n.peers)

  submitted-Leaves :
      (n : Node lru) (env : Envelope) (finish : Blockchain → Blockchain) (msg : Message) (d : Done)
      → Leaves n env (submitted p lru draw from_peer n finish msg d)
  unfolding submitted
  submitted-Leaves n env finish msg (ok _, c) = (
    refl,
    refl,
    broadcast_except-Grows (Emits n env) from_peer (envelope p lru draw from_peer n msg) n.peers
        (λ key other. inl (refl, refl, refl)),
  )
  submitted-Leaves n env finish msg (err e, c) = (refl, refl, Grows-self (Emits n env) n.peers)
  submitted-Leaves n env finish msg (panic, c) = (refl, refl, Grows-self (Emits n env) n.peers)

  replied-Leaves :
      (n : Node lru) (env : Envelope) (o : Outcome Message)
      → Leaves n env (replied p lru draw from_peer n o)
  unfolding replied
  replied-Leaves n env (ok msg) = reply-Leaves n env msg
  replied-Leaves n env (err e) = nothing-Leaves n env
  replied-Leaves n env panic = (refl, refl, Grows-self (Emits n env) n.peers)

  block_reply-Leaves :
      (n : Node lru) (env : Envelope) (o : Option Block)
      → Leaves n env (ok false, block_reply p lru draw from_peer n o)
  block_reply-Leaves n env none = nothing-Leaves n env
  block_reply-Leaves n env (some b) = reply-Leaves n env (new_block b)

  handle_message-Leaves :
      (n : Node lru) (env : Envelope) (msg : Message)
      → Leaves n env (handle_message p lru draw from_peer n msg)
  unfolding handle_message
  handle_message-Leaves n env (utxos _) = nothing-Leaves n env
  handle_message-Leaves n env (template _) = nothing-Leaves n env
  handle_message-Leaves n env (difference _) = nothing-Leaves n env
  handle_message-Leaves n env (template_validity _) = nothing-Leaves n env
  handle_message-Leaves n env (node_list _) = nothing-Leaves n env
  handle_message-Leaves n env (all_blocks _) = nothing-Leaves n env
  handle_message-Leaves n env (fetch_block height) = block_reply-Leaves n env _
  handle_message-Leaves n env fetch_all_blocks = reply-Leaves n env _
  handle_message-Leaves n env discover_nodes = reply-Leaves n env _
  handle_message-Leaves n env (ask_difference height) = replied-Leaves n env _
  handle_message-Leaves n env (fetch_utxos key) = reply-Leaves n env _
  handle_message-Leaves n env (new_block block) = took-Leaves n env _
  handle_message-Leaves n env (new_transaction tx) = took-Leaves n env _
  handle_message-Leaves n env (validate_template block) = reply-Leaves n env _
  handle_message-Leaves n env (submit_template block) = submitted-Leaves n env _ _ _
  handle_message-Leaves n env (submit_transaction tx) = submitted-Leaves n env _ _ _
  handle_message-Leaves n env (fetch_template address) = replied-Leaves n env _

  -- After a turn: the hub's name, its memory, and its channels.
  abbrev Turned : Node lru → Envelope → Node lru → Type 0
  Turned n env m = (m.self_id ≡ n.self_id) × (m.seen ≡ n.seen) × Grows (Emits n env) n.peers m.peers

  pass_on-Turned :
      (n : Node lru) (env : Envelope) (h : Handled p lru draw from_peer)
      → Leaves n env h
      → Turned n env (pass_on p lru draw from_peer env h).1
  unfolding pass_on
  pass_on-Turned n env (ok false, m) l = l
  pass_on-Turned n env (err e, m) l = l
  pass_on-Turned n env (panic, m) l = l
  pass_on-Turned n env (ok true, m) l = elim (Bool-cases (env.ttl == 0)) [
    | inl last_hop ↦ rw last_hop (l.0, l.1, rw l.2 (Grows-self (Emits n env) n.peers))
    | inr more ↦ rw more (
      l.0,
      l.1,
      rw l.2 (
          broadcast_except-Grows (Emits n env) from_peer (record env { ttl = env.ttl - 1 }) n.peers
            (λ key other. inr (refl, ground (arith, more), text_eq-≢ key other))),
    )
  ]

  -- A turn adds at most one envelope to the channel of each peer: one of the node's own, fresh and
  -- with eight hops to go, or the one received, with one hop less than it had and at least one
  -- left then, and not for the peer that it came from.
  pub dispatch-Emits :
      (env : Envelope) (n : Node lru)
      → Grows (Emits n env) n.peers (dispatch p lru draw from_peer env n).1.peers
  unfolding dispatch handle_new track_if_new
  dispatch-Emits env n = elim (Bool-cases (text_eq env.origin n.self_id)) [
    | inl own ↦ rw (own, dispatch) (Grows-self (Emits n env) n.peers)
    | inr other ↦ elim (Bool-cases (lru.contains env.id n.seen)) [
      | inl old ↦ rw (other, old, dispatch) (Grows-self (Emits n env) n.peers)
      | inr fresh ↦
          let m : Node lru = record n { seen = lru.put env.id n.seen } in
          let turned =
            pass_on-Turned m env (handle_message p lru draw from_peer m env.msg)
              (handle_message-Leaves m env env.msg) in
          rw (other, fresh, dispatch) turned.2
    ]
  ]

  -- Behind a turn, the envelope is one's own or known.
  dispatch_known :
      Remembers lru
      → (env : Envelope) (n : Node lru)
      → let m = (dispatch p lru draw from_peer env n).1 in
        (text_eq env.origin m.self_id ≡ true) ⊎ (lru.contains env.id m.seen ≡ true)
  unfolding dispatch handle_new track_if_new
  dispatch_known law env n = elim (Bool-cases (text_eq env.origin n.self_id)) [
    | inl own ↦ rw (own, dispatch) (inl own)
    | inr other ↦ elim (Bool-cases (lru.contains env.id n.seen)) [
      | inl old ↦ rw (other, old, dispatch) (inr old)
      | inr fresh ↦
          let m : Node lru = record n { seen = lru.put env.id n.seen } in
          let turned =
            pass_on-Turned m env (handle_message p lru draw from_peer m env.msg)
              (handle_message-Leaves m env env.msg) in
          rw (other, fresh, dispatch) (inr (ap (lru.contains env.id) turned.1 ∙ law env.id n.seen))
    ]
  ]

module _ (p : Primitives) (lru : LruCache) where
  dispatch_ignores :
      (draw : Draw) (from_peer : PeerId) (env : Envelope) (n : Node lru)
      → ((text_eq env.origin n.self_id ≡ true) ⊎ (lru.contains env.id n.seen ≡ true))
      → dispatch p lru draw from_peer env n ≡ (ok tt, n)
  unfolding dispatch handle_new track_if_new
  dispatch_ignores draw from_peer env n (inl own) = rw (own, dispatch) refl
  dispatch_ignores draw from_peer env n (inr old) =
      elim (Bool-cases (text_eq env.origin n.self_id)) [
        | inl own ↦ rw (own, dispatch) refl
        | inr other ↦ rw (other, old, dispatch) refl
      ]

  -- Where the cache holds what was just put into it: right behind a turn for an envelope, another
  -- copy of it changes nothing, whichever peer it comes from and whatever hops it has left.
  pub dispatch_twice :
      Remembers lru
      → (draw draw' : Draw) (from_peer from_peer' : PeerId) (env : Envelope) (ttl : ℕ)
        (n : Node lru)
      → let m = (dispatch p lru draw from_peer env n).1 in
        dispatch p lru draw' from_peer' (record env { ttl = ttl }) m ≡ (ok tt, m)
  dispatch_twice law draw draw' from_peer from_peer' env ttl n =
      dispatch_ignores draw' from_peer' (record env { ttl = ttl })
        (dispatch p lru draw from_peer env n).1 (dispatch_known p lru draw from_peer law env n)
