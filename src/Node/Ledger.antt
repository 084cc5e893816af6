-- ===== src/Node/Ledger.antt =====
-- The ledger under the node's steps: whatever messages come in, and whenever the mempool is
-- cleaned up, the blocks stay a chain and the target stays in its range.
use grapheno.Base.{
  refl, true, false, Option, none, some, Outcome, ok, err, panic, inl, inr, Bool-cases, text_eq,
  ◌==◌,
}
use grapheno.Types.{DateTime, Block}
use grapheno.Primitives.{Primitives}
use grapheno.Blockchain.{Blockchain, Done, rebuild_utxos}
use grapheno.Mempool.{cleanup_mempool}
use grapheno.Mempool.Soundness.{
  IsSound, SameChain, IsSound-SameChain, add_to_mempool-SameChain, add_block-IsSound,
  rebuild_utxos-SameChain, cleanup_mempool-SameChain,
}
use grapheno.Network.{
  Message, Envelope, fetch_utxos, utxos, submit_transaction, new_transaction, fetch_template,
  template, validate_template, template_validity, submit_template, discover_nodes, node_list,
  ask_difference, difference, fetch_block, fetch_all_blocks, all_blocks, new_block,
}
use grapheno.Node.{LruCache, PeerId, Node, track_if_new}
use grapheno.Node.Dispatch.{
  Draw, Handled, took, submitted, replied, block_reply, handle_message, pass_on, handle_new,
  dispatch,
}

module _ (p : Primitives) (lru : LruCache) where
  abbrev pub Keeps : Node lru → Node lru → Type 0
  Keeps n m = IsSound p n.blockchain → IsSound p m.blockchain

  module _ (draw : Draw) (from_peer : PeerId) where
    took-Keeps :
        (n : Node lru) (d : Done)
        → (IsSound p n.blockchain → IsSound p d.1)
        → Keeps n (took p lru draw from_peer n d).1
    unfolding took
    took-Keeps n (ok _, c) h = h
    took-Keeps n (err e, c) h = h
    took-Keeps n (panic, c) h = h

    submitted-Keeps :
        (n : Node lru) (finish : Blockchain → Blockchain) (msg : Message) (d : Done)
        → (IsSound p n.blockchain → IsSound p d.1)
        → ((c : Blockchain) → SameChain c (finish c))
        → Keeps n (submitted p lru draw from_peer n finish msg d).1
    unfolding submitted
    submitted-Keeps n finish msg (ok _, c) h k = λ s. IsSound-SameChain p c (finish c) (k c) (h s)
    submitted-Keeps n finish msg (err e, c) h k = h
    submitted-Keeps n finish msg (panic, c) h k = h

    replied-Keeps :
        (n : Node lru) (o : Outcome Message) → Keeps n (replied p lru draw from_peer n o).1
    unfolding replied
    replied-Keeps n (ok msg) = λ s. s
    replied-Keeps n (err e) = λ s. s
    replied-Keeps n panic = λ s. s

    block_reply-Keeps :
        (n : Node lru) (o : Option Block) → Keeps n (block_reply p lru draw from_peer n o)
    block_reply-Keeps n none = λ s. s
    block_reply-Keeps n (some b) = λ s. s

    handle_message-Keeps :
        (n : Node lru) (msg : Message) → Keeps n (handle_message p lru draw from_peer n msg).1
    unfolding handle_message
    handle_message-Keeps n (utxos _) = λ s. s
    handle_message-Keeps n (template _) = λ s. s
    handle_message-Keeps n (difference _) = λ s. s
    handle_message-Keeps n (template_validity _) = λ s. s
    handle_message-Keeps n (node_list _) = λ s. s
    handle_message-Keeps n (all_blocks _) = λ s. s
    handle_message-Keeps n (fetch_block height) = block_reply-Keeps n _
    handle_message-Keeps n fetch_all_blocks = λ s. s
    handle_message-Keeps n discover_nodes = λ s. s
    handle_message-Keeps n (ask_difference height) = replied-Keeps n _
    handle_message-Keeps n (fetch_utxos key) = λ s. s
    handle_message-Keeps n (new_block block) =
        took-Keeps n _ (add_block-IsSound p block n.blockchain)
    handle_message-Keeps n (new_transaction tx) =
        took-Keeps n _
          (IsSound-SameChain p _ _ (add_to_mempool-SameChain p draw.now tx n.blockchain))
    handle_message-Keeps n (validate_template block) = λ s. s
    handle_message-Keeps n (submit_template block) =
        submitted-Keeps n (rebuild_utxos p) (new_block block) _
          (add_block-IsSound p block n.blockchain) (rebuild_utxos-SameChain p)
    handle_message-Keeps n (submit_transaction tx) =
        submitted-Keeps n (λ c. c) (new_transaction tx) _
          (IsSound-SameChain p _ _ (add_to_mempool-SameChain p draw.now tx n.blockchain))
          (λ c. record { blocks = refl; target = refl })
    handle_message-Keeps n (fetch_template address) = replied-Keeps n _

    pass_on-Keeps :
        (env : Envelope) (h : Handled p lru draw from_peer)
        → Keeps h.1 (pass_on p lru draw from_peer env h).1
    unfolding pass_on
    pass_on-Keeps env (ok false, n) = λ s. s
    pass_on-Keeps env (ok true, n) = elim (Bool-cases (env.ttl == 0)) [
      | inl last_hop ↦ rw last_hop (λ s. s)
      | inr more ↦ rw more (λ s. s)
    ]
    pass_on-Keeps env (err e, n) = λ s. s
    pass_on-Keeps env (panic, n) = λ s. s

    pub dispatch-Keeps :
        (env : Envelope) (n : Node lru) → Keeps n (dispatch p lru draw from_peer env n).1
    unfolding dispatch handle_new track_if_new
    dispatch-Keeps env n = elim (Bool-cases (text_eq env.origin n.self_id)) [
      | inl own ↦ rw (own, dispatch) (λ s. s)
      | inr other ↦ elim (Bool-cases (lru.contains env.id n.seen)) [
        | inl old ↦ rw (other, old, dispatch) (λ s. s)
        | inr fresh ↦
            let m : Node lru = record n { seen = lru.put env.id n.seen } in
            rw (other, fresh, dispatch)
              (λ s.
                pass_on-Keeps env (handle_message p lru draw from_peer m env.msg)
                  (handle_message-Keeps m env.msg s))
      ]
    ]

  -- What happens to a node that runs: a turn of the dispatcher, or one of the clean-up.
  data Step : Node lru → Node lru → Type 0 where
    receives :
        (draw : Draw) (from_peer : PeerId) (env : Envelope) (n : Node lru)
        → Step n (dispatch p lru draw from_peer env n).1
    cleans :
        (now : DateTime) (n : Node lru)
        → Step n (record n { blockchain = cleanup_mempool now n.blockchain })

  data Reach (start : Node lru) : Node lru → Type 0 where
    here : Reach start start
    then_step : {m n : Node lru} → Reach start m → Step m n → Reach start n

  Step-Keeps : {m n : Node lru} → Step m n → Keeps m n
  Step-Keeps (receives draw from_peer env n) = dispatch-Keeps draw from_peer env n
  Step-Keeps (cleans now n) = IsSound-SameChain p _ _ (cleanup_mempool-SameChain now n.blockchain)

  -- However messages and clean-ups follow each other, a node that starts with a sound ledger has
  -- one: the blocks form a chain, and the target is no easier than the program allows.
  Reach-IsSound :
      {start n : Node lru} → IsSound p start.blockchain → Reach start n → IsSound p n.blockchain
  Reach-IsSound s here = s
  Reach-IsSound s (then_step r step) = Step-Keeps step (Reach-IsSound s r)
