-- ===== src/Blockchain/Unspent.antt =====
-- `rebuild_utxos` against the history of the chain: an output is unspent as its last event says.
use mathlib.Core.List.{append-nil}
use grapheno.Base.{
  ◌≡◌, refl, ap, ◌∙◌, Bool, false, List, [], ◌∷◌, ◌++◌, Option, none, some, ◌==◌, if◌then◌else◌,
  Bool-cases, insert, remove, lookup, lookup-insert, lookup-remove, ◌⊎◌, inl, inr,
}
use grapheno.Types.{Hash, TransactionInput, TransactionOutput, Transaction, Block}
use grapheno.Primitives.{Primitives}
use grapheno.Hashing.{hash_output}
use grapheno.Block.{Utxos}
use grapheno.Blockchain.{
  Blockchain, spend_inputs, add_outputs, apply_transactions, apply_blocks, rebuild_utxos,
  push_block,
}

-- What a chain does to the unspent outputs, in its order.
pub data Event : Type 0 where
  spends : Hash → Event
  creates : Hash → TransactionOutput → Event

abbrev Entry : Type 0
Entry = Option (Bool × TransactionOutput)

-- The entry of one hash after the events: what the last one about it says, and with none, as it was.
abbrev pub replay :
    Hash → List Event → Option (Bool × TransactionOutput) → Option (Bool × TransactionOutput)
replay h [] entry = entry
replay h (spends k ∷ es) entry = replay h es (if h == k then none else entry)
replay h (creates k o ∷ es) entry = replay h es (if h == k then some (false, o) else entry)

abbrev pub input_events : List TransactionInput → List Event
input_events [] = []
input_events (i ∷ is) = spends i.prev_transaction_output_hash ∷ input_events is

abbrev pub output_events : Primitives → List TransactionOutput → List Event
output_events p [] = []
output_events p (o ∷ os) = creates (hash_output p o) o ∷ output_events p os

abbrev pub transaction_events : Primitives → List Transaction → List Event
transaction_events p [] = []
transaction_events p (t ∷ ts) =
    input_events t.inputs ++ (output_events p t.outputs ++ transaction_events p ts)

abbrev pub chain_events : Primitives → List Block → List Event
chain_events p [] = []
chain_events p (b ∷ bs) = transaction_events p b.transactions ++ chain_events p bs

replay-append :
    (h : Hash) (es fs : List Event) (entry : Entry)
    → replay h (es ++ fs) entry ≡ replay h fs (replay h es entry)
replay-append h [] fs entry = refl
replay-append h (spends k ∷ es) fs entry = replay-append h es fs _
replay-append h (creates k o ∷ es) fs entry = replay-append h es fs _

-- A replay either keeps every entry, or forgets what it was.
replay_cases :
    (h : Hash) (es : List Event)
    → ((entry : Entry) → replay h es entry ≡ entry)
      ⊎ ((a b : Entry) → replay h es a ≡ replay h es b)
replay_cases h [] = inl (λ _. refl)
replay_cases h (spends k ∷ es) = elim (Bool-cases (h == k)) [
  | inl hit ↦ inr (λ a b. rw hit refl)
  | inr miss ↦ rw miss (replay_cases h es)
]
replay_cases h (creates k o ∷ es) = elim (Bool-cases (h == k)) [
  | inl hit ↦ inr (λ a b. rw hit refl)
  | inr miss ↦ rw miss (replay_cases h es)
]

replay_twice :
    (h : Hash) (es : List Event) (entry : Entry)
    → replay h es (replay h es entry) ≡ replay h es entry
replay_twice h es entry = elim (replay_cases h es) [
  | inl keeps ↦ keeps (replay h es entry)
  | inr forgets ↦ forgets (replay h es entry) entry
]

module _ (p : Primitives) (h : Hash) where
  lookup-spend_inputs :
      (is : List TransactionInput) (u : Utxos)
      → lookup h (spend_inputs p is u) ≡ replay h (input_events is) (lookup h u)
  unfolding spend_inputs
  lookup-spend_inputs [] u = refl
  lookup-spend_inputs (i ∷ is) u =
      lookup-spend_inputs is (remove i.prev_transaction_output_hash u)
      ∙ ap (replay h (input_events is)) (lookup-remove h i.prev_transaction_output_hash u)

  lookup-add_outputs :
      (os : List TransactionOutput) (u : Utxos)
      → lookup h (add_outputs p os u) ≡ replay h (output_events p os) (lookup h u)
  unfolding add_outputs
  lookup-add_outputs [] u = refl
  lookup-add_outputs (o ∷ os) u =
      lookup-add_outputs os (insert (hash_output p o) (false, o) u)
      ∙ ap (replay h (output_events p os)) (lookup-insert h (hash_output p o) (false, o) u)

  lookup-apply_transactions :
      (ts : List Transaction) (u : Utxos)
      → lookup h (apply_transactions p ts u) ≡ replay h (transaction_events p ts) (lookup h u)
  unfolding apply_transactions
  lookup-apply_transactions [] u = refl
  lookup-apply_transactions (t ∷ ts) u = rw (
    replay-append h (input_events t.inputs),
    replay-append h (output_events p t.outputs),
    lookup-apply_transactions ts (add_outputs p t.outputs (spend_inputs p t.inputs u)),
    lookup-add_outputs t.outputs (spend_inputs p t.inputs u),
    lookup-spend_inputs t.inputs u,
  )

  lookup-apply_blocks :
      (bs : List Block) (u : Utxos)
      → lookup h (apply_blocks p bs u) ≡ replay h (chain_events p bs) (lookup h u)
  unfolding apply_blocks
  lookup-apply_blocks [] u = refl
  lookup-apply_blocks (b ∷ bs) u = rw (
    replay-append h (transaction_events p b.transactions),
    lookup-apply_blocks bs (apply_transactions p b.transactions u),
    lookup-apply_transactions b.transactions u,
  )

  -- After `rebuild_utxos` each entry is what the last event about its hash in the chain says: none
  -- after a spending, the unmarked output after a creation, and the old entry without an event.
  pub lookup-rebuild_utxos :
      (c : Blockchain)
      → lookup h (rebuild_utxos p c).utxos ≡ replay h (chain_events p c.blocks) (lookup h c.utxos)
  unfolding rebuild_utxos
  lookup-rebuild_utxos c = lookup-apply_blocks c.blocks c.utxos

  rebuild_utxos-blocks : (c : Blockchain) → (rebuild_utxos p c).blocks ≡ c.blocks
  unfolding rebuild_utxos
  rebuild_utxos-blocks c = refl

  -- A second `rebuild_utxos` changes no entry.
  rebuild_utxos_twice :
      (c : Blockchain)
      → lookup h (rebuild_utxos p (rebuild_utxos p c)).utxos ≡ lookup h (rebuild_utxos p c).utxos
  rebuild_utxos_twice c =
      rw (lookup-rebuild_utxos (rebuild_utxos p c), rebuild_utxos-blocks c, lookup-rebuild_utxos c)
        (replay_twice h (chain_events p c.blocks) (lookup h c.utxos))

  replay-snoc :
      (bs : List Block) (b : Block) (entry : Entry)
      → replay h (chain_events p (bs ++ b ∷ [])) entry
        ≡ replay h (transaction_events p b.transactions) (replay h (chain_events p bs) entry)
  replay-snoc [] b entry = rw append-nil refl
  replay-snoc (a ∷ bs) b entry =
      rw
        (
          replay-append h (transaction_events p a.transactions) (chain_events p (bs ++ b ∷ [])),
          replay-append h (transaction_events p a.transactions) (chain_events p bs),
        )
        (replay-snoc bs b _)

  -- Once the set is rebuilt, a new block and another rebuild come to applying the new block alone.
  rebuild_utxos-push_block :
      (c : Blockchain) (b : Block)
      → lookup h (rebuild_utxos p (push_block p b (rebuild_utxos p c))).utxos
        ≡ lookup h (apply_transactions p b.transactions (rebuild_utxos p c).utxos)
  unfolding push_block
  rebuild_utxos-push_block c b =
      rw
        (
          lookup-rebuild_utxos (push_block p b (rebuild_utxos p c)),
          rebuild_utxos-blocks c,
          replay-snoc c.blocks b,
          lookup-apply_transactions b.transactions (rebuild_utxos p c).utxos,
          lookup-rebuild_utxos c,
        )
        (ap (replay h (transaction_events p b.transactions))
          (replay_twice h (chain_events p c.blocks) (lookup h c.utxos)))
