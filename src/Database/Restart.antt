-- ===== src/Database/Restart.antt =====
-- What a node finds when it starts again: a chain that spends is not loaded.
use grapheno.Base.{
  subst, ℕ, ◌≡◌, ◌≢◌, refl, sym, ap, ◌∙◌, List, [], ◌∷◌, ◌++◌, Option, none, some, inl, inr, drop,
  last?, All, lookup, ok, err, panic, Option-cases, last?-cons,
}
use grapheno.Types.{DateTime, TransactionInput, Transaction, Block}
use grapheno.Primitives.{Primitives}
use grapheno.Block.{verify_transactions}
use grapheno.Block.Spends.{IsAuthorised, IsCovered, verify_transactions_sound}
use grapheno.Blockchain.{Blockchain, Done, new, block_height, push_block, add_block}
use grapheno.Blockchain.Chain.{Accepts, add_block_sound, add_block_cases}
use grapheno.Blockchain.Target.{try_adjust_target-Adjusts}
use grapheno.Mempool.{Entry}
use grapheno.Database.{Codecs, Store, get_all_blocks}
use grapheno.Database.Entries.{get_all_mempool_txs}
use grapheno.Database.Snapshots.{
  Loaded, loaded, not_loaded, crashed, go_on, then_load, load_blocks, load_both, load_blockchain,
}

-- A transaction behind the coinbase has an input.
abbrev pub Spends : Block → Type 0
Spends block =
    (before : List Transaction) × (t : Transaction) × (after : List Transaction) × (drop 1
        block.transactions
      ≡ before ++ t ∷ after)
    × (i : TransactionInput) × (is : List TransactionInput) × (t.inputs ≡ i ∷ is)

All-middle {ℓ κ} :
    {A : Type ℓ} (P : A → Type κ) (xs ys : List A) (y : A) → All P (xs ++ y ∷ ys) → P y
All-middle P [] ys y h = h.0
All-middle P (x ∷ xs) ys y h = All-middle P xs ys y h.1

last?-none {ℓ} : {A : Type ℓ} (xs : List A) → last? xs ≡ none → xs ≡ []
last?-none [] h = refl
last?-none (x ∷ xs) h = absurd (last?-cons x xs h)

snoc-nonempty {ℓ} : {A : Type ℓ} (xs : List A) (x : A) → xs ++ x ∷ [] ≢ []
snoc-nonempty [] x h = cc
snoc-nonempty (y ∷ xs) x h = cc

go_on_loaded :
    (r : Done) (next : Blockchain → Loaded) (d : Blockchain)
    → go_on r next ≡ loaded d
    → (r.0 ≡ ok tt) × (next r.1 ≡ loaded d)
go_on_loaded (ok tt, c) next d h = (refl, h)
go_on_loaded (err e, c) next d h = cc
go_on_loaded (panic, c) next d h = cc

then_load_loaded :
    (l : Loaded) (next : Blockchain → Loaded) (d : Blockchain)
    → then_load l next ≡ loaded d
    → (c : Blockchain) × (l ≡ loaded c)
then_load_loaded (loaded c) next d h = (c, refl)
then_load_loaded not_loaded next d h = cc
then_load_loaded crashed next d h = cc

module _ (p : Primitives) where
  load_both_loaded :
      (clock : ℕ → DateTime) (blocks : List Block) (mempool : Option (List Entry)) (d : Blockchain)
      → load_both p clock (some blocks) mempool ≡ loaded d
      → (c : Blockchain) × (load_blocks p blocks new ≡ loaded c)
  load_both_loaded clock blocks none d h = cc
  load_both_loaded clock blocks (some mempool) d h =
      then_load_loaded (load_blocks p blocks new) _ d h

  IsAuthorised-absurd : (i : TransactionInput) → IsAuthorised p [] i → ⊥
  unfolding lookup
  IsAuthorised-absurd i (utxo, found, _, _) = cc

  -- Without unspent outputs, no block that spends passes.
  verify_transactions_absurd :
      (block : Block) (height : ℕ) → Spends block → verify_transactions p [] block height ≢ ok tt
  verify_transactions_absurd block height (before, t, after, split, i, is, inputs) h =
      let (covered, _) = verify_transactions_sound p [] block height h in
      let one = All-middle (IsCovered p []) before after t (rw split at covered) in
      IsAuthorised-absurd i (rw inputs at one.0).0

  -- `add_block` leaves the unspent outputs, and never empties the chain.
  add_block-utxos : (block : Block) (c : Blockchain) → (add_block p block c).1.utxos ≡ c.utxos
  unfolding push_block
  add_block-utxos block c = elim (add_block_cases p block c) [
    | inl (_, same) ↦ rw same refl
    | inr (_, e) ↦
        ap (λ d. d.1.utxos) e ∙ (try_adjust_target-Adjusts p (push_block p block c)).utxos_kept
  ]

  add_block-absurd :
      (block : Block) (c : Blockchain)
      → c.utxos ≡ []
      → c.blocks ≢ []
      → Spends block
      → (add_block p block c).0 ≢ ok tt
  add_block-absurd block c empty some_blocks spends done = elim (Option-cases (last? c.blocks)) [
    | inl no_last ↦ some_blocks (last?-none c.blocks no_last)
    | inr (l, found) ↦
        let (_, accepted) = add_block_sound p block c done in
        let (_, verified) = subst (λ o. Accepts p o c block) found accepted in
        verify_transactions_absurd block (block_height c) spends (rw empty at verified)
  ]

  add_block-nonempty :
      (block : Block) (c : Blockchain)
      → (add_block p block c).0 ≡ ok tt
      → (add_block p block c).1.blocks ≢ []
  unfolding push_block
  add_block-nonempty block c done gone = elim (add_block_cases p block c) [
    | inl (failed, _) ↦ failed done
    | inr (_, e) ↦
        let same = (try_adjust_target-Adjusts p (push_block p block c)).blocks_kept in
        snoc-nonempty c.blocks block (sym same ∙ sym (ap (λ d. d.1.blocks) e) ∙ gone)
  ]

  load_blocks-Spends :
      (before after : List Block) (b : Block) (c d : Blockchain)
      → c.utxos ≡ []
      → c.blocks ≢ []
      → Spends b
      → load_blocks p (before ++ b ∷ after) c ≢ loaded d
  unfolding load_blocks
  load_blocks-Spends [] after b c d empty some_blocks spends h =
      let (done, _) = go_on_loaded (add_block p b c) (load_blocks p after) d h in
      add_block-absurd b c empty some_blocks spends done
  load_blocks-Spends (x ∷ before) after b c d empty some_blocks spends h =
      let (done, rest) = go_on_loaded (add_block p x c) (load_blocks p (before ++ b ∷ after)) d h in
      load_blocks-Spends before after b (add_block p x c).1 d (add_block-utxos x c ∙ empty)
        (add_block-nonempty x c done) spends rest

  load_chain-Spends :
      (first : Block) (before after : List Block) (b : Block) (d : Blockchain)
      → Spends b
      → load_blocks p (first ∷ (before ++ b ∷ after)) new ≢ loaded d
  unfolding load_blocks
  load_chain-Spends first before after b d spends h =
      let (done, rest) =
        go_on_loaded (add_block p first new) (load_blocks p (before ++ b ∷ after)) d h in
      load_blocks-Spends before after b (add_block p first new).1 d (add_block-utxos first new)
        (add_block-nonempty first new done) spends rest

  -- A store whose blocks contain, anywhere behind the first, one with an input behind its coinbase
  -- does not load: the blocks are added to a ledger whose unspent outputs stay empty.
  pub load_blockchain-Spends :
      (cbor : Codecs) (clock : ℕ → DateTime) (fuel : ℕ) (s : Store) (first : Block)
      (before after : List Block) (b : Block) (d : Blockchain)
      → get_all_blocks cbor fuel s ≡ some (first ∷ (before ++ b ∷ after))
      → Spends b
      → load_blockchain p cbor clock fuel s ≢ loaded d
  unfolding load_blockchain
  load_blockchain-Spends cbor clock fuel s first before after b d stored spends h =
      let (c, e) = load_both_loaded clock _ (get_all_mempool_txs cbor s) d (rw stored at h) in
      load_chain-Spends first before after b c spends e
