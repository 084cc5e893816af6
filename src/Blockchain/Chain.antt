-- ===== src/Blockchain/Chain.antt =====
-- The chain of blocks: what `add_block` demands of a block, and what it leaves.
use grapheno.Base.{
  ℕ, ◌≤◌, ◌<◌, ◌≡◌, ◌≢◌, refl, not, List, [], ◌∷◌, ◌++◌, none, some, inl, inr, arith, ◌⊎◌, last?,
  Option, leb, ◌==◌, ok, fail_if, >>=-eq-ok, invalid_block, invalid_merkle_root, Option-cases,
  Outcome-cases, last?-cons, ap, sym, ◌∙◌,
}
use grapheno.Types.{Block}
use grapheno.Primitives.{Primitives}
use grapheno.Hashing.{hash_block, hash_header, matches_target, zero_hash}
use grapheno.Merkle.{calculate}
use grapheno.Block.{Utxos, verify_transactions}
use grapheno.Blockchain.{
  Blockchain, block_height, check_block, push_block, try_adjust_target, add_block,
}
use grapheno.Blockchain.Target.{try_adjust_target-Adjusts}

-- A block that may stand right behind another.
abbrev pub Follows : Primitives → Block → Block → Type 0
Follows p last_block block =
    (block.header.prev_block_hash ≡ hash_block p last_block)
    × (hash_header p block.header ≤ block.header.target)
    × (calculate p block.transactions ≡ block.header.merkle_root)
    × (last_block.header.timestamp < block.header.timestamp)

abbrev pub LinkedFrom : Primitives → Block → List Block → Type 0
LinkedFrom p b [] = Unit
LinkedFrom p b (c ∷ cs) = Follows p b c × LinkedFrom p c cs

-- The first block names no predecessor, and each other follows the one before it.
abbrev pub IsChain : Primitives → List Block → Type 0
IsChain p [] = Unit
IsChain p (b ∷ bs) = (b.header.prev_block_hash ≡ zero_hash) × LinkedFrom p b bs

module _ (p : Primitives) where
  check_block-Follows :
      (last_block : Block) (utxos : Utxos) (height : ℕ) (block : Block)
      → check_block p (some last_block) utxos height block ≡ ok tt
      → Follows p last_block block × (verify_transactions p utxos block height ≡ ok tt)
  unfolding check_block
  check_block-Follows l utxos height b h =
      let (_, e1, h1) =
        >>=-eq-ok (fail_if (not (b.header.prev_block_hash == hash_block p l)) invalid_block) _ h in
      let (_, e2, h2) =
        >>=-eq-ok
          (fail_if (not (matches_target (hash_header p b.header) b.header.target)) invalid_block) _
          h1 in
      let (_, e3, h3) =
        >>=-eq-ok
          (fail_if (not (calculate p b.transactions == b.header.merkle_root)) invalid_merkle_root) _
          h2 in
      let (_, e4, h4) =
        >>=-eq-ok (fail_if (leb b.header.timestamp l.header.timestamp) invalid_block) _ h3 in
      ((ground arith, ground arith, ground arith, ground arith), h4)

  check_block-first :
      (utxos : Utxos) (height : ℕ) (block : Block)
      → check_block p none utxos height block ≡ ok tt
      → block.header.prev_block_hash ≡ zero_hash
  unfolding check_block
  check_block-first utxos height b h = ground arith

  LinkedFrom-snoc :
      (b : Block) (bs : List Block) (l x : Block)
      → last? (b ∷ bs) ≡ some l
      → LinkedFrom p b bs
      → Follows p l x
      → LinkedFrom p b (bs ++ x ∷ [])
  LinkedFrom-snoc b [] l x e h f = ground (arith, f)
  LinkedFrom-snoc b (c ∷ cs) l x e h f = (h.0, LinkedFrom-snoc c cs l x e h.1 f)

  check_block-IsChain :
      (bs : List Block) (utxos : Utxos) (height : ℕ) (x : Block)
      → IsChain p bs
      → check_block p (last? bs) utxos height x ≡ ok tt
      → IsChain p (bs ++ x ∷ [])
  check_block-IsChain [] utxos height x h e = (check_block-first utxos height x e, tt)
  check_block-IsChain (b ∷ bs) utxos height x h e = elim (Option-cases (last? (b ∷ bs))) [
    | inl no_last ↦ absurd (last?-cons b bs no_last)
    | inr (l, found) ↦ (
      h.0,
      LinkedFrom-snoc b bs l x found h.1 (check_block-Follows l utxos height x (rw (← found) e)).0,
    )
  ]

  -- How a call of `add_block` ends: an error or a panic of the tests leaves the state as it was;
  -- else the block stands at the end of the chain.
  pub add_block_cases :
      (block : Block) (c : Blockchain)
      → let (r, d) = add_block p block c in
        ((r ≢ ok tt) × (d ≡ c))
        ⊎ ((check_block p (last? c.blocks) c.utxos (block_height c) block ≡ ok tt)
            × (add_block p block c ≡ try_adjust_target p (push_block p block c)))
  unfolding add_block
  add_block_cases block c =
      elim (Outcome-cases (check_block p (last? c.blocks) c.utxos (block_height c) block)) [
        | inl (_, e) ↦ inr (e, rw (e, add_block))
        | inr (inl (b, e)) ↦ inl (rw (e, add_block) (λ f. cc), rw (e, add_block))
        | inr (inr e) ↦ inl (rw (e, add_block) (λ f. cc), rw (e, add_block))
      ]

  -- `add_block` keeps a chain a chain, whether it takes the block or not.
  pub add_block-IsChain :
      (block : Block) (c : Blockchain)
      → IsChain p c.blocks
      → IsChain p (add_block p block c).1.blocks
  unfolding push_block
  add_block-IsChain block c h = elim (add_block_cases block c) [
    | inl (_, same) ↦ rw same h
    | inr (passed, e) ↦
        rw (e, (try_adjust_target-Adjusts p (push_block p block c)).blocks_kept)
          (check_block-IsChain c.blocks c.utxos (block_height c) block h passed)
  ]

  -- What the tests ask of a block, behind the last block where there is one.
  abbrev pub Accepts : Option Block → Blockchain → Block → Type 0
  Accepts none c block = block.header.prev_block_hash ≡ zero_hash
  Accepts (some last_block) c block =
      Follows p last_block block × (verify_transactions p c.utxos block (block_height c) ≡ ok tt)

  check_block-Accepts :
      (l : Option Block) (c : Blockchain) (block : Block)
      → check_block p l c.utxos (block_height c) block ≡ ok tt
      → Accepts l c block
  check_block-Accepts none c block h = check_block-first c.utxos (block_height c) block h
  check_block-Accepts (some l) c block h = check_block-Follows l c.utxos (block_height c) block h

  pub add_block_sound :
      (block : Block) (c : Blockchain)
      → (add_block p block c).0 ≡ ok tt
      → ((add_block p block c).1.blocks ≡ c.blocks ++ block ∷ []) × Accepts (last? c.blocks) c block
  unfolding push_block
  add_block_sound block c done = elim (add_block_cases block c) [
    | inl (failed, _) ↦ absurd (failed done)
    | inr (passed, e) ↦ (
      ap (λ d. d.1.blocks) e ∙ (try_adjust_target-Adjusts p (push_block p block c)).blocks_kept,
      check_block-Accepts (last? c.blocks) c block passed,
    )
  ]

  -- The chain's own target plays no part in what blocks it takes: with another one in its place,
  -- the blocks after the call are the same.
  add_block_ignores_target :
      (block : Block) (c : Blockchain) (target : ℕ)
      → (add_block p block (record c { target = target })).1.blocks ≡ (add_block p block c).1.blocks
  unfolding add_block push_block
  add_block_ignores_target block c target =
      elim (Outcome-cases (check_block p (last? c.blocks) c.utxos (block_height c) block)) [
        | inl (_, e) ↦
            rw (e, add_block)
              ((try_adjust_target-Adjusts p
                  (push_block p block (record c { target = target }))).blocks_kept
                ∙ sym (try_adjust_target-Adjusts p (push_block p block c)).blocks_kept)
        | inr (inl (b, e)) ↦ rw (e, add_block) refl
        | inr (inr e) ↦ rw (e, add_block) refl
      ]
