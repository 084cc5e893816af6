-- ===== src/Mempool/Soundness.antt =====
-- The ledger under every method of `Blockchain`: the blocks stay a chain, and the target in range.
use grapheno.Base.{
  ℕ, ◌≤◌, ◌≡◌, refl, ◌∙◌, true, [], ◌∷◌, ◌++◌, Outcome, ok, err, panic, inl, inr, ltb, Bool-cases,
}
use grapheno.Types.{DateTime, Transaction, Block, min_target}
use grapheno.Primitives.{Primitives}
use grapheno.Blockchain.{Blockchain, Done, continue, add_block, rebuild_utxos, push_block}
use grapheno.Blockchain.Chain.{IsChain, add_block-IsChain, add_block_cases}
use grapheno.Blockchain.Target.{try_adjust_target-Adjusts}
use grapheno.Mempool.{
  mark_all, cleanup_mempool, add_to_mempool, add_appraised, appraise, admit, release_inputs,
}
use grapheno.Mempool.Sorting.{sort_mempool-SameLedger}
use grapheno.Mempool.Admission.{release_inputs-Yields}

-- The blocks are a chain, and the target is no easier than the program allows.
pub record IsSound (p : Primitives) (c : Blockchain) : Type 0 where
  pub chain : IsChain p c.blocks
  pub target_range : c.target ≤ min_target

-- The same blocks and the same target.
pub record SameChain (c d : Blockchain) : Type 0 where
  pub blocks : d.blocks ≡ c.blocks
  pub target : d.target ≡ c.target

pub IsSound-SameChain :
    (p : Primitives) (c d : Blockchain) → SameChain c d → IsSound p c → IsSound p d
IsSound-SameChain p c d same s = record {
  chain = rw same.blocks s.chain;
  target_range = rw same.target s.target_range;
}

admit-SameChain :
    (now : DateTime) (t : Transaction) (ins outs : ℕ) (c : Blockchain)
    → SameChain c (admit now t ins outs c).1
unfolding admit
admit-SameChain now t ins outs c = elim (Bool-cases (ltb ins outs)) [
  | inl short ↦ rw (short, admit) (record { blocks = refl; target = refl })
  | inr enough ↦
      let same = sort_mempool-SameLedger (record c {
        utxos = mark_all true t.inputs c.utxos;
        mempool = c.mempool ++ (now, t) ∷ [];
      }) in
      rw (enough, admit) (record { blocks = same.blocks; target = same.target })
]

SameChain-trans : (a b c : Blockchain) → SameChain a b → SameChain b c → SameChain a c
SameChain-trans a b c x y = record { blocks = y.blocks ∙ x.blocks; target = y.target ∙ x.target }

continue-SameChain :
    (c : Blockchain) (d : Done) (f : Blockchain → Done)
    → SameChain c d.1
    → ((b : Blockchain) → SameChain b (f b).1)
    → SameChain c (continue d f).1
continue-SameChain c (ok _, b) f x y = SameChain-trans c b (f b).1 x (y b)
continue-SameChain c (err e, b) f x y = x
continue-SameChain c (panic, b) f x y = x

module _ (p : Primitives) where
  add_appraised-SameChain :
      (now : DateTime) (t : Transaction) (c : Blockchain) (o : Outcome (ℕ × ℕ × ℕ))
      → SameChain c (add_appraised p now t c o).1
  unfolding add_appraised
  add_appraised-SameChain now t c (err e) = record { blocks = refl; target = refl }
  add_appraised-SameChain now t c panic = record { blocks = refl; target = refl }
  add_appraised-SameChain now t c (ok r) =
      let y = release_inputs-Yields p r.2 t.inputs c in
      continue-SameChain c (release_inputs p r.2 t.inputs c) (admit now t r.0 r.1)
        (record { blocks = y.blocks; target = y.target }) (admit-SameChain now t r.0 r.1)

  pub add_to_mempool-SameChain :
      (now : DateTime) (t : Transaction) (c : Blockchain) → SameChain c (add_to_mempool p now t c).1
  unfolding add_to_mempool
  add_to_mempool-SameChain now t c = add_appraised-SameChain now t c (appraise c.utxos t)

  pub add_block-IsSound :
      (block : Block) (c : Blockchain) → IsSound p c → IsSound p (add_block p block c).1
  unfolding push_block
  add_block-IsSound block c s = record {
    chain = add_block-IsChain p block c s.chain;
    target_range = elim (add_block_cases p block c) [
      | inl (_, same) ↦ rw same s.target_range
      | inr (_, e) ↦
          rw e ((try_adjust_target-Adjusts p (push_block p block c)).capped s.target_range)
    ];
  }

  pub rebuild_utxos-SameChain : (c : Blockchain) → SameChain c (rebuild_utxos p c)
  unfolding rebuild_utxos
  rebuild_utxos-SameChain c = record { blocks = refl; target = refl }

pub cleanup_mempool-SameChain :
    (now : DateTime) (c : Blockchain) → SameChain c (cleanup_mempool now c)
unfolding cleanup_mempool
cleanup_mempool-SameChain now c = record { blocks = refl; target = refl }

pub SameChain-self : (c : Blockchain) → SameChain c c
SameChain-self c = record { blocks = refl; target = refl }
