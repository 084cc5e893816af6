-- ===== src/Miner/Accepted.antt =====
-- The miner and the node together: a template that the node makes, mined by the miner's thread, is
-- a block that the node's chain takes.
use grapheno.Base.{
  ℕ, ◌+◌, ◌*◌, ◌^◌, ◌<◌, ◌≤◌, ◌≡◌, refl, sym, subst, true, [], ◌∷◌, ◌++◌, some, ok, last?, Text,
  arith, leb,
}
use grapheno.Types.{DateTime, Block}
use grapheno.Primitives.{Primitives}
use grapheno.Hashing.{hash_header}
use grapheno.Block.{verify_rest}
use grapheno.Blockchain.{Blockchain, block_height, check_block}
use grapheno.Node.Dispatch.{Draw, taken, make_template}
use grapheno.Node.Templates.{make_template_inv, make_template-check_block}
use grapheno.Miner.{Miner, sent}
use grapheno.Miner.Search.{IsMining, with_nonce, round, round_sends}

module _ (p : Primitives) (draw : Draw) (address : Text) (c : Blockchain) where
  template_header :
      (block : Block)
      → make_template p draw address c ≡ ok block
      → (block.header.nonce ≡ 0)
        × (block.header.timestamp ≡ draw.now)
        × (block.header.target ≡ c.target)
  template_header block made =
      let (fees, reward, value, paid, halved, sum, same) =
        make_template_inv p draw address c block made in
      rw same (refl, refl, refl)

  -- Where the node made the template for its chain of fewer than 210 * 2^32 blocks, later than the
  -- last block's time and with transactions from the mempool that are in order over the unspent
  -- outputs, and one of the nonces from 0 to 2,000,000 meets the target: a mining thread that is
  -- about to load the flag, with the flag set and the mutex free, over this template, has in three
  -- turns sent one block more, and that block passes every test of `add_block` on the node's chain.
  pub round-check_block :
      (now : ℕ → DateTime) (m : Miner) (block last_block : Block) (k : ℕ)
      → make_template p draw address c ≡ ok block
      → last? c.blocks ≡ some last_block
      → block_height c < 210 * 2 ^ 32
      → verify_rest p c.utxos [] (taken c) ≡ ok tt
      → last_block.header.timestamp < draw.now
      → IsMining block m
      → k ≤ 2000000
      → hash_header p (record block.header { nonce = k }) ≤ c.target
      → (b : Block) × (round p now m
          ≡ record m { mined_blocks = m.mined_blocks ++ b ∷ []; thread = sent })
        × (check_block p (last? c.blocks) c.utxos (block_height c) b ≡ ok tt)
  round-check_block now m block l k made found low rest later mining le hit =
      let (zero_nonce, time, target) = template_header block made in
      let at_k : block.header.nonce + k ≡ k = omega arith in
      let (j, least, at_j, sends) = round_sends p now m block k mining (omega arith) le (
        rw at_k (
          leb_true (
            subst (λ t. hash_header p (record block.header { nonce = k }) ≤ t) (sym target)
              hit))) in
      (
        with_nonce block (block.header.nonce + j),
        sends,
        make_template-check_block p draw address c block l (block.header.nonce + j)
            block.header.timestamp made found low rest (omega (arith, time))
            (subst (λ t. hash_header p (with_nonce block (block.header.nonce + j)).header ≤ t)
              target (ground (arith, at_j))),
      )
    where
      leb_true : {a b : ℕ} → a ≤ b → leb a b ≡ true
      leb_true h = ground arith
