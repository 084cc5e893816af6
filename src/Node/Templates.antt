-- ===== src/Node/Templates.antt =====
-- What the node hands to a miner is what it would take back.
use grapheno.Base.{
  ℕ, ◌*◌, ◌^◌, ◌≤◌, ◌<◌, ◌≡◌, refl, sym, ◌∙◌, false, [], some, drop, get_elem?, length, ◌==◌, last?,
  ok, >>=-eq-ok, add_u64, sum_from, arith, Text,
}
use grapheno.Types.{DateTime, Block}
use grapheno.Primitives.{Primitives}
use grapheno.Hashing.{hash_header, hash_block}
use grapheno.Merkle.{calculate}
use grapheno.Block.{
  Utxos, calculate_miner_fees, block_reward, verify_coinbase_transaction, verify_rest,
  verify_transactions,
}
use grapheno.Blockchain.{Blockchain, block_height, calculate_block_reward, check_block}
use grapheno.Blockchain.Reward.{calculate_block_reward-block_reward}
use grapheno.Node.Dispatch.{
  Draw, get_last_block_hash, coinbase_to, taken, placeholder, finished, make_template,
}

-- The block that a miner sends back: the template with another nonce and time.
abbrev pub mined : Block → ℕ → DateTime → Block
mined block nonce timestamp = record block {
  header = record block.header { nonce = nonce; timestamp = timestamp };
}

module _ (p : Primitives) (draw : Draw) (address : Text) (c : Blockchain) where
  calculate_miner_fees-drop :
      (u : Utxos) (a b : Block)
      → drop 1 a.transactions ≡ drop 1 b.transactions
      → calculate_miner_fees p u a ≡ calculate_miner_fees p u b
  unfolding calculate_miner_fees
  calculate_miner_fees-drop u a b e = rw e refl

  coinbase_passes :
      (block : Block) (height reward fees value : ℕ)
      → get_elem? block.transactions 0 ≡ some (coinbase_to address draw.unique_id value)
      → calculate_miner_fees p c.utxos block ≡ ok fees
      → block_reward height ≡ ok reward
      → add_u64 reward fees ≡ ok value
      → verify_coinbase_transaction p c.utxos block height ≡ ok tt
  unfolding verify_coinbase_transaction sum_from
  coinbase_passes block height reward fees value first paid halved sum =
      rw (first, paid, halved, sum) (ground (arith, sum))

  pub make_template_inv :
      (block : Block)
      → make_template p draw address c ≡ ok block
      → (fees : ℕ) × (reward : ℕ) × (value : ℕ) × (calculate_miner_fees p c.utxos
            (placeholder p draw address c)
          ≡ ok fees)
        × (calculate_block_reward c ≡ ok reward)
        × (add_u64 reward fees ≡ ok value)
        × (block ≡ finished p draw address c value)
  unfolding make_template
  make_template_inv block h =
      let (fees, e1, h1) =
        >>=-eq-ok (calculate_miner_fees p c.utxos (placeholder p draw address c)) _ h in
      let (reward, e2, h2) = >>=-eq-ok (calculate_block_reward c) _ h1 in
      let (value, e3, h3) = >>=-eq-ok (add_u64 reward fees) _ h2 in
      (fees, reward, value, e1, e2, e3, ground (arith, h3))

  -- The coinbase of a template passes at the next height, whatever nonce and time the miner sets.
  make_template-coinbase :
      (block : Block) (nonce : ℕ) (timestamp : DateTime)
      → make_template p draw address c ≡ ok block
      → block_height c < 210 * 2 ^ 32
      → verify_coinbase_transaction p c.utxos (mined block nonce timestamp) (block_height c) ≡ ok tt
  make_template-coinbase block nonce timestamp h low =
      let (fees, reward, value, paid, halved, sum, same) = make_template_inv block h in
      rw same (
        coinbase_passes _ (block_height c) reward fees value refl
          (calculate_miner_fees-drop c.utxos _ (placeholder p draw address c) refl ∙ paid)
          (sym (calculate_block_reward-block_reward c low) ∙ halved) sum)

  verify_transactions_passes :
      (block : Block) (height : ℕ)
      → length block.transactions == 0 ≡ false
      → verify_coinbase_transaction p c.utxos block height ≡ ok tt
      → verify_rest p c.utxos [] (drop 1 block.transactions) ≡ ok tt
      → verify_transactions p c.utxos block height ≡ ok tt
  unfolding verify_transactions
  verify_transactions_passes block height some_there first rest =
      rw (some_there, first, verify_coinbase_transaction) rest

  check_block_passes :
      (l block : Block) (height : ℕ)
      → block.header.prev_block_hash ≡ hash_block p l
      → hash_header p block.header ≤ block.header.target
      → calculate p block.transactions ≡ block.header.merkle_root
      → l.header.timestamp < block.header.timestamp
      → verify_transactions p c.utxos block height ≡ ok tt
      → check_block p (some l) c.utxos height block ≡ ok tt
  unfolding check_block
  check_block_passes l block height linked work root later passed = ground arith

  get_last_block_hash-last :
      (l : Block) → last? c.blocks ≡ some l → get_last_block_hash p c ≡ hash_block p l
  unfolding get_last_block_hash
  get_last_block_hash-last l found = rw (found, get_last_block_hash) refl

  -- A template that a miner sends back with another nonce and a later time than the last block's
  -- passes every test of `add_block`, on the chain that it was made for and below 210 * 2^32
  -- blocks, when its hash meets the target and the transactions taken from the mempool are in order
  -- over the unspent outputs.
  pub make_template-check_block :
      (block last_block : Block) (nonce : ℕ) (timestamp : DateTime)
      → make_template p draw address c ≡ ok block
      → last? c.blocks ≡ some last_block
      → block_height c < 210 * 2 ^ 32
      → verify_rest p c.utxos [] (taken c) ≡ ok tt
      → last_block.header.timestamp < timestamp
      → hash_header p (record block.header { nonce = nonce; timestamp = timestamp }) ≤ c.target
      → check_block p (last? c.blocks) c.utxos (block_height c) (mined block nonce timestamp)
        ≡ ok tt
  make_template-check_block block l nonce timestamp h found low rest later work =
      let coinbase = make_template-coinbase block nonce timestamp h low in
      let (fees, reward, value, paid, halved, sum, same) = make_template_inv block h in
      rw (found, same)
        (check_block_passes l (mined (finished p draw address c value) nonce timestamp)
          (block_height c) (get_last_block_hash-last l found) (rw same at work) refl later
          (verify_transactions_passes (mined (finished p draw address c value) nonce timestamp)
            (block_height c) (ground arith) (rw same at coinbase) rest))
