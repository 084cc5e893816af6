-- ===== src/Tools/Generated.antt =====
-- What becomes of what the programs generate: the wallet loads the keys, a new chain takes the
-- block, and no mempool takes the transaction.
use grapheno.Base.{
  ℕ, ◌≡◌, refl, ap, ◌∙◌, false, [], ◌∷◌, Option, none, some, ok, err, text_eq, Text, insert,
  sum_from, invalid_transaction,
}
use grapheno.Types.{DateTime, PrivateKey}
use grapheno.Primitives.{Primitives}
use grapheno.Hashing.{hash_output}
use grapheno.Blockchain.{
  Blockchain, new, add_block, check_block, push_block, try_adjust_target, rebuild_utxos,
}
use grapheno.Mempool.{add_to_mempool, add_appraised, appraise, validate_inputs, sum_inputs}
use grapheno.Saveable.{
  Attempt, done, failed, panicked, or_failed, Disk, KeyFormats, write_file, save_to_file,
  load_from_file, load_private, save_public, load_public, from_mnemonic, public_key, serialize,
}
use grapheno.Saveable.Keys.{
  IsFormat, read-write_file, read-write_file_other, deserialize-serialize, load_public-pem,
}
use grapheno.Tools.{public_file, private_file, key_gen, reward_output, reward_to, generated_block}
use grapheno.Wallet.{made, add_key}
use grapheno.Wallet.Client.{Config}
use grapheno.Wallet.Loading.{Files, load_keys}
use grapheno.Wallet.Store.{empty_store}

abbrev pub found {ℓ} : {A : Type ℓ} → Attempt A → Option A
found (done x) = some x
found failed = none
found panicked = none

-- The files that a wallet reads, on this disk.
abbrev pub files_on : KeyFormats → Config → Disk → Files
files_on f config disk = record {
  config = some config;
  public = λ path. found (load_from_file (load_public f) path disk);
  private = λ path. found (load_from_file (load_private f) path disk);
}

module _ (p : Primitives) (f : KeyFormats) (good : IsFormat f) where
  -- The disk behind key_gen.
  abbrev pub generated : Text → Text → PrivateKey → Text → Disk → Disk
  generated private_path public_path k text disk =
      write_file public_path text (write_file private_path (serialize f k) disk)

  load_private-generated :
      (private_path public_path text : Text) (k : PrivateKey) (disk : Disk)
      → text_eq private_path public_path ≡ false
      → load_from_file
          (load_private f)
          private_path
          (generated private_path public_path k text disk)
        ≡ done k
  unfolding load_from_file
  load_private-generated private_path public_path text k disk differ =
      let there : generated private_path public_path k text disk private_path
          ≡ some (serialize f k) =
        read-write_file_other public_path private_path text _ differ
        ∙ read-write_file private_path (serialize f k) disk in
      rw (there, load_from_file) (deserialize-serialize f good k)

  load_public-generated :
      (private_path public_path text : Text) (k : PrivateKey) (disk : Disk)
      → f.text_of_bytes text ≡ some text
      → f.key_of_pem text ≡ some (public_key p f k)
      → load_from_file (load_public f) public_path (generated private_path public_path k text disk)
        ≡ done (public_key p f k)
  unfolding load_from_file
  load_public-generated private_path public_path text k disk e h =
      rw
        (
          read-write_file public_path text (write_file private_path (serialize f k) disk),
          load_from_file,
        )
        (load_public-pem f good (public_key p f k) text e h)

  key_gen-generated :
      (join : Text → Text → Text) (phrase dir name text : Text) (k : PrivateKey) (disk : Disk)
      → from_mnemonic p f phrase ≡ done k
      → f.pem_of_key (public_key p f k) ≡ some text
      → key_gen p f join phrase dir name disk
        ≡ done (generated (private_file join dir name) (public_file join dir name) k text disk)
  unfolding key_gen save_to_file
  key_gen-generated join phrase dir name text k disk derived pem =
      let second : save_public f (public_key p f k) ≡ done text = ap or_failed pem in
      rw (derived, second, save_to_file) refl

  -- Where the phrase gives a key and the two files have different paths: key_gen ends well, and a
  -- wallet that loads these files has this key and its public key, and nothing else.
  pub key_gen-load_keys :
      (join : Text → Text → Text) (phrase dir name : Text) (k : PrivateKey) (disk : Disk)
      (config : Config)
      → from_mnemonic p f phrase ≡ done k
      → text_eq (private_file join dir name) (public_file join dir name) ≡ false
      → (disk' : Disk) × (key_gen p f join phrase dir name disk ≡ done disk')
        × (load_keys p
              (files_on f config disk')
              ((public_file join dir name, private_file join dir name) ∷ [])
              empty_store
            ≡ made (add_key p (record { public = p.verifying_key k; private = k }) empty_store))
  unfolding load_keys
  key_gen-load_keys join phrase dir name k disk config derived differ =
      let pem = good.pem (public_key p f k) in
      let priv = private_file join dir name in
      let pub_path = public_file join dir name in
      (
        generated priv pub_path k pem.0 disk,
        key_gen-generated join phrase dir name pem.0 k disk derived pem.1,
        rw
            (
              load_public-generated priv pub_path pem.0 k disk pem.2 pem.3,
              load_private-generated priv pub_path pem.0 k disk differ,
            )
            refl,
      )

module _ (p : Primitives) (f : KeyFormats) (k : PrivateKey) (unique_id : ℕ) where
  -- The block of block_gen is the first of a new chain: `add_block` takes it, leaves the target,
  -- and once the unspent outputs are rebuilt, the only one is the reward, which belongs to the
  -- address of the key.
  pub generated_block-add_block :
      (now : DateTime)
      → (add_block p (generated_block p f k unique_id now) new
          ≡ (ok tt, record new { blocks = generated_block p f k unique_id now ∷ [] }))
        × ((rebuild_utxos p (add_block p (generated_block p f k unique_id now) new).1).utxos
            ≡ (
              hash_output p (reward_output p f k unique_id),
              (false, reward_output p f k unique_id),
            )
              ∷ [])
  unfolding add_block check_block push_block try_adjust_target rebuild_utxos generated_block
      reward_to insert
  generated_block-add_block now = (refl, refl)

  -- The transaction of tx_gen creates the reward from nothing: no mempool takes it, whatever the
  -- ledger, which stays as it is.
  reward_to_refused :
      (now : DateTime) (c : Blockchain)
      → add_to_mempool p now (reward_to p f k unique_id) c ≡ (err invalid_transaction, c)
  unfolding add_to_mempool add_appraised appraise validate_inputs sum_inputs reward_to sum_from
  reward_to_refused now c = refl
