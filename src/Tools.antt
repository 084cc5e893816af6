-- ===== src/Tools.antt =====
-- The programs of lib/src/bin: key_gen, block_gen, tx_gen, block_print and tx_print. What the user
-- types is an argument, without the spaces around it; what they print is what they return.
pub mod Generated
mod Tests
use grapheno.Base.{
  ℕ, Bool, true, false, List, [], ◌∷◌, ◌++◌, Option, none, some, if◌then◌else◌, ◌==◌, length, Text,
}
use grapheno.Types.{
  DateTime, PublicKey, PrivateKey, TransactionOutput, Transaction, Block, min_target,
}
use grapheno.Primitives.{Primitives}
use grapheno.Hashing.{zero_hash}
use grapheno.Crypto.{to_address}
use grapheno.Merkle.{calculate}
use grapheno.Block.{full_reward}
use grapheno.Network.{Codec}
use grapheno.Saveable.{
  Attempt, done, failed, panicked, or_panic, and_then, Disk, KeyFormats, save_to_file,
  load_from_file, save_private, load_private, save_public, from_mnemonic, public_key, save_block,
  load_block, save_transaction, load_transaction,
}

-- ".pub.pem", ".priv.cbor", "keys" and "default"
abbrev pub_suffix : Text
pub_suffix = b'.' ∷ b'p' ∷ b'u' ∷ b'b' ∷ b'.' ∷ b'p' ∷ b'e' ∷ b'm' ∷ []

abbrev priv_suffix : Text
priv_suffix = b'.' ∷ b'p' ∷ b'r' ∷ b'i' ∷ b'v' ∷ b'.' ∷ b'c' ∷ b'b' ∷ b'o' ∷ b'r' ∷ []

abbrev default_dir : Text
default_dir = b'k' ∷ b'e' ∷ b'y' ∷ b's' ∷ []

abbrev default_name : Text
default_name = b'd' ∷ b'e' ∷ b'f' ∷ b'a' ∷ b'u' ∷ b'l' ∷ b't' ∷ []

abbrev pub or_default : Text → Text → Text
or_default input fallback = if length input == 0 then fallback else input

-- The two files of a key pair; `join` is that of `PathBuf`.
abbrev pub public_file : (Text → Text → Text) → Text → Text → Text
public_file join dir name =
    join (or_default dir default_dir) (or_default name default_name ++ pub_suffix)

abbrev pub private_file : (Text → Text → Text) → Text → Text → Text
private_file join dir name =
    join (or_default dir default_dir) (or_default name default_name ++ priv_suffix)

-- `expect` of a saving
abbrev pub saved_or_panic : Attempt (Unit {0}) × Disk → (Disk → Attempt Disk) → Attempt Disk
saved_or_panic (done _, disk) next = next disk
saved_or_panic (failed, disk) next = panicked
saved_or_panic (panicked, disk) next = panicked

module _ (p : Primitives) (f : KeyFormats) where
  -- `main` of key_gen, with the phrase of the drawn mnemonic
  unfoldable pub key_gen : (Text → Text → Text) → Text → Text → Text → Disk → Attempt Disk
  key_gen join mnemonic_phrase dir name disk =
      and_then (or_panic (from_mnemonic p f mnemonic_phrase)) λ private.
        saved_or_panic (save_to_file (save_private f) (private_file join dir name) private disk)
          λ disk'.
            saved_or_panic
              (save_to_file (save_public f) (public_file join dir name) (public_key p f private)
                disk')
              done

  -- The output of block_gen and of tx_gen, and the transaction around it.
  abbrev pub reward_output : PrivateKey → ℕ → TransactionOutput
  reward_output private unique_id = record {
    value = full_reward;
    unique_id = unique_id;
    address = to_address p (public_key p f private);
  }

  unfoldable pub reward_to : PrivateKey → ℕ → Transaction
  reward_to private unique_id = record {
    inputs = [];
    outputs = reward_output private unique_id ∷ [];
  }

  unfoldable pub generated_block : PrivateKey → ℕ → DateTime → Block
  generated_block private unique_id now =
      let transactions = reward_to private unique_id ∷ [] in
      record {
        header = record {
          timestamp = now;
          nonce = 0;
          prev_block_hash = zero_hash;
          merkle_root = calculate p transactions;
          target = min_target;
        };
        transactions = transactions;
      }

  -- `main` of block_gen
  unfoldable pub block_gen : Codec Block → ℕ → DateTime → Text → Text → Disk → Attempt Disk
  block_gen codec unique_id now path key_path disk =
      and_then (or_panic (load_from_file (load_private f) key_path disk)) λ private.
        saved_or_panic
          (save_to_file (save_block codec) path (generated_block private unique_id now) disk) done

  -- `main` of tx_gen
  unfoldable pub tx_gen : Codec Transaction → ℕ → Text → Text → Disk → Attempt Disk
  tx_gen codec unique_id path key_path disk =
      and_then (or_panic (load_from_file (load_private f) key_path disk)) λ private.
        saved_or_panic
          (save_to_file (save_transaction codec) path (reward_to private unique_id) disk) done

-- `main` of block_print and of tx_print: nothing, where the file cannot be opened.
unfoldable pub block_print : Codec Block → Text → Disk → Attempt (Option Block)
block_print codec path disk = elim (disk path) [
  | none ↦ done none
  | some bytes ↦ and_then (or_panic (load_block codec bytes)) (λ block. done (some block))
]

unfoldable pub tx_print : Codec Transaction → Text → Disk → Attempt (Option Transaction)
tx_print codec path disk = elim (disk path) [
  | none ↦ done none
  | some bytes ↦ and_then (or_panic (load_transaction codec bytes)) (λ t. done (some t))
]
