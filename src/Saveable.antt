-- ===== src/Saveable.antt =====
-- `Saveable` of lib/src/util.rs, and its instances in lib/src/types and lib/src/crypto.rs; the keys
-- of that file, and their serde module. CBOR, PEM, hex and mnemonics are other crates'. A file
-- system is what each path holds, and its own failures are left out.
pub mod Keys
use grapheno.Base.{
  ℕ, Bool, true, false, List, [], ◌∷◌, Option, none, some, length, take, ltb, text_eq,
  if◌then◌else◌, Text,
}
use grapheno.Types.{PublicKey, PrivateKey, Transaction, Block}
use grapheno.Primitives.{Primitives}
use grapheno.Crypto.{to_address}
use grapheno.Blockchain.{Blockchain}
use grapheno.Network.{Codec}

-- A value, an error that is returned, or a panic.
pub data Attempt {ℓ} (A : Type ℓ) : Type ℓ where
  done : A → Attempt A
  failed : Attempt A
  panicked : Attempt A

abbrev pub or_failed {ℓ} : {A : Type ℓ} → Option A → Attempt A
or_failed none = failed
or_failed (some x) = done x

-- `expect` and `unwrap`
abbrev pub or_panic {ℓ} : {A : Type ℓ} → Attempt A → Attempt A
or_panic (done x) = done x
or_panic failed = panicked
or_panic panicked = panicked

abbrev pub and_then {ℓ κ} : {A : Type ℓ} {B : Type κ} → Attempt A → (A → Attempt B) → Attempt B
and_then (done x) next = next x
and_then failed next = failed
and_then panicked next = panicked

abbrev pub Disk : Type 0
Disk = Text → Option (List ℕ)

unfoldable pub write_file : Text → List ℕ → Disk → Disk
write_file path bytes disk other = if text_eq other path then some bytes else disk other

module _ {ℓ} {A : Type ℓ} where
  -- `save_to_file`: where saving fails, the file is there, and empty.
  unfoldable pub save_to_file : (A → Attempt (List ℕ)) → Text → A → Disk → Attempt (Unit {0}) × Disk
  save_to_file save path x disk = elim (save x) [
    | done bytes ↦ (done tt, write_file path bytes disk)
    | failed ↦ (failed, write_file path [] disk)
    | panicked ↦ (panicked, write_file path [] disk)
  ]

  -- `load_from_file`
  unfoldable pub load_from_file : (List ℕ → Attempt A) → Text → Disk → Attempt A
  load_from_file load path disk = elim (disk path) [ none ↦ failed | some bytes ↦ load bytes ]

-- `Saveable` of `Block` and of `Transaction`
abbrev pub save_block : Codec Block → Block → Attempt (List ℕ)
save_block codec block = done (codec.encode block)

abbrev pub load_block : Codec Block → List ℕ → Attempt Block
load_block codec bytes = or_failed (codec.decode bytes)

abbrev pub save_transaction : Codec Transaction → Transaction → Attempt (List ℕ)
save_transaction codec transaction = done (codec.encode transaction)

abbrev pub load_transaction : Codec Transaction → List ℕ → Attempt Transaction
load_transaction codec bytes = or_failed (codec.decode bytes)

-- `Saveable` of `Blockchain`: the mempool is written, and skipped when it is read.
abbrev pub save_chain : Codec Blockchain → Blockchain → Attempt (List ℕ)
save_chain codec c = done (codec.encode c)

abbrev pub without_mempool : Blockchain → Blockchain
without_mempool c = record c { mempool = [] }

unfoldable pub load_chain : Codec Blockchain → List ℕ → Attempt Blockchain
load_chain codec bytes = and_then (or_failed (codec.decode bytes)) (λ c. done (without_mempool c))

-- What bip39, k256, hex, pkcs8 and ciborium do with keys.
pub record KeyFormats : Type 0 where
  -- `parse_in_normalized`, and the seed without a passphrase
  pub seed_of_mnemonic : Text → Option (List ℕ)
  -- `SigningKey::from_slice` and `to_bytes`
  pub key_of_slice : List ℕ → Option PrivateKey
  pub bytes_of_key : PrivateKey → List ℕ
  pub hex_encode : List ℕ → Text
  pub hex_decode : Text → Option (List ℕ)
  pub uncompressed_point : PublicKey → List ℕ
  -- `to_public_key_pem`, and `parse`
  pub pem_of_key : PublicKey → Option Text
  pub key_of_pem : Text → Option PublicKey
  -- `read_to_string`
  pub text_of_bytes : List ℕ → Option Text
  -- a byte string
  pub cbor_bytes : Codec (List ℕ)

module _ (p : Primitives) (f : KeyFormats) where
  -- `PublicKey::to_hex`
  unfoldable pub to_hex : PublicKey → Text
  to_hex key = f.hex_encode (f.uncompressed_point key)

  -- `Display` of `PublicKey`
  abbrev pub display : PublicKey → Text
  display key = to_address p key

  -- The 32 bytes behind the digest: the slice panics where there are fewer.
  unfoldable pub key_from_bytes : List ℕ → Attempt PrivateKey
  key_from_bytes seed_bytes =
      if ltb (length seed_bytes) 32
      then panicked
      else or_failed (f.key_of_slice (take 32 seed_bytes))

  -- `PrivateKey::from_seed`; `digest` writes the SHA-256 in hex.
  unfoldable pub from_seed : List ℕ → Attempt PrivateKey
  unfolding key_from_bytes
  from_seed seed =
      let seed_hash = f.hex_encode (p.sha256 seed) in
      and_then (or_failed (f.hex_decode seed_hash)) key_from_bytes

  -- `PrivateKey::from_mnemonic`
  unfoldable pub from_mnemonic : Text → Attempt PrivateKey
  unfolding from_seed
  from_mnemonic mnemonic = and_then (or_failed (f.seed_of_mnemonic mnemonic)) from_seed

  -- `PrivateKey::public_key`
  abbrev pub public_key : PrivateKey → PublicKey
  public_key key = p.verifying_key key

-- `signkey_serde`: bytes that are no key make `unwrap` panic.
unfoldable pub serialize : KeyFormats → PrivateKey → List ℕ
serialize f key = f.cbor_bytes.encode (f.bytes_of_key key)

unfoldable pub deserialize : KeyFormats → List ℕ → Attempt PrivateKey
deserialize f bytes =
    and_then (or_failed (f.cbor_bytes.decode bytes))
      (λ slice. or_panic (or_failed (f.key_of_slice slice)))

-- `Saveable` of `PrivateKey`
abbrev pub save_private : KeyFormats → PrivateKey → Attempt (List ℕ)
save_private f key = done (serialize f key)

abbrev pub load_private : KeyFormats → List ℕ → Attempt PrivateKey
load_private f bytes = deserialize f bytes

-- `Saveable` of `PublicKey`
abbrev pub save_public : KeyFormats → PublicKey → Attempt (List ℕ)
save_public f key = or_failed (f.pem_of_key key)

unfoldable pub load_public : KeyFormats → List ℕ → Attempt PublicKey
load_public f bytes =
    and_then (or_failed (f.text_of_bytes bytes)) (λ text. or_failed (f.key_of_pem text))
