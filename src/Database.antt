-- ===== src/Database.antt =====
-- node/src/database.rs: the key-value store of a node. sled holds what was last written under a
-- key, and its own failures are left out. The mutexes only order calls. Values are CBOR, but for
-- the count of the blocks. What cannot be read back is an error, `none` here.
pub mod Entries
pub mod Snapshots
pub mod Phases
pub mod Saved
pub mod Restart
pub mod Loading
mod Tests
use grapheno.Base.{
  ℕ, zero, suc, ◌+◌, ◌%◌, ◌^◌, Bool, true, false, not, List, [], ◌∷◌, ◌++◌, map, Option, none, some,
  length, take, retain, ltb, ◌==◌, if◌then◌else◌, contains, insert, Outcome, ok, err, panic,
}
use grapheno.Types.{Hash, DateTime, TransactionOutput, Transaction, Block}
use grapheno.Primitives.{Primitives}
use grapheno.Hashing.{hash_transaction, from_big_endian}
use grapheno.Block.{Utxos}
use grapheno.Blockchain.{Blockchain, Done, new, block_height, add_block}
use grapheno.Mempool.{Entry, add_to_mempool}
use grapheno.Network.{Codec, to_big_endian}

-- A key stands for its text: which of the seven prefixes of `keys` begins it, and the index or the
-- hash and the nanoseconds that are written behind the prefix.
pub record Key : Type 0 where
  pub prefix : ℕ
  pub number : ℕ
  pub nanos : ℕ

abbrev pub block_key : ℕ → Key
block_key index = record { prefix = 0; number = index; nanos = 0 }

abbrev pub utxo_key : Hash → Key
utxo_key hash = record { prefix = 1; number = hash; nanos = 0 }

abbrev pub mempool_key : Hash → ℕ → Key
mempool_key tx_hash nanos = record { prefix = 2; number = tx_hash; nanos = nanos }

abbrev pub meta_key : ℕ → Key
meta_key prefix = record { prefix = prefix; number = 0; nanos = 0 }

abbrev pub meta_target : Key
meta_target = meta_key 3

abbrev pub meta_block_count : Key
meta_block_count = meta_key 4

abbrev pub meta_utxo_keys : Key
meta_utxo_keys = meta_key 5

abbrev pub meta_mempool_keys : Key
meta_mempool_keys = meta_key 6

abbrev pub key_eq : Key → Key → Bool
key_eq a b =
    if a.prefix == b.prefix
    then if a.number == b.number then a.nanos == b.nanos else false
    else false

-- What is stored under each key.
abbrev pub Store : Type 0
Store = Key → Option (List ℕ)

abbrev pub write : Key → List ℕ → Store → Store
write k v s j = if key_eq j k then some v else s j

abbrev pub delete : Key → Store → Store
delete k s j = if key_eq j k then none else s j

-- The CBOR of what is stored, and chrono's `timestamp_nanos_opt`, its 64 bits read as a number.
pub record Codecs : Type 0 where
  pub block : Codec Block
  pub utxo : Codec (Bool × TransactionOutput)
  pub mempool_tx : Codec Entry
  pub target : Codec ℕ
  pub utxo_keys : Codec (List Hash)
  pub mempool_keys : Codec (List (Hash × DateTime))
  pub timestamp_nanos : DateTime → Option ℕ

-- A read: an error, or what stands there, if anything does.
abbrev pub Read {ℓ} : Type ℓ → Type ℓ
Read A = Option (Option A)

abbrev pub read_as {ℓ} : {A : Type ℓ} → Codec A → Option (List ℕ) → Read A
read_as codec none = some none
read_as codec (some value) = elim (codec.decode value) [ none ↦ none | some x ↦ some (some x) ]

abbrev pub unwrap_or {ℓ} : {A : Type ℓ} → A → Option A → A
unwrap_or d none = d
unwrap_or d (some x) = x

-- A write that reads first: whether it succeeded, and the store behind it.
abbrev pub Written : Type 0
Written = Bool × Store

module _ (cbor : Codecs) where
  pub put_block : ℕ → Block → Store → Store
  put_block index block = write (block_key index) (cbor.block.encode block)

  unfoldable pub get_block : ℕ → Store → Read Block
  get_block index s = read_as cbor.block (s (block_key index))

  -- The loop of `get_all_blocks`: an index without a block ends it. The fuel bounds the indices.
  unfoldable pub get_blocks_from : ℕ → ℕ → Store → Option (List Block)
  get_blocks_from zero index s = none
  get_blocks_from (suc fuel) index s =
      let rest = get_blocks_from fuel (suc index) s in
      elim (get_block index s) [
        | none ↦ none
        | some found ↦ elim found [
          | none ↦ some []
          | some block ↦ elim rest [ none ↦ none | some blocks ↦ some (block ∷ blocks) ]
        ]
      ]

  unfoldable pub get_all_blocks : ℕ → Store → Option (List Block)
  get_all_blocks fuel s = get_blocks_from fuel 0 s

  pub put_utxo_keys : List Hash → Store → Store
  put_utxo_keys keys = write meta_utxo_keys (cbor.utxo_keys.encode keys)

  pub get_utxo_keys : Store → Read (List Hash)
  get_utxo_keys s = read_as cbor.utxo_keys (s meta_utxo_keys)

  -- The value of a UTXO, without the list of the keys.
  pub write_utxo : Hash → Bool × TransactionOutput → Store → Store
  write_utxo hash utxo = write (utxo_key hash) (cbor.utxo.encode utxo)

  pub put_utxo : Hash → Bool → TransactionOutput → Store → Written
  put_utxo hash marked output s =
      let s' = write_utxo hash (marked, output) s in
      elim (get_utxo_keys s') [
        | none ↦ (false, s')
        | some found ↦
            let keys = unwrap_or [] found in
            if contains hash keys then (true, s') else (true, put_utxo_keys (keys ++ hash ∷ []) s')
      ]

  pub get_utxo : Hash → Store → Read (Bool × TransactionOutput)
  get_utxo hash s = read_as cbor.utxo (s (utxo_key hash))

  pub delete_utxo : Hash → Store → Written
  delete_utxo hash s =
      let s' = delete (utxo_key hash) s in
      elim (get_utxo_keys s') [
        | none ↦ (false, s')
        | some found ↦ elim found [
          | none ↦ (true, s')
          | some keys ↦ (true, put_utxo_keys (retain (λ h. not (h == hash)) keys) s')
        ]
      ]

  pub get_utxos : List Hash → Utxos → Store → Option Utxos
  get_utxos [] utxos s = some utxos
  get_utxos (hash ∷ keys) utxos s = elim (get_utxo hash s) [
    | none ↦ none
    | some found ↦ elim found [
      | none ↦ get_utxos keys utxos s
      | some utxo ↦ get_utxos keys (insert hash utxo utxos) s
    ]
  ]

  pub get_all_utxos : Store → Option Utxos
  get_all_utxos s = elim (get_utxo_keys s) [
    | none ↦ none
    | some found ↦ get_utxos (unwrap_or [] found) [] s
  ]

  pub put_target : ℕ → Store → Store
  put_target target = write meta_target (cbor.target.encode target)

  pub get_target : Store → Read ℕ
  get_target s = read_as cbor.target (s meta_target)

  pub put_block_count : ℕ → Store → Store
  put_block_count count = write meta_block_count (to_big_endian 8 (count % 2 ^ 64))

  -- The first eight bytes; fewer are no count.
  pub get_block_count : Store → Option ℕ
  get_block_count s = elim (s meta_block_count) [
    | none ↦ none
    | some value ↦ if ltb (length value) 8 then none else some (from_big_endian 0 (take 8 value))
  ]
