-- ===== src/Types.antt =====
-- The data of the ledger: lib/src/lib.rs (constants), lib/src/types/transaction.rs and the structs
-- of lib/src/types/block.rs. Keys, signatures, uuids and hashes are numbers; a time is the count of
-- nanoseconds since the earliest `DateTime` that chrono represents.
use grapheno.Base.{ℕ, ◌+◌, ◌*◌, ◌^◌, List, Text}

-- `sha256::Hash`, the 256-bit number inside.
abbrev pub Hash : Type 0
Hash = ℕ

-- `crypto::PublicKey`, `PrivateKey` and `Signature`, by their encodings read as numbers.
abbrev pub PublicKey : Type 0
PublicKey = ℕ

abbrev pub PrivateKey : Type 0
PrivateKey = ℕ

abbrev pub Signature : Type 0
Signature = ℕ

abbrev pub DateTime : Type 0
DateTime = ℕ

abbrev pub nanos_per_second : ℕ
nanos_per_second = 1_000_000_000

abbrev pub initial_reward : ℕ
initial_reward = 50

abbrev pub halving_interval : ℕ
halving_interval = 210

-- In seconds.
abbrev pub ideal_block_time : ℕ
ideal_block_time = 10

-- The four words of the source, least significant first.
abbrev pub min_target : ℕ
min_target =
    0xFFFF_FFFF_FFFF_FFFF
    + 0xFFFF_FFFF_FFFF_FFFF * 2 ^ 64
    + 0xFFFF_FFFF_FFFF_FFFF * 2 ^ 128
    + 0x0000_FFFF_FFFF_FFFF * 2 ^ 192

abbrev pub difficulty_update_interval : ℕ
difficulty_update_interval = 50

-- In seconds.
abbrev pub max_mempool_transaction_age : ℕ
max_mempool_transaction_age = 600

abbrev pub block_transaction_cap : ℕ
block_transaction_cap = 20

pub record TransactionInput : Type 0 where
  pub prev_transaction_output_hash : Hash
  pub public_key : PublicKey
  pub signature : Signature

pub record TransactionOutput : Type 0 where
  pub value : ℕ
  pub unique_id : ℕ
  pub address : Text

pub record Transaction : Type 0 where
  pub inputs : List TransactionInput
  pub outputs : List TransactionOutput

pub record BlockHeader : Type 0 where
  pub timestamp : DateTime
  pub nonce : ℕ
  pub prev_block_hash : Hash
  pub merkle_root : Hash
  pub target : ℕ

pub record Block : Type 0 where
  pub header : BlockHeader
  pub transactions : List Transaction
