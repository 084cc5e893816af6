-- ===== src/Lib.antt =====
-- The verification of grapheno: its ledger library, its node, its miner and its wallet, and what
-- they promise together.
--
-- grapheno is a small blockchain in Rust: the crate lib holds the data, the hashes, the checks of
-- blocks and transactions and the mempool; the crate node keeps a ledger, answers messages, gossips
-- and saves to a database; miner and wallet are clients. Each part is a module here, and a
-- function of the source is a definition of its name, with the same order of tests and of writes:
--
--   Types        lib/src/lib.rs (constants), types/transaction.rs and the structs of types/block.rs
--   Primitives   what comes from other crates: CBOR, digests, the curve, Base58, decimal division
--   Hashing      lib/src/sha256.rs and the `hash` methods
--   Merkle       `MerkleRoot::calculate` of lib/src/util.rs
--   Crypto       addresses and signatures of lib/src/crypto.rs
--   Saveable     `Saveable` of lib/src/util.rs, its instances, and the files of keys
--   Block        `Block` of lib/src/types/block.rs: fees, coinbase, `verify_transactions`
--   Mining       `BlockHeader::mine` of the same file
--   Blockchain   lib/src/types/blockchain.rs: `add_block`, `rebuild_utxos`, the target, the reward;
--                its Supply is about the value that a chain has created
--   Mempool      `add_to_mempool` and `cleanup_mempool` of the same file
--   Miner        miner/src/main.rs: the mining thread and the task that talks to the node
--   Network      lib/src/network.rs: messages, envelopes and their frames
--   Node         node/src/network.rs and the dispatcher of node/src/handler.rs; its System is the
--                rest of the crate: main.rs, context.rs, util.rs, and what restarts do
--   Database     node/src/database.rs: the store, saving and loading
--   Wallet       wallet/src/core.rs: payments and contacts; its Store, Loading and Client are the
--                outputs by address, `load`, and the exchange with the node, with
--                `handle_transactions` of tasks.rs; Texts, Units and Screen are ui.rs; and its
--                Keyed is about the keys that all of these keep
--   Tools        lib/src/bin: the programs that make and print keys, blocks and transactions
--
-- Base has the shared names: lists, maps as association lists, and `Outcome`, which tells how a
-- fallible function ends. `ok` is a value, `err` one of the `BtcError`s, and `panic` a failed
-- `expect` or an overflow: the arithmetic on `u64` has the overflow checks of a debug build. A
-- method returns its outcome beside the new state, which keeps what was written before an error.
-- Samples has instances of the primitives on which all can be run; the modules Tests run it.
--
-- The parts interact as in the source. The node hands blocks and transactions to `add_block` and
-- `add_to_mempool`, which check them with Block, Crypto and Merkle; it rebuilds the unspent outputs
-- behind a submitted block only; templates are made from the mempool and the reward; the database
-- replays what it saved through `add_block`, and a restart continues from there. The miner's
-- template and the block that it submits are those of the node's messages; so are the outputs that
-- the wallet fetches and the transactions that it writes, and what the node's turn leaves in the
-- wallet's channel is what the wallet then reads. The interface of the wallet calls its core, and
-- shows how the call ended.
--
-- Numbers are natural numbers with the bounds of their machine types written out where the source
-- meets them. Loops recurse on their lists; a turn of the mining thread recurses on its 2,000,000
-- steps. `calculate` has as much fuel as there are transactions, which is enough since each round
-- at least halves a layer; `get_all_blocks` has fuel for the indices, and gives nothing where it
-- runs out. Times are counts of nanoseconds, and the clock, fresh ids and hash maps' orders are
-- arguments or those of insertion. Threads and tasks interleave as steps of a relation; a step is
-- what runs between two locks or waits, and in the node and the wallet a whole handler.
--
-- Not modelled: logging; sockets, and how long timers and timeouts are; the CBOR format, the curve
-- and the digests themselves; the failures of the database; the fee's arithmetic in floating point;
-- drawing of keys and ids; what the terminal displays, but for the addresses in the rows of
-- contacts, whose slices may panic; and the command lines.
pub mod Base
pub mod Types
pub mod Primitives
pub mod Hashing
pub mod Merkle
pub mod Samples
pub mod Crypto
pub mod Block
pub mod Blockchain
pub mod Mining
pub mod Miner
pub mod Mempool
pub mod Network
pub mod Node
pub mod Database
pub mod Wallet
pub mod Saveable
pub mod Tools
