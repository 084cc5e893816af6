-- ===== src/Node/System/Tests.antt =====
-- The life of a node, and its theorems at concrete inputs.
use grapheno.Base.{
  ℕ, ◌≡◌, refl, true, false, List, [], ◌∷◌, Option, none, some, arith, ◌==◌, if◌then◌else◌,
  contains, insert, lookup, sum_from, Text,
}
use grapheno.Types.{Block, min_target}
use grapheno.Samples.{sample}
use grapheno.Samples.Ledger.{spend, coinbase, genesis, header_at, output_to, input_of}
use grapheno.Hashing.{hash_output, hash_header, hash_block, hash_transaction, hash_pair}
use grapheno.Crypto.{to_address, sign_output}
use grapheno.Merkle.{calculate}
use grapheno.Block.{verify_transactions}
use grapheno.Blockchain.{new, add_block, check_block, push_block, try_adjust_target}
use grapheno.Network.{Codec, Envelope, new_block}
use grapheno.Node.{LruCache, PeerId}
use grapheno.Node.Dispatch.{Draw}
use grapheno.Database.{Codecs, Store, get_block, get_blocks_from, get_all_blocks}
use grapheno.Database.Entries.{get_mempool_keys, get_mempool_txs, get_all_mempool_txs}
use grapheno.Database.Snapshots.{load_blocks, load_entries, load_blockchain}
use grapheno.Node.System.{
  System, new_context, dispatch_next, save, starts, then_turn, reads, dispatches, saves,
}
use grapheno.Node.System.Restarts.{IsWell, Lives-IsWell, new_context-Spends}

abbrev only {ℓ} : {A : Type ℓ} → A → Codec A
only x = record { encode = λ y. []; decode = λ bytes. some x }

abbrev second : Block
second = record {
  header = header_at 10 1 (calculate sample (coinbase ∷ spend ∷ []));
  transactions = coinbase ∷ spend ∷ [];
}

-- Two blocks are known, by their times.
abbrev known_block : List ℕ → Option Block
known_block [] = none
known_block (t ∷ rest) = if t == 0 then some genesis else some second

abbrev cbor : Codecs
cbor = record {
  block = record { encode = λ b. b.header.timestamp ∷ []; decode = known_block };
  utxo = only (false, output_to 5 100 1);
  mempool_tx = only (5, spend);
  target = only min_target;
  utxo_keys = only [];
  mempool_keys = only [];
  timestamp_nanos = λ t. some t;
}

abbrev roomy : LruCache
roomy = record { Cache = List ℕ; contains = contains; put = λ id s. id ∷ s }

-- Both blocks are stored, and nothing else.
abbrev two_blocks : Store
two_blocks k =
    if k.prefix == 0
    then if k.number == 0 then some (0 ∷ []) else if k.number == 1 then some (10 ∷ []) else none
    else none

abbrev connect : Text → Option PeerId
connect address = some address

abbrev fresh : System roomy
fresh = record {
  node = record { self_id = 1 ∷ []; peers = (2 ∷ [], []) ∷ []; seen = []; blockchain = new };
  inbound = [];
  db = two_blocks;
  dispatching = true;
  sent = [];
}

stored : get_all_blocks cbor 3 two_blocks ≡ some (genesis ∷ second ∷ [])
unfolding get_all_blocks get_blocks_from get_block
stored = refl

started_lem :
    new_context sample roomy cbor (λ n. n) 3 (1 ∷ []) [] connect ((2 ∷ []) ∷ []) two_blocks
    ≡ some fresh
unfolding new_context load_blockchain get_all_blocks get_blocks_from get_block get_all_mempool_txs
    get_mempool_keys load_blocks load_entries add_block check_block push_block try_adjust_target
    hash_block hash_header sample get_mempool_txs calculate hash_pair hash_transaction hash_output
    to_address sign_output verify_transactions lookup insert sum_from
started_lem = refl

new_context-Spends_example : fresh.node.blockchain ≡ new
new_context-Spends_example =
    new_context-Spends sample roomy cbor (λ n. n) 3 (1 ∷ []) [] connect ((2 ∷ []) ∷ []) two_blocks
      genesis [] [] second fresh stored ([], spend, [], refl, input_of 7 5, [], refl) started_lem

-- A block comes in, the node takes it, and saves.
abbrev draw : Draw
draw = record { envelope_id = 100; unique_id = 3; now = 9 }

abbrev announced : Envelope
announced = record { id = 50; origin = 2 ∷ []; ttl = 3; msg = new_block genesis }

abbrev got : System roomy
got = record fresh { inbound = (2 ∷ [], announced) ∷ [] }

abbrev saved : System roomy
saved = save sample roomy cbor (dispatch_next sample roomy cbor draw got.inbound got)

Lives-IsWell_example : IsWell sample roomy cbor saved
Lives-IsWell_example = Lives-IsWell sample roomy cbor (
    then_turn
      (then_turn
        (then_turn (starts (λ n. n) 3 (1 ∷ []) [] connect ((2 ∷ []) ∷ []) two_blocks started_lem)
          (reads (2 ∷ []) announced fresh (omega arith)))
        (dispatches draw got))
      (saves _))
