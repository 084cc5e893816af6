-- ===== src/Samples/Ledger.antt =====
-- A small ledger for tests: one output to spend, a transaction that spends it, and two blocks.
use grapheno.Base.{ℕ, [], ◌∷◌, false}
use grapheno.Types.{
  Hash, PublicKey, TransactionInput, TransactionOutput, Transaction, BlockHeader, Block, min_target,
}
use grapheno.Samples.{sample}
use grapheno.Crypto.{to_address, sign_output}
use grapheno.Block.{Utxos}

abbrev pub output_to : PublicKey → ℕ → ℕ → TransactionOutput
output_to key value unique_id = record {
  value = value;
  unique_id = unique_id;
  address = to_address sample key;
}

abbrev pub input_of : Hash → PublicKey → TransactionInput
input_of h key = record {
  prev_transaction_output_hash = h;
  public_key = key;
  signature = sign_output sample h key;
}

-- Key 5 owns 100 under hash 7.
abbrev pub utxos : Utxos
utxos = (7, (false, output_to 5 100 1)) ∷ []

-- Key 5 sends 90 to key 6.
abbrev pub spend : Transaction
spend = record { inputs = input_of 7 5 ∷ []; outputs = output_to 6 90 2 ∷ [] }

-- Key 5 sends more than it has.
abbrev pub overspend : Transaction
overspend = record { inputs = input_of 7 5 ∷ []; outputs = output_to 6 101 2 ∷ [] }

abbrev pub coinbase : Transaction
coinbase = record { inputs = []; outputs = output_to 6 5000000010 3 ∷ [] }

abbrev pub header_at : ℕ → Hash → Hash → BlockHeader
header_at timestamp prev_block_hash merkle_root = record {
  timestamp = timestamp;
  nonce = 0;
  prev_block_hash = prev_block_hash;
  merkle_root = merkle_root;
  target = min_target;
}

abbrev pub genesis : Block
genesis = record { header = header_at 0 0 0; transactions = [] }
