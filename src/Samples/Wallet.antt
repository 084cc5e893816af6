-- ===== src/Samples/Wallet.antt =====
-- A wallet with one or two keys, and the answers of its node, for tests.
use grapheno.Base.{ℕ, Bool, true, false, List, [], ◌∷◌, none, some, Option, ◌==◌, if◌then◌else◌}
use grapheno.Types.{TransactionOutput}
use grapheno.Samples.{sample}
use grapheno.Samples.Ledger.{output_to}
use grapheno.Crypto.{to_address}
use grapheno.Network.{Envelope, Codec, discover_nodes, frame}
use grapheno.Wallet.{LoadedKey}
use grapheno.Wallet.Client.{Core, fixed, Meanwhile}
use grapheno.Wallet.Client.Fetching.{Reply, envelope_of}

-- Two keys, and the answers of a node to the requests for their outputs.
abbrev pub k1 : LoadedKey
k1 = record { public = 5; private = 5 }

abbrev pub k2 : LoadedKey
k2 = record { public = 6; private = 6 }

abbrev pub reply_of : ℕ → List (TransactionOutput × Bool) → Reply
reply_of id outputs = record { id = id; origin = 1 ∷ []; ttl = 8; outputs = outputs }

abbrev pub r0 : Reply
r0 = reply_of 0 ((output_to 5 100 1, false) ∷ [])

abbrev pub r1 : Reply
r1 = reply_of 1 ((output_to 5 100 1, false) ∷ (output_to 5 7 2, false) ∷ [])

abbrev pub r2 : Reply
r2 = reply_of 2 []

abbrev pub news : Envelope
news = record { id = 3; origin = 1 ∷ []; ttl = 8; msg = discover_nodes }

-- A codec of these four messages, by their ids.
unfoldable pub table : ℕ → Option Envelope
table id =
    if id == 0
    then some (envelope_of r0)
    else if id == 1
    then some (envelope_of r1)
    else if id == 2
    then some (envelope_of r2)
    else if id == 3
    then some news
    else none

unfoldable pub table_of : List ℕ → Option Envelope
table_of [] = none
table_of (id ∷ bytes) = table id

unfoldable pub by_id : Codec Envelope
unfolding table table_of
by_id = record { encode = λ e. e.id ∷ []; decode = table_of }

abbrev pub wallet_on : List LoadedKey → List ℕ → Core
wallet_on keys inbound = record {
  config = record {
    my_keys = [];
    contacts = record { name = 9 ∷ []; address = 1 ∷ 2 ∷ [] } ∷ [];
    default_node = [];
    fee_config = record { fee_type = fixed; as_u64 = 10; percent_of = λ amount. 0 };
  };
  utxos = record { my_keys = keys; utxos = []; address_to_key = (to_address sample 5, 5) ∷ [] };
  stream = record { inbound = inbound; open_end = true };
  wallet_id = 4 ∷ [];
  written = [];
}

-- A node that says nothing and stays, and a wallet whose request for its outputs is answered.
abbrev pub quiet : Meanwhile
quiet = record { arrived = []; stays_open = true; reachable = true }

abbrev pub start : Core
start = wallet_on (k1 ∷ []) (frame by_id (envelope_of r0))
