-- ===== src/Wallet/Keyed/Tests.antt =====
-- A wallet that is loaded, and its theorem at a concrete input.
use grapheno.Base.{ℕ, ◌≡◌, ◌≢◌, ◌*◌, ◌/◌, refl, subst, true, [], ◌∷◌, none, some, text_eq}
use grapheno.Samples.Sized.{sized}
use grapheno.Samples.Wallet.{r0, table, table_of, by_id, wallet_on}
use grapheno.Crypto.{to_address}
use grapheno.Hashing.{from_big_endian}
use grapheno.Network.{
  fetch_utxos, frame, receive as receive_frame, receive_length, receive_data, read_exact,
  to_big_endian,
}
use grapheno.Wallet.{made, refused, no_public_key, no_private_key, create_transaction, add_key}
use grapheno.Wallet.Store.{empty_store, swapped, insert_owned, utxos_in}
use grapheno.Wallet.Client.{Core, default_ttl, fetch_all, fetch_keys, fetch_key, take_response}
use grapheno.Wallet.Client.Fetching.{envelope_of}
use grapheno.Wallet.Loading.{Files, load, load_keys}
use grapheno.Wallet.Units.{Decimals}
use grapheno.Wallet.Screen.{setup}
use grapheno.Wallet.Screen.Layers.{receiving, Reach, start, next, refresh, receive}
use grapheno.Wallet.Keyed.{IsKeyed}
use grapheno.Wallet.Keyed.Spending.{create_transaction-load}

-- The two files of one key.
abbrev files : Files
files =
    let c : Core = wallet_on [] [] in
    record {
      config = some (record c.config { my_keys = (1 ∷ [], 2 ∷ []) ∷ [] });
      public = λ path. some 5;
      private = λ path. some 5;
    }

abbrev opened : Core
opened =
    let c : Core = wallet_on [] [] in
    record c {
      config = record c.config { my_keys = (1 ∷ [], 2 ∷ []) ∷ [] };
      utxos = add_key sized (record { public = 5; private = 5 }) empty_store;
    }

loads : load sized files true (4 ∷ []) ≡ made opened
unfolding load load_keys
loads = refl

abbrev decimals : Decimals
decimals = record {
  Decimal = ℕ;
  from_str = λ text. none;
  from_nat = λ n. n;
  mul = λ m n. m * n;
  div = λ m n. m / n;
  to_u64 = λ n. some n;
}

-- The wallet behind the answer to its request.
abbrev holding : Core
holding = record opened {
  utxos = record opened.utxos { utxos = (to_address sized 5, swapped r0.outputs) ∷ [] };
  written =
      record { id = 0; origin = 4 ∷ []; ttl = default_ttl; msg = fetch_utxos (to_address sized 5) }
      ∷ [];
}

abbrev answered : Core
answered = record opened { stream = receiving (frame by_id (envelope_of r0)) true opened.stream }

fetches : (fetch_all sized by_id (λ n. n) answered).1 ≡ holding
unfolding fetch_keys fetch_key take_response insert_owned utxos_in by_id table table_of frame
    receive_frame receive_length receive_data read_exact to_big_endian from_big_endian add_key
    text_eq
fetches = refl

reached : Reach sized by_id decimals opened (setup holding)
reached =
    subst (λ c. Reach sized by_id decimals opened (setup c)) fetches
      (next (next start refl (receive (frame by_id (envelope_of r0)) true)) refl (refresh (λ n. n)))

create_transaction-load_example :
    IsKeyed sized holding.utxos
    × (create_transaction sized 10 (8, 9) (6 ∷ []) 70 holding.utxos ≢ refused no_public_key)
    × (create_transaction sized 10 (8, 9) (6 ∷ []) 70 holding.utxos ≢ refused no_private_key)
create_transaction-load_example =
    create_transaction-load sized by_id decimals files (4 ∷ []) opened (setup holding) 10 70 (8, 9)
      (6 ∷ []) loads reached
