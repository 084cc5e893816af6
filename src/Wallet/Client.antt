-- ===== src/Wallet/Client.antt =====
-- The wallet and its node, wallet/src/core.rs: fetching the outputs and sending a transaction; and
-- the task of wallet/src/tasks.rs that sends them. A connection is the bytes that wait in it and
-- whether the other end is open; all envelopes written are kept. The calls run one behind the
-- other, and no wait reaches its timeout but the one that `send_transaction` makes.
pub mod Fetching
pub mod Shifted
pub mod Sending
pub mod Settings
pub mod Verdict
mod Tests
use grapheno.Base.{
  ℕ, zero, suc, Bool, true, false, not, List, [], ◌∷◌, ◌++◌, map, Option, none, some, length, ltb,
  ◌==◌, text_eq, if◌then◌else◌, Text,
}
use grapheno.Types.{PublicKey, PrivateKey, TransactionOutput, Transaction}
use grapheno.Primitives.{Primitives}
use grapheno.Crypto.{to_address}
use grapheno.Network.{
  Message, Envelope, Codec, Received, received, failed, receive_envelope_async, fetch_utxos, utxos,
  submit_transaction, new_transaction, fetch_template, template, validate_template,
  template_validity, submit_template, discover_nodes, node_list, ask_difference, difference,
  fetch_block, fetch_all_blocks, all_blocks, new_block,
}
use grapheno.Wallet.Store.{insert_owned, swapped, utxos_in}
use grapheno.Wallet.{
  LoadedKey, Recipient, Owned, UtxoStore, WalletError, Made, made, refused, crashed, and_then,
  found_or, add_key, create_transaction, resolve_recipient_address, config_failed, send_failed,
  receive_failed, unexpected_response, transaction_failed,
}

abbrev pub default_ttl : ℕ
default_ttl = 8

-- `FeeType`, and the fee that the product of `f64`s comes to.
pub data FeeType : Type 0 where
  fixed : FeeType
  percent : FeeType

-- `FeeConfig`: `as_u64` and `percent_of` are what its `value` does in floating point.
pub record FeeConfig : Type 0 where
  pub fee_type : FeeType
  pub as_u64 : ℕ
  pub percent_of : ℕ → ℕ

-- `Config`, without the paths of the keys that are loaded.
pub record Config : Type 0 where
  pub my_keys : List (Text × Text)
  pub contacts : List Recipient
  pub default_node : Text
  pub fee_config : FeeConfig

pub data TransactionResult : Type 0 where
  success : TransactionResult
  rejected : TransactionResult
  error : TransactionResult

pub record Connection : Type 0 where
  pub inbound : List ℕ
  pub open_end : Bool

-- `Core`
pub record Core : Type 0 where
  pub config : Config
  pub utxos : UtxoStore
  pub stream : Connection
  pub wallet_id : Text
  pub written : List Envelope

abbrev pub Call : Type 0
Call = Made (Unit {0}) × Core

-- What follows a call that ended well.
abbrev pub continue : Call → (Core → Call) → Call
continue (made _, c) f = f c
continue (refused e, c) f = (refused e, c)
continue (crashed, c) f = (crashed, c)

-- `calculate_fee`
unfoldable pub calculate_fee : FeeConfig → ℕ → ℕ
calculate_fee fee_config amount = elim fee_config.fee_type [
  | fixed ↦ fee_config.as_u64
  | percent ↦ fee_config.percent_of amount
]

-- `send_async` on an open connection, with a fresh id.
abbrev pub write : ℕ → Message → Core → Core
write id msg c = record c {
  written =
      c.written ++ record { id = id; origin = c.wallet_id; ttl = default_ttl; msg = msg } ∷ [];
}

-- The answer to a request for the outputs of an address.
abbrev pub store_utxos : Text → Option (List (TransactionOutput × Bool)) → Core → Call
store_utxos address none c = (refused unexpected_response, c)
store_utxos address (some us) c = (
  made tt,
  record c { utxos = record c.utxos { utxos = insert_owned address (swapped us) c.utxos.utxos } },
)

unfoldable pub take_response : Text → Received Envelope × List ℕ → Core → Call
unfolding utxos_in
take_response address (received env, rest) c =
    store_utxos address (utxos_in env.msg)
      (record c { stream = record c.stream { inbound = rest } })
take_response address (failed e, rest) c =
    (refused receive_failed, record c { stream = record c.stream { inbound = rest } })

module _ (p : Primitives) (codec : Codec Envelope) where
  -- One turn of the loop of `fetch_utxos`.
  unfoldable pub fetch_key : ℕ → LoadedKey → Core → Call
  unfolding take_response
  fetch_key id key c =
      let address = to_address p key.public in
      if not c.stream.open_end
      then (refused send_failed, c)
      else take_response address (receive_envelope_async codec c.stream.inbound)
          (write id (fetch_utxos address) c)

  -- The loop; `ids n` is the id of the request with `n` behind it.
  unfoldable pub fetch_keys : (ℕ → ℕ) → List LoadedKey → Core → Call
  unfolding fetch_key
  fetch_keys ids [] c = (made tt, c)
  fetch_keys ids (key ∷ keys) c =
      continue (fetch_key (ids (length keys)) key c) (fetch_keys ids keys)

  -- `fetch_utxos`
  abbrev pub fetch_all : (ℕ → ℕ) → Core → Call
  fetch_all ids c = fetch_keys ids c.utxos.my_keys c

-- `reconnect`: a new connection, where the node can be reached.
unfoldable pub reconnect : Bool → Core → Core
reconnect reachable c =
    if reachable then record c { stream = record { inbound = []; open_end = true } } else c

-- What reading one byte, or waiting for one, tells `send_transaction` of the connection.
unfoldable pub probe : Bool → List ℕ → Core → Made TransactionResult × Core
unfolding reconnect
probe reachable [] c =
    if c.stream.open_end then (made success, c) else (made rejected, reconnect reachable c)
probe reachable (byte ∷ rest) c =
    (made success, record c { stream = record c.stream { inbound = rest } })

-- What the node does while `send_transaction` sleeps: the bytes that come in, and whether its end
-- of the connection is still open.
pub record Meanwhile : Type 0 where
  pub arrived : List ℕ
  pub stays_open : Bool
  pub reachable : Bool

-- `send_transaction`
unfoldable pub send_transaction : ℕ → Meanwhile → Transaction → Core → Made TransactionResult × Core
unfolding probe reconnect
send_transaction id w transaction c =
    if not c.stream.open_end
    then (refused send_failed, reconnect w.reachable c)
    else let waiting = c.stream.inbound ++ w.arrived in
      probe w.reachable waiting (record (write id (submit_transaction transaction) c) {
        stream = record { inbound = waiting; open_end = w.stays_open };
      })

-- `handle_transactions`: what is sent back for one transaction.
unfoldable pub handle_transaction : Made TransactionResult → TransactionResult
handle_transaction (made result) = result
handle_transaction (refused e) = error
handle_transaction crashed = error

-- What `send_transaction_async` makes of it.
unfoldable pub report : TransactionResult → Made (Unit {0})
report success = made tt
report rejected = refused transaction_failed
report error = refused transaction_failed

module _ (p : Primitives) (codec : Codec Envelope) where
  -- The sending of the transaction, where there is one.
  unfoldable pub submit : ℕ → Meanwhile → Made Transaction → Core → Call
  unfolding send_transaction handle_transaction report
  submit id w (made transaction) c =
      let (result, c') = send_transaction id w transaction c in
      (report (handle_transaction result), c')
  submit id w (refused e) c = (refused e, c)
  submit id w crashed c = (crashed, c)

  -- The task that `send_transaction_async` spawns, with the address resolved.
  unfoldable pub pay : (ℕ → ℕ) → ℕ → ℕ × ℕ → Meanwhile → ℕ → Made Text → Core → Call
  unfolding submit
  pay ids id output_ids w amount (refused e) c = (refused e, c)
  pay ids id output_ids w amount crashed c = (crashed, c)
  pay ids id output_ids w amount (made recipient_address) c =
      continue (fetch_all p codec ids c) λ c'.
        submit id w
          (create_transaction p (calculate_fee c'.config.fee_config amount) output_ids
            recipient_address amount c'.utxos)
          c'

  -- `send_transaction_async`
  unfoldable pub send_transaction_async : (ℕ → ℕ) → ℕ → ℕ × ℕ → Meanwhile → Text → ℕ → Core → Call
  unfolding pay
  send_transaction_async ids id output_ids w recipient amount c =
      pay ids id output_ids w amount (resolve_recipient_address p recipient c.config.contacts) c
