-- ===== src/Network.antt =====
-- lib/src/network.rs: the messages, their envelope, and the frames that carry them over a stream.
-- A stream is the bytes that wait in it. The synchronous and the asynchronous functions of the
-- source do the same on it.
pub mod Frames
mod Tests
use grapheno.Base.{
  ℕ, zero, suc, ◌+◌, ◌*◌, ◌/◌, ◌%◌, ◌^◌, Bool, List, [], ◌∷◌, ◌++◌, Option, none, some, Text, ℤ,
  length, take, drop, ltb, if◌then◌else◌,
}
use grapheno.Types.{TransactionOutput, Transaction, Block}
use grapheno.Hashing.{from_big_endian}

pub data Message : Type 0 where
  fetch_utxos : Text → Message
  utxos : List (TransactionOutput × Bool) → Message
  submit_transaction : Transaction → Message
  new_transaction : Transaction → Message
  fetch_template : Text → Message
  template : Block → Message
  validate_template : Block → Message
  template_validity : Bool → Message
  submit_template : Block → Message
  discover_nodes : Message
  node_list : List Text → Message
  ask_difference : ℕ → Message
  difference : ℤ → Message
  fetch_block : ℕ → Message
  fetch_all_blocks : Message
  all_blocks : List Block → Message
  new_block : Block → Message

abbrev pub NodeId : Type 0
NodeId = Text

pub record Envelope : Type 0 where
  pub id : ℕ
  pub origin : NodeId
  pub ttl : ℕ
  pub msg : Message

-- What serde and ciborium do with a type: `into_writer`, and `from_reader` on all the bytes.
pub record Codec {ℓ} (A : Type ℓ) : Type ℓ where
  pub encode : A → List ℕ
  pub decode : List ℕ → Option A

-- `read_exact` on a stream that ends too early, or a failing `from_reader`.
pub data ReadError : Type 0 where
  unexpected_eof : ReadError
  malformed : ReadError

pub data Received {ℓ} (A : Type ℓ) : Type ℓ where
  received : A → Received A
  failed : ReadError → Received A

-- `u64::to_be_bytes`, on `n` bytes
unfoldable pub to_big_endian : ℕ → ℕ → List ℕ
to_big_endian zero x = []
to_big_endian (suc n) x = to_big_endian n (x / 256) ++ (x % 256) ∷ []

-- The first `n` bytes, and those behind them; nothing, where the stream is shorter.
unfoldable pub read_exact : ℕ → List ℕ → Option (List ℕ × List ℕ)
read_exact n stream = if ltb (length stream) n then none else some (take n stream, drop n stream)

abbrev pub decoded {ℓ} : {A : Type ℓ} → Option A → Received A
decoded none = failed malformed
decoded (some x) = received x

module _ {ℓ} {A : Type ℓ} (codec : Codec A) where
  -- What `send` writes: the length as a `u64`, the highest byte first, and the bytes.
  unfoldable pub frame : A → List ℕ
  frame x =
      let bytes = codec.encode x in let len = length bytes % 2 ^ 64 in to_big_endian 8 len ++ bytes

  -- `send`: the stream with the frame at its end
  unfoldable pub send : A → List ℕ → List ℕ
  send x stream = stream ++ frame x

  -- `receive` behind the length
  unfoldable pub receive_data : Option (List ℕ × List ℕ) → Received A × List ℕ
  receive_data none = (failed unexpected_eof, [])
  receive_data (some (data_bytes, rest)) = (decoded (codec.decode data_bytes), rest)

  unfoldable pub receive_length : Option (List ℕ × List ℕ) → Received A × List ℕ
  receive_length none = (failed unexpected_eof, [])
  receive_length (some (len_bytes, rest)) =
      receive_data (read_exact (from_big_endian 0 len_bytes) rest)

  -- `receive`: what was read, and the bytes that are left; a stream that ends early is used up.
  unfoldable pub receive : List ℕ → Received A × List ℕ
  receive stream = receive_length (read_exact 8 stream)

module _ (codec : Codec Envelope) where
  -- `Envelope::send`, `receive`, `send_async` and `receive_async`
  abbrev pub send_envelope : Envelope → List ℕ → List ℕ
  send_envelope = send codec

  abbrev pub receive_envelope : List ℕ → Received Envelope × List ℕ
  receive_envelope = receive codec

  abbrev pub send_envelope_async : Envelope → List ℕ → List ℕ
  send_envelope_async = send codec

  abbrev pub receive_envelope_async : List ℕ → Received Envelope × List ℕ
  receive_envelope_async = receive codec

module _ (codec : Codec Message) where
  -- `Message::send`, `receive`, `send_async` and `receive_async`
  abbrev pub send_message : Message → List ℕ → List ℕ
  send_message = send codec

  abbrev pub receive_message : List ℕ → Received Message × List ℕ
  receive_message = receive codec

  abbrev pub send_message_async : Message → List ℕ → List ℕ
  send_message_async = send codec

  abbrev pub receive_message_async : List ℕ → Received Message × List ℕ
  receive_message_async = receive codec
