-- ===== src/Network/Tests.antt =====
-- Runs of the frames, and their theorems at concrete inputs.
use grapheno.Base.{
  ℕ, ◌≡◌, ◌<◌, ◌^◌, ◌==◌, if◌then◌else◌, refl, Bool, true, false, some, none, Option, List, [], ◌∷◌,
  length, take, arith,
}
use grapheno.Hashing.{from_big_endian}
use grapheno.Network.{
  Codec, received, failed, unexpected_eof, malformed, to_big_endian, frame, read_exact,
  receive_length, receive_data, receive,
}
use grapheno.Network.Frames.{IsCodec, send_all, receive_all, receive_all-send_all, receive_cut}

-- One byte for a Boolean.
encode_bool : Bool → List ℕ
encode_bool true = 245 ∷ []
encode_bool false = 244 ∷ []

decode_bool : List ℕ → Option Bool
decode_bool (b ∷ []) = if b == 245 then some true else if b == 244 then some false else none
decode_bool [] = none
decode_bool (b ∷ c ∷ bytes) = none

bools : Codec Bool
unfolding encode_bool decode_bool
bools = record { encode = encode_bool; decode = decode_bool }

bools_inverse : (x : Bool) → bools.decode (bools.encode x) ≡ some x
unfolding bools encode_bool decode_bool
bools_inverse true = refl
bools_inverse false = refl

bools_short : (x : Bool) → length (bools.encode x) < 2 ^ 64
unfolding bools encode_bool
bools_short true = omega arith
bools_short false = omega arith

bools-IsCodec : IsCodec bools
bools-IsCodec = record { inverse = bools_inverse; short = bools_short }

frame-true : frame bools true ≡ 0 ∷ 0 ∷ 0 ∷ 0 ∷ 0 ∷ 0 ∷ 0 ∷ 1 ∷ 245 ∷ []
unfolding frame to_big_endian bools encode_bool
frame-true = refl

-- A byte that is no Boolean is malformed, and the next frame is left.
receive_malformed :
    receive bools (0 ∷ 0 ∷ 0 ∷ 0 ∷ 0 ∷ 0 ∷ 0 ∷ 1 ∷ 7 ∷ 9 ∷ []) ≡ (failed malformed, 9 ∷ [])
unfolding receive receive_length receive_data read_exact bools decode_bool from_big_endian
receive_malformed = refl

receive_all-send_all_example :
    receive_all bools 2 (send_all bools (true ∷ false ∷ []) [])
    ≡ (received true ∷ received false ∷ [], [])
receive_all-send_all_example = receive_all-send_all bools bools-IsCodec (true ∷ false ∷ [])

receive_cut_example : receive bools (take 8 (frame bools true)) ≡ (failed unexpected_eof, [])
unfolding bools encode_bool frame to_big_endian
receive_cut_example = receive_cut bools true 8 (omega arith) (omega arith)
