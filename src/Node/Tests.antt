-- ===== src/Node/Tests.antt =====
-- Turns of a node, and their theorems at concrete inputs.
use grapheno.Base.{
  ℕ, ◌≡◌, ◌≤◌, refl, List, [], ◌∷◌, some, ok, contains, arith, negsuc, lookup, insert, sum_from,
  text_eq,
}
use grapheno.Types.{min_target}
use grapheno.Samples.{sample}
use grapheno.Samples.Ledger.{utxos, spend, genesis}
use grapheno.Hashing.{hash_output, hash_header}
use grapheno.Crypto.{to_address, verify, sign_output}
use grapheno.Blockchain.{
  Blockchain, push_block, add_block, try_adjust_target, calculate_block_reward, check_block, new,
}
use grapheno.Block.{calculate_miner_fees, verify_rest, verify_inputs}
use grapheno.Mempool.Soundness.{IsSound}
use grapheno.Network.{Envelope, new_block}
use grapheno.Node.{LruCache, Node, track_if_new, broadcast_except}
use grapheno.Node.Dispatch.{
  Draw, sub_i32, make_template, finished, taken, dispatch, handle_new, took, handle_message,
  pass_on,
}
use grapheno.Node.Channels.{Grows}
use grapheno.Node.Routing.{Remembers, Emits, dispatch-Emits, dispatch_twice}
use grapheno.Node.Templates.{mined, make_template-check_block}

-- A cache with room for every id.
abbrev roomy : LruCache
roomy = record { Cache = List ℕ; contains = contains; put = λ id s. id ∷ s }

roomy-Remembers : Remembers roomy
roomy-Remembers id s = ground arith

abbrev draw : Draw
draw = record { envelope_id = 100; unique_id = 3; now = 9 }

abbrev chain : Blockchain
chain = record {
  utxos = utxos;
  target = min_target;
  blocks = genesis ∷ [];
  mempool = (5, spend) ∷ [];
}

abbrev node : Node roomy
node = record {
  self_id = 1 ∷ [];
  peers = (2 ∷ [], []) ∷ (3 ∷ [], []) ∷ [];
  seen = [];
  blockchain = new;
}

abbrev announced : Envelope
announced = record { id = 50; origin = 2 ∷ []; ttl = 3; msg = new_block genesis }

-- The block goes on to the peer that did not send it.
forwarded :
    (dispatch sample roomy draw (2 ∷ []) announced node).1.peers
    ≡ (2 ∷ [], []) ∷ (3 ∷ [], record announced { ttl = 2 } ∷ []) ∷ []
unfolding dispatch handle_new track_if_new handle_message took pass_on broadcast_except text_eq
    add_block check_block push_block try_adjust_target sample
forwarded = refl

height_difference : sub_i32 3 5 ≡ ok (negsuc 1)
unfolding sub_i32
height_difference = refl

dispatch-Emits_example :
    Grows
      (Emits sample roomy draw (2 ∷ []) node announced)
      node.peers
      (dispatch sample roomy draw (2 ∷ []) announced node).1.peers
dispatch-Emits_example = dispatch-Emits sample roomy draw (2 ∷ []) announced node

dispatch_twice_example :
    dispatch sample roomy draw
      (3 ∷ [])
      (record announced { ttl = 2 })
      (dispatch sample roomy draw (2 ∷ []) announced node).1
    ≡ (ok tt, (dispatch sample roomy draw (2 ∷ []) announced node).1)
dispatch_twice_example =
    dispatch_twice sample roomy roomy-Remembers draw draw (2 ∷ []) (3 ∷ []) announced 2 node

new-IsSound : IsSound sample new
new-IsSound = record { chain = tt; target_range = omega arith }

made :
    make_template sample draw (6 ∷ []) chain ≡ ok (finished sample draw (6 ∷ []) chain 5000000010)
unfolding make_template calculate_miner_fees calculate_block_reward sample hash_output lookup insert
    sum_from
made = refl

taken_pass : verify_rest sample utxos [] (taken chain) ≡ ok tt
unfolding verify_rest verify_inputs sample hash_output lookup insert sum_from text_eq to_address
    verify sign_output
taken_pass = refl

header_meets :
    hash_header sample
      (record (finished sample draw (6 ∷ []) chain 5000000010).header { nonce = 0; timestamp = 10 })
    ≤ min_target
unfolding hash_header sample
header_meets = omega arith

make_template-check_block_example :
    check_block sample
      (some genesis)
      utxos
      1
      (mined (finished sample draw (6 ∷ []) chain 5000000010) 0 10)
    ≡ ok tt
make_template-check_block_example =
    make_template-check_block sample draw (6 ∷ []) chain
      (finished sample draw (6 ∷ []) chain 5000000010) genesis 0 10 made refl (omega arith)
      taken_pass (omega arith) header_meets
