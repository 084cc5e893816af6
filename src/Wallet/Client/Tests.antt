-- ===== src/Wallet/Client/Tests.antt =====
-- Runs of the wallet's calls, and their theorems at concrete inputs.
use grapheno.Base.{
  ℕ, ◌≡◌, ◌+◌, refl, true, false, List, [], ◌∷◌, ◌++◌, some, arith, lookup, text_eq, err,
  invalid_transaction, contains,
}
use grapheno.Samples.{sample}
use grapheno.Samples.Wallet.{
  k1, k2, r0, r1, r2, news, table, table_of, by_id, wallet_on, quiet, start,
}
use grapheno.Samples.Ledger.{spend}
use grapheno.Crypto.{to_address}
use grapheno.Blockchain.{new}
use grapheno.Mempool.{add_to_mempool, validate_inputs, appraise, add_appraised}
use grapheno.Network.{frame, fetch_utxos}
use grapheno.Network.Frames.{frames}
use grapheno.Node.{LruCache, Node}
use grapheno.Node.Dispatch.{Draw, dispatch}
use grapheno.Wallet.{made, refused, unexpected_response}
use grapheno.Wallet.Client.{
  Core, default_ttl, success, fetch_keys, fetch_all, send_transaction, send_transaction_async,
}
use grapheno.Wallet.Store.{get_owned, swapped, utxos_in}
use grapheno.Wallet.Client.Fetching.{envelope_of, HasAnswers, requests, fetch_keys-HasAnswers}
use grapheno.Wallet.Client.Shifted.{fetch_all_shifted}
use grapheno.Wallet.Client.Verdict.{queue_of, delivered, send_transaction-dispatch}
use grapheno.Wallet.Client.Sending.{submission}

different : text_eq (to_address sample 5) (to_address sample 6) ≡ false
unfolding text_eq to_address sample
different = refl

fetch_keys-HasAnswers_example :
    (c' : Core) × (fetch_keys sample by_id
        (λ n. n)
        (k1 ∷ k2 ∷ [])
        (wallet_on (k1 ∷ k2 ∷ []) (frames by_id (envelope_of r1 ∷ envelope_of r2 ∷ []) ++ 0 ∷ []))
      ≡ (made tt, c'))
    × HasAnswers sample by_id ((k1, r1) ∷ (k2, r2) ∷ []) c'.utxos.utxos
    × (c'.stream.inbound ≡ 0 ∷ [])
    × (c'.written ≡ requests sample by_id (λ n. n) (4 ∷ []) (k1 ∷ k2 ∷ []))
unfolding by_id table table_of
fetch_keys-HasAnswers_example =
    fetch_keys-HasAnswers sample by_id (λ n. n) ((k1, r1) ∷ (k2, r2) ∷ []) (0 ∷ [])
      (wallet_on (k1 ∷ k2 ∷ []) (frames by_id (envelope_of r1 ∷ envelope_of r2 ∷ []) ++ 0 ∷ []))
      ((refl, omega arith), ((refl, omega arith), tt)) ((different, tt), (tt, tt)) refl refl

abbrev waiting : List ℕ
waiting =
    frame by_id news
    ++ (frames by_id (envelope_of r0 ∷ envelope_of r1 ∷ []) ++ (frame by_id (envelope_of r2) ++ []))

fetch_all_shifted_example :
    (c1 : Core) × (c2 : Core) × (fetch_all sample by_id (λ n. n) (wallet_on (k1 ∷ k2 ∷ []) waiting)
      ≡ (refused unexpected_response, c1))
    × (fetch_all sample by_id (λ n. n + 2) c1 ≡ (made tt, c2))
    × (get_owned (to_address sample 6) c2.utxos.utxos ≡ some (swapped r1.outputs))
    × (c2.written
        ≡ record {
          id = 1;
          origin = 4 ∷ [];
          ttl = default_ttl;
          msg = fetch_utxos (to_address sample 5);
        }
          ∷ requests sample by_id (λ n. n + 2) (4 ∷ []) (k1 ∷ k2 ∷ []))
    × (c2.stream.inbound ≡ frame by_id (envelope_of r2) ++ [])
unfolding by_id table table_of utxos_in
fetch_all_shifted_example =
    fetch_all_shifted sample by_id (λ n. n) (λ n. n + 2) k1 k2 news r0 r1 r2 []
      (wallet_on (k1 ∷ k2 ∷ []) waiting)
      ((refl, omega arith), ((refl, omega arith), ((refl, omega arith), ((refl, omega arith), tt))))
      different refl refl refl refl

-- 70 to a contact, 10 as the fee, and 20 back to the key.
abbrev finish : Core
finish = (send_transaction_async sample by_id (λ n. n) 50 (8, 9) quiet (9 ∷ []) 70 start).1

-- A node that knows no output refuses what spends one.
abbrev roomy : LruCache
roomy = record { Cache = List ℕ; contains = contains; put = λ id s. id ∷ s }

abbrev node : Node roomy
node = record { self_id = 1 ∷ []; peers = (2 ∷ [], []) ∷ []; seen = []; blockchain = new }

abbrev draw : Draw
draw = record { envelope_id = 100; unique_id = 3; now = 9 }

unknown_output : (add_to_mempool sample 9 spend new).0 ≡ err invalid_transaction
unfolding add_to_mempool validate_inputs appraise add_appraised lookup
unknown_output = refl

send_transaction-dispatch_example :
    let queue =
      queue_of
        (2 ∷ [])
        (dispatch sample roomy draw (2 ∷ []) (submission 50 (4 ∷ []) spend) node).1.peers in
    (queue ≡ some [])
    × ((send_transaction 50 (delivered by_id true queue) spend (wallet_on (k1 ∷ []) [])).0
        ≡ made success)
unfolding queue_of text_eq
send_transaction-dispatch_example =
    send_transaction-dispatch sample by_id roomy draw (2 ∷ []) node 50 spend
      (wallet_on (k1 ∷ []) []) true refl refl
