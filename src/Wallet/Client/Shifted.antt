-- ===== src/Wallet/Client/Shifted.antt =====
-- A message that is no answer ends `fetch_utxos`, and shifts the answers of the next call.
use grapheno.Base.{
  ℕ, ◌≡◌, refl, ap, ◌∙◌, true, false, List, [], ◌∷◌, ◌++◌, none, some, length, text_eq, All,
}
use grapheno.Primitives.{Primitives}
use grapheno.Crypto.{to_address}
use grapheno.Network.{Envelope, Codec, frame, fetch_utxos}
use grapheno.Network.Frames.{frames}
use grapheno.Wallet.{LoadedKey, made, refused, unexpected_response}
use grapheno.Wallet.Client.{
  Core, default_ttl, continue, write, take_response, fetch_key, fetch_keys, fetch_all,
}
use grapheno.Wallet.Store.{get_owned, utxos_in, swapped}
use grapheno.Wallet.Client.Fetching.{
  Reply, envelope_of, IsRead, requests, fetch_keys-HasAnswers, fetch_key-frame,
}

module _ (p : Primitives) (codec : Codec Envelope) where
  -- Anything else that waits, such as a block that the node tells its peers of, ends the call. Its
  -- request stands, and is answered later.
  fetch_keys_interrupted :
      (ids : ℕ → ℕ) (key : LoadedKey) (keys : List LoadedKey) (e : Envelope) (rest : List ℕ)
      (c : Core)
      → IsRead codec e
      → utxos_in e.msg ≡ none
      → c.stream.open_end ≡ true
      → c.stream.inbound ≡ frame codec e ++ rest
      → fetch_keys p codec ids (key ∷ keys) c ≡ (
        refused unexpected_response,
        record (write (ids (length keys)) (fetch_utxos (to_address p key.public)) c) {
          stream = record c.stream { inbound = rest };
        },
      )
  unfolding fetch_keys take_response
  fetch_keys_interrupted ids key keys e rest c good other on waiting =
      let id = ids (length keys) in
      let first : fetch_key p codec id key c ≡ (
        refused unexpected_response,
        record (write id (fetch_utxos (to_address p key.public)) c) {
          stream = record c.stream { inbound = rest };
        },
      ) =
        fetch_key-frame p codec id key e rest c good on waiting ∙ (rw other refl) in
      ap (λ call. continue call (fetch_keys p codec ids keys)) first

  -- A wallet with two keys of different addresses calls `fetch_utxos` on an open connection on which
  -- a message waits that is no answer of outputs, and behind it three answers. The call is refused,
  -- and so leaves the first answer to the next call. That call ends well, and stores the second
  -- answer, which is the one to its request about the first key, as the second key's outputs.
  pub fetch_all_shifted :
      (ids next_ids : ℕ → ℕ) (k1 k2 : LoadedKey) (e : Envelope) (r0 r1 r2 : Reply) (rest : List ℕ)
      (c : Core)
      → All (IsRead codec) (e ∷ envelope_of r0 ∷ envelope_of r1 ∷ envelope_of r2 ∷ [])
      → text_eq (to_address p k1.public) (to_address p k2.public) ≡ false
      → utxos_in e.msg ≡ none
      → c.utxos.my_keys ≡ k1 ∷ k2 ∷ []
      → c.stream.open_end ≡ true
      → c.stream.inbound
        ≡ frame codec e
          ++ (frames codec (envelope_of r0 ∷ envelope_of r1 ∷ [])
              ++ (frame codec (envelope_of r2) ++ rest))
      → (c1 : Core) × (c2 : Core) × (fetch_all p codec ids c ≡ (refused unexpected_response, c1))
        × (fetch_all p codec next_ids c1 ≡ (made tt, c2))
        × (get_owned (to_address p k2.public) c2.utxos.utxos ≡ some (swapped r1.outputs))
        × (c2.written
            ≡ (c.written
                ++ record {
                  id = ids 1;
                  origin = c.wallet_id;
                  ttl = default_ttl;
                  msg = fetch_utxos (to_address p k1.public);
                }
                  ∷ [])
              ++ requests p codec next_ids c.wallet_id (k1 ∷ k2 ∷ []))
        × (c2.stream.inbound ≡ frame codec (envelope_of r2) ++ rest)
  fetch_all_shifted ids next_ids k1 k2 e r0 r1 r2 rest c good differ other keys on waiting =
      let left = frame codec (envelope_of r2) ++ rest in
      let c1 : Core = record (write (ids 1) (fetch_utxos (to_address p k1.public)) c) {
        stream = record c.stream {
          inbound = frames codec (envelope_of r0 ∷ envelope_of r1 ∷ []) ++ left;
        };
      } in
      let (c2, runs, answers, inbound, log) =
        fetch_keys-HasAnswers p codec next_ids ((k1, r0) ∷ (k2, r1) ∷ []) left c1
          (good.1.0, (good.1.1.0, tt)) ((differ, tt), (tt, tt)) on refl in
      (
        c1,
        c2,
        ap (λ ks. fetch_keys p codec ids ks c) keys
            ∙ fetch_keys_interrupted ids k1 (k2 ∷ []) e _ c good.0 other on waiting,
        ap (λ ks. fetch_keys p codec next_ids ks c1) keys ∙ runs,
        answers.1.0,
        log,
        inbound,
      )
