-- ===== src/Wallet/Keyed/Fetched.antt =====
-- Fetching outputs, and paying, keep a wallet's keys with its outputs.
use grapheno.Base.{
  ℕ, Bool, true, false, not, List, [], ◌∷◌, ◌++◌, Option, none, some, if◌then◌else◌, text_eq, All,
  All-map, Text, inl, inr, Bool-cases,
}
use grapheno.Types.{TransactionOutput, Transaction}
use grapheno.Primitives.{Primitives}
use grapheno.Crypto.{to_address}
use grapheno.Network.{Envelope, Codec, Received, received, failed, receive_envelope_async}
use grapheno.Wallet.{LoadedKey, Owned, Made, made, refused, crashed, resolve_recipient_address}
use grapheno.Wallet.Store.{text_ltb, insert_owned, utxos_in}
use grapheno.Wallet.Client.{
  Core, Call, Meanwhile, continue, store_utxos, take_response, fetch_key, fetch_keys, fetch_all,
  reconnect, probe, send_transaction, submit, pay, send_transaction_async,
}
use grapheno.Wallet.Keyed.{HasKeys, IsKeyed}

All-insert_owned :
    (P : Owned → Type 0) (address : Text) (us : List (Bool × TransactionOutput)) (m : List Owned)
    → P (address, us)
    → All P m
    → All P (insert_owned address us m)
unfolding insert_owned
All-insert_owned P address us [] h k = (h, tt)
All-insert_owned P address us ((key, vs) ∷ rest) h k = elim (Bool-cases (text_eq address key)) [
  | inl same ↦ rw same (h, k.1)
  | inr other ↦ elim (Bool-cases (text_ltb address key)) [
    | inl before ↦ rw (other, before) (h, k)
    | inr behind ↦ rw (other, behind) (k.0, All-insert_owned P address us rest h k.1)
  ]
]

module _ (p : Primitives) where
  -- The keys that were found are found again, and all outputs have theirs.
  abbrev pub KeepsKeys : Core → Core → Type 0
  KeepsKeys c c' =
      IsKeyed p c'.utxos
      × ((address : Text) → HasKeys p c.utxos address → HasKeys p c'.utxos address)

  KeepsKeys-store_utxos :
      (address : Text) (us : Option (List (TransactionOutput × Bool))) (c : Core)
      → HasKeys p c.utxos address
      → IsKeyed p c.utxos
      → KeepsKeys c (store_utxos address us c).1
  KeepsKeys-store_utxos address none c own h = (h, λ a k. k)
  KeepsKeys-store_utxos address (some us) c own h = (
    record {
      owners = All-insert_owned (λ e. HasKeys p c.utxos e.0) address _ c.utxos.utxos own h.owners;
      keys = h.keys;
    },
    λ a k. k,
  )

  KeepsKeys-take_response :
      (address : Text) (r : Received Envelope × List ℕ) (c : Core)
      → HasKeys p c.utxos address
      → IsKeyed p c.utxos
      → KeepsKeys c (take_response address r c).1
  unfolding take_response
  KeepsKeys-take_response address (received env, rest) c own h =
      KeepsKeys-store_utxos address (utxos_in env.msg)
        (record c { stream = record c.stream { inbound = rest } }) own h
  KeepsKeys-take_response address (failed e, rest) c own h = (h, λ a k. k)

  KeepsKeys-if :
      {X : Type 0} (b : Bool) (x y : X × Core) (c : Core)
      → KeepsKeys c x.1
      → KeepsKeys c y.1
      → KeepsKeys c (if b then x else y).1
  KeepsKeys-if true x y c h k = h
  KeepsKeys-if false x y c h k = k

  KeepsKeys-continue :
      (first : Call) (next : Core → Call) (c : Core)
      → KeepsKeys c first.1
      → ((c' : Core) → KeepsKeys c c' → KeepsKeys c (next c').1)
      → KeepsKeys c (continue first next).1
  KeepsKeys-continue (made tt, c') next c h f = f c' h
  KeepsKeys-continue (refused e, c') next c h f = h
  KeepsKeys-continue (crashed, c') next c h f = h

  module _ (codec : Codec Envelope) where
    KeepsKeys-fetch_key :
        (id : ℕ) (key : LoadedKey) (c : Core)
        → HasKeys p c.utxos (to_address p key.public)
        → IsKeyed p c.utxos
        → KeepsKeys c (fetch_key p codec id key c).1
    unfolding fetch_key
    KeepsKeys-fetch_key id key c own h =
        KeepsKeys-if (not c.stream.open_end) _ _ c (h, λ a k. k)
          (KeepsKeys-take_response (to_address p key.public)
            (receive_envelope_async codec c.stream.inbound) _ own h)

    KeepsKeys-fetch_keys :
        (ids : ℕ → ℕ) (keys : List LoadedKey) (c : Core)
        → All (λ (k : LoadedKey). HasKeys p c.utxos (to_address p k.public)) keys
        → IsKeyed p c.utxos
        → KeepsKeys c (fetch_keys p codec ids keys c).1
    unfolding fetch_keys
    KeepsKeys-fetch_keys ids [] c own h = (h, λ a k. k)
    KeepsKeys-fetch_keys ids (key ∷ keys) c own h =
        KeepsKeys-continue (fetch_key p codec _ key c) (fetch_keys p codec ids keys) c
          (KeepsKeys-fetch_key _ key c own.0 h)
          (λ c' (kept, found).
            let (kept', found') =
              KeepsKeys-fetch_keys ids keys c'
                (All-map (λ k. HasKeys p c.utxos (to_address p k.public))
                  (λ k. HasKeys p c'.utxos (to_address p k.public))
                  (λ k. found (to_address p k.public)) keys own.1)
                kept in
            (kept', λ a k. found' a (found a k)))

    pub KeepsKeys-fetch_all :
        (ids : ℕ → ℕ) (c : Core) → IsKeyed p c.utxos → KeepsKeys c (fetch_all p codec ids c).1
    KeepsKeys-fetch_all ids c h = KeepsKeys-fetch_keys ids c.utxos.my_keys c h.keys h

    KeepsKeys-reconnect :
        (reachable : Bool) (c b : Core) → KeepsKeys b c → KeepsKeys b (reconnect reachable c)
    unfolding reconnect
    KeepsKeys-reconnect true c b h = h
    KeepsKeys-reconnect false c b h = h

    KeepsKeys-probe :
        (reachable : Bool) (bytes : List ℕ) (c b : Core)
        → KeepsKeys b c
        → KeepsKeys b (probe reachable bytes c).1
    unfolding probe
    KeepsKeys-probe reachable [] c b h =
        KeepsKeys-if c.stream.open_end _ _ b h (KeepsKeys-reconnect reachable c b h)
    KeepsKeys-probe reachable (byte ∷ rest) c b h = h

    KeepsKeys-submit :
        (id : ℕ) (w : Meanwhile) (m : Made Transaction) (c b : Core)
        → KeepsKeys b c
        → KeepsKeys b (submit p codec id w m c).1
    unfolding submit send_transaction
    KeepsKeys-submit id w (made t) c b h =
        KeepsKeys-if (not c.stream.open_end) _ _ b (KeepsKeys-reconnect w.reachable c b h)
          (KeepsKeys-probe w.reachable (c.stream.inbound ++ w.arrived) _ b h)
    KeepsKeys-submit id w (refused e) c b h = h
    KeepsKeys-submit id w crashed c b h = h

    KeepsKeys-pay :
        (ids : ℕ → ℕ) (id : ℕ) (output_ids : ℕ × ℕ) (w : Meanwhile) (amount : ℕ) (m : Made Text)
        (c : Core)
        → IsKeyed p c.utxos
        → KeepsKeys c (pay p codec ids id output_ids w amount m c).1
    unfolding pay
    KeepsKeys-pay ids id output_ids w amount (made address) c h =
        KeepsKeys-continue (fetch_all p codec ids c) _ c (KeepsKeys-fetch_all ids c h)
          (λ c' kept. KeepsKeys-submit id w _ c' c kept)
    KeepsKeys-pay ids id output_ids w amount (refused e) c h = (h, λ a k. k)
    KeepsKeys-pay ids id output_ids w amount crashed c h = (h, λ a k. k)

    pub KeepsKeys-send_transaction_async :
        (ids : ℕ → ℕ) (id : ℕ) (output_ids : ℕ × ℕ) (w : Meanwhile) (recipient : Text) (amount : ℕ)
        (c : Core)
        → IsKeyed p c.utxos
        → KeepsKeys c (send_transaction_async p codec ids id output_ids w recipient amount c).1
    unfolding send_transaction_async
    KeepsKeys-send_transaction_async ids id output_ids w recipient amount c h =
        KeepsKeys-pay ids id output_ids w amount
          (resolve_recipient_address p recipient c.config.contacts) c h
