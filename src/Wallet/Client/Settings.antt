-- ===== src/Wallet/Client/Settings.antt =====
-- Nothing that the wallet exchanges with its node changes its configuration.
use grapheno.Base.{
  ℕ, ◌≡◌, ◌∙◌, refl, Bool, true, false, List, [], ◌∷◌, ◌++◌, Option, none, some, Text, arith, not,
  if◌then◌else◌,
}
use grapheno.Types.{TransactionOutput, Transaction}
use grapheno.Primitives.{Primitives}
use grapheno.Network.{Envelope, Codec, Received, received, failed, receive_envelope_async}
use grapheno.Crypto.{to_address}
use grapheno.Wallet.{LoadedKey, Made, made, refused, crashed, resolve_recipient_address}
use grapheno.Wallet.Client.{
  Config, Core, Call, Meanwhile, continue, store_utxos, take_response, fetch_key, fetch_keys,
  fetch_all, reconnect, probe, send_transaction, submit, pay, send_transaction_async,
}
use grapheno.Wallet.Store.{utxos_in}

if-config :
    {X : Type 0} (b : Bool) (x y : X × Core) (g : Config)
    → x.1.config ≡ g
    → y.1.config ≡ g
    → (if b then x else y).1.config ≡ g
if-config true x y g h k = h
if-config false x y g h k = k

continue-config :
    (first : Call) (next : Core → Call)
    → ((c : Core) → (next c).1.config ≡ c.config)
    → (continue first next).1.config ≡ first.1.config
continue-config (made tt, c) next h = h c
continue-config (refused e, c) next h = refl
continue-config (crashed, c) next h = refl

store_utxos-config :
    (address : Text) (us : Option (List (TransactionOutput × Bool))) (c : Core)
    → (store_utxos address us c).1.config ≡ c.config
store_utxos-config address none c = refl
store_utxos-config address (some us) c = refl

take_response-config :
    (address : Text) (r : Received Envelope × List ℕ) (c : Core)
    → (take_response address r c).1.config ≡ c.config
unfolding take_response
take_response-config address (received env, rest) c =
    store_utxos-config address (utxos_in env.msg)
      (record c { stream = record c.stream { inbound = rest } })
take_response-config address (failed e, rest) c = refl

reconnect-config : (reachable : Bool) (c : Core) → (reconnect reachable c).config ≡ c.config
unfolding reconnect
reconnect-config reachable c = ground arith

probe-config :
    (reachable : Bool) (bytes : List ℕ) (c : Core) → (probe reachable bytes c).1.config ≡ c.config
unfolding probe reconnect
probe-config reachable [] c = ground arith
probe-config reachable (byte ∷ rest) c = refl

send_transaction-config :
    (id : ℕ) (w : Meanwhile) (t : Transaction) (c : Core)
    → (send_transaction id w t c).1.config ≡ c.config
unfolding send_transaction
send_transaction-config id w t c =
    if-config (not c.stream.open_end) _ _ c.config (reconnect-config w.reachable c)
      (probe-config w.reachable (c.stream.inbound ++ w.arrived) _)

module _ (p : Primitives) (codec : Codec Envelope) where
  fetch_key-config :
      (id : ℕ) (key : LoadedKey) (c : Core) → (fetch_key p codec id key c).1.config ≡ c.config
  unfolding fetch_key
  fetch_key-config id key c = if-config (not c.stream.open_end) _ _ c.config refl (
      take_response-config (to_address p key.public) (receive_envelope_async codec c.stream.inbound)
        _)

  pub fetch_keys-config :
      (ids : ℕ → ℕ) (keys : List LoadedKey) (c : Core)
      → (fetch_keys p codec ids keys c).1.config ≡ c.config
  unfolding fetch_keys
  fetch_keys-config ids [] c = refl
  fetch_keys-config ids (key ∷ keys) c =
      continue-config (fetch_key p codec _ key c) (fetch_keys p codec ids keys)
        (fetch_keys-config ids keys)
      ∙ fetch_key-config _ key c

  submit-config :
      (id : ℕ) (w : Meanwhile) (m : Made Transaction) (c : Core)
      → (submit p codec id w m c).1.config ≡ c.config
  unfolding submit
  submit-config id w (made t) c = send_transaction-config id w t c
  submit-config id w (refused e) c = refl
  submit-config id w crashed c = refl

  pay-config :
      (ids : ℕ → ℕ) (id : ℕ) (output_ids : ℕ × ℕ) (w : Meanwhile) (amount : ℕ) (m : Made Text)
      (c : Core)
      → (pay p codec ids id output_ids w amount m c).1.config ≡ c.config
  unfolding pay
  pay-config ids id output_ids w amount (made address) c =
      continue-config (fetch_all p codec ids c) _ (λ c'. submit-config id w _ c')
      ∙ fetch_keys-config ids c.utxos.my_keys c
  pay-config ids id output_ids w amount (refused e) c = refl
  pay-config ids id output_ids w amount crashed c = refl

  pub send_transaction_async-config :
      (ids : ℕ → ℕ) (id : ℕ) (output_ids : ℕ × ℕ) (w : Meanwhile) (recipient : Text) (amount : ℕ)
      (c : Core)
      → (send_transaction_async p codec ids id output_ids w recipient amount c).1.config ≡ c.config
  unfolding send_transaction_async
  send_transaction_async-config ids id output_ids w recipient amount c =
      pay-config ids id output_ids w amount
        (resolve_recipient_address p recipient c.config.contacts) c
