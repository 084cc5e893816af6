-- ===== src/Wallet/Client/Sending.antt =====
-- What a payment writes, and what the wallet concludes from the connection.
use grapheno.Base.{ℕ, ◌≡◌, ◌≢◌, refl, true, [], ◌∷◌, ◌++◌, ◌⊎◌, Text, arith}
use grapheno.Types.{Transaction}
use grapheno.Primitives.{Primitives}
use grapheno.Network.{Envelope, Codec, submit_transaction}
use grapheno.Wallet.{made, refused, crashed, create_transaction}
use grapheno.Wallet.Payments.{IsPayment}
use grapheno.Wallet.Client.{Core, Call, continue, default_ttl, Meanwhile, fetch_all, calculate_fee}

pub continue-eq-made :
    (first : Call) (next : Core → Call) {c' : Core}
    → continue first next ≡ (made tt, c')
    → (c : Core) × (first ≡ (made tt, c)) × (next c ≡ (made tt, c'))
continue-eq-made (made tt, c) next h = (c, refl, h)
continue-eq-made (refused e, c) next h = absurd (ground (arith, h))
continue-eq-made (crashed, c) next h = absurd (ground (arith, h))

-- The envelope of a transaction.
abbrev pub submission : ℕ → Text → Transaction → Envelope
submission id wallet_id t = record {
  id = id;
  origin = wallet_id;
  ttl = default_ttl;
  msg = submit_transaction t;
}

-- What the wallet takes for the node's consent: the transaction went out on an open connection, and
-- behind the sleep a byte waits, or the node's end is still open.
abbrev pub IsTaken : Meanwhile → Core → Type 0
IsTaken w c =
    (c.stream.open_end ≡ true) × ((c.stream.inbound ++ w.arrived ≢ []) ⊎ (w.stays_open ≡ true))

module _ (p : Primitives) (codec : Codec Envelope) where
  -- What a payment that ends well has done.
  abbrev pub IsPaid : (ℕ → ℕ) → ℕ → ℕ × ℕ → Meanwhile → Text → ℕ → Core → Core → Type 0
  IsPaid ids id output_ids w address amount c c' =
      (c1 : Core) × (t : Transaction) × (fetch_all p codec ids c ≡ (made tt, c1))
      × (create_transaction p (calculate_fee c1.config.fee_config amount) output_ids address amount
            c1.utxos
          ≡ made t)
      × IsPayment p c1.utxos address amount (calculate_fee c1.config.fee_config amount) output_ids.0
          t
      × (c'.written ≡ c1.written ++ submission id c1.wallet_id t ∷ [])
      × IsTaken w c1
