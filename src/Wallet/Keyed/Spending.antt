-- ===== src/Wallet/Keyed/Spending.antt =====
-- A wallet with the keys of its outputs never lacks one to sign with.
use grapheno.Base.{
  ℕ, ◌≡◌, ◌≢◌, ap, Bool, true, false, not, List, [], ◌∷◌, Option, none, some, inl, inr,
  if◌then◌else◌, ◌==◌, ltb, leb, Outcome, ok, err, panic, All, Text, add_u64,
}
use grapheno.Types.{PublicKey, PrivateKey, TransactionInput, TransactionOutput}
use grapheno.Primitives.{Primitives}
use grapheno.Network.{Envelope, Codec}
use grapheno.Wallet.{
  UtxoStore, Owned, WalletError, no_public_key, no_private_key, Made, made, refused, crashed,
  and_then, summed, log_totals, pick, pick_all, with_change, has_utxos, create_transaction,
}
use grapheno.Wallet.Inversion.{List-cases}
use grapheno.Wallet.Client.{Core}
use grapheno.Wallet.Loading.{Files, load}
use grapheno.Wallet.Units.{Decimals}
use grapheno.Wallet.Screen.{Screen, with_contacts}
use grapheno.Wallet.Screen.Layers.{Reach, start, next}
use grapheno.Wallet.Screen.Effects.{Effect, refreshed, received, edited, paid, Reach-Effect}
use grapheno.Wallet.Keyed.{HasKeys, IsKeyed, load-IsKeyed}
use grapheno.Wallet.Keyed.Fetched.{KeepsKeys-fetch_all, KeepsKeys-send_transaction_async}

abbrev failure {ℓ} : {A : Type ℓ} → Made A → Option WalletError
failure (made x) = none
failure (refused e) = some e
failure crashed = none

-- The call does not end with a refusal for want of a key.
abbrev FindsKeys {ℓ} : {A : Type ℓ} → Made A → Type 0
FindsKeys m = (failure m ≢ some no_public_key) × (failure m ≢ some no_private_key)

FindsKeys-and_then {ℓ κ} :
    {A : Type ℓ} {B : Type κ} (m : Made A) (f : A → Made B)
    → FindsKeys m
    → ((x : A) → FindsKeys (f x))
    → FindsKeys (and_then m f)
FindsKeys-and_then (made x) f h k = k x
FindsKeys-and_then (refused e) f h k = h
FindsKeys-and_then crashed f h k = h

FindsKeys-summed {ℓ} : {A : Type ℓ} (o : Outcome A) → FindsKeys (summed o)
FindsKeys-summed (ok x) = (λ e. cc, λ e. cc)
FindsKeys-summed (err x) = (λ e. cc, λ e. cc)
FindsKeys-summed panic = (λ e. cc, λ e. cc)

FindsKeys-if {ℓ} :
    {A : Type ℓ} (b : Bool) (x y : Made A)
    → FindsKeys x
    → FindsKeys y
    → FindsKeys (if b then x else y)
FindsKeys-if true x y h k = h
FindsKeys-if false x y h k = k

FindsKeys-log_totals : (es : List Owned) → FindsKeys (log_totals es)
unfolding log_totals
FindsKeys-log_totals [] = (λ e. cc, λ e. cc)
FindsKeys-log_totals (e ∷ es) =
    FindsKeys-and_then (summed _) _ (FindsKeys-summed _) (λ total. FindsKeys-log_totals es)

module _ (p : Primitives) where
  FindsKeys-pick :
      (public : PublicKey) (private : PrivateKey) (total_amount : ℕ)
      (us : List (Bool × TransactionOutput)) (picked : List TransactionInput × ℕ)
      → FindsKeys (pick p public private total_amount us picked)
  unfolding pick
  FindsKeys-pick public private total_amount [] picked = (λ e. cc, λ e. cc)
  FindsKeys-pick public private total_amount ((marked, utxo) ∷ us) (inputs, input_sum) =
      FindsKeys-if marked _ _ (FindsKeys-pick public private total_amount us (inputs, input_sum)) (
        FindsKeys-if (leb total_amount input_sum) _ _ (λ e. cc, λ e. cc)
          (FindsKeys-and_then (summed (add_u64 input_sum utxo.value)) _ (FindsKeys-summed _)
            (λ sum. FindsKeys-pick public private total_amount us _)))

  FindsKeys-pick_all :
      (store : UtxoStore) (total_amount : ℕ) (es : List Owned) (picked : List TransactionInput × ℕ)
      → All (λ (e : Owned). HasKeys p store e.0) es
      → FindsKeys (pick_all p store total_amount es picked)
  unfolding pick_all
  FindsKeys-pick_all store total_amount [] picked own = (λ e. cc, λ e. cc)
  FindsKeys-pick_all store total_amount ((address, us) ∷ es) picked own =
      let (public, private, known, held) = own.0 in
      rw (known, held)
        (FindsKeys-and_then (pick p public private total_amount us picked) _
          (FindsKeys-pick public private total_amount us picked)
          (λ picked'.
            FindsKeys-if (leb total_amount picked'.1) _ _ (λ e. cc, λ e. cc)
              (FindsKeys-pick_all store total_amount es picked' own.1)))

  FindsKeys-with_change :
      (store : UtxoStore) (change unique_id : ℕ) (payment : TransactionOutput)
      → FindsKeys (with_change p store change unique_id payment)
  unfolding with_change
  FindsKeys-with_change store change unique_id payment =
      FindsKeys-if (change == 0) _ _ (λ e. cc, λ e. cc)
        (elim (List-cases store.my_keys) [
          | inl empty ↦ rw empty (λ e. cc, λ e. cc)
          | inr (k, ks, several) ↦ rw several (λ e. cc, λ e. cc)
        ])

  FindsKeys-create_transaction :
      (store : UtxoStore) (fee amount : ℕ) (ids : ℕ × ℕ) (address : Text)
      → IsKeyed p store
      → FindsKeys (create_transaction p fee ids address amount store)
  unfolding create_transaction
  FindsKeys-create_transaction store fee amount ids address h =
      FindsKeys-and_then (summed (add_u64 amount fee)) _ (FindsKeys-summed _) λ total_amount.
        FindsKeys-if (not (has_utxos p store.utxos)) _ _ (λ e. cc, λ e. cc)
          (FindsKeys-and_then (log_totals store.utxos) _ (FindsKeys-log_totals store.utxos)
            λ logged.
              FindsKeys-and_then (pick_all p store total_amount store.utxos ([], 0)) _
                (FindsKeys-pick_all store total_amount store.utxos ([], 0) h.owners)
                λ picked.
                  FindsKeys-if (ltb picked.1 total_amount) _ _ (λ e. cc, λ e. cc)
                    (FindsKeys-and_then (with_change p store _ _ _) _
                      (FindsKeys-with_change store _ _ _) (λ outputs. (λ e. cc, λ e. cc))))

  Effect-IsKeyed :
      (codec : Codec Envelope) (c c' : Core)
      → Effect p codec c c'
      → IsKeyed p c.utxos
      → IsKeyed p c'.utxos
  Effect-IsKeyed codec c c' (refreshed ids) h = (KeepsKeys-fetch_all p codec ids c h).0
  Effect-IsKeyed codec c c' (received bytes stays_open) h = h
  Effect-IsKeyed codec c c' (edited e) h = h
  Effect-IsKeyed codec c c' (paid {cs} {amount} w address e least) h =
      (KeepsKeys-send_transaction_async p codec w.ids w.id w.output_ids w.meanwhile address amount
        (with_contacts cs c) h).0

  Reach-IsKeyed :
      (codec : Codec Envelope) (d : Decimals) (c : Core) (s : Screen)
      → IsKeyed p c.utxos
      → Reach p codec d c s
      → IsKeyed p s.core.utxos
  Reach-IsKeyed codec d c s h start = h
  Reach-IsKeyed codec d c s h (next {s = s'} r on step) =
      Effect-IsKeyed codec s'.core s.core (Reach-Effect p codec d c s' s r step)
        (Reach-IsKeyed codec d c s' h r)

  -- Once a wallet was loaded, whatever its node then sends, whatever buttons are pressed, and however
  -- its refreshes and payments end: for every address with outputs, and for each of its own, it finds
  -- a public key and the private one, and no transaction that it makes is refused for want of them.
  pub create_transaction-load :
      (codec : Codec Envelope) (d : Decimals) (files : Files) (wallet_id : Text) (c : Core)
      (s : Screen) (fee amount : ℕ) (ids : ℕ × ℕ) (address : Text)
      → load p files true wallet_id ≡ made c
      → Reach p codec d c s
      → IsKeyed p s.core.utxos
        × (create_transaction p fee ids address amount s.core.utxos ≢ refused no_public_key)
        × (create_transaction p fee ids address amount s.core.utxos ≢ refused no_private_key)
  create_transaction-load codec d files wallet_id c s fee amount ids address loads r =
      let keyed = Reach-IsKeyed codec d c s (load-IsKeyed p files true wallet_id c loads) r in
      let found = FindsKeys-create_transaction s.core.utxos fee amount ids address keyed in
      (keyed, λ e. found.0 (ap failure e), λ e. found.1 (ap failure e))
