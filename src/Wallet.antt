-- ===== src/Wallet.antt =====
-- wallet/src/core.rs: the keys and outputs of a wallet, the transactions that it makes, and its
-- contacts. The messages of errors are left out; the writing of the configuration behind an edit of
-- the contacts, and its failure, are in Screen.
mod Inversion
pub mod Payments
pub mod Contacts
pub mod Store
pub mod Client
pub mod Loading
pub mod Texts
pub mod Units
pub mod Screen
pub mod Keyed
mod Tests
use grapheno.Base.{
  ℕ, ◌+◌, ◌-◌, Bool, true, false, not, List, [], ◌∷◌, ◌++◌, map, Option, none, some, length, any,
  retain, ltb, leb, ◌==◌, text_eq, if◌then◌else◌, Outcome, ok, err, panic, add_u64, sum_from, Text,
}
use grapheno.Types.{Hash, PublicKey, PrivateKey, TransactionInput, TransactionOutput, Transaction}
use grapheno.Primitives.{Primitives}
use grapheno.Hashing.{hash_output}
use grapheno.Crypto.{Checked, to_address, validate_address, sign_output}
use grapheno.Block.{output_values}

pub record LoadedKey : Type 0 where
  pub public : PublicKey
  pub private : PrivateKey

pub record Recipient : Type 0 where
  pub name : Text
  pub address : Text

-- The outputs of one address, each with its mark.
abbrev pub Owned : Type 0
Owned = Text × List (Bool × TransactionOutput)

-- The maps in the order of their iteration.
pub record UtxoStore : Type 0 where
  pub my_keys : List LoadedKey
  pub utxos : List Owned
  pub address_to_key : List (Text × PublicKey)

pub data WalletError : Type 0 where
  no_unspent_utxos : WalletError
  no_public_key : WalletError
  no_private_key : WalletError
  insufficient_funds : WalletError
  invalid_address : WalletError
  contact_exists : WalletError
  contact_not_found : WalletError
  unknown_recipient : WalletError
  config_failed : WalletError
  send_failed : WalletError
  receive_failed : WalletError
  unexpected_response : WalletError
  transaction_failed : WalletError

-- How a call ends: a value, an error, or a panic.
pub data Made {ℓ} (A : Type ℓ) : Type ℓ where
  made : A → Made A
  refused : WalletError → Made A
  crashed : Made A

abbrev pub and_then {ℓ κ} : {A : Type ℓ} {B : Type κ} → Made A → (A → Made B) → Made B
and_then (made x) next = next x
and_then (refused e) next = refused e
and_then crashed next = crashed

-- Sums panic where they overflow; they know no error.
abbrev pub summed {ℓ} : {A : Type ℓ} → Outcome A → Made A
summed (ok x) = made x
summed (err e) = crashed
summed panic = crashed

abbrev pub found_or {ℓ} : {A : Type ℓ} → WalletError → Option A → Made A
found_or e none = refused e
found_or e (some x) = made x

abbrev pub find_key : Text → List (Text × PublicKey) → Option PublicKey
find_key address [] = none
find_key address (e ∷ es) = if text_eq address e.0 then some e.1 else find_key address es

abbrev pub find_private : PublicKey → List LoadedKey → Option PrivateKey
find_private key [] = none
find_private key (k ∷ ks) = if k.public == key then some k.private else find_private key ks

abbrev pub find_contact_by_name : Text → List Recipient → Option Recipient
find_contact_by_name name [] = none
find_contact_by_name name (r ∷ rs) =
    if text_eq r.name name then some r else find_contact_by_name name rs

-- `find_contact_by_address`
abbrev pub find_contact_by_address : Text → List Recipient → Option Recipient
find_contact_by_address address [] = none
find_contact_by_address address (r ∷ rs) =
    if text_eq r.address address then some r else find_contact_by_address address rs

abbrev pub unspent : List (Bool × TransactionOutput) → List TransactionOutput
unspent us = map (λ u. u.1) (retain (λ u. not u.0) us)

-- `get_balance`: the marked outputs count too.
pub add_balances : ℕ → List Owned → Outcome ℕ
add_balances acc [] = ok acc
add_balances acc (e ∷ es) = elim (sum_from 0 (output_values (map (λ u. u.1) e.1))) [
  | ok v ↦ elim (add_u64 acc v) [ ok a ↦ add_balances a es | err x ↦ err x | panic ↦ panic ]
  | err x ↦ err x
  | panic ↦ panic
]

pub get_balance : UtxoStore → Outcome ℕ
get_balance store = add_balances 0 store.utxos

-- The sums for the log.
pub log_totals : List Owned → Made (Unit {0})
log_totals [] = made tt
log_totals (e ∷ es) =
    let rest = log_totals es in
    and_then (summed (sum_from 0 (output_values (unspent e.1)))) (λ total. rest)

module _ (p : Primitives) where
  -- `UtxoStore::add_key`; of two entries for an address the new one stands first.
  pub add_key : LoadedKey → UtxoStore → UtxoStore
  add_key key store = record store {
    address_to_key = (to_address p key.public, key.public) ∷ store.address_to_key;
    my_keys = store.my_keys ++ key ∷ [];
  }

  pub get_addresses : UtxoStore → List Text
  get_addresses store = map (λ k. to_address p k.public) store.my_keys

  abbrev pub signed_input : PublicKey → PrivateKey → TransactionOutput → TransactionInput
  signed_input public private utxo = record {
    prev_transaction_output_hash = hash_output p utxo;
    public_key = public;
    signature = sign_output p (hash_output p utxo) private;
  }

  -- The inner loop of `create_transaction`: the inputs and their sum so far.
  pub pick :
      PublicKey
      → PrivateKey
      → ℕ
      → List (Bool × TransactionOutput)
      → List TransactionInput × ℕ
      → Made (List TransactionInput × ℕ)
  pick public private total_amount [] picked = made picked
  pick public private total_amount ((marked, utxo) ∷ utxos) (inputs, input_sum) =
      let skipped = pick public private total_amount utxos (inputs, input_sum) in
      if marked
      then skipped
      else if leb total_amount input_sum
      then made (inputs, input_sum)
      else and_then (summed (add_u64 input_sum utxo.value)) (λ sum.
        pick public private total_amount utxos
          (inputs ++ signed_input public private utxo ∷ [], sum))

  -- The outer loop: the addresses, until the amount is reached.
  pub pick_all :
      UtxoStore → ℕ → List Owned → List TransactionInput × ℕ → Made (List TransactionInput × ℕ)
  pick_all store total_amount [] picked = made picked
  pick_all store total_amount ((address, utxos) ∷ rest) picked =
      and_then (found_or no_public_key (find_key address store.address_to_key)) λ public.
        and_then (found_or no_private_key (find_private public store.my_keys)) λ private.
          and_then (pick public private total_amount utxos picked) λ picked'.
            let more = pick_all store total_amount rest picked' in
            if leb total_amount picked'.1 then made picked' else more

  abbrev pub output_for : Text → ℕ → ℕ → TransactionOutput
  output_for address value unique_id = record {
    value = value;
    unique_id = unique_id;
    address = address;
  }

  -- The change goes to the first key; without one, the index panics.
  pub with_change : UtxoStore → ℕ → ℕ → TransactionOutput → Made (List TransactionOutput)
  with_change store change unique_id payment =
      if change == 0 then made (payment ∷ []) else elim store.my_keys [
        | [] ↦ crashed
        | k ∷ ks ↦ made (payment ∷ output_for (to_address p k.public) change unique_id ∷ [])
      ]

  abbrev pub has_utxos : List Owned → Bool
  has_utxos = any (λ e. any (λ u. not u.0) e.1)

  abbrev pub finish :
      UtxoStore → ℕ → ℕ → ℕ × ℕ → Text → List TransactionInput × ℕ → Made Transaction
  finish store amount total_amount ids recipient_address (inputs, input_sum) =
      if ltb input_sum total_amount
      then refused insufficient_funds
      else and_then
          (with_change store (input_sum - total_amount) ids.1
            (output_for recipient_address amount ids.0))
          (λ outputs. made (record { inputs = inputs; outputs = outputs }))

  -- `create_transaction`, with the fee that `calculate_fee` returns (a product of `f64`s) and the
  -- fresh ids of the two outputs
  unfoldable pub create_transaction : ℕ → ℕ × ℕ → Text → ℕ → UtxoStore → Made Transaction
  create_transaction fee ids recipient_address amount store =
      and_then (summed (add_u64 amount fee)) λ total_amount.
        if not (has_utxos store.utxos)
        then refused no_unspent_utxos
        else and_then (log_totals store.utxos) λ logged.
          and_then (pick_all store total_amount store.utxos ([], 0))
            (finish store amount total_amount ids recipient_address)

  -- `resolve_recipient_address`
  unfoldable pub resolve_recipient_address : Text → List Recipient → Made Text
  resolve_recipient_address recipient contacts = elim (find_contact_by_name recipient contacts) [
    | some contact ↦ made contact.address
    | none ↦ elim (validate_address p recipient) [
      | none ↦ refused invalid_address
      | some valid ↦ if valid then made recipient else refused unknown_recipient
    ]
  ]

  -- `add_contact` up to `save_config`: what `validate_address` returns is not looked at, unless it is
  -- an error.
  unfoldable pub add_contact : Text → Text → List Recipient → Made (List Recipient)
  add_contact name address contacts = elim (validate_address p address) [
    | none ↦ refused invalid_address
    | some valid ↦
        if any (λ r. text_eq r.name name) contacts
        then refused contact_exists
        else if any (λ r. text_eq r.address address) contacts
        then refused contact_exists
        else made (contacts ++ record { name = name; address = address } ∷ [])
  ]

-- `remove_contact` up to `save_config`
unfoldable pub remove_contact : Text → List Recipient → Made (List Recipient)
remove_contact name contacts =
    let left = retain (λ r. not (text_eq r.name name)) contacts in
    if length left == length contacts then refused contact_not_found else made left
