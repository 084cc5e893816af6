-- ===== src/Wallet/Tests.antt =====
-- Runs of the wallet, and its theorems at concrete inputs.
use grapheno.Base.{◌≡◌, refl, true, false, [], ◌∷◌, some, sum_from, text_eq, Text}
use grapheno.Types.{Transaction}
use grapheno.Samples.{sample}
use grapheno.Samples.Ledger.{output_to}
use grapheno.Crypto.{to_address, validate_address}
use grapheno.Wallet.{
  Recipient, UtxoStore, made, refused, insufficient_funds, log_totals, signed_input, pick, pick_all,
  with_change, create_transaction, add_contact,
}
use grapheno.Wallet.Payments.{IsPayment, create_transaction-IsPayment}

-- A wallet with one key and two outputs, of which one is marked.
abbrev purse : UtxoStore
purse = record {
  my_keys = record { public = 5; private = 5 } ∷ [];
  utxos = (to_address sample 5, (true, output_to 5 40 1) ∷ (false, output_to 5 100 2) ∷ []) ∷ [];
  address_to_key = (to_address sample 5, 5) ∷ [];
}

-- 70 to another, 10 as the fee, and 20 back.
abbrev payment : Transaction
payment = record {
  inputs = signed_input sample 5 5 (output_to 5 100 2) ∷ [];
  outputs =
      record { value = 70; unique_id = 8; address = 6 ∷ [] }
      ∷ record { value = 20; unique_id = 9; address = to_address sample 5 }
      ∷ [];
}

pays : create_transaction sample 10 (8, 9) (6 ∷ []) 70 purse ≡ made payment
unfolding create_transaction log_totals pick pick_all with_change sample to_address sum_from text_eq
pays = refl

-- The marked output does not count.
too_much : create_transaction sample 10 (8, 9) (6 ∷ []) 95 purse ≡ refused insufficient_funds
unfolding create_transaction log_totals pick pick_all with_change sample to_address sum_from text_eq
too_much = refl

create_transaction-IsPayment_example : IsPayment sample purse (6 ∷ []) 70 10 8 payment
create_transaction-IsPayment_example =
    create_transaction-IsPayment sample purse 10 (8, 9) (6 ∷ []) 70 payment pays

-- A text that decodes, but is no address.
abbrev no_address : Text
no_address = 1 ∷ 2 ∷ []

not_valid : validate_address sample no_address ≡ some false
unfolding validate_address sample
not_valid = refl

abbrev friend : Recipient
friend = record { name = 9 ∷ []; address = no_address }

added : add_contact sample (9 ∷ []) no_address [] ≡ made (friend ∷ [])
unfolding add_contact validate_address sample
added = refl
