-- ===== src/Wallet/Screen/Tests.antt =====
-- Runs of the wallet's interface, and its theorems at concrete inputs.
use grapheno.Base.{
  ℕ, ◌≡◌, ◌*◌, ◌/◌, refl, subst, true, false, List, [], ◌∷◌, ◌++◌, Option, none, some, Text,
  text_eq, sum_from,
}
use grapheno.Samples.Sized.{sized}
use grapheno.Samples.Wallet.{k1, r0, table, table_of, by_id, wallet_on, quiet}
use grapheno.Crypto.{to_address, validate_address}
use grapheno.Hashing.{from_big_endian}
use grapheno.Network.{frame, receive, receive_length, receive_data, read_exact, to_big_endian}
use grapheno.Wallet.{
  Recipient, made, resolve_recipient_address, add_contact, create_transaction, log_totals, pick,
  pick_all, with_change,
}
use grapheno.Wallet.Contacts.{IsDirectory}
use grapheno.Wallet.Client.{
  Core, take_response, fetch_key, fetch_keys, probe, send_transaction, handle_transaction, report,
  submit, pay, calculate_fee, send_transaction_async,
}
use grapheno.Wallet.Store.{insert_owned, utxos_in}
use grapheno.Wallet.Client.Fetching.{envelope_of}
use grapheno.Wallet.Texts.{
  trim, is_empty, contains_text, starts_with, transaction_word, deleted_message, display_address,
  byte_length, slice_to,
}
use grapheno.Wallet.Units.{sats, Decimals, convert_amount, amount_sats}
use grapheno.Wallet.Screen.{
  Layer, main_layout, transaction_dialog, prompt_dialog, contact_dialog, Screen, Draws, running,
  paying, with_contacts, cancel_adding, send_without_contact, save_contact, send_resolved,
  show_contacts, create_contacts_table_page, show_rows, shows, page_rows, panicked,
  send_transaction as send_form,
}
use grapheno.Wallet.Screen.Layers.{
  Reach, start, next, menu_send, switch, send, open_contact, save, cancel_contact,
}
use grapheno.Wallet.Screen.Stacked.{IsWell}
use grapheno.Wallet.Screen.Safety.{Reach-IsWell}
use grapheno.Wallet.Screen.Effects.{Effect, Reach-Effect}
use grapheno.Wallet.Screen.Directory.{Reach-IsDirectory}
use grapheno.Wallet.Screen.Endings.{HasPaid, HasSaved, cancel_adding-HasPaid}

-- A wallet with one contact and one key, whose request for its outputs is answered.
abbrev purse : Core
purse =
    let c : Core = wallet_on (k1 ∷ []) (frame by_id (envelope_of r0)) in
    record c { utxos = record c.utxos { address_to_key = (to_address sized 5, 5) ∷ [] } }

abbrev address : Text
address = to_address sized 6

abbrev name : Text
name = 32 ∷ 66 ∷ 111 ∷ 98 ∷ 32 ∷ []

abbrev contacts : List Recipient
contacts = purse.config.contacts ++ record { name = 66 ∷ 111 ∷ 98 ∷ []; address = address } ∷ []

abbrev draws : Draws
draws = record { ids = λ n. n; id = 50; output_ids = (8, 9); meanwhile = quiet }

filled : is_empty (trim name) ≡ false
unfolding trim
filled = refl

adds : add_contact sized (trim name) address purse.config.contacts ≡ made contacts
unfolding add_contact validate_address sized trim text_eq to_address
adds = refl

pays : (paying sized by_id draws address 70 purse).0 ≡ made tt
unfolding send_transaction_async pay submit send_transaction probe handle_transaction report
    calculate_fee fetch_keys fetch_key take_response insert_owned utxos_in by_id table table_of
    frame receive receive_length receive_data read_exact to_big_endian from_big_endian
    resolve_recipient_address create_transaction log_totals pick pick_all with_change sized
    to_address sum_from text_eq validate_address
pays = refl

pays_behind : (paying sized by_id draws address 70 (with_contacts contacts purse)).0 ≡ made tt
unfolding send_transaction_async pay submit send_transaction probe handle_transaction report
    calculate_fee fetch_keys fetch_key take_response insert_owned utxos_in by_id table table_of
    frame receive receive_length receive_data read_exact to_big_endian from_big_endian
    resolve_recipient_address create_transaction log_totals pick pick_all with_change sized
    to_address sum_from text_eq validate_address
pays_behind = refl

-- The deletion of a contact of that name is taken for a payment.
misread : contains_text transaction_word (deleted_message transaction_word) ≡ true
unfolding contains_text starts_with
misread = refl

-- An amount of 70 satoshis for an address that is no contact leads to the prompt.
first : Text → Option ℕ
first [] = none
first (c ∷ text) = some c

coins : Decimals
unfolding first
coins = record {
  Decimal = ℕ;
  from_str = first;
  from_nat = λ n. n;
  mul = λ m n. m * n;
  div = λ m n. m / n;
  to_u64 = λ n. some n;
}

abbrev at : List Layer → Screen
at layers = record { core = purse; layers = layers; phase = running }

abbrev form : Layer
form = transaction_dialog sats none

abbrev prompt_screen : Screen
prompt_screen = at (prompt_dialog address 70 ∷ form ∷ main_layout ∷ [])

abbrev contact_screen : Screen
contact_screen = at (contact_dialog address 70 ∷ form ∷ main_layout ∷ [])

prompts :
    send_form sized by_id coins draws address (70 ∷ []) sats (at (form ∷ main_layout ∷ []))
    ≡ prompt_screen
unfolding send_form amount_sats convert_amount send_resolved coins first resolve_recipient_address
    validate_address sized to_address text_eq
prompts = refl

prompt_reached : Reach sized by_id coins purse prompt_screen
prompt_reached = subst (Reach sized by_id coins purse) prompts (
    next (next (next start refl menu_send) refl (switch refl)) refl
      (send draws address (70 ∷ []) refl))

contact_reached : Reach sized by_id coins purse contact_screen
contact_reached = next prompt_reached refl (open_contact refl)

Reach-IsWell_example : IsWell contact_screen
Reach-IsWell_example = Reach-IsWell sized by_id coins purse contact_screen contact_reached

Reach-Effect_example :
    Effect sized by_id purse (cancel_adding sized by_id draws address 70 contact_screen).core
Reach-Effect_example =
    Reach-Effect sized by_id coins purse contact_screen
      (cancel_adding sized by_id draws address 70 contact_screen) contact_reached
      (cancel_contact draws refl)

Reach-IsDirectory_example :
    IsDirectory
      (save_contact sized by_id draws true name address 70 contact_screen).core.config.contacts
Reach-IsDirectory_example =
    Reach-IsDirectory sized by_id coins purse
      (save_contact sized by_id draws true name address 70 contact_screen) (tt, tt)
      (next contact_reached refl (save draws true name refl))

cancel_adding-HasPaid_example :
    HasPaid sized by_id draws address 70 purse form
      (main_layout ∷ [])
      (cancel_adding sized by_id draws address 70 contact_screen)
    × HasPaid sized by_id draws address 70 purse form
        (main_layout ∷ [])
        (send_without_contact sized by_id draws address 70 prompt_screen)
    × HasSaved sized by_id draws true name address 70 contact_screen form
        (main_layout ∷ [])
        (save_contact sized by_id draws true name address 70 contact_screen)
cancel_adding-HasPaid_example =
    cancel_adding-HasPaid sized by_id draws true name address 70 contact_screen prompt_screen form
      (main_layout ∷ []) refl refl

-- An address of 37 bytes whose 32nd byte is inside a character, as a configuration may have it.
abbrev umlauts : Text
umlauts =
    65 ∷ 228 ∷ 228 ∷ 228 ∷ 228 ∷ 228 ∷ 228 ∷ 228 ∷ 228 ∷ 228 ∷ 228 ∷ 228 ∷ 228 ∷ 228 ∷ 228 ∷ 228
    ∷ 228 ∷ 228 ∷ 228 ∷ []

no_slice : display_address umlauts ≡ none
unfolding display_address byte_length slice_to
no_slice = refl

panics : (show_contacts (record { name = []; address = umlauts } ∷ []) (at [])).phase ≡ panicked
unfolding show_contacts create_contacts_table_page show_rows shows display_address byte_length
    slice_to page_rows
panics = refl
