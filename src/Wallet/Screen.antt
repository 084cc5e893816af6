-- ===== src/Wallet/Screen.antt =====
-- The interface of the wallet, wallet/src/ui.rs: the stack of its layers, and what each button does
-- to it and to the wallet. A layer is what its callbacks have captured. The texts in its fields are
-- arguments, since `call_on_name` reads them, and so is whether the configuration file can be written.
-- Of what a dialog displays, only the address in a row of contacts is kept, whose slice may panic. A
-- callback is one step, with the payment that it waits for.
pub mod Pages
pub mod Layers
pub mod Stacked
pub mod Buttons
pub mod Forms
pub mod Safety
pub mod Effects
pub mod Directory
pub mod Endings
mod Tests
use mathlib.Core.List.{reverse}
use grapheno.Base.{
  ℕ, zero, suc, ◌+◌, ◌-◌, ◌*◌, ◌/◌, min, Bool, true, false, not, List, [], ◌∷◌, ◌++◌, Option, none,
  some, length, any, take, drop, ltb, leb, ◌==◌, if◌then◌else◌, Text, ◌||◌, ◌&&◌,
}
use grapheno.Primitives.{Primitives}
use grapheno.Network.{Envelope, Codec}
use grapheno.Wallet.{
  Recipient, Made, made, refused, crashed, find_contact_by_name, find_contact_by_address,
  resolve_recipient_address, add_contact, remove_contact,
}
use grapheno.Wallet.Texts.{
  contains_text, transaction_word, sent_message, added_message, deleted_message, trim, is_empty,
  display_address,
}
use grapheno.Wallet.Units.{AmountUnit, btc, Decimals, switched, amount_sats}
use grapheno.Wallet.Client.{Core, Meanwhile, send_transaction_async}

-- The layers; a page of contacts has its rows, its number, and how many pages there are.
pub data Layer : Type 0 where
  main_layout : Layer
  no_contacts_dialog : Layer
  contacts_dialog : List Recipient → List Recipient → ℕ → ℕ → Layer
  delete_dialog : Text → Layer
  new_contact_dialog : Layer
  transaction_dialog : AmountUnit → Option Text → Layer
  prompt_dialog : Text → ℕ → Layer
  contact_dialog : Text → ℕ → Layer
  success_dialog : Bool → Layer
  error_dialog : Layer

pub data Phase : Type 0 where
  running : Phase
  stopped : Phase
  panicked : Phase

-- `Cursive`, with the `Core` of its user data; the top layer is first.
pub record Screen : Type 0 where
  pub core : Core
  pub layers : List Layer
  pub phase : Phase

abbrev pub items_per_page : ℕ
items_per_page = 10

abbrev pub is_none {ℓ} : {A : Type ℓ} → Option A → Bool
is_none none = true
is_none (some x) = false

abbrev pub pop : List Layer → List Layer
pop [] = []
pop (l ∷ ls) = ls

abbrev pub pop_layer : Screen → Screen
pop_layer s = record s { layers = pop s.layers }

abbrev pub add_layer : Layer → Screen → Screen
add_layer l s = record s { layers = l ∷ s.layers }

abbrev pub with_contacts : List Recipient → Core → Core
with_contacts cs c = record c { config = record c.config { contacts = cs } }

abbrev pub save_contacts : List Recipient → Screen → Screen
save_contacts cs s = record s { core = with_contacts cs s.core }

-- `show_success_dialog` and `show_error_dialog`
unfoldable pub show_success_dialog : Text → Screen → Screen
show_success_dialog message = add_layer (success_dialog (contains_text transaction_word message))

abbrev pub show_error_dialog : Screen → Screen
show_error_dialog = add_layer error_dialog

-- The button of a success.
unfoldable pub close_success : Bool → Screen → Screen
close_success true s = pop_layer (pop_layer s)
close_success false s = pop_layer s

-- The rows of a page; the slice panics where it starts behind its end.
unfoldable pub page_rows : List Recipient → ℕ → Option (List Recipient)
page_rows contacts current_page =
    let start_idx = current_page * items_per_page in
    let end_idx = min (start_idx + items_per_page) (length contacts) in
    if leb start_idx end_idx
    then some (take (end_idx - start_idx) (drop start_idx contacts))
    else none

-- The rows are built one after the other; one of them may panic.
unfoldable pub shows : List Recipient → Bool
unfolding display_address
shows rows = not (any (λ r. is_none (display_address r.address)) rows)

unfoldable pub show_rows : List Recipient → List Recipient → ℕ → ℕ → Screen → Screen
unfolding shows
show_rows rows contacts current_page total_pages s =
    if shows rows
    then add_layer (contacts_dialog contacts rows current_page total_pages) s
    else record s { phase = panicked }

-- `create_contacts_table_page`
unfoldable pub create_contacts_table_page : List Recipient → ℕ → ℕ → Screen → Screen
unfolding show_rows
create_contacts_table_page contacts current_page total_pages s =
    elim (page_rows contacts current_page) [
      | none ↦ record s { phase = panicked }
      | some rows ↦ show_rows rows contacts current_page total_pages s
    ]

abbrev pub pages_of : List Recipient → ℕ
pages_of contacts = (length contacts + items_per_page - 1) / items_per_page

-- `show_contacts_dialog`
unfoldable pub show_contacts : List Recipient → Screen → Screen
unfolding create_contacts_table_page
show_contacts [] s = add_layer no_contacts_dialog s
show_contacts (r ∷ rs) s = create_contacts_table_page (r ∷ rs) 0 (pages_of (r ∷ rs)) s

abbrev pub show_contacts_dialog : Screen → Screen
show_contacts_dialog s = show_contacts s.core.config.contacts s

-- The pages before and behind.
abbrev pub previous_page : List Recipient → ℕ → ℕ → Screen → Screen
previous_page contacts current_page total_pages s =
    create_contacts_table_page contacts (current_page - 1) total_pages (pop_layer s)

abbrev pub next_page : List Recipient → ℕ → ℕ → Screen → Screen
next_page contacts current_page total_pages s =
    create_contacts_table_page contacts (current_page + 1) total_pages (pop_layer s)

abbrev pub show_transaction_dialog : Option Text → Screen → Screen
show_transaction_dialog recipient = add_layer (transaction_dialog btc recipient)

abbrev pub delete_contact : Text → Screen → Screen
delete_contact name = add_layer (delete_dialog name)

abbrev pub show_add_contact_standalone : Screen → Screen
show_add_contact_standalone = add_layer new_contact_dialog

abbrev pub prompt_add_contact : Text → ℕ → Screen → Screen
prompt_add_contact address amount = add_layer (prompt_dialog address amount)

abbrev pub show_add_contact_dialog : Text → ℕ → Screen → Screen
show_add_contact_dialog address amount = add_layer (contact_dialog address amount)

-- `switch_unit`, of the dialog on top.
abbrev pub switch_unit : AmountUnit → Option Text → Screen → Screen
switch_unit unit recipient s =
    add_layer (transaction_dialog (switched unit) recipient) (pop_layer s)

-- `save_config` behind an edit, which stays in memory where the file cannot be written.
abbrev pub save_config : Bool → (Screen → Screen) → Screen → Screen
save_config saves next s = if saves then next s else show_error_dialog s

-- A success behind what may have panicked.
unfoldable pub then_show : Text → Screen → Screen
unfolding show_success_dialog
then_show message s = elim s.phase [
  | running ↦ show_success_dialog message s
  | stopped ↦ show_success_dialog message s
  | panicked ↦ s
]

-- The button of `delete_contact`; `saves` is whether `save_config` succeeds.
unfoldable pub confirm_delete : Bool → Text → Screen → Screen
unfolding show_contacts then_show
confirm_delete saves name s = elim (remove_contact name s.core.config.contacts) [
  | made cs ↦
      save_config saves
        (λ t. then_show (deleted_message name) (show_contacts_dialog (pop_layer (pop_layer t))))
        (save_contacts cs s)
  | refused e ↦ show_error_dialog s
  | crashed ↦ record s { phase = panicked }
]

-- What a payment draws, and what its node does meanwhile.
pub record Draws : Type 0 where
  pub ids : ℕ → ℕ
  pub id : ℕ
  pub output_ids : ℕ × ℕ
  pub meanwhile : Meanwhile

module _ (p : Primitives) (codec : Codec Envelope) where
  -- The button of `show_add_contact_standalone`.
  unfoldable pub save_new_contact : Bool → Text → Text → Screen → Screen
  unfolding show_success_dialog
  save_new_contact saves name address s =
      if is_empty (trim name) || is_empty (trim address)
      then show_error_dialog s
      else elim (add_contact p (trim name) (trim address) s.core.config.contacts) [
        | made cs ↦
            save_config saves (λ t. show_success_dialog added_message (pop_layer t))
              (save_contacts cs s)
        | refused e ↦ show_error_dialog s
        | crashed ↦ record s { phase = panicked }
      ]

  -- A panic in the task that pays closes its channel, which is an error to the caller.
  abbrev pub show_result : Made (Unit {0}) → Screen → Screen
  show_result (made _) s = show_success_dialog sent_message s
  show_result (refused e) s = show_error_dialog s
  show_result crashed s = show_error_dialog s

  abbrev pub paying : Draws → Text → ℕ → Core → Made (Unit {0}) × Core
  paying w address amount c =
      send_transaction_async p codec w.ids w.id w.output_ids w.meanwhile address amount c

  -- `proceed_with_transaction`
  unfoldable pub proceed_with_transaction : Draws → Text → ℕ → Screen → Screen
  unfolding show_success_dialog
  proceed_with_transaction w address amount s =
      let (result, c) = paying w address amount s.core in show_result result (record s { core = c })

  -- The button "Send Anyway" of `prompt_add_contact`.
  unfoldable pub send_without_contact : Draws → Text → ℕ → Screen → Screen
  unfolding proceed_with_transaction
  send_without_contact w address amount s = proceed_with_transaction w address amount (pop_layer s)

  -- The button "Cancel" of `show_add_contact_dialog`.
  unfoldable pub cancel_adding : Draws → Text → ℕ → Screen → Screen
  unfolding proceed_with_transaction
  cancel_adding w address amount s = proceed_with_transaction w address amount (pop_layer s)

  -- The button "Save" of `show_add_contact_dialog`.
  unfoldable pub save_contact : Draws → Bool → Text → Text → ℕ → Screen → Screen
  unfolding proceed_with_transaction
  save_contact w saves name address amount s =
      if is_empty (trim name)
      then show_error_dialog s
      else elim (add_contact p (trim name) address s.core.config.contacts) [
        | made cs ↦
            save_config saves (λ t. proceed_with_transaction w address amount (pop_layer t))
              (save_contacts cs s)
        | refused e ↦ show_error_dialog s
        | crashed ↦ record s { phase = panicked }
      ]

  -- `send_transaction`, with the amount read and the recipient resolved.
  unfoldable pub send_resolved : Draws → Text → ℕ → Made Text → Screen → Screen
  unfolding proceed_with_transaction
  send_resolved w recipient amount (made address) s =
      if is_none (find_contact_by_address address s.core.config.contacts)
        && is_none (find_contact_by_name recipient s.core.config.contacts)
      then prompt_add_contact address amount s
      else proceed_with_transaction w address amount s
  send_resolved w recipient amount (refused e) s = show_error_dialog s
  send_resolved w recipient amount crashed s = record s { phase = panicked }

  unfoldable pub send_transaction : Decimals → Draws → Text → Text → AmountUnit → Screen → Screen
  unfolding amount_sats send_resolved
  send_transaction d w recipient amount unit s =
      if amount_sats d amount unit == 0
      then show_error_dialog s
      else send_resolved w recipient (amount_sats d amount unit)
          (resolve_recipient_address p recipient s.core.config.contacts) s

-- `setup_siv`
abbrev pub setup : Core → Screen
setup c = record { core = c; layers = main_layout ∷ []; phase = running }
