-- ===== src/Wallet/Screen/Layers.antt =====
-- The steps of the interface: the buttons of the layer on top, the menu, `update_utxos`, and what the
-- node sends.
use grapheno.Base.{
  ℕ, ◌-◌, ◌≡◌, Bool, true, false, List, ◌∷◌, ◌++◌, ◌&&◌, Option, none, some, ltb, Text,
}
use grapheno.Primitives.{Primitives}
use grapheno.Network.{Envelope, Codec}
use grapheno.Wallet.{Recipient}
use grapheno.Wallet.Client.{Connection, Core, fetch_all}
use grapheno.Wallet.Units.{Decimals, AmountUnit}
use grapheno.Wallet.Screen.{
  Layer, main_layout, no_contacts_dialog, contacts_dialog, delete_dialog, new_contact_dialog,
  transaction_dialog, prompt_dialog, contact_dialog, success_dialog, error_dialog, stopped, Screen,
  pop_layer, delete_contact as show_delete, show_add_contact_standalone, show_add_contact_dialog,
  close_success, previous_page, next_page, show_contacts_dialog, show_transaction_dialog,
  switch_unit, confirm_delete, Draws, save_new_contact, send_without_contact, cancel_adding,
  running, save_contact, send_transaction, setup,
}

-- The layers with a button that closes them, and does no more.
unfoldable pub has_cancel : Layer → Bool
has_cancel main_layout = false
has_cancel no_contacts_dialog = true
has_cancel (contacts_dialog cs rows page total) = true
has_cancel (delete_dialog name) = true
has_cancel new_contact_dialog = true
has_cancel (transaction_dialog unit recipient) = true
has_cancel (prompt_dialog address amount) = true
has_cancel (contact_dialog address amount) = false
has_cancel (success_dialog payment) = false
has_cancel error_dialog = true

-- The dialogs of the contacts.
unfoldable pub is_contacts : Layer → Bool
is_contacts main_layout = false
is_contacts no_contacts_dialog = true
is_contacts (contacts_dialog cs rows page total) = true
is_contacts (delete_dialog name) = false
is_contacts new_contact_dialog = false
is_contacts (transaction_dialog unit recipient) = false
is_contacts (prompt_dialog address amount) = false
is_contacts (contact_dialog address amount) = false
is_contacts (success_dialog payment) = false
is_contacts error_dialog = false

-- The connection behind more bytes, and perhaps the end of the node's side.
abbrev pub receiving : List ℕ → Bool → Connection → Connection
receiving bytes stays_open stream = record stream {
  inbound = stream.inbound ++ bytes;
  open_end = stream.open_end && stays_open;
}

module _ (p : Primitives) (codec : Codec Envelope) (d : Decimals) where
  -- A step: a button of the layer on top, an entry of the menu, the task `update_utxos`, or bytes
  -- that the node sends, and the end of its side of the connection. The
  -- texts are those of the fields.
  pub data Step (s : Screen) : Screen → Type 0 where
    menu_send : Step s (show_transaction_dialog none s)
    menu_contacts : Step s (show_contacts_dialog s)
    quit : Step s (record s { phase = stopped })
    refresh : (ids : ℕ → ℕ) → Step s (record s { core = (fetch_all p codec ids s.core).1 })
    receive :
        (bytes : List ℕ) (stays_open : Bool)
        → Step s (record s {
          core = record s.core { stream = receiving bytes stays_open s.core.stream };
        })
    cancel :
        {l : Layer} {ls : List Layer}
        → s.layers ≡ l ∷ ls
        → has_cancel l ≡ true
        → Step s (pop_layer s)
    open_new_contact :
        {l : Layer} {ls : List Layer}
        → s.layers ≡ l ∷ ls
        → is_contacts l ≡ true
        → Step s (show_add_contact_standalone (pop_layer s))
    pay_contact :
        {cs rows : List Recipient} {page total : ℕ} {ls : List Layer} (r : Recipient)
        → s.layers ≡ contacts_dialog cs rows page total ∷ ls
        → Step s (show_transaction_dialog (some r.name) (pop_layer s))
    delete_contact :
        {cs rows : List Recipient} {page total : ℕ} {ls : List Layer} (r : Recipient)
        → s.layers ≡ contacts_dialog cs rows page total ∷ ls
        → Step s (show_delete r.name s)
    turn_back :
        {cs rows : List Recipient} {page total : ℕ} {ls : List Layer}
        → s.layers ≡ contacts_dialog cs rows page total ∷ ls
        → ltb 0 page ≡ true
        → Step s (previous_page cs page total s)
    turn_over :
        {cs rows : List Recipient} {page total : ℕ} {ls : List Layer}
        → s.layers ≡ contacts_dialog cs rows page total ∷ ls
        → ltb page (total - 1) ≡ true
        → Step s (next_page cs page total s)
    delete :
        {name : Text} {ls : List Layer} (saves : Bool)
        → s.layers ≡ delete_dialog name ∷ ls
        → Step s (confirm_delete saves name s)
    save_new :
        {ls : List Layer} (saves : Bool) (name address : Text)
        → s.layers ≡ new_contact_dialog ∷ ls
        → Step s (save_new_contact p codec saves name address s)
    switch :
        {unit : AmountUnit} {initial : Option Text} {ls : List Layer}
        → s.layers ≡ transaction_dialog unit initial ∷ ls
        → Step s (switch_unit unit initial s)
    send :
        {unit : AmountUnit} {initial : Option Text} {ls : List Layer} (w : Draws)
        (recipient amount : Text)
        → s.layers ≡ transaction_dialog unit initial ∷ ls
        → Step s (send_transaction p codec d w recipient amount unit s)
    open_contact :
        {address : Text} {amount : ℕ} {ls : List Layer}
        → s.layers ≡ prompt_dialog address amount ∷ ls
        → Step s (show_add_contact_dialog address amount (pop_layer s))
    send_anyway :
        {address : Text} {amount : ℕ} {ls : List Layer} (w : Draws)
        → s.layers ≡ prompt_dialog address amount ∷ ls
        → Step s (send_without_contact p codec w address amount s)
    save :
        {address : Text} {amount : ℕ} {ls : List Layer} (w : Draws) (saves : Bool) (name : Text)
        → s.layers ≡ contact_dialog address amount ∷ ls
        → Step s (save_contact p codec w saves name address amount s)
    cancel_contact :
        {address : Text} {amount : ℕ} {ls : List Layer} (w : Draws)
        → s.layers ≡ contact_dialog address amount ∷ ls
        → Step s (cancel_adding p codec w address amount s)
    acknowledge :
        {payment : Bool} {ls : List Layer}
        → s.layers ≡ success_dialog payment ∷ ls
        → Step s (close_success payment s)

  -- What follows the start, by any number of steps; none follows the end or a panic.
  pub data Reach (c : Core) : Screen → Type 0 where
    start : Reach c (setup c)
    next : {s s' : Screen} → Reach c s → s.phase ≡ running → Step s s' → Reach c s'
