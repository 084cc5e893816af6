-- ===== src/Wallet/Screen/Safety.antt =====
-- No button closes the main layout or opens a page that does not exist, and each finds below its
-- dialog what it counts on.
use grapheno.Base.{◌+◌, ◌-◌, ◌≡◌, refl, sym, subst, true, arith}
use grapheno.Primitives.{Primitives}
use grapheno.Network.{Envelope, Codec}
use grapheno.Wallet.Client.{Core}
use grapheno.Wallet.Units.{Decimals, switched}
use grapheno.Wallet.Screen.{
  Layer, transaction_dialog, contact_dialog, Screen, pop, pop_layer, stopped, send_without_contact,
  cancel_adding,
}
use grapheno.Wallet.Screen.Layers.{
  Step, menu_send, menu_contacts, quit, refresh, receive, cancel, open_new_contact, pay_contact,
  delete_contact, turn_back, turn_over, delete, save_new, switch, send, open_contact, send_anyway,
  save, cancel_contact, acknowledge, Reach, start, next, has_cancel, is_contacts,
}
use grapheno.Wallet.Screen.Stacked.{
  kind, is_dialog, is_book, is_form, any_kind, top, top_form, IsWell, IsWell-pop, IsWell-add,
  IsWell-core, IsWell-phase, Needs, Needs-eq, top-eq,
}
use grapheno.Wallet.Screen.Buttons.{
  IsShown-show_contacts, IsWell-turn, IsWell-close_success, IsWell-confirm_delete,
  IsWell-save_new_contact,
}
use grapheno.Wallet.Screen.Forms.{
  IsWell-proceed_with_transaction, IsWell-save_contact, IsWell-send_transaction,
}

has_cancel-is_dialog : (l : Layer) → has_cancel l ≡ true → is_dialog (kind l) ≡ true
unfolding has_cancel kind is_dialog
has_cancel-is_dialog l h = ground (arith, h)

is_contacts-is_dialog : (l : Layer) → is_contacts l ≡ true → is_dialog (kind l) ≡ true
unfolding is_contacts kind is_dialog
is_contacts-is_dialog l h = ground (arith, h)

module _ (p : Primitives) (codec : Codec Envelope) where
  module _ (d : Decimals) where
    IsWell-Step : (s s' : Screen) → Step p codec d s s' → IsWell s → IsWell s'
    unfolding kind is_dialog is_form is_book send_without_contact cancel_adding
    IsWell-Step s s' menu_send w = IsWell-add s _ w.standing w
    IsWell-Step s s' menu_contacts w = (IsShown-show_contacts s.core.config.contacts s w).0
    IsWell-Step s s' quit w = IsWell-phase s stopped w
    IsWell-Step s s' (refresh ids) w = IsWell-core s _ w
    IsWell-Step s s' (receive bytes stays_open) w = IsWell-core s _ w
    IsWell-Step s s' (cancel {l} e h) w =
        IsWell-pop s (top-eq s is_dialog e (has_cancel-is_dialog l h)) w
    IsWell-Step s s' (open_new_contact {l} e h) w =
        let closed = IsWell-pop s (top-eq s is_dialog e (is_contacts-is_dialog l h)) w in
        IsWell-add (pop_layer s) _ closed.standing closed
    IsWell-Step s s' (pay_contact r e) w =
        let closed = IsWell-pop s (top-eq s is_dialog e refl) w in
        IsWell-add (pop_layer s) _ closed.standing closed
    IsWell-Step s s' (delete_contact r e) w = IsWell-add s _ (top-eq s is_book e refl) w
    IsWell-Step s s' (turn_back {cs} {rows} {page} {total} e h) w =
        IsWell-turn cs (page - 1) s e (ground (arith, h, Needs-eq s e w)) w
    IsWell-Step s s' (turn_over {cs} {rows} {page} {total} e h) w =
        IsWell-turn cs (page + 1) s e (ground (arith, h, Needs-eq s e w)) w
    IsWell-Step s s' (delete {name} saves e) w = IsWell-confirm_delete saves name s e w
    IsWell-Step s s' (save_new saves name address e) w =
        IsWell-save_new_contact p codec saves name address s e w
    IsWell-Step s s' (switch {unit} {initial} e) w =
        let closed = IsWell-pop s (top-eq s is_dialog e refl) w in
        IsWell-add (pop_layer s) (transaction_dialog (switched unit) initial) closed.standing closed
    IsWell-Step s s' (send {unit} draws recipient amount e) w =
        IsWell-send_transaction p codec d draws recipient amount unit s (top-eq s is_form e refl) w
    IsWell-Step s s' (open_contact {address} {amount} {ls} e) w =
        let closed = IsWell-pop s (top-eq s is_dialog e refl) w in
        IsWell-add (pop_layer s) (contact_dialog address amount)
          (subst (λ xs. Needs (contact_dialog address amount) (pop xs)) (sym e) (Needs-eq s e w))
          closed
    IsWell-Step s s' (send_anyway {address} {amount} {ls} draws e) w =
        IsWell-proceed_with_transaction p codec draws address amount (pop_layer s)
          (subst (λ xs. top is_dialog (pop xs) ≡ true) (sym e) (top_form ls (Needs-eq s e w).0))
          (IsWell-pop s (top-eq s is_dialog e refl) w)
    IsWell-Step s s' (save {address} {amount} draws saves name e) w =
        IsWell-save_contact p codec draws saves name address amount s e w
    IsWell-Step s s' (cancel_contact {address} {amount} {ls} draws e) w =
        IsWell-proceed_with_transaction p codec draws address amount (pop_layer s)
          (subst (λ xs. top is_dialog (pop xs) ≡ true) (sym e) (top_form ls (Needs-eq s e w).0))
          (IsWell-pop s (top-eq s is_dialog e refl) w)
    IsWell-Step s s' (acknowledge {payment} e) w = IsWell-close_success payment s e w

    -- However the buttons are pressed, with whatever texts in the fields, however payments and
    -- refreshes end, and whatever the node sends: no page of contacts is opened that does not exist,
    -- the main layout is never closed, and each dialog stands on the layers that its buttons close
    -- or count on: a success of a payment on a dialog, a deletion on a page of the contacts, and
    -- what leads to a payment, of an amount that is not zero, on the form that asked for it.
    pub Reach-IsWell : (c : Core) (s : Screen) → Reach p codec d c s → IsWell s
    unfolding top kind any_kind
    Reach-IsWell c s start = record { stacked = (refl, tt); standing = refl }
    Reach-IsWell c s (next {s = s'} r on step) = IsWell-Step s' s step (Reach-IsWell c s' r)
