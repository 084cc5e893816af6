-- ===== src/Wallet/Screen/Effects.antt =====
-- What the steps of the interface do to the wallet: its contacts and its payments.
use grapheno.Base.{
  ℕ, ◌≡◌, ◌≤◌, ◌||◌, ◌&&◌, refl, sym, ◌∙◌, if◌then◌else◌, subst, Bool, true, false, List, [], ◌∷◌,
  ◌==◌, inl, inr, Bool-cases, Text, arith,
}
use grapheno.Primitives.{Primitives}
use grapheno.Network.{Envelope, Codec}
use grapheno.Wallet.{
  Recipient, Made, made, refused, crashed, resolve_recipient_address, add_contact, remove_contact,
  find_contact_by_address, find_contact_by_name,
}
use grapheno.Wallet.Client.{Core, fetch_all}
use grapheno.Wallet.Texts.{deleted_message, trim, is_empty}
use grapheno.Wallet.Units.{AmountUnit, Decimals, amount_sats}
use grapheno.Wallet.Screen.{
  Screen, add_layer, error_dialog, then_show, show_rows, send_without_contact, cancel_adding,
  show_contacts, pop_layer, save_contacts, with_contacts, is_none, create_contacts_table_page,
  close_success, confirm_delete, save_new_contact, show_result, paying, Draws,
  proceed_with_transaction, save_contact, send_resolved, send_transaction, show_success_dialog,
}
use grapheno.Wallet.Screen.Layers.{
  receiving, Step, menu_send, menu_contacts, quit, refresh, receive, cancel, open_new_contact,
  pay_contact, delete_contact, turn_back, turn_over, delete, save_new, switch, send, open_contact,
  send_anyway, save, cancel_contact, acknowledge, Reach,
}
use grapheno.Wallet.Screen.Stacked.{IsWell, Needs-eq}
use grapheno.Wallet.Inversion.{Made-cases}
use grapheno.Wallet.Screen.Safety.{Reach-IsWell}

page-core :
    (cs : List Recipient) (page total : ℕ) (s : Screen)
    → (create_contacts_table_page cs page total s).core ≡ s.core
unfolding create_contacts_table_page show_rows
page-core cs page total s = ground arith

show_contacts-core : (cs : List Recipient) (s : Screen) → (show_contacts cs s).core ≡ s.core
unfolding show_contacts
show_contacts-core [] s = refl
show_contacts-core (r ∷ rs) s = page-core (r ∷ rs) 0 _ s

then_show-core : (message : Text) (s : Screen) → (then_show message s).core ≡ s.core
unfolding then_show show_success_dialog
then_show-core message s = ground arith

pub close_success-core : (payment : Bool) (s : Screen) → (close_success payment s).core ≡ s.core
unfolding close_success
close_success-core true s = refl
close_success-core false s = refl

module _ (p : Primitives) (codec : Codec Envelope) where
  -- What a button can do to the contacts.
  pub data Edited (cs : List Recipient) : List Recipient → Type 0 where
    unchanged : Edited cs cs
    added :
        (name address : Text) {cs' : List Recipient}
        → add_contact p name address cs ≡ made cs'
        → Edited cs cs'
    removed :
        (name : Text) {cs' : List Recipient} → remove_contact name cs ≡ made cs' → Edited cs cs'

  -- What a step can do to the wallet: what the node sends, a refresh, an edit of its contacts, or a payment of an amount
  -- that is not zero, behind such an edit.
  pub data Effect (c : Core) : Core → Type 0 where
    refreshed : (ids : ℕ → ℕ) → Effect c (fetch_all p codec ids c).1
    received :
        (bytes : List ℕ) (stays_open : Bool)
        → Effect c (record c { stream = receiving bytes stays_open c.stream })
    edited : {cs : List Recipient} → Edited c.config.contacts cs → Effect c (with_contacts cs c)
    paid :
        {cs : List Recipient} {amount : ℕ} (w : Draws) (address : Text)
        → Edited c.config.contacts cs
        → 1 ≤ amount
        → Effect c (paying p codec w address amount (with_contacts cs c)).1

  Effect-same : (s : Screen) {c : Core} → c ≡ s.core → Effect s.core c
  Effect-same s e = subst (Effect s.core) (sym e) (edited unchanged)

  show_result-core :
      (result : Made (Unit {0})) (s : Screen) → (show_result p codec result s).core ≡ s.core
  unfolding show_success_dialog
  show_result-core (made tt) s = refl
  show_result-core (refused e) s = refl
  show_result-core crashed s = refl

  pub proceed_with_transaction-core :
      (w : Draws) (address : Text) (amount : ℕ) (s : Screen)
      → (proceed_with_transaction p codec w address amount s).core
        ≡ (paying p codec w address amount s.core).1
  unfolding proceed_with_transaction
  proceed_with_transaction-core w address amount s =
      let (result, c) = paying p codec w address amount s.core in
      show_result-core result (record s { core = c })

  Effect-proceed :
      (w : Draws) (address : Text) (amount : ℕ) (s : Screen)
      → 1 ≤ amount
      → Effect s.core (proceed_with_transaction p codec w address amount s).core
  Effect-proceed w address amount s h =
      subst (Effect s.core) (sym (proceed_with_transaction-core w address amount s))
        (paid w address unchanged h)

  Effect-save_config :
      (saves : Bool) (s t u : Screen)
      → Effect s.core t.core
      → Effect s.core u.core
      → Effect s.core (if saves then t else add_layer error_dialog u).core
  Effect-save_config true s t u h k = h
  Effect-save_config false s t u h k = k

  Effect-confirm_delete :
      (saves : Bool) (name : Text) (s : Screen) → Effect s.core (confirm_delete saves name s).core
  unfolding confirm_delete
  Effect-confirm_delete saves name s =
      elim (Made-cases (remove_contact name s.core.config.contacts)) [
        | inl (cs, e) ↦
            rw (e, confirm_delete)
              (Effect-save_config saves s _ (save_contacts cs s)
                (subst (Effect s.core)
                  (sym (
                    then_show-core (deleted_message name) _
                    ∙ show_contacts-core cs (pop_layer (pop_layer (save_contacts cs s)))))
                  (edited (removed name e)))
                (edited (removed name e)))
        | inr (inl (error, e)) ↦ rw (e, confirm_delete) (edited unchanged)
        | inr (inr e) ↦ rw (e, confirm_delete) (edited unchanged)
      ]

  Effect-save_new_contact :
      (saves : Bool) (name address : Text) (s : Screen)
      → Effect s.core (save_new_contact p codec saves name address s).core
  unfolding save_new_contact show_success_dialog
  Effect-save_new_contact saves name address s =
      elim (Bool-cases (is_empty (trim name) || is_empty (trim address))) [
        | inl b ↦ rw (b, save_new_contact) (edited unchanged)
        | inr b ↦
            elim (Made-cases (add_contact p (trim name) (trim address) s.core.config.contacts)) [
              | inl (cs, e) ↦
                  let done = edited (added (trim name) (trim address) e) in
                  rw (b, e, save_new_contact)
                    (Effect-save_config saves s _ (save_contacts cs s) done done)
              | inr (inl (error, e)) ↦ rw (b, e, save_new_contact) (edited unchanged)
              | inr (inr e) ↦ rw (b, e, save_new_contact) (edited unchanged)
            ]
      ]

  Effect-save_contact :
      (w : Draws) (saves : Bool) (name address : Text) (amount : ℕ) (s : Screen)
      → 1 ≤ amount
      → Effect s.core (save_contact p codec w saves name address amount s).core
  unfolding save_contact
  Effect-save_contact w saves name address amount s h = elim (Bool-cases (is_empty (trim name))) [
    | inl b ↦ rw (b, save_contact) (edited unchanged)
    | inr b ↦ elim (Made-cases (add_contact p (trim name) address s.core.config.contacts)) [
      | inl (cs, e) ↦
          rw (b, e, save_contact)
            (Effect-save_config saves s _ (save_contacts cs s)
              (subst (Effect s.core)
                (sym
                  (proceed_with_transaction-core w address amount (pop_layer (save_contacts cs s))))
                (paid w address (added (trim name) address e) h))
              (edited (added (trim name) address e)))
      | inr (inl (error, e)) ↦ rw (b, e, save_contact) (edited unchanged)
      | inr (inr e) ↦ rw (b, e, save_contact) (edited unchanged)
    ]
  ]

  Effect-send_resolved :
      (w : Draws) (recipient : Text) (amount : ℕ) (m : Made Text) (s : Screen)
      → 1 ≤ amount
      → Effect s.core (send_resolved p codec w recipient amount m s).core
  unfolding send_resolved
  Effect-send_resolved w recipient amount (made address) s h =
      elim (Bool-cases (
        is_none (find_contact_by_address address s.core.config.contacts)
        && is_none (find_contact_by_name recipient s.core.config.contacts))) [
          | inl b ↦ rw (b, send_resolved) (edited unchanged)
          | inr b ↦ rw (b, send_resolved) (Effect-proceed w address amount s h)
        ]
  Effect-send_resolved w recipient amount (refused e) s h = edited unchanged
  Effect-send_resolved w recipient amount crashed s h = edited unchanged

  module _ (d : Decimals) where
    Effect-send_transaction :
        (w : Draws) (recipient amount : Text) (unit : AmountUnit) (s : Screen)
        → Effect s.core (send_transaction p codec d w recipient amount unit s).core
    unfolding send_transaction
    Effect-send_transaction w recipient amount unit s =
        elim (Bool-cases (amount_sats d amount unit == 0)) [
          | inl b ↦ rw (b, send_transaction) (edited unchanged)
          | inr b ↦
              rw (b, send_transaction)
                (Effect-send_resolved w recipient (amount_sats d amount unit)
                  (resolve_recipient_address p recipient s.core.config.contacts) s
                  (ground (arith, b)))
        ]

    Step-Effect : (s s' : Screen) → IsWell s → Step p codec d s s' → Effect s.core s'.core
    unfolding send_without_contact cancel_adding
    Step-Effect s s' w menu_send = edited unchanged
    Step-Effect s s' w menu_contacts = Effect-same s (show_contacts-core s.core.config.contacts s)
    Step-Effect s s' w quit = edited unchanged
    Step-Effect s s' w (refresh ids) = refreshed ids
    Step-Effect s s' w (receive bytes stays_open) = received bytes stays_open
    Step-Effect s s' w (cancel e h) = edited unchanged
    Step-Effect s s' w (open_new_contact e h) = edited unchanged
    Step-Effect s s' w (pay_contact r e) = edited unchanged
    Step-Effect s s' w (delete_contact r e) = edited unchanged
    Step-Effect s s' w (turn_back {cs} {rows} {page} {total} e h) =
        Effect-same s (page-core cs _ total (pop_layer s))
    Step-Effect s s' w (turn_over {cs} {rows} {page} {total} e h) =
        Effect-same s (page-core cs _ total (pop_layer s))
    Step-Effect s s' w (delete {name} saves e) = Effect-confirm_delete saves name s
    Step-Effect s s' w (save_new saves name address e) =
        Effect-save_new_contact saves name address s
    Step-Effect s s' w (switch e) = edited unchanged
    Step-Effect s s' w (send {unit} draws recipient amount e) =
        Effect-send_transaction draws recipient amount unit s
    Step-Effect s s' w (open_contact e) = edited unchanged
    Step-Effect s s' w (send_anyway {address} {amount} draws e) =
        Effect-proceed draws address amount (pop_layer s) (Needs-eq s e w).1
    Step-Effect s s' w (save {address} {amount} draws saves name e) =
        Effect-save_contact draws saves name address amount s (Needs-eq s e w).1
    Step-Effect s s' w (cancel_contact {address} {amount} draws e) =
        Effect-proceed draws address amount (pop_layer s) (Needs-eq s e w).1
    Step-Effect s s' w (acknowledge {payment} e) = Effect-same s (close_success-core payment s)

    -- From any screen that the interface comes to, a step does to the wallet one of four things: it
    -- takes bytes or the end of the connection from the node; it fetches the outputs; it leaves the
    -- contacts or edits them as `add_contact` or `remove_contact` do; or, behind such an edit, it
    -- makes one payment, of an amount that is not zero.
    pub Reach-Effect :
        (c : Core) (s s' : Screen)
        → Reach p codec d c s
        → Step p codec d s s'
        → Effect s.core s'.core
    Reach-Effect c s s' r step = Step-Effect s s' (Reach-IsWell p codec d c s r) step
