-- ===== src/Wallet/Screen/Buttons.antt =====
-- The buttons of the contacts and of a success keep the stack of layers well.
use grapheno.Base.{
  ℕ, ◌≡◌, ◌<◌, ◌||◌, ◌⊎◌, refl, sym, subst, Bool, true, false, List, [], ◌∷◌, inl, inr, Bool-cases,
  if◌then◌else◌, Text, arith,
}
use grapheno.Primitives.{Primitives}
use grapheno.Network.{Envelope, Codec}
use grapheno.Wallet.{Recipient, add_contact, remove_contact}
use grapheno.Wallet.Texts.{
  contains_text, starts_with, transaction_word, is_empty, trim, added_message, deleted_message,
}
use grapheno.Wallet.Screen.{
  Layer, no_contacts_dialog, contacts_dialog, delete_dialog, new_contact_dialog, success_dialog,
  Screen, panicked, show_rows, shows, then_show, add_layer, error_dialog, pop, pop_layer,
  create_contacts_table_page, pages_of, show_contacts, close_success, show_success_dialog,
  save_contacts, confirm_delete, save_new_contact,
}
use grapheno.Wallet.Screen.Pages.{page_rows_lem, rows_at}
use grapheno.Wallet.Screen.Stacked.{
  Phase-cases, kind, is_dialog, top, top_book, IsWell, IsWell-pop, IsWell-add, IsWell-core,
  IsWell-phase, IsWell-error, Needs, Needs-eq, top-eq, Needs-success,
}
use grapheno.Wallet.Inversion.{Made-cases}

-- Well, and with a dialog on top unless it has panicked.
abbrev pub IsShown : Screen → Type 0
IsShown s = IsWell s × ((top is_dialog s.layers ≡ true) ⊎ (s.phase ≡ panicked))

pub IsShown-page :
    (cs : List Recipient) (page : ℕ) (s : Screen)
    → page < pages_of cs
    → IsWell s
    → IsShown (create_contacts_table_page cs page (pages_of cs) s)
unfolding create_contacts_table_page show_rows top kind is_dialog
IsShown-page cs page s h w = elim (Bool-cases (shows (rows_at cs page))) [
  | inl good ↦
      rw (page_rows_lem cs page h, create_contacts_table_page, good, show_rows)
        (
          IsWell-add s (contacts_dialog cs (rows_at cs page) page (pages_of cs))
              (w.standing, refl, h) w,
          inl refl,
        )
  | inr bad ↦
      rw (page_rows_lem cs page h, create_contacts_table_page, bad, show_rows)
        (IsWell-phase s panicked w, inr refl)
]

pub IsShown-show_contacts :
    (cs : List Recipient) (s : Screen) → IsWell s → IsShown (show_contacts cs s)
unfolding show_contacts top kind is_dialog
IsShown-show_contacts [] s w = (IsWell-add s no_contacts_dialog w.standing w, inl refl)
IsShown-show_contacts (r ∷ rs) s w = IsShown-page (r ∷ rs) 0 s (omega arith) w

IsWell-then_show : (message : Text) (s : Screen) → IsShown s → IsWell (then_show message s)
unfolding then_show show_success_dialog
IsWell-then_show message s (w, inl covered) =
    let shown =
      IsWell-add s _ (Needs-success (contains_text transaction_word message) _ covered) w in
    elim (Phase-cases s.phase) [
      | inl on ↦ rw (on, then_show) shown
      | inr (inl off) ↦ rw (off, then_show) shown
      | inr (inr down) ↦ rw (down, then_show) w
    ]
IsWell-then_show message s (w, inr down) = rw (down, then_show) w

pub IsWell-close_success :
    (payment : Bool) (s : Screen) {ls : List Layer}
    → s.layers ≡ success_dialog payment ∷ ls
    → IsWell s
    → IsWell (close_success payment s)
unfolding close_success kind is_dialog
IsWell-close_success true s e w =
    IsWell-pop (pop_layer s) (subst (λ xs. top is_dialog (pop xs) ≡ true) (sym e) (Needs-eq s e w))
      (IsWell-pop s (top-eq s is_dialog e refl) w)
IsWell-close_success false s e w = IsWell-pop s (top-eq s is_dialog e refl) w

pub IsWell-turn :
    (cs : List Recipient) (q : ℕ) (s : Screen) {rows : List Recipient} {page total : ℕ}
    {ls : List Layer}
    → s.layers ≡ contacts_dialog cs rows page total ∷ ls
    → q < total
    → IsWell s
    → IsWell (create_contacts_table_page cs q total (pop_layer s))
unfolding kind is_dialog
IsWell-turn cs q s e h w =
    let (left, count, at) = Needs-eq s e w in
    subst (λ n. IsWell (create_contacts_table_page cs q n (pop_layer s))) (sym count)
      (IsShown-page cs q (pop_layer s) (subst (λ n. q < n) count h)
        (IsWell-pop s (top-eq s is_dialog e refl) w)).0

-- Adding a contact is not taken for a payment.
added_message_plain : contains_text transaction_word added_message ≡ false
unfolding contains_text starts_with
added_message_plain = refl

pub IsWell-save_config :
    (saves : Bool) (s t : Screen)
    → IsWell s
    → IsWell t
    → IsWell (if saves then t else add_layer error_dialog s)
IsWell-save_config true s t w n = n
IsWell-save_config false s t w n = IsWell-error s w

pub IsWell-confirm_delete :
    (saves : Bool) (name : Text) (s : Screen) {ls : List Layer}
    → s.layers ≡ delete_dialog name ∷ ls
    → IsWell s
    → IsWell (confirm_delete saves name s)
unfolding confirm_delete kind is_dialog
IsWell-confirm_delete saves name s {ls} e w =
    elim (Made-cases (remove_contact name s.core.config.contacts)) [
      | inl (cs, removed) ↦
          let saved : Screen = save_contacts cs s in
          let kept = IsWell-core s _ w in
          let once = IsWell-pop saved (top-eq s is_dialog e refl) kept in
          let twice =
            IsWell-pop (pop_layer saved)
              (subst (λ xs. top is_dialog (pop xs) ≡ true) (sym e) (top_book ls (Needs-eq s e w)))
              once in
          rw (removed, confirm_delete)
            (IsWell-save_config saves saved _ kept (
              IsWell-then_show (deleted_message name) _
                (IsShown-show_contacts cs (pop_layer (pop_layer saved)) twice)))
      | inr (inl (error, failed)) ↦ rw (failed, confirm_delete) (IsWell-error s w)
      | inr (inr panics) ↦ rw (panics, confirm_delete) (IsWell-phase s panicked w)
    ]

module _ (p : Primitives) (codec : Codec Envelope) where
  pub IsWell-save_new_contact :
      (saves : Bool) (name address : Text) (s : Screen) {ls : List Layer}
      → s.layers ≡ new_contact_dialog ∷ ls
      → IsWell s
      → IsWell (save_new_contact p codec saves name address s)
  unfolding save_new_contact show_success_dialog kind is_dialog
  IsWell-save_new_contact saves name address s e w =
      elim (Bool-cases (is_empty (trim name) || is_empty (trim address))) [
        | inl empty ↦ rw (empty, save_new_contact) (IsWell-error s w)
        | inr filled ↦
            elim (Made-cases (add_contact p (trim name) (trim address) s.core.config.contacts)) [
              | inl (cs, added) ↦
                  let saved : Screen = save_contacts cs s in
                  let kept = IsWell-core s _ w in
                  let closed = IsWell-pop saved (top-eq s is_dialog e refl) kept in
                  rw (filled, added, save_new_contact)
                    (IsWell-save_config saves saved _ kept (
                      IsWell-add (pop_layer saved) _
                        (subst (λ b. Needs (success_dialog b) (pop s.layers))
                          (sym added_message_plain) closed.standing)
                        closed))
              | inr (inl (error, failed)) ↦ rw (filled, failed, save_new_contact) (IsWell-error s w)
              | inr (inr panics) ↦ rw (filled, panics, save_new_contact) (IsWell-phase s panicked w)
            ]
      ]
