-- ===== src/Wallet/Screen/Forms.antt =====
-- The buttons that lead to a payment keep the stack of layers well.
use grapheno.Base.{
  ℕ, ◌≡◌, ◌≤◌, ◌&&◌, refl, sym, subst, Bool, true, List, ◌∷◌, ◌==◌, inl, inr, Bool-cases, Text,
  arith,
}
use grapheno.Primitives.{Primitives}
use grapheno.Network.{Envelope, Codec}
use grapheno.Wallet.{
  Made, made, refused, crashed, resolve_recipient_address, add_contact, find_contact_by_address,
  find_contact_by_name,
}
use grapheno.Wallet.Texts.{contains_text, transaction_word, sent_message, is_empty, trim}
use grapheno.Wallet.Units.{Decimals, AmountUnit, amount_sats}
use grapheno.Wallet.Screen.{
  Layer, prompt_dialog, contact_dialog, error_dialog, panicked, Screen, pop, pop_layer,
  show_success_dialog, show_result, paying, Draws, proceed_with_transaction, save_contacts, is_none,
  save_contact, send_resolved, send_transaction,
}
use grapheno.Wallet.Screen.Stacked.{
  kind, is_dialog, is_form, top, top_form, IsWell, IsWell-pop, IsWell-add, IsWell-core,
  IsWell-phase, IsWell-error, Needs-eq, top-eq, Needs-success,
}
use grapheno.Wallet.Inversion.{Made-cases}
use grapheno.Wallet.Screen.Buttons.{IsWell-save_config}

module _ (p : Primitives) (codec : Codec Envelope) where
  IsWell-show_result :
      (result : Made (Unit {0})) (s : Screen)
      → top is_dialog s.layers ≡ true
      → IsWell s
      → IsWell (show_result p codec result s)
  unfolding show_success_dialog contains_text
  IsWell-show_result (made tt) s h w =
      IsWell-add s _ (Needs-success (contains_text transaction_word sent_message) s.layers h) w
  IsWell-show_result (refused e) s h w = IsWell-add s error_dialog w.standing w
  IsWell-show_result crashed s h w = IsWell-add s error_dialog w.standing w

  pub IsWell-proceed_with_transaction :
      (w : Draws) (address : Text) (amount : ℕ) (s : Screen)
      → top is_dialog s.layers ≡ true
      → IsWell s
      → IsWell (proceed_with_transaction p codec w address amount s)
  unfolding proceed_with_transaction
  IsWell-proceed_with_transaction w address amount s h ok =
      let (result, c) = paying p codec w address amount s.core in
      IsWell-show_result result (record s { core = c }) h
        (record { stacked = ok.stacked; standing = ok.standing })

  pub IsWell-save_contact :
      (w : Draws) (saves : Bool) (name address : Text) (amount : ℕ) (s : Screen) {ls : List Layer}
      → s.layers ≡ contact_dialog address amount ∷ ls
      → IsWell s
      → IsWell (save_contact p codec w saves name address amount s)
  unfolding save_contact kind is_dialog
  IsWell-save_contact w saves name address amount s {ls} e ok =
      elim (Bool-cases (is_empty (trim name))) [
        | inl empty ↦ rw (empty, save_contact) (IsWell-error s ok)
        | inr filled ↦
            elim (Made-cases (add_contact p (trim name) address s.core.config.contacts)) [
              | inl (cs, added) ↦
                  let saved : Screen = save_contacts cs s in
                  let kept = IsWell-core s _ ok in
                  rw (filled, added, save_contact)
                    (IsWell-save_config saves saved _ kept (
                      IsWell-proceed_with_transaction w address amount (pop_layer saved)
                        (subst (λ xs. top is_dialog (pop xs) ≡ true) (sym e)
                          (top_form ls (Needs-eq s e ok).0))
                        (IsWell-pop saved (top-eq s is_dialog e refl) kept)))
              | inr (inl (error, failed)) ↦ rw (filled, failed, save_contact) (IsWell-error s ok)
              | inr (inr panics) ↦ rw (filled, panics, save_contact) (IsWell-phase s panicked ok)
            ]
      ]

  pub IsWell-send_resolved :
      (w : Draws) (recipient : Text) (amount : ℕ) (m : Made Text) (s : Screen)
      → 1 ≤ amount
      → top is_form s.layers ≡ true
      → IsWell s
      → IsWell (send_resolved p codec w recipient amount m s)
  unfolding send_resolved
  IsWell-send_resolved w recipient amount (made address) s h form ok =
      elim (Bool-cases (
        is_none (find_contact_by_address address s.core.config.contacts)
        && is_none (find_contact_by_name recipient s.core.config.contacts))) [
          | inl unknown ↦
              rw (unknown, send_resolved) (IsWell-add s (prompt_dialog address amount) (form, h) ok)
          | inr known ↦
              rw (known, send_resolved)
                (IsWell-proceed_with_transaction w address amount s (top_form s.layers form) ok)
        ]
  IsWell-send_resolved w recipient amount (refused e) s h form ok = IsWell-error s ok
  IsWell-send_resolved w recipient amount crashed s h form ok = IsWell-phase s panicked ok

  pub IsWell-send_transaction :
      (d : Decimals) (w : Draws) (recipient amount : Text) (unit : AmountUnit) (s : Screen)
      → top is_form s.layers ≡ true
      → IsWell s
      → IsWell (send_transaction p codec d w recipient amount unit s)
  unfolding send_transaction
  IsWell-send_transaction d w recipient amount unit s form ok =
      elim (Bool-cases (amount_sats d amount unit == 0)) [
        | inl nothing ↦ rw (nothing, send_transaction) (IsWell-error s ok)
        | inr some_sats ↦
            rw (some_sats, send_transaction)
              (IsWell-send_resolved w recipient (amount_sats d amount unit)
                (resolve_recipient_address p recipient s.core.config.contacts) s
                (ground (arith, some_sats)) form ok)
      ]
