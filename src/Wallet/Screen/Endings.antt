-- ===== src/Wallet/Screen/Endings.antt =====
-- The ways out of the dialogs for an unknown recipient: which of them pay, and where they end.
use grapheno.Base.{
  ◌≢◌, ◌⊎◌, inl, inr, Bool, Bool-cases, ℕ, ◌≡◌, ◌∙◌, refl, ap, true, false, List, ◌∷◌, Text, arith,
}
use grapheno.Primitives.{Primitives}
use grapheno.Network.{Envelope, Codec}
use grapheno.Wallet.{Recipient, Made, made, refused, crashed, add_contact}
use grapheno.Wallet.Client.{Core}
use grapheno.Wallet.Texts.{
  trim, is_empty, contains_text, starts_with, transaction_word, sent_message,
}
use grapheno.Wallet.Screen.{
  Layer, error_dialog, cancel_adding, send_without_contact, prompt_dialog, contact_dialog,
  success_dialog, Screen, pop, pop_layer, with_contacts, save_contacts, show_success_dialog,
  close_success, Draws, show_result, paying, proceed_with_transaction, save_contact,
}
use grapheno.Wallet.Screen.Effects.{proceed_with_transaction-core}
use grapheno.Wallet.Inversion.{Made-cases}

add_contact_total :
    (p : Primitives) (name address : Text) (cs : List Recipient)
    → add_contact p name address cs ≢ crashed
unfolding add_contact
add_contact_total p name address cs h = ground (arith, h)

sent_message_paid : contains_text transaction_word sent_message ≡ true
unfolding contains_text starts_with
sent_message_paid = refl

module _ (p : Primitives) (codec : Codec Envelope) where
  -- A screen behind a payment from the wallet `c` over the form of the payment: either it went well,
  -- a success is shown, and its button closes the form too; or an error is shown over the form.
  abbrev pub HasPaid : Draws → Text → ℕ → Core → Layer → List Layer → Screen → Type 0
  HasPaid w address amount c form ls s =
      (s.core ≡ (paying p codec w address amount c).1)
      × ((((paying p codec w address amount c).0 ≡ made tt)
            × (s.layers ≡ success_dialog true ∷ form ∷ ls)
            × ((close_success true s).layers ≡ ls))
          ⊎ (((paying p codec w address amount c).0 ≢ made tt)
              × (s.layers ≡ error_dialog ∷ form ∷ ls)))

  -- The stack behind the result of a payment.
  abbrev Shows : Made (Unit {0}) → List Layer → List Layer → Type 0
  Shows result below ls =
      ((result ≡ made tt) × (ls ≡ success_dialog true ∷ below))
      ⊎ ((result ≢ made tt) × (ls ≡ error_dialog ∷ below))

  show_result-Shows :
      (result : Made (Unit {0})) (s : Screen)
      → Shows result s.layers (show_result p codec result s).layers
  unfolding show_success_dialog
  show_result-Shows (made tt) s =
      inl (refl, ap (λ b. success_dialog b ∷ s.layers) sent_message_paid)
  show_result-Shows (refused e) s = inr (λ f. cc, refl)
  show_result-Shows crashed s = inr (λ f. cc, refl)

  proceed_with_transaction-Shows :
      (w : Draws) (address : Text) (amount : ℕ) (s : Screen)
      → Shows
          (paying p codec w address amount s.core).0
          s.layers
          (proceed_with_transaction p codec w address amount s).layers
  unfolding proceed_with_transaction
  proceed_with_transaction-Shows w address amount s =
      let (result, c) = paying p codec w address amount s.core in
      show_result-Shows result (record s { core = c })

  proceed_with_transaction-HasPaid :
      (w : Draws) (address : Text) (amount : ℕ) (s : Screen) (form : Layer) (ls : List Layer)
      → s.layers ≡ form ∷ ls
      → HasPaid w address amount s.core form ls
          (proceed_with_transaction p codec w address amount s)
  unfolding close_success
  proceed_with_transaction-HasPaid w address amount s form ls e = (
    proceed_with_transaction-core p codec w address amount s,
    elim (proceed_with_transaction-Shows w address amount s) [
      | inl (well, shown) ↦
          let over = shown ∙ ap (λ xs. success_dialog true ∷ xs) e in
          inl (well, over, ap (λ xs. pop (pop xs)) over)
      | inr (badly, shown) ↦ inr (badly, shown ∙ ap (λ xs. error_dialog ∷ xs) e)
    ],
  )

  -- The end of "Save": a payment behind the adding of the contact; or an error over the dialog, with
  -- no payment, and the contact added only if the configuration could not be written.
  abbrev pub HasSaved :
      Draws → Bool → Text → Text → ℕ → Screen → Layer → List Layer → Screen → Type 0
  HasSaved w saves name address amount s form ls s' =
      ((cs : List Recipient) × (is_empty (trim name) ≡ false)
        × (add_contact p (trim name) address s.core.config.contacts ≡ made cs)
        × (saves ≡ true)
        × HasPaid w address amount (with_contacts cs s.core) form ls s')
      ⊎ ((s'.layers ≡ error_dialog ∷ s.layers)
          × ((s'.core ≡ s.core)
              ⊎ ((cs : List Recipient) × (saves ≡ false)
                  × (add_contact p (trim name) address s.core.config.contacts ≡ made cs)
                  × (s'.core ≡ with_contacts cs s.core))))

  save_contact-HasSaved :
      (w : Draws) (saves : Bool) (name address : Text) (amount : ℕ) (s : Screen) (l form : Layer)
      (ls : List Layer)
      → s.layers ≡ l ∷ form ∷ ls
      → HasSaved w saves name address amount s form ls
          (save_contact p codec w saves name address amount s)
  unfolding save_contact
  save_contact-HasSaved w saves name address amount s l form ls e =
      elim (Bool-cases (is_empty (trim name))) [
        | inl empty ↦ inr (rw (empty, save_contact) refl, inl (rw (empty, save_contact) refl))
        | inr filled ↦
            elim (Made-cases (add_contact p (trim name) address s.core.config.contacts)) [
              | inl (cs, adds) ↦ elim (Bool-cases saves) [
                | inl written ↦ inl (
                  cs,
                  filled,
                  adds,
                  written,
                  rw (filled, adds, written, save_contact)
                      (proceed_with_transaction-HasPaid w address amount
                        (pop_layer (save_contacts cs s)) form ls (ap pop e)),
                )
                | inr unwritten ↦ inr (
                  rw (filled, adds, unwritten, save_contact) refl,
                  inr (cs, unwritten, adds, rw (filled, adds, unwritten, save_contact) refl),
                )
              ]
              | inr (inl (error, fails)) ↦ inr (
                rw (filled, fails, save_contact) refl,
                inl (rw (filled, fails, save_contact) refl),
              )
              | inr (inr crash) ↦
                  absurd (add_contact_total p (trim name) address s.core.config.contacts crash)
            ]
      ]

  -- In the dialog that adds the recipient as a contact, over the form of a payment, "Cancel" pays,
  -- just as "Send Anyway" in the prompt before it does: the wallet is behind the payment, and either
  -- a success is shown, whose button closes the form too, or an error over the form. "Save" pays
  -- behind the adding of the contact, where its name is not empty, it can be added and the
  -- configuration written; else it does not pay, and shows an error over the dialog.
  pub cancel_adding-HasPaid :
      (w : Draws) (saves : Bool) (name address : Text) (amount : ℕ) (s before : Screen)
      (form : Layer) (ls : List Layer)
      → s.layers ≡ contact_dialog address amount ∷ form ∷ ls
      → before.layers ≡ prompt_dialog address amount ∷ form ∷ ls
      → HasPaid w address amount s.core form ls (cancel_adding p codec w address amount s)
        × HasPaid w address amount before.core form ls
            (send_without_contact p codec w address amount before)
        × HasSaved w saves name address amount s form ls
            (save_contact p codec w saves name address amount s)
  unfolding cancel_adding send_without_contact
  cancel_adding-HasPaid w saves name address amount s before form ls e f = (
    proceed_with_transaction-HasPaid w address amount (pop_layer s) form ls (ap pop e),
    proceed_with_transaction-HasPaid w address amount (pop_layer before) form ls (ap pop f),
    save_contact-HasSaved w saves name address amount s (contact_dialog address amount) form ls e,
  )
