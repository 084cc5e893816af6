-- ===== src/Wallet/Screen/Stacked.antt =====
-- What stands on what in the stack of layers: each button finds the layers that it closes.
use grapheno.Base.{
  ◌≡◌, ◌⊎◌, inl, inr, ◌≤◌, ◌<◌, refl, sym, subst, Bool, true, false, List, [], ◌∷◌, arith,
}
use grapheno.Wallet.Client.{Core}
use grapheno.Wallet.Screen.{
  Layer, main_layout, no_contacts_dialog, contacts_dialog, delete_dialog, new_contact_dialog,
  transaction_dialog, prompt_dialog, contact_dialog, success_dialog, error_dialog, Phase, running,
  stopped, panicked, Screen, pop, pop_layer, add_layer, pages_of,
}

-- What the layers below ask of a layer.
pub data Kind : Type 0 where
  base : Kind
  book : Kind
  form : Kind
  other : Kind

unfoldable pub kind : Layer → Kind
kind main_layout = base
kind no_contacts_dialog = other
kind (contacts_dialog cs rows page total) = book
kind (delete_dialog name) = other
kind new_contact_dialog = other
kind (transaction_dialog unit recipient) = form
kind (prompt_dialog address amount) = other
kind (contact_dialog address amount) = other
kind (success_dialog payment) = other
kind error_dialog = other

unfoldable pub any_kind : Kind → Bool
any_kind k = true

unfoldable pub is_dialog : Kind → Bool
is_dialog base = false
is_dialog book = true
is_dialog form = true
is_dialog other = true

unfoldable pub is_book : Kind → Bool
is_book base = false
is_book book = true
is_book form = false
is_book other = false

unfoldable pub is_form : Kind → Bool
is_form base = false
is_form book = false
is_form form = true
is_form other = false

-- Whether there is a layer, and the one on top is of such a kind.
unfoldable pub top : (Kind → Bool) → List Layer → Bool
top test [] = false
top test (l ∷ ls) = test (kind l)

is_book-is_dialog : (k : Kind) → is_book k ≡ true → is_dialog k ≡ true
unfolding is_book is_dialog
is_book-is_dialog k h = ground (arith, h)

is_form-is_dialog : (k : Kind) → is_form k ≡ true → is_dialog k ≡ true
unfolding is_form is_dialog
is_form-is_dialog k h = ground (arith, h)

top_weaken :
    (test wider : Kind → Bool)
    → ((k : Kind) → test k ≡ true → wider k ≡ true)
    → (ls : List Layer) → top test ls ≡ true
    → top wider ls ≡ true
unfolding top
top_weaken test wider f [] h = h
top_weaken test wider f (l ∷ ls) h = f (kind l) h

pub top_book : (ls : List Layer) → top is_book ls ≡ true → top is_dialog ls ≡ true
top_book = top_weaken is_book is_dialog is_book-is_dialog

pub top_form : (ls : List Layer) → top is_form ls ≡ true → top is_dialog ls ≡ true
top_form = top_weaken is_form is_dialog is_form-is_dialog

-- What a layer needs below it.
abbrev pub Needs : Layer → List Layer → Type 0
Needs main_layout ls = ls ≡ []
Needs no_contacts_dialog ls = top any_kind ls ≡ true
Needs (contacts_dialog cs rows page total) ls =
    (top any_kind ls ≡ true) × (total ≡ pages_of cs) × (page < total)
Needs (delete_dialog name) ls = top is_book ls ≡ true
Needs new_contact_dialog ls = top any_kind ls ≡ true
Needs (transaction_dialog unit recipient) ls = top any_kind ls ≡ true
Needs (prompt_dialog address amount) ls = (top is_form ls ≡ true) × (1 ≤ amount)
Needs (contact_dialog address amount) ls = (top is_form ls ≡ true) × (1 ≤ amount)
Needs (success_dialog true) ls = top is_dialog ls ≡ true
Needs (success_dialog false) ls = top any_kind ls ≡ true
Needs error_dialog ls = top any_kind ls ≡ true

abbrev pub IsStacked : List Layer → Type 0
IsStacked [] = Unit
IsStacked (l ∷ ls) = Needs l ls × IsStacked ls

-- The main layout is at the bottom, and each dialog has below it what its buttons count on.
pub record IsWell (s : Screen) : Type 0 where
  pub stacked : IsStacked s.layers
  pub standing : top any_kind s.layers ≡ true

top_any : (test : Kind → Bool) (ls : List Layer) → top test ls ≡ true → top any_kind ls ≡ true
unfolding top any_kind
top_any test [] h = h
top_any test (l ∷ ls) h = refl

Needs-standing :
    (l : Layer) (ls : List Layer) → is_dialog (kind l) ≡ true → Needs l ls → top any_kind ls ≡ true
unfolding is_dialog kind
Needs-standing main_layout ls h n = absurd (ground (arith, h))
Needs-standing no_contacts_dialog ls h n = n
Needs-standing (contacts_dialog cs rows page total) ls h n = n.0
Needs-standing (delete_dialog name) ls h n = top_any is_book ls n
Needs-standing new_contact_dialog ls h n = n
Needs-standing (transaction_dialog unit recipient) ls h n = n
Needs-standing (prompt_dialog address amount) ls h n = top_any is_form ls n.0
Needs-standing (contact_dialog address amount) ls h n = top_any is_form ls n.0
Needs-standing (success_dialog true) ls h n = top_any is_dialog ls n
Needs-standing (success_dialog false) ls h n = n
Needs-standing error_dialog ls h n = n

IsStacked-pop :
    (ls : List Layer)
    → top is_dialog ls ≡ true
    → IsStacked ls
    → IsStacked (pop ls) × (top any_kind (pop ls) ≡ true)
unfolding top
IsStacked-pop [] h w = absurd (ground (arith, h))
IsStacked-pop (l ∷ ls) h w = (w.1, Needs-standing l ls h w.0)

pub IsWell-pop : (s : Screen) → top is_dialog s.layers ≡ true → IsWell s → IsWell (pop_layer s)
IsWell-pop s h w =
    let (st, top_left) = IsStacked-pop s.layers h w.stacked in
    record { stacked = st; standing = top_left }

pub IsWell-add : (s : Screen) (l : Layer) → Needs l s.layers → IsWell s → IsWell (add_layer l s)
unfolding top any_kind
IsWell-add s l n w = record { stacked = (n, w.stacked); standing = refl }

-- A button of the layer on top, which knows what is below.
pub Needs-eq :
    (s : Screen) {l : Layer} {ls : List Layer} → s.layers ≡ l ∷ ls → IsWell s → Needs l ls
Needs-eq s e w = (subst IsStacked e w.stacked).0

pub top-eq :
    (s : Screen) (test : Kind → Bool) {l : Layer} {ls : List Layer}
    → s.layers ≡ l ∷ ls
    → test (kind l) ≡ true
    → top test s.layers ≡ true
unfolding top
top-eq s test e h = subst (λ xs. top test xs ≡ true) (sym e) h

pub Needs-success :
    (payment : Bool) (ls : List Layer) → top is_dialog ls ≡ true → Needs (success_dialog payment) ls
Needs-success true ls h = h
Needs-success false ls h = top_any is_dialog ls h

pub IsWell-core : (s : Screen) (c : Core) → IsWell s → IsWell (record s { core = c })
IsWell-core s c w = record { stacked = w.stacked; standing = w.standing }

pub Phase-cases : (p : Phase) → (p ≡ running) ⊎ (p ≡ stopped) ⊎ (p ≡ panicked)
Phase-cases running = inl refl
Phase-cases stopped = inr (inl refl)
Phase-cases panicked = inr (inr refl)

pub IsWell-phase : (s : Screen) (phase : Phase) → IsWell s → IsWell (record s { phase = phase })
IsWell-phase s phase w = record { stacked = w.stacked; standing = w.standing }

pub IsWell-error : (s : Screen) → IsWell s → IsWell (add_layer error_dialog s)
IsWell-error s w = IsWell-add s error_dialog w.standing w
