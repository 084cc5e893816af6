-- ===== src/Wallet/Contacts.antt =====
-- The contacts of a wallet: no name and no address twice, and what a name stands for.
use grapheno.Base.{
  ◌≡◌, refl, false, List, [], ◌∷◌, ◌++◌, some, inl, inr, any, text_eq, text_eq_self, All, All-snoc,
  Bool-cases, Option-cases, arith, Text, subst,
}
use grapheno.Primitives.{Primitives}
use grapheno.Crypto.{validate_address}
use grapheno.Wallet.{Recipient, made, find_contact_by_name, add_contact, resolve_recipient_address}

-- Each contact differs from those behind it in its name and in its address.
abbrev pub Differs : Recipient → Recipient → Type 0
Differs r q = (text_eq r.name q.name ≡ false) × (text_eq r.address q.address ≡ false)

abbrev pub IsDirectory : List Recipient → Type 0
IsDirectory [] = Unit
IsDirectory (r ∷ rs) = All (Differs r) rs × IsDirectory rs

IsDirectory-snoc :
    (rs : List Recipient) (q : Recipient)
    → any (λ r. text_eq r.name q.name) rs ≡ false
    → any (λ r. text_eq r.address q.address) rs ≡ false
    → IsDirectory rs
    → IsDirectory (rs ++ q ∷ [])
IsDirectory-snoc [] q n a h = (tt, tt)
IsDirectory-snoc (r ∷ rs) q n a h = (
  All-snoc (Differs r) rs h.0 (ground (arith, n), ground (arith, a)),
  IsDirectory-snoc rs q (ground (arith, n)) (ground (arith, a)) h.1,
)

find-snoc :
    (rs : List Recipient) (q : Recipient)
    → any (λ r. text_eq r.name q.name) rs ≡ false
    → find_contact_by_name q.name (rs ++ q ∷ []) ≡ some q
find-snoc [] q n = rw (text_eq_self q.name) refl
find-snoc (r ∷ rs) q n = elim (Bool-cases (text_eq r.name q.name)) [
  | inl same ↦ absurd (ground (arith, n, same))
  | inr other ↦ rw other (find-snoc rs q (rw other at n))
]

module _ (p : Primitives) (name address : Text) (contacts : List Recipient) where
  -- A contact is added behind the others, when its name and its address are new.
  add_contact_inv :
      (cs : List Recipient)
      → add_contact p name address contacts ≡ made cs
      → (any (λ r. text_eq r.name name) contacts ≡ false)
        × (any (λ r. text_eq r.address address) contacts ≡ false)
        × (contacts ++ record { name = name; address = address } ∷ [] ≡ cs)
  unfolding add_contact
  add_contact_inv cs h = elim (Option-cases (validate_address p address)) [
    | inl bad ↦ absurd (ground (arith, bad, h))
    | inr (v, good) ↦ elim (Bool-cases (any (λ r. text_eq r.name name) contacts)) [
      | inl taken ↦ absurd (ground (arith, good, taken, h))
      | inr n ↦ elim (Bool-cases (any (λ r. text_eq r.address address) contacts)) [
        | inl taken ↦ absurd (ground (arith, good, n, taken, h))
        | inr a ↦ (n, a, ground (arith, good, n, a, h))
      ]
    ]
  ]

  -- `add_contact` keeps names and addresses apart.
  pub add_contact-IsDirectory :
      (cs : List Recipient)
      → IsDirectory contacts
      → add_contact p name address contacts ≡ made cs
      → IsDirectory cs
  add_contact-IsDirectory cs d h =
      let (n, a, e) = add_contact_inv cs h in
      subst IsDirectory e
        (IsDirectory-snoc contacts (record { name = name; address = address }) n a d)

  -- A name resolves to the address that was added under it, which may be any text that decodes:
  -- whether it is a valid address, neither of the two calls tests.
  resolve_recipient_address-add_contact :
      (cs : List Recipient)
      → add_contact p name address contacts ≡ made cs
      → resolve_recipient_address p name cs ≡ made address
  unfolding resolve_recipient_address
  resolve_recipient_address-add_contact cs h =
      let (n, a, e) = add_contact_inv cs h in
      subst (λ xs. resolve_recipient_address p name xs ≡ made address) e
        (rw
          (
            find-snoc contacts (record { name = name; address = address }) n,
            resolve_recipient_address,
          )
          refl)
