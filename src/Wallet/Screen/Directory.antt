-- ===== src/Wallet/Screen/Directory.antt =====
-- The contacts of the wallet, as the interface keeps them.
use grapheno.Base.{
  ◌≡◌, sym, subst, Bool, not, List, [], ◌∷◌, inl, inr, Bool-cases, retain, text_eq, All, Text,
  arith,
}
use grapheno.Primitives.{Primitives}
use grapheno.Network.{Envelope, Codec}
use grapheno.Wallet.{Recipient, made, remove_contact}
use grapheno.Wallet.Contacts.{Differs, IsDirectory, add_contact-IsDirectory}
use grapheno.Wallet.Client.{Core}
use grapheno.Wallet.Client.Settings.{fetch_keys-config, send_transaction_async-config}
use grapheno.Wallet.Units.{Decimals}
use grapheno.Wallet.Screen.{Screen, with_contacts}
use grapheno.Wallet.Screen.Layers.{Reach, start, next}
use grapheno.Wallet.Screen.Effects.{
  Edited, unchanged, added, removed, Effect, refreshed, received, edited, paid, Reach-Effect,
}

All-retain :
    (P : Recipient → Type 0) (test : Recipient → Bool) (rs : List Recipient)
    → All P rs
    → All P (retain test rs)
All-retain P test [] h = tt
All-retain P test (r ∷ rs) h = elim (Bool-cases (test r)) [
  | inl kept ↦ rw kept (h.0, All-retain P test rs h.1)
  | inr left ↦ rw left (All-retain P test rs h.1)
]

IsDirectory-retain :
    (test : Recipient → Bool) (rs : List Recipient) → IsDirectory rs → IsDirectory (retain test rs)
IsDirectory-retain test [] h = tt
IsDirectory-retain test (r ∷ rs) h = elim (Bool-cases (test r)) [
  | inl kept ↦ rw kept (All-retain (Differs r) test rs h.0, IsDirectory-retain test rs h.1)
  | inr left ↦ rw left (IsDirectory-retain test rs h.1)
]

remove_contact_inv :
    (name : Text) (cs cs' : List Recipient)
    → remove_contact name cs ≡ made cs'
    → retain (λ r. not (text_eq r.name name)) cs ≡ cs'
unfolding remove_contact
remove_contact_inv name cs cs' h = ground (arith, h)

module _ (p : Primitives) (codec : Codec Envelope) where
  Edited-IsDirectory :
      (cs cs' : List Recipient) → Edited p codec cs cs' → IsDirectory cs → IsDirectory cs'
  Edited-IsDirectory cs cs' unchanged h = h
  Edited-IsDirectory cs cs' (added name address e) h =
      add_contact-IsDirectory p name address cs cs' h e
  Edited-IsDirectory cs cs' (removed name e) h =
      subst IsDirectory (remove_contact_inv name cs cs' e) (IsDirectory-retain _ cs h)

  Effect-IsDirectory :
      (c c' : Core)
      → Effect p codec c c'
      → IsDirectory c.config.contacts
      → IsDirectory c'.config.contacts
  Effect-IsDirectory c c' (refreshed ids) h =
      subst (λ g. IsDirectory g.contacts) (sym (fetch_keys-config p codec ids c.utxos.my_keys c)) h
  Effect-IsDirectory c c' (received bytes stays_open) h = h
  Effect-IsDirectory c c' (edited {cs} e) h = Edited-IsDirectory c.config.contacts cs e h
  Effect-IsDirectory c c' (paid {cs} {amount} w address e least) h =
      subst (λ g. IsDirectory g.contacts)
        (sym (
          send_transaction_async-config p codec w.ids w.id w.output_ids w.meanwhile address amount
            (with_contacts cs c)))
        (Edited-IsDirectory c.config.contacts cs e h)

  -- Where no two contacts of the configuration that was loaded have a name or an address in common,
  -- no two ever have, however the interface is used and payments and refreshes end.
  pub Reach-IsDirectory :
      (d : Decimals) (c : Core) (s : Screen)
      → IsDirectory c.config.contacts
      → Reach p codec d c s
      → IsDirectory s.core.config.contacts
  Reach-IsDirectory d c s h start = h
  Reach-IsDirectory d c s h (next {s = s'} r on step) =
      Effect-IsDirectory s'.core s.core (Reach-Effect p codec d c s' s r step)
        (Reach-IsDirectory d c s' h r)
