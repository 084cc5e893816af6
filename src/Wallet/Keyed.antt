-- ===== src/Wallet/Keyed.antt =====
-- The keys of a wallet and its outputs: `load` and `fetch_utxos` of wallet/src/core.rs keep the keys
-- of every address that has outputs.
pub mod Fetched
pub mod Spending
mod Tests
use grapheno.Base.{
  ℕ, ◌≡◌, ◌≢◌, ◌∙◌, refl, sym, ap, subst, Bool, true, false, not, List, [], ◌∷◌, ◌++◌, Option, none,
  some, inl, inr, Bool-cases, ◌==◌, if◌then◌else◌, text_eq, text_eq_self, All, All-map, All-snoc,
  Option-cases, Text, arith, leb, ltb, Outcome, ok, err, panic,
}
use grapheno.Types.{PublicKey, PrivateKey, TransactionInput, TransactionOutput, Transaction}
use grapheno.Primitives.{Primitives}
use grapheno.Wallet.Inversion.{made_inj, and_then-eq-made}
use grapheno.Wallet.Store.{empty_store}
use grapheno.Wallet.Client.{Config, Core}
use grapheno.Wallet.Loading.{Files, load_keys, load}
use grapheno.Crypto.{to_address}
use grapheno.Wallet.{
  LoadedKey, UtxoStore, Owned, WalletError, no_public_key, no_private_key, config_failed, Made,
  made, refused, crashed, and_then, summed, found_or, find_key, find_private, add_key,
}

module _ (p : Primitives) where
  -- The two keys of an address are found.
  abbrev pub HasKeys : UtxoStore → Text → Type 0
  HasKeys store address =
      (public : PublicKey) × (private : PrivateKey) × (find_key address store.address_to_key
        ≡ some public)
      × (find_private public store.my_keys ≡ some private)

  pub record IsKeyed (store : UtxoStore) : Type 0 where
    pub owners : All (λ (e : Owned). HasKeys store e.0) store.utxos
    pub keys : All (λ (k : LoadedKey). HasKeys store (to_address p k.public)) store.my_keys

find_private-append :
    (key : PublicKey) (old new : List LoadedKey) {private : PrivateKey}
    → find_private key old ≡ some private
    → find_private key (old ++ new) ≡ some private
find_private-append key [] new h = absurd (ground (arith, h))
find_private-append key (k ∷ ks) new {private} h = elim (Bool-cases (k.public == key)) [
  | inl same ↦ rw same (rw same at h)
  | inr other ↦ rw other (find_private-append key ks new (rw other at h))
]

find_private_own :
    (old : List LoadedKey) (k : LoadedKey)
    → (private : PrivateKey) × (find_private k.public (old ++ k ∷ []) ≡ some private)
find_private_own [] k = (k.private, ground arith)
find_private_own (q ∷ qs) k = elim (Bool-cases (q.public == k.public)) [
  | inl same ↦ (q.private, rw same refl)
  | inr other ↦ (let (private, e) = find_private_own qs k in (private, rw other e))
]

module _ (p : Primitives) where
  HasKeys-add_key :
      (k : LoadedKey) (store : UtxoStore) (address : Text)
      → HasKeys p store address
      → HasKeys p (add_key p k store) address
  unfolding add_key
  HasKeys-add_key k store address (public, private, e, f) =
      elim (Bool-cases (text_eq address (to_address p k.public))) [
        | inl same ↦
            let (last, g) = find_private_own store.my_keys k in (k.public, last, rw same refl, g)
        | inr other ↦
            (public, private, rw other e, find_private-append public store.my_keys (k ∷ []) f)
      ]

  add_key-HasKeys :
      (k : LoadedKey) (store : UtxoStore) → HasKeys p (add_key p k store) (to_address p k.public)
  unfolding add_key
  add_key-HasKeys k store =
      let (last, g) = find_private_own store.my_keys k in
      (k.public, last, rw (text_eq_self (to_address p k.public)) refl, g)

  IsKeyed-add_key :
      (k : LoadedKey) (store : UtxoStore) → IsKeyed p store → IsKeyed p (add_key p k store)
  unfolding add_key
  IsKeyed-add_key k store h = record {
    owners =
        All-map (λ e. HasKeys p store e.0) (λ e. HasKeys p (add_key p k store) e.0)
          (λ e. HasKeys-add_key k store e.0) store.utxos h.owners;
    keys =
        All-snoc (λ q. HasKeys p (add_key p k store) (to_address p q.public)) store.my_keys
          (All-map (λ q. HasKeys p store (to_address p q.public))
            (λ q. HasKeys p (add_key p k store) (to_address p q.public))
            (λ q. HasKeys-add_key k store (to_address p q.public)) store.my_keys h.keys)
          (add_key-HasKeys k store);
  }

  load_keys-IsKeyed :
      (files : Files) (paths : List (Text × Text)) (store store' : UtxoStore)
      → IsKeyed p store
      → load_keys p files paths store ≡ made store'
      → IsKeyed p store'
  unfolding load_keys
  load_keys-IsKeyed files [] store store' h e = subst (IsKeyed p) (made_inj store store' e) h
  load_keys-IsKeyed files ((public_path, private_path) ∷ paths) store store' h e =
      elim (Option-cases (files.public public_path)) [
        | inl missing ↦ absurd (ground (arith, missing, e))
        | inr (public, found) ↦ elim (Option-cases (files.private private_path)) [
          | inl missing ↦ absurd (ground (arith, found, missing, e))
          | inr (private, found') ↦
              let k : LoadedKey = record { public = public; private = private } in
              load_keys-IsKeyed files paths (add_key p k store) store' (IsKeyed-add_key k store h)
                (rw (found, found', load_keys) at e)
        ]
      ]

  -- A wallet that was loaded has the keys of its addresses, and no outputs yet.
  pub load-IsKeyed :
      (files : Files) (reachable : Bool) (wallet_id : Text) (c : Core)
      → load p files reachable wallet_id ≡ made c
      → IsKeyed p c.utxos
  unfolding load
  load-IsKeyed files reachable wallet_id c e =
      let (config, found, e1) =
        and_then-eq-made (found_or config_failed files.config) _ {y = c} e in
      elim (Bool-cases reachable) [
        | inl on ↦
            let (store, keys, e2) =
              and_then-eq-made (load_keys p files config.my_keys empty_store) _ {y = c}
                (rw on at e1) in
            subst (IsKeyed p) (ap (λ core. core.utxos) (made_inj _ c e2)) (
              load_keys-IsKeyed files config.my_keys empty_store store
                (record { owners = tt; keys = tt }) keys)
        | inr off ↦ absurd (ground (arith, off, e1))
      ]
