-- ===== src/Wallet/Client/Fetching.antt =====
-- What `fetch_utxos` makes of the messages that wait for it: they are taken for the answers to its
-- requests, one by one.
use mathlib.Core.List.{append_assoc, append-nil}
use grapheno.Base.{
  ℕ, ◌^◌, ◌<◌, ◌≡◌, refl, ap, ◌∙◌, Bool, true, false, List, [], ◌∷◌, ◌++◌, map, some, inl, inr,
  length, text_eq, text_eq→eq, text_eq_self, if◌then◌else◌, All, Bool-cases, Text, arith,
}
use grapheno.Types.{TransactionOutput}
use grapheno.Primitives.{Primitives}
use grapheno.Crypto.{to_address}
use grapheno.Network.{Envelope, Codec, received, decoded, frame, receive, utxos, fetch_utxos}
use grapheno.Network.Frames.{frames, receive-frame}
use grapheno.Wallet.{LoadedKey, Owned, made}
use grapheno.Wallet.Client.{
  Core, default_ttl, continue, write, take_response, fetch_key, fetch_keys,
}
use grapheno.Wallet.Store.{insert_owned, get_owned, utxos_in, swapped}

pub get_owned-insert_owned :
    (a b : Text) (us : List (Bool × TransactionOutput)) (m : List Owned)
    → get_owned a (insert_owned b us m) ≡ (if text_eq a b then some us else get_owned a m)
unfolding get_owned insert_owned
get_owned-insert_owned a b us [] = refl
get_owned-insert_owned a b us ((key, vs) ∷ rest) = elim (Bool-cases (text_eq b key)) [
  | inl same ↦ ground (arith, same, text_eq→eq b key same)
  | inr other ↦ ground (
    arith,
    other,
    get_owned-insert_owned a b us rest,
    text_eq→eq a b,
    text_eq→eq a key,
    text_eq_self a,
  )
]

-- An envelope with outputs, as a node sends it.
pub record Reply : Type 0 where
  pub id : ℕ
  pub origin : Text
  pub ttl : ℕ
  pub outputs : List (TransactionOutput × Bool)

abbrev pub envelope_of : Reply → Envelope
envelope_of r = record { id = r.id; origin = r.origin; ttl = r.ttl; msg = utxos r.outputs }

-- The envelope is read back from its own bytes, which are fewer than a `u64` counts.
abbrev pub IsRead : Codec Envelope → Envelope → Type 0
IsRead codec e = (codec.decode (codec.encode e) ≡ some e) × (length (codec.encode e) < 2 ^ 64)

module _ (p : Primitives) (codec : Codec Envelope) where
  abbrev address_of : LoadedKey → Text
  address_of key = to_address p key.public

  -- The requests, one for each key.
  abbrev pub requests : (ℕ → ℕ) → Text → List LoadedKey → List Envelope
  requests ids wallet_id [] = []
  requests ids wallet_id (key ∷ keys) =
      record {
        id = ids (length keys);
        origin = wallet_id;
        ttl = default_ttl;
        msg = fetch_utxos (address_of key);
      }
      ∷ requests ids wallet_id keys

  -- The map behind the answers.
  abbrev pub stored : List (LoadedKey × Reply) → List Owned → List Owned
  stored [] m = m
  stored ((key, r) ∷ rs) m = stored rs (insert_owned (address_of key) (swapped r.outputs) m)

  abbrev keys_of : List (LoadedKey × Reply) → List LoadedKey
  keys_of rs = map (λ r. r.0) rs

  abbrev pub replies_of : List (LoadedKey × Reply) → List Envelope
  replies_of rs = map (λ r. envelope_of r.1) rs

  -- The state behind a call that has got these answers.
  abbrev behind : (ℕ → ℕ) → List (LoadedKey × Reply) → List ℕ → Core → Core
  behind ids rs rest c = record c {
    utxos = record c.utxos { utxos = stored rs c.utxos.utxos };
    stream = record c.stream { inbound = rest };
    written = c.written ++ requests ids c.wallet_id (keys_of rs);
  }

  pub fetch_key-frame :
      (id : ℕ) (key : LoadedKey) (e : Envelope) (rest : List ℕ) (c : Core)
      → IsRead codec e
      → c.stream.open_end ≡ true
      → c.stream.inbound ≡ frame codec e ++ rest
      → fetch_key p codec id key c
        ≡ take_response
            (address_of key)
            (received e, rest)
            (write id (fetch_utxos (address_of key)) c)
  unfolding fetch_key
  fetch_key-frame id key e rest c (good, short) on waiting =
      let got : receive codec c.stream.inbound ≡ (received e, rest) =
        ap (receive codec) waiting
        ∙ receive-frame codec e rest short
        ∙ ap (λ d. (decoded d, rest)) good in
      ground (arith, on, got)

  fetch_keys-behind :
      (ids : ℕ → ℕ) (rs : List (LoadedKey × Reply)) (rest : List ℕ) (c : Core)
      → All (IsRead codec) (replies_of rs)
      → c.stream.open_end ≡ true
      → c.stream.inbound ≡ frames codec (replies_of rs) ++ rest
      → fetch_keys p codec ids (keys_of rs) c ≡ (made tt, behind ids rs rest c)
  unfolding fetch_keys frames take_response utxos_in
  fetch_keys-behind ids [] rest c good on waiting = ground (arith, waiting, append-nil c.written)
  fetch_keys-behind ids ((key, r) ∷ rs) rest c (g, gs) on waiting =
      let id = ids (length (keys_of rs)) in
      let later = frames codec (replies_of rs) ++ rest in
      let c1 : Core = record (write id (fetch_utxos (address_of key)) c) {
        utxos = record c.utxos {
          utxos = insert_owned (address_of key) (swapped r.outputs) c.utxos.utxos;
        };
        stream = record c.stream { inbound = later };
      } in
      let first : fetch_key p codec id key c ≡ (made tt, c1) =
        fetch_key-frame id key (envelope_of r) later c g on (
          waiting
          ∙ append_assoc (frame codec (envelope_of r)) (frames codec (replies_of rs)) rest) in
      ap (λ call. continue call (fetch_keys p codec ids (keys_of rs))) first
      ∙ fetch_keys-behind ids rs rest c1 gs on refl
      ∙ ap (λ w. (made tt, record (behind ids ((key, r) ∷ rs) rest c) { written = w }))
          (append_assoc c.written _ (requests ids c.wallet_id (keys_of rs)))

  -- No address of the keys is this one.
  abbrev Avoids : Text → List (LoadedKey × Reply) → Type 0
  Avoids a rs = All (λ (r : LoadedKey × Reply). text_eq a (address_of r.0) ≡ false) rs

  -- No two keys have one address.
  abbrev pub IsDistinct : List (LoadedKey × Reply) → Type 0
  IsDistinct [] = Unit
  IsDistinct ((key, r) ∷ rs) = Avoids (address_of key) rs × IsDistinct rs

  get_owned-stored-Avoids :
      (a : Text) (rs : List (LoadedKey × Reply)) (m : List Owned)
      → Avoids a rs
      → get_owned a (stored rs m) ≡ get_owned a m
  get_owned-stored-Avoids a [] m h = refl
  get_owned-stored-Avoids a ((key, r) ∷ rs) m (h, hs) =
      get_owned-stored-Avoids a rs _ hs
      ∙ get_owned-insert_owned a (address_of key) (swapped r.outputs) m
      ∙ (rw h refl)

  -- Each key's address has the outputs of the answer at the key's place.
  abbrev pub HasAnswers : List (LoadedKey × Reply) → List Owned → Type 0
  HasAnswers rs m =
      All (λ (r : LoadedKey × Reply). get_owned (address_of r.0) m ≡ some (swapped r.1.outputs)) rs

  stored-HasAnswers :
      (rs : List (LoadedKey × Reply)) (m : List Owned) → IsDistinct rs → HasAnswers rs (stored rs m)
  stored-HasAnswers [] m h = tt
  stored-HasAnswers ((key, r) ∷ rs) m (h, hs) = (
    get_owned-stored-Avoids (address_of key) rs _ h
        ∙ get_owned-insert_owned (address_of key) (address_of key) (swapped r.outputs) m
        ∙ (rw (text_eq_self (address_of key)) refl),
    stored-HasAnswers rs _ hs,
  )

  -- Where an answer of outputs waits for each of the keys on an open connection, and the keys have
  -- different addresses: `fetch_utxos` ends well, it has written one request for each key and taken
  -- the answers off the connection, and each address has the outputs of the answer at its place,
  -- whatever addresses these outputs have.
  pub fetch_keys-HasAnswers :
      (ids : ℕ → ℕ) (rs : List (LoadedKey × Reply)) (rest : List ℕ) (c : Core)
      → All (IsRead codec) (replies_of rs)
      → IsDistinct rs
      → c.stream.open_end ≡ true
      → c.stream.inbound ≡ frames codec (replies_of rs) ++ rest
      → (c' : Core) × (fetch_keys p codec ids (keys_of rs) c ≡ (made tt, c'))
        × HasAnswers rs c'.utxos.utxos
        × (c'.stream.inbound ≡ rest)
        × (c'.written ≡ c.written ++ requests ids c.wallet_id (keys_of rs))
  fetch_keys-HasAnswers ids rs rest c good distinct on waiting = (
    behind ids rs rest c,
    fetch_keys-behind ids rs rest c good on waiting,
    stored-HasAnswers rs c.utxos.utxos distinct,
    refl,
    refl,
  )
