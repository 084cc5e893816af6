-- ===== src/Wallet/Store.antt =====
-- The outputs that a wallet keeps by address, wallet/src/core.rs: the maps of `UtxoStore`, and the
-- answer of which they are made.
use grapheno.Base.{
  Bool, true, false, List, [], ◌∷◌, map, Option, none, some, ltb, ◌==◌, text_eq, if◌then◌else◌,
  Text,
}
use grapheno.Types.{TransactionOutput}
use grapheno.Network.{
  Message, fetch_utxos, utxos, submit_transaction, new_transaction, fetch_template, template,
  validate_template, template_validity, submit_template, discover_nodes, node_list, ask_difference,
  difference, fetch_block, fetch_all_blocks, all_blocks, new_block,
}
use grapheno.Wallet.{Owned, UtxoStore}

-- `UtxoStore::new`
abbrev pub empty_store : UtxoStore
empty_store = record { my_keys = []; utxos = []; address_to_key = [] }

-- The order of `String`s, by their characters.
unfoldable pub text_ltb : Text → Text → Bool
text_ltb s [] = false
text_ltb [] (d ∷ t) = true
text_ltb (c ∷ s) (d ∷ t) = if ltb c d then true else if c == d then text_ltb s t else false

-- `SkipMap::insert`: the map is in the order of its keys, and an old entry is replaced.
unfoldable pub insert_owned : Text → List (Bool × TransactionOutput) → List Owned → List Owned
insert_owned address us [] = (address, us) ∷ []
insert_owned address us ((key, vs) ∷ rest) =
    if text_eq address key
    then (address, us) ∷ rest
    else if text_ltb address key
    then (address, us) ∷ (key, vs) ∷ rest
    else (key, vs) ∷ insert_owned address us rest

-- `SkipMap::get`
unfoldable pub get_owned : Text → List Owned → Option (List (Bool × TransactionOutput))
get_owned address [] = none
get_owned address ((key, vs) ∷ rest) =
    if text_eq address key then some vs else get_owned address rest

-- Whether a message is an answer of outputs.
unfoldable pub utxos_in : Message → Option (List (TransactionOutput × Bool))
utxos_in (utxos us) = some us
utxos_in (fetch_utxos _) = none
utxos_in (submit_transaction _) = none
utxos_in (new_transaction _) = none
utxos_in (fetch_template _) = none
utxos_in (template _) = none
utxos_in (validate_template _) = none
utxos_in (template_validity _) = none
utxos_in (submit_template _) = none
utxos_in discover_nodes = none
utxos_in (node_list _) = none
utxos_in (ask_difference _) = none
utxos_in (difference _) = none
utxos_in (fetch_block _) = none
utxos_in fetch_all_blocks = none
utxos_in (all_blocks _) = none
utxos_in (new_block _) = none

abbrev pub swapped : List (TransactionOutput × Bool) → List (Bool × TransactionOutput)
swapped us = map (λ u. (u.1, u.0)) us
