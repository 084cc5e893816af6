-- ===== src/Tools/Tests.antt =====
-- Runs of the programs, and their theorems at concrete inputs.
use grapheno.Base.{ℕ, ◌≡◌, refl, ◌++◌, false, List, [], ◌∷◌, Option, none, some, text_eq, Text}
use grapheno.Samples.{sample}
use grapheno.Saveable.{done, Disk, KeyFormats, from_mnemonic, from_seed, key_from_bytes}
use grapheno.Saveable.Keys.{IsFormat}
use grapheno.Tools.{public_file, private_file, key_gen}
use grapheno.Tools.Generated.{files_on, key_gen-load_keys}
use grapheno.Wallet.{made, add_key}
use grapheno.Wallet.Client.{Config, fixed}
use grapheno.Wallet.Loading.{load_keys}
use grapheno.Wallet.Store.{empty_store}

abbrev first_of : List ℕ → Option ℕ
first_of [] = none
first_of (b ∷ bytes) = some b

-- Keys are numbers, and a key is the first byte of its bytes.
abbrev formats : KeyFormats
formats = record {
  seed_of_mnemonic = λ phrase. some phrase;
  key_of_slice = first_of;
  bytes_of_key = λ key. key ∷ [];
  hex_encode = λ bytes. bytes;
  hex_decode = λ text. some text;
  uncompressed_point = λ key. key ∷ [];
  pem_of_key = λ key. some (key ∷ []);
  key_of_pem = first_of;
  text_of_bytes = λ bytes. some bytes;
  cbor_bytes = record { encode = λ bytes. bytes; decode = λ bytes. some bytes };
}

formats-IsFormat : IsFormat formats
formats-IsFormat = record {
  slice = λ key. refl;
  hex = λ bytes. refl;
  pem = λ key. (key ∷ [], refl, refl, refl);
  bytes = λ slice. refl;
}

-- A phrase of 32 characters, which are its seed and its digest.
abbrev phrase : Text
phrase =
    7 ∷ 0 ∷ 0 ∷ 0 ∷ 0 ∷ 0 ∷ 0 ∷ 0 ∷ 0 ∷ 0 ∷ 0 ∷ 0 ∷ 0 ∷ 0 ∷ 0 ∷ 0 ∷ 0 ∷ 0 ∷ 0 ∷ 0 ∷ 0 ∷ 0 ∷ 0 ∷ 0
    ∷ 0 ∷ 0 ∷ 0 ∷ 0 ∷ 0 ∷ 0 ∷ 0 ∷ 0 ∷ []

derived : from_mnemonic sample formats phrase ≡ done 7
unfolding from_mnemonic from_seed key_from_bytes sample
derived = refl

abbrev join : Text → Text → Text
join dir name = dir ++ b'/' ∷ name

abbrev blank : Disk
blank path = none

abbrev config : Config
config = record {
  my_keys = [];
  contacts = [];
  default_node = [];
  fee_config = record { fee_type = fixed; as_u64 = 0; percent_of = λ amount. 0 };
}

different : text_eq (private_file join [] []) (public_file join [] []) ≡ false
unfolding text_eq
different = refl

key_gen-load_keys_example :
    (disk' : Disk) × (key_gen sample formats join phrase [] [] blank ≡ done disk')
    × (load_keys sample
          (files_on formats config disk')
          ((public_file join [] [], private_file join [] []) ∷ [])
          empty_store
        ≡ made
            (add_key sample (record { public = sample.verifying_key 7; private = 7 }) empty_store))
key_gen-load_keys_example =
    key_gen-load_keys sample formats formats-IsFormat join phrase [] [] 7 blank config derived
      different
