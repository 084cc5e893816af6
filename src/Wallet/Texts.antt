-- ===== src/Wallet/Texts.antt =====
-- The texts of the wallet's dialogs, wallet/src/ui.rs: what is tested of them, by the methods of
-- `str` on the code points of a text.
use mathlib.Core.List.{reverse}
use grapheno.Base.{
  ℕ, ◌+◌, ◌-◌, Option, none, some, ltb, Bool, true, false, [], ◌∷◌, ◌++◌, leb, ◌==◌, if◌then◌else◌,
  Text, ◌||◌, ◌&&◌,
}

-- `str::contains`
unfoldable pub starts_with : Text → Text → Bool
starts_with [] text = true
starts_with (c ∷ word) [] = false
starts_with (c ∷ word) (d ∷ text) = (c == d) && starts_with word text

unfoldable pub contains_text : Text → Text → Bool
contains_text word [] = starts_with word []
contains_text word (c ∷ text) = starts_with word (c ∷ text) || contains_text word text

-- "Transaction"
abbrev pub transaction_word : Text
transaction_word = 84 ∷ 114 ∷ 97 ∷ 110 ∷ 115 ∷ 97 ∷ 99 ∷ 116 ∷ 105 ∷ 111 ∷ 110 ∷ []

-- " successfully"
abbrev pub successfully : Text
successfully = 32 ∷ 115 ∷ 117 ∷ 99 ∷ 99 ∷ 101 ∷ 115 ∷ 115 ∷ 102 ∷ 117 ∷ 108 ∷ 108 ∷ 121 ∷ []

-- "Transaction sent successfully"
abbrev pub sent_message : Text
sent_message = transaction_word ++ 32 ∷ 115 ∷ 101 ∷ 110 ∷ 116 ∷ successfully

-- "Contact added successfully"
abbrev pub added_message : Text
added_message =
    67 ∷ 111 ∷ 110 ∷ 116 ∷ 97 ∷ 99 ∷ 116 ∷ 32 ∷ 97 ∷ 100 ∷ 100 ∷ 101 ∷ 100 ∷ successfully

-- "Contact '{}' deleted successfully"
abbrev pub deleted_message : Text → Text
deleted_message name =
    67
    ∷ 111
    ∷ 110
    ∷ 116
    ∷ 97
    ∷ 99
    ∷ 116
    ∷ 32
    ∷ 39
    ∷ (name ++ 39 ∷ 32 ∷ 100 ∷ 101 ∷ 108 ∷ 101 ∷ 116 ∷ 101 ∷ 100 ∷ successfully)

-- `char::is_whitespace`
abbrev pub is_whitespace : ℕ → Bool
is_whitespace c =
    (leb 9 c && leb c 13)
    || (c == 32)
    || (c == 133)
    || (c == 160)
    || (c == 5760)
    || (leb 8192 c && leb c 8202)
    || (c == 8232)
    || (c == 8233)
    || (c == 8239)
    || (c == 8287)
    || (c == 12288)

abbrev pub trim_start : Text → Text
trim_start [] = []
trim_start (c ∷ text) = if is_whitespace c then trim_start text else c ∷ text

-- `str::trim`
unfoldable pub trim : Text → Text
trim text = reverse (trim_start (reverse (trim_start text)))

abbrev pub is_empty : Text → Bool
is_empty [] = true
is_empty (c ∷ text) = false

-- The bytes of a character in UTF-8.
abbrev pub utf8_length : ℕ → ℕ
utf8_length c = if ltb c 128 then 1 else if ltb c 2048 then 2 else if ltb c 65536 then 3 else 4

-- `str::len`
unfoldable pub byte_length : Text → ℕ
byte_length [] = 0
byte_length (c ∷ text) = utf8_length c + byte_length text

abbrev pub put_first : ℕ → Option Text → Option Text
put_first c none = none
put_first c (some text) = some (c ∷ text)

-- `&text[..n]`, which panics where `n` is behind the end or inside a character.
unfoldable pub slice_to : ℕ → Text → Option Text
slice_to n [] = if n == 0 then some [] else none
slice_to n (c ∷ text) =
    let rest = slice_to (n - utf8_length c) text in
    if n == 0 then some [] else if ltb n (utf8_length c) then none else put_first c rest

abbrev pub with_dots : Option Text → Option Text
with_dots none = none
with_dots (some text) = some (text ++ 46 ∷ 46 ∷ 46 ∷ [])

-- The address in the column of a row, or a panic.
unfoldable pub display_address : Text → Option Text
unfolding byte_length slice_to
display_address address =
    if ltb 35 (byte_length address) then with_dots (slice_to 32 address) else some address
