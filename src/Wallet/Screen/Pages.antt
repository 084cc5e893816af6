-- ===== src/Wallet/Screen/Pages.antt =====
-- The pages of the contacts' dialog: their slices do not panic, and together are the contacts.
use grapheno.Base.{
  ℕ, zero, suc, ◌+◌, ◌-◌, ◌*◌, ◌≡◌, ◌∙◌, ◌≤◌, ◌<◌, refl, sym, ap, min, true, List, [], ◌∷◌, ◌++◌,
  Option, none, some, length, take, drop, leb, arith,
}
use grapheno.Wallet.{Recipient}
use grapheno.Wallet.Screen.{page_rows, pages_of}

take-drop : (k n : ℕ) (xs : List Recipient) → n ≡ min k (length xs) → take n xs ++ drop k xs ≡ xs
take-drop zero zero xs h = refl
take-drop zero (suc n) xs h = absurd (omega (arith, h))
take-drop (suc k) zero [] h = refl
take-drop (suc k) (suc n) [] h = absurd (omega (arith, h))
take-drop (suc k) zero (x ∷ xs) h = absurd (omega (arith, h))
take-drop (suc k) (suc n) (x ∷ xs) h = ap (λ ys. x ∷ ys) (take-drop k n xs (omega (arith, h)))

drop-drop : (m k n : ℕ) (xs : List Recipient) → n ≡ m + k → drop k (drop m xs) ≡ drop n xs
drop-drop zero k n xs h = ap (λ i. drop i xs) (omega (arith, h))
drop-drop (suc m) k zero xs h = absurd (omega (arith, h))
drop-drop (suc m) zero (suc n) [] h = refl
drop-drop (suc m) (suc k) (suc n) [] h = refl
drop-drop (suc m) k (suc n) (x ∷ xs) h = drop-drop m k n xs (omega (arith, h))

length-drop : (m : ℕ) (xs : List Recipient) → length (drop m xs) ≡ length xs - m
length-drop zero xs = omega arith
length-drop (suc m) [] = omega arith
length-drop (suc m) (x ∷ xs) = omega (arith, length-drop m xs)

drop_all : (m : ℕ) (xs : List Recipient) → length xs ≤ m → drop m xs ≡ []
drop_all zero [] h = refl
drop_all zero (x ∷ xs) h = absurd (omega (arith, h))
drop_all (suc m) [] h = refl
drop_all (suc m) (x ∷ xs) h = drop_all m xs (omega (arith, h))

abbrev pub rows_at : List Recipient → ℕ → List Recipient
rows_at contacts page =
    take (min (page * 10 + 10) (length contacts) - page * 10) (drop (page * 10) contacts)

page_starts :
    (contacts : List Recipient) (page : ℕ)
    → page < pages_of contacts
    → leb (page * 10) (min (page * 10 + 10) (length contacts)) ≡ true
page_starts contacts page h = ground (arith, h)

pub page_rows_lem :
    (contacts : List Recipient) (page : ℕ)
    → page < pages_of contacts
    → page_rows contacts page ≡ some (rows_at contacts page)
unfolding page_rows
page_rows_lem contacts page h = rw (page_starts contacts page h, page_rows) refl

rows_at-drop :
    (contacts : List Recipient) (page : ℕ)
    → rows_at contacts page ++ drop ((page + 1) * 10) contacts ≡ drop (page * 10) contacts
rows_at-drop contacts page =
    let shown = drop (page * 10) contacts in
    ap (λ xs. rows_at contacts page ++ xs)
      (sym (drop-drop (page * 10) 10 ((page + 1) * 10) contacts (omega arith)))
    ∙ take-drop 10 (min (page * 10 + 10) (length contacts) - page * 10) shown
        (omega (arith, length-drop (page * 10) contacts))

-- The rows of `count` pages, from a page on; nothing, where one of them panics.
abbrev pub put_before : Option (List Recipient) → Option (List Recipient) → Option (List Recipient)
put_before none rest = none
put_before (some rows) none = none
put_before (some rows) (some rest) = some (rows ++ rest)

unfoldable pub joined : List Recipient → ℕ → ℕ → Option (List Recipient)
joined contacts page zero = some []
joined contacts page (suc count) =
    put_before (page_rows contacts page) (joined contacts (page + 1) count)

joined-drop :
    (contacts : List Recipient) (page count : ℕ)
    → page + count ≡ pages_of contacts
    → joined contacts page count ≡ some (drop (page * 10) contacts)
unfolding joined
joined-drop contacts page zero h = ap some (sym (drop_all (page * 10) contacts (omega (arith, h))))
joined-drop contacts page (suc count) h =
    rw
      (
        page_rows_lem contacts page (omega (arith, h)),
        joined-drop contacts (page + 1) count (omega (arith, h)),
        put_before,
      )
      (ap some (rows_at-drop contacts page))

-- The slice of contacts of no page panics, and the rows of all its pages, in their order, are the
-- contacts, each of them once.
pub joined_pages :
    (contacts : List Recipient) → joined contacts 0 (pages_of contacts) ≡ some contacts
joined_pages contacts = joined-drop contacts 0 (pages_of contacts) (omega arith)
