-- ===== src/Crypto/Tests.antt =====
-- Runs of the address checks, and their theorems at concrete inputs.
use grapheno.Base.{ℕ, ◌≡◌, refl, true, false, some, List, [], ◌∷◌, take, text_eq}
use grapheno.Samples.Sized.{thirty_two, sized}
use grapheno.Crypto.{to_address, validate_address}
use grapheno.Crypto.Address.{IsStandard, validate_address-to_address}

abbrev four : List ℕ
four = 9 ∷ 8 ∷ 7 ∷ 6 ∷ []

sized-IsStandard : IsStandard sized
unfolding sized
sized-IsStandard = record {
  sha256_size = λ bytes. refl;
  ripemd160_size = λ bytes. refl;
  base58_inverse = λ bytes. refl;
}

validate_address-to_address_example : validate_address sized (to_address sized 5) ≡ some true
validate_address-to_address_example = validate_address-to_address sized sized-IsStandard 5

wrong_version : validate_address sized (111 ∷ take 24 (thirty_two)) ≡ some false
unfolding validate_address text_eq sized
wrong_version = refl
