-- ===== src/Samples/Sized.antt =====
-- The sample with digests of the right size, under which addresses are valid, for tests.
use grapheno.Base.{ℕ, List, [], ◌∷◌}
use grapheno.Primitives.{Primitives}
use grapheno.Samples.{sample}

abbrev pub twenty : List ℕ
twenty =
    1 ∷ 2 ∷ 3 ∷ 4 ∷ 5 ∷ 6 ∷ 7 ∷ 8 ∷ 9 ∷ 10 ∷ 11 ∷ 12 ∷ 13 ∷ 14 ∷ 15 ∷ 16 ∷ 17 ∷ 18 ∷ 19 ∷ 20 ∷ []

abbrev pub thirty_two : List ℕ
thirty_two = 9 ∷ 8 ∷ 7 ∷ 6 ∷ 5 ∷ 4 ∷ 3 ∷ 2 ∷ 1 ∷ 0 ∷ 1 ∷ 2 ∷ twenty

-- Digests of the right size, whatever is digested.
unfoldable pub sized : Primitives
unfolding sample
sized = record sample { sha256 = λ bytes. thirty_two; ripemd160 = λ bytes. twenty }
