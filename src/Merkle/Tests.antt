-- ===== src/Merkle/Tests.antt =====
-- Runs of the Merkle root, and its theorems at concrete inputs.
use grapheno.Base.{ℕ, ◌≡◌, refl, [], ◌∷◌, some, arith}
use grapheno.Types.{Transaction}
use grapheno.Hashing.{hash_transaction, hash_pair}
use grapheno.Samples.{
  sample, code_pair, code_transaction, code_pair_left, code_pair_right, code_transaction_inj,
}
use grapheno.Merkle.{climb, leaves, calculate}
use grapheno.Merkle.Shape.{calculate-climb, calculate-repeat_last}
use grapheno.Merkle.Binding.{IsCollisionFree, calculate_inj}

hash_pair-sample : (a b : ℕ) → hash_pair sample a b ≡ code_pair a b
unfolding hash_pair sample
hash_pair-sample a b = omega arith

hash_transaction-sample : (t : Transaction) → hash_transaction sample t ≡ code_transaction t
unfolding hash_transaction sample
hash_transaction-sample t = omega arith

sample-IsCollisionFree : IsCollisionFree sample
sample-IsCollisionFree = record {
  pair_left = λ a b c d e. code_pair_left a b c d (cc (hash_pair-sample a b, hash_pair-sample c d));
  pair_right =
      λ a b c d e. code_pair_right a b c d (cc (hash_pair-sample a b, hash_pair-sample c d));
  transactions =
      λ s t e. code_transaction_inj s t (cc (hash_transaction-sample s, hash_transaction-sample t));
}

abbrev pay : ℕ → Transaction
pay v = record { inputs = []; outputs = record { value = v; unique_id = 1; address = [] } ∷ [] }

two-leaves :
    calculate sample (pay 1 ∷ pay 2 ∷ [])
    ≡ hash_pair sample (hash_transaction sample (pay 1)) (hash_transaction sample (pay 2))
unfolding calculate
two-leaves = refl

calculate-climb_example :
    climb sample 3 (leaves sample (pay 1 ∷ pay 2 ∷ pay 3 ∷ []))
    ≡ some (calculate sample (pay 1 ∷ pay 2 ∷ pay 3 ∷ []))
calculate-climb_example = calculate-climb sample (pay 1 ∷ pay 2 ∷ pay 3 ∷ []) (omega arith)

calculate-repeat_last_example :
    calculate sample (pay 1 ∷ pay 2 ∷ pay 3 ∷ pay 3 ∷ [])
    ≡ calculate sample (pay 1 ∷ pay 2 ∷ pay 3 ∷ [])
calculate-repeat_last_example =
    calculate-repeat_last sample (pay 1 ∷ pay 2 ∷ []) (pay 3) (omega arith) (omega arith)

calculate_inj_example : pay 1 ∷ pay 2 ∷ [] ≡ pay 1 ∷ pay 2 ∷ []
calculate_inj_example =
    calculate_inj sample sample-IsCollisionFree (pay 1 ∷ pay 2 ∷ []) (pay 1 ∷ pay 2 ∷ [])
      (omega arith) refl refl
