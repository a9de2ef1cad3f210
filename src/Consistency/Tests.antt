-- ===== src/Consistency/Tests.antt =====
-- A proof between three and five entries, under a digest that a test can follow.
use dnsid_ts.Common.{
  ℕ, zero, suc, ◌+◌, ◌%◌, true, false, some, List, [], ◌∷◌, take, Bytes, bytes_eq, ◌≡◌, refl, arith,
}
use mathlib.Core.List.{flatten}
use dnsid_ts.Merkle.{sha256, leaf_hash, node_hash, next_level, level_loop, merkle_root_from_entries}
use dnsid_ts.Merkle.Spec.{tree_hash_at}
use dnsid_ts.Consistency.{
  shift_odd, shift_even, proof_loop, with_seed, from_indices, verify_consistency_proof,
}
use dnsid_ts.Consistency.Spec.{subproof_at, consistency_proof}
use dnsid_ts.Consistency.Completeness.{verify_consistency_proof-consistency_proof}

abbrev total : Bytes → ℕ
total [] = 0
total (b ∷ bs) = b + total bs

abbrev padding : ℕ → Bytes
padding zero = []
padding (suc n) = 0 ∷ padding n

abbrev digest : Bytes → Bytes
digest bytes = (total bytes % 256) ∷ padding 31

abbrev five : List Bytes
five = (1 ∷ []) ∷ (2 ∷ []) ∷ (3 ∷ []) ∷ (4 ∷ []) ∷ (5 ∷ []) ∷ []

runs : Unit {0}
unfolding bytes_eq flatten sha256 leaf_hash node_hash next_level level_loop merkle_root_from_entries
    tree_hash_at shift_odd shift_even proof_loop with_seed from_indices verify_consistency_proof
    subproof_at consistency_proof
runs = tt

three_root : merkle_root_from_entries digest (take 3 five) ≡ some (8 ∷ padding 31)
unfolding runs
three_root = refl

five_root : merkle_root_from_entries digest five ≡ some (19 ∷ padding 31)
unfolding runs
five_root = refl

-- The third leaf, the fourth, the first two, and the fifth.
three_to_five :
    consistency_proof digest 3 five
    ≡ (3 ∷ padding 31) ∷ (4 ∷ padding 31) ∷ (4 ∷ padding 31) ∷ (5 ∷ padding 31) ∷ []
unfolding runs
three_to_five = refl

refuses :
    verify_consistency_proof digest
      (9 ∷ padding 31)
      (19 ∷ padding 31)
      3
      5
      (consistency_proof digest 3 five)
    ≡ false
unfolding runs
refuses = refl

verify_consistency_proof-consistency_proof_example :
    verify_consistency_proof digest
      (8 ∷ padding 31)
      (19 ∷ padding 31)
      3
      5
      (consistency_proof digest 3 five)
    ≡ true
verify_consistency_proof-consistency_proof_example =
    verify_consistency_proof-consistency_proof digest (λ bytes. refl) 3 five (8 ∷ padding 31)
      (19 ∷ padding 31) (omega arith) (omega arith) (omega arith) three_root five_root
