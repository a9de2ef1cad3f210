-- ===== src/Merkle/Tests.antt =====
-- The tree at concrete entries, under a digest that a test can follow: the sum of the bytes and their
-- number.
use dnsid_ts.Common.{
  ℕ, take, drop, ◌+◌, List, [], ◌∷◌, Bytes, length, ◌≡◌, refl, ap, sym, bytes_eq, ◌⊎◌, arith, some,
  ok, true, false,
}
use dnsid_ts.Merkle.{
  sha256, leaf_hash, node_hash, next_level, level_loop, inclusion_step, inclusion_loop,
  inclusion_root, merkle_root_from_entries, verify_inclusion,
}
use dnsid_ts.Merkle.Spec.{tree_hash, tree_hash_at, audit_path, audit_path_at}
use dnsid_ts.Merkle.Root.{merkle_root_from_entries-eq-tree_hash, merkle_root_from_entries_split}
use dnsid_ts.Merkle.Inclusion.{verify_inclusion-audit_path}
use dnsid_ts.Merkle.Binding.{Collision, verify_inclusion_binding, verify_inclusion_sound}
use dnsid_ts.Merkle.Places.{verify_inclusion_misplaced}
use mathlib.Core.List.{flatten}

sum : Bytes → ℕ
sum [] = 0
sum (x ∷ xs) = x + sum xs

digest : Bytes → Bytes
digest xs = sum xs ∷ length xs ∷ []

length-digest : (xs : Bytes) → length (digest xs) ≡ 2
unfolding digest
length-digest xs = refl

-- What runs the functions.
runs : Unit {0}
unfolding digest sum sha256 flatten leaf_hash node_hash next_level level_loop inclusion_step
    inclusion_loop inclusion_root merkle_root_from_entries verify_inclusion
runs = tt

abbrev five : List Bytes
five = (1 ∷ []) ∷ (2 ∷ []) ∷ (3 ∷ []) ∷ (4 ∷ []) ∷ (5 ∷ []) ∷ []

abbrev five_root : Bytes
five_root = 44 ∷ 5 ∷ []

abbrev last_proof : List Bytes
last_proof = (31 ∷ 5 ∷ []) ∷ []

root_of_five : merkle_root_from_entries digest five ≡ some five_root
unfolding runs
root_of_five = refl

path_of_last : audit_path digest 4 five ≡ last_proof
unfolding runs audit_path audit_path_at tree_hash_at
path_of_last = refl

last_verifies : verify_inclusion digest (5 ∷ []) 4 5 five_root last_proof ≡ ok true
unfolding runs bytes_eq
last_verifies = refl

other_fails : verify_inclusion digest (6 ∷ []) 4 5 five_root last_proof ≡ ok false
unfolding runs bytes_eq
other_fails = refl

merkle_root_from_entries-eq-tree_hash_example :
    merkle_root_from_entries digest five ≡ some (tree_hash digest five)
merkle_root_from_entries-eq-tree_hash_example = merkle_root_from_entries-eq-tree_hash digest five

merkle_root_from_entries_split_example :
    (left : Bytes) × (right : Bytes) × (merkle_root_from_entries digest (take 4 five) ≡ some left)
    × (merkle_root_from_entries digest (drop 4 five) ≡ some right)
    × (merkle_root_from_entries digest five ≡ some (node_hash digest left right))
merkle_root_from_entries_split_example =
    merkle_root_from_entries_split digest 2 five (omega arith) (omega arith)

verify_inclusion-audit_path_example :
    verify_inclusion digest (3 ∷ []) 2 5 five_root (audit_path digest 2 five) ≡ ok true
verify_inclusion-audit_path_example =
    verify_inclusion-audit_path digest 2 five five_root (omega arith) (omega arith) root_of_five

verify_inclusion_binding_example : ((◌≡◌ {A = Bytes} (5 ∷ []) (5 ∷ []))) ⊎ Collision digest
verify_inclusion_binding_example =
    verify_inclusion_binding digest 2 length-digest (5 ∷ []) (5 ∷ []) five_root 4 5 last_proof
      last_proof refl last_verifies last_verifies

verify_inclusion_sound_example : (◌≡◌ {A = Bytes} (5 ∷ []) (5 ∷ [])) ⊎ Collision digest
verify_inclusion_sound_example =
    verify_inclusion_sound digest 2 length-digest 4 five (5 ∷ []) five_root last_proof (omega arith)
      (omega arith) root_of_five (ap length (sym path_of_last)) last_verifies

-- The last of five entries, at index 1.
verify_inclusion_misplaced_example :
    verify_inclusion digest (5 ∷ []) 1 5 five_root last_proof ≡ ok true
verify_inclusion_misplaced_example =
    verify_inclusion_misplaced digest (5 ∷ []) five_root (31 ∷ 5 ∷ []) 4 1 (omega arith) refl
      last_verifies
