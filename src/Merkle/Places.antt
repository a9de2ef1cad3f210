-- ===== src/Merkle/Places.antt =====
-- Which index an inclusion proof is about.
use dnsid_ts.Common.{ℕ, suc, ◌%◌, ◌<◌, [], ◌∷◌, Bytes, ◌≡◌, arith, true, ok}
use dnsid_ts.Merkle.{inclusion_step, inclusion_loop, inclusion_root, verify_inclusion}

module _ (digest : Bytes → Bytes) where
  -- No check ties the number of hashes in the proof to the index: a proof of one hash that verifies
  -- for the last index of a tree verifies for every odd index of that tree, too.
  pub verify_inclusion_misplaced :
      (entry root sibling : Bytes) (last index : ℕ)
      → index < suc last
      → index % 2 ≡ 1
      → verify_inclusion digest entry last (suc last) root (sibling ∷ []) ≡ ok true
      → verify_inclusion digest entry index (suc last) root (sibling ∷ []) ≡ ok true
  unfolding verify_inclusion inclusion_root inclusion_loop inclusion_step
  verify_inclusion_misplaced entry root sibling last index h odd e = ground arith
