-- ===== src/Consistency/Spec.antt =====
-- The consistency proof of RFC 6962, section 2.1.2: PROOF(m, D) is SUBPROOF(m, D, true). As in the tree
-- hash, at most 2^(e + 1) hashes are split after the first 2^e where there are more than that.
use dnsid_ts.Common.{
  ℕ, zero, suc, ◌-◌, ◌^◌, Bool, true, false, List, [], ◌∷◌, ◌++◌, length, map, take, drop, leb,
  ◌==◌, if◌then◌else◌, Bytes,
}
use dnsid_ts.Merkle.{leaf_hash}
use dnsid_ts.Merkle.Spec.{tree_hash_at}

module _ (digest : Bytes → Bytes) where
  -- SUBPROOF(m, D[m], b)
  abbrev pub whole_subproof : ℕ → List Bytes → Bool → List Bytes
  whole_subproof e level true = []
  whole_subproof e level false = tree_hash_at digest e level ∷ []

  unfoldable pub subproof_at : ℕ → ℕ → List Bytes → Bool → List Bytes
  subproof_at zero m level b = whole_subproof zero level b
  subproof_at (suc e) m level b =
      let narrow = subproof_at e m level b in
      let in_left =
        subproof_at e m (take (2 ^ e) level) b ++ tree_hash_at digest e (drop (2 ^ e) level) ∷ [] in
      let in_right =
        subproof_at e (m - 2 ^ e) (drop (2 ^ e) level) false
        ++ tree_hash_at digest e (take (2 ^ e) level) ∷ [] in
      if m == length level
      then whole_subproof (suc e) level b
      else if leb (length level) (2 ^ e)
      then narrow
      else if leb m (2 ^ e)
      then in_left
      else in_right

  unfoldable pub consistency_proof : ℕ → List Bytes → List Bytes
  consistency_proof m entries = subproof_at (length entries) m (map (leaf_hash digest) entries) true
