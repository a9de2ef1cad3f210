-- ===== src/Consistency/Completeness.antt =====
-- `verifyC2spConsistencyProof` accepts the consistency proofs of RFC 6962.
use dnsid_ts.Common.{
  ℕ, zero, suc, ◌-◌, ◌^◌, ◌≤◌, ◌<◌, true, some, List, [], ◌∷◌, length, take, map, Bytes,
  bytes_eq_refl, ◌≡◌, refl, sym, ap, ◌∙◌, arith, inl, inr, le_or_lt, length-take, length-map,
  take-map,
}
use dnsid_ts.Merkle.{leaf_hash, merkle_root_from_entries}
use dnsid_ts.Merkle.Spec.{tree_hash_at}
use dnsid_ts.Merkle.Levels.{lt-pow}
use dnsid_ts.Merkle.Root.{tree_hash-eq-at, merkle_root_from_entries-eq-tree_hash}
use dnsid_ts.Consistency.Sized.{
  HasSize, all_sized_lem, leaves-HasSize, tree_hash_at-HasSize, subproof_at-HasSize,
}
use dnsid_ts.Consistency.{all_sized, from_indices, verify_consistency_proof}
use dnsid_ts.Consistency.Spec.{subproof_at, consistency_proof}
use dnsid_ts.Consistency.Subproof.{subproof_at_whole}
use dnsid_ts.Consistency.Indices.{from_indices-subproof_at}

take-all : (n : ℕ) (xs : List Bytes) → length xs ≤ n → take n xs ≡ xs
take-all zero [] h = refl
take-all zero (x ∷ xs) h = absurd (omega arith)
take-all (suc n) [] h = refl
take-all (suc n) (x ∷ xs) h = ap (λ r. x ∷ r) (take-all n xs (omega arith))

module _ (digest : Bytes → Bytes) where
  root_at :
      (e : ℕ) (entries : List Bytes) (root : Bytes)
      → 0 < length entries
      → length entries ≤ 2 ^ e
      → merkle_root_from_entries digest entries ≡ some root
      → tree_hash_at digest e (map (leaf_hash digest) entries) ≡ root
  root_at e entries root h k r = cc (
    r,
    tree_hash-eq-at digest e entries h k,
    merkle_root_from_entries-eq-tree_hash digest entries,
  )

  module _ (sized : (bytes : Bytes) → HasSize (digest bytes)) (m : ℕ) (entries : List Bytes)
      (from_root to_root : Bytes) (pos : 0 < m)
      (from : merkle_root_from_entries digest (take m entries) ≡ some from_root)
      (to : merkle_root_from_entries digest entries ≡ some to_root) where
    root_sizes : m ≤ length entries → HasSize from_root × HasSize to_root
    root_sizes h =
        let e = length entries in
        (
          rw
              (sym (
                root_at e (take m entries) from_root (omega (arith, length-take m entries))
                  (omega (arith, length-take m entries, lt-pow e)) from))
              (tree_hash_at-HasSize digest sized e _
                (omega
                  (arith, length-map (leaf_hash digest) (take m entries), length-take m entries))
                (leaves-HasSize digest sized (take m entries))),
          rw (sym (root_at e entries to_root (omega arith) (omega (arith, lt-pow e)) to)) (
              tree_hash_at-HasSize digest sized e _
                (omega (arith, length-map (leaf_hash digest) entries))
                (leaves-HasSize digest sized entries)),
        )

    proof_sized : m ≤ length entries → all_sized (consistency_proof digest m entries) ≡ true
    unfolding consistency_proof
    proof_sized h = all_sized_lem _ (
        subproof_at-HasSize digest sized (length entries) m (map (leaf_hash digest) entries) true
          pos (omega (arith, length-map (leaf_hash digest) entries))
          (omega (arith, length-map (leaf_hash digest) entries, lt-pow (length entries)))
          (leaves-HasSize digest sized entries))

    growing :
        m < length entries
        → from_indices digest from_root to_root
            (m - 1)
            (length entries - 1)
            (consistency_proof digest m entries)
          ≡ true
    unfolding consistency_proof
    growing inside =
        let e = length entries in
        let leaves = map (leaf_hash digest) entries in
        let size : length leaves ≡ e = length-map (leaf_hash digest) entries in
        ap
          (λ n.
            from_indices digest from_root to_root (m - 1) (n - 1)
              (subproof_at digest e m leaves true))
          (sym size)
        ∙ from_indices-subproof_at digest from_root to_root e m leaves pos (omega arith)
            (omega (arith, lt-pow e))
            (ap (tree_hash_at digest e) (take-map (leaf_hash digest) m entries)
              ∙ root_at e (take m entries) from_root (omega (arith, length-take m entries))
                  (omega (arith, length-take m entries, lt-pow e)) from)
            (root_at e entries to_root (omega arith) (omega (arith, lt-pow e)) to)

    staying : m ≡ length entries → (consistency_proof digest m entries ≡ []) × (from_root ≡ to_root)
    unfolding consistency_proof
    staying full =
        let whole : take m entries ≡ entries = take-all m entries (omega arith) in
        (
          subproof_at_whole digest (length entries) m (map (leaf_hash digest) entries) true
              (omega (arith, length-map (leaf_hash digest) entries)),
          cc (from, to, whole),
        )

  -- For a digest of 32 bytes and trees whose sizes are safe integers: the consistency proof of RFC 6962
  -- between the first m entries and all of them, where there are m or more and m is not 0, is accepted for
  -- the roots that are computed from these entries.
  pub verify_consistency_proof-consistency_proof :
      ((bytes : Bytes) → length (digest bytes) ≡ 32)
      → (m : ℕ) (entries : List Bytes) (from_root to_root : Bytes) → 0 < m
      → m ≤ length entries
      → length entries < 2 ^ 53
      → merkle_root_from_entries digest (take m entries) ≡ some from_root
      → merkle_root_from_entries digest entries ≡ some to_root
      → verify_consistency_proof digest from_root to_root m
          (length entries)
          (consistency_proof digest m entries)
        ≡ true
  unfolding verify_consistency_proof
  verify_consistency_proof-consistency_proof sized m entries from_root to_root pos h k from to =
      let size = root_sizes sized m entries from_root to_root pos from to h in
      let nodes = proof_sized sized m entries from_root to_root pos from to h in
      elim (le_or_lt (length entries) m) [
        | inl full ↦
            let same = staying sized m entries from_root to_root pos from to (omega arith) in
            ground (arith, size, nodes, same, bytes_eq_refl to_root)
        | inr inside ↦
            ground
              (arith, size, nodes, growing sized m entries from_root to_root pos from to inside)
      ]
