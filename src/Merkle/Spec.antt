-- ===== src/Merkle/Spec.antt =====
-- The tree of RFC 6962, section 2.1, as its recursive equations give it: over hashes of the leaves, a
-- list of more than 2^e of them and at most 2^(e + 1) is split after the first 2^e.
use dnsid_ts.Common.{
  ℕ, zero, suc, ◌%◌, ◌+◌, ◌==◌, ◌-◌, ◌^◌, List, [], ◌∷◌, ◌++◌, length, get_or, take, drop, ltb, leb,
  if◌then◌else◌, Bytes, map,
}
use dnsid_ts.Merkle.{node_hash, leaf_hash, sha256}

-- The sibling of the node `m` of a level, if it has one.
unfoldable pub sibling_at : ℕ → List Bytes → List Bytes
sibling_at m level =
    if m % 2 == 1
    then get_or level (m - 1) [] ∷ []
    else if ltb m (length level - 1)
    then get_or level (m + 1) [] ∷ []
    else []

module _ (digest : Bytes → Bytes) where
  -- MTH, of at most 2^e hashes; `tree_hash_at 0` of no hash is no hash of the RFC.
  unfoldable pub tree_hash_at : ℕ → List Bytes → Bytes
  tree_hash_at zero level = get_or level 0 []
  tree_hash_at (suc e) level =
      if leb (length level) (2 ^ e)
      then tree_hash_at e level
      else node_hash digest (tree_hash_at e (take (2 ^ e) level))
          (tree_hash_at e (drop (2 ^ e) level))

  -- PATH(m, D): the siblings from the leaf upwards.
  unfoldable pub audit_path_at : ℕ → ℕ → List Bytes → List Bytes
  audit_path_at zero m level = []
  audit_path_at (suc e) m level =
      let narrow = audit_path_at e m level in
      let in_left =
        audit_path_at e m (take (2 ^ e) level) ++ tree_hash_at e (drop (2 ^ e) level) ∷ [] in
      let in_right =
        audit_path_at e (m - 2 ^ e) (drop (2 ^ e) level)
        ++ tree_hash_at e (take (2 ^ e) level) ∷ [] in
      if leb (length level) (2 ^ e) then narrow else if ltb m (2 ^ e) then in_left else in_right

  -- A height that is enough for every list is its length.
  unfoldable pub tree_hash : List Bytes → Bytes
  tree_hash [] = sha256 digest []
  tree_hash (e ∷ entries) =
      tree_hash_at (length (e ∷ entries)) (map (leaf_hash digest) (e ∷ entries))

  unfoldable pub audit_path : ℕ → List Bytes → List Bytes
  audit_path m entries = audit_path_at (length entries) m (map (leaf_hash digest) entries)
