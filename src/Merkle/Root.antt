-- ===== src/Merkle/Root.antt =====
-- `merkleRootFromEntries` computes the tree hash of RFC 6962.
use dnsid_ts.Common.{
  ℕ, zero, suc, ◌+◌, ◌^◌, ◌≤◌, ◌<◌, List, [], ◌∷◌, length, take, drop, Bytes, map, ◌≡◌, refl, sym,
  ◌∙◌, ap, arith, some, length-map, take-map, drop-map, length-take, length-drop,
}
use native.Mathlib.Nat.{pow-suc, zero-add, add_comm}
use dnsid_ts.Merkle.{node_hash, leaf_hash, next_level, level_loop, merkle_root_from_entries}
use dnsid_ts.Merkle.Spec.{tree_hash_at, tree_hash}
use dnsid_ts.Merkle.Levels.{
  length-next_level, tree_hash_at-next_level, tree_hash_at_narrow, tree_hash_at_split, lt-pow,
  pow_pos, pow-le-add,
}

module _ (digest : Bytes → Bytes) where
  pub tree_hash_at-singleton : (e : ℕ) (x : Bytes) → tree_hash_at digest e (x ∷ []) ≡ x
  unfolding tree_hash_at
  tree_hash_at-singleton zero x = refl
  tree_hash_at-singleton (suc e) x =
      tree_hash_at_narrow digest e (x ∷ []) (pow_pos e) ∙ tree_hash_at-singleton e x

  level_loop_lem :
      (fuel e : ℕ) (x : Bytes) (rest : List Bytes)
      → length (x ∷ rest) ≤ 2 ^ e
      → length (x ∷ rest) ≤ suc fuel
      → level_loop digest fuel (x ∷ rest) ≡ some (tree_hash_at digest e (x ∷ rest))
  unfolding level_loop next_level
  level_loop_lem fuel e x [] h k = ap some (sym (tree_hash_at-singleton e x))
  level_loop_lem zero e x (y ∷ rest) h k = absurd (omega arith)
  level_loop_lem (suc fuel) zero x (y ∷ rest) h k = absurd (omega arith)
  level_loop_lem (suc fuel) (suc e) x (y ∷ rest) h k =
      rw (tree_hash_at-next_level digest e (x ∷ y ∷ rest) h) (
        level_loop_lem fuel e (node_hash digest x y) (next_level digest rest)
          (omega (arith, length-next_level digest rest, pow-suc 2 e))
          (omega (arith, length-next_level digest rest)))

  -- Two heights that are both enough give the same tree.
  pub tree_hash_at_height :
      (k e : ℕ) (level : List Bytes)
      → length level ≤ 2 ^ e
      → tree_hash_at digest (k + e) level ≡ tree_hash_at digest e level
  tree_hash_at_height zero e level h = rw zero-add
  tree_hash_at_height (suc k) e level h =
      let next : suc k + e ≡ suc (k + e) = omega arith in
      rw next (
        tree_hash_at_narrow digest (k + e) level (omega (arith, pow-le-add k e))
        ∙ tree_hash_at_height k e level h)

  pub tree_hash_at_heights :
      (d e : ℕ) (level : List Bytes)
      → length level ≤ 2 ^ d
      → length level ≤ 2 ^ e
      → tree_hash_at digest d level ≡ tree_hash_at digest e level
  tree_hash_at_heights d e level h k =
      sym (tree_hash_at_height e d level h)
      ∙ ap (λ n. tree_hash_at digest n level) (add_comm e d)
      ∙ tree_hash_at_height d e level k

  -- Building the tree level by level, on any list of entries, ends and returns its RFC 6962 tree hash.
  pub merkle_root_from_entries-eq-tree_hash :
      (entries : List Bytes)
      → merkle_root_from_entries digest entries ≡ some (tree_hash digest entries)
  unfolding merkle_root_from_entries tree_hash
  merkle_root_from_entries-eq-tree_hash [] = refl
  merkle_root_from_entries-eq-tree_hash (e ∷ entries) =
      level_loop_lem (length (e ∷ entries)) (length (e ∷ entries)) (leaf_hash digest e)
        (map (leaf_hash digest) entries)
        (omega (arith, length-map (leaf_hash digest) entries, lt-pow (length (e ∷ entries))))
        (omega (arith, length-map (leaf_hash digest) entries))

  -- The same, with the length of the list as the height that `tree_hash` fixes.
  pub tree_hash-eq-at :
      (e : ℕ) (entries : List Bytes)
      → 0 < length entries
      → length entries ≤ 2 ^ e
      → tree_hash digest entries ≡ tree_hash_at digest e (map (leaf_hash digest) entries)
  unfolding tree_hash
  tree_hash-eq-at e [] h k = absurd (omega arith)
  tree_hash-eq-at e (x ∷ entries) h k =
      tree_hash_at_heights (length (x ∷ entries)) e (map (leaf_hash digest) (x ∷ entries))
        (omega (arith, length-map (leaf_hash digest) entries, lt-pow (length (x ∷ entries))))
        (omega (arith, length-map (leaf_hash digest) entries))

  tree_hash_split :
      (e : ℕ) (entries : List Bytes)
      → 2 ^ e < length entries
      → length entries ≤ 2 ^ suc e
      → tree_hash digest entries
        ≡ node_hash digest
            (tree_hash digest (take (2 ^ e) entries))
            (tree_hash digest (drop (2 ^ e) entries))
  tree_hash_split e entries h k = rw (
    tree_hash-eq-at (suc e) entries (omega arith) k,
    tree_hash_at_split digest e (map (leaf_hash digest) entries)
        (omega (arith, length-map (leaf_hash digest) entries)),
    take-map (leaf_hash digest) (2 ^ e) entries,
    drop-map (leaf_hash digest) (2 ^ e) entries,
    tree_hash-eq-at e (take (2 ^ e) entries) (omega (arith, length-take (2 ^ e) entries, pow_pos e))
        (omega (arith, length-take (2 ^ e) entries)),
    tree_hash-eq-at e (drop (2 ^ e) entries) (omega (arith, length-drop (2 ^ e) entries))
        (omega (arith, length-drop (2 ^ e) entries, pow-suc 2 e)),
  )

  -- The root of n > 1 entries joins the roots of the first k and of the others, where k is the
  -- largest power of two below n.
  pub merkle_root_from_entries_split :
      (e : ℕ) (entries : List Bytes)
      → 2 ^ e < length entries
      → length entries ≤ 2 ^ suc e
      → (left : Bytes) × (right : Bytes) × (merkle_root_from_entries digest (take (2 ^ e) entries)
          ≡ some left)
        × (merkle_root_from_entries digest (drop (2 ^ e) entries) ≡ some right)
        × (merkle_root_from_entries digest entries ≡ some (node_hash digest left right))
  merkle_root_from_entries_split e entries h k = (
    tree_hash digest (take (2 ^ e) entries),
    tree_hash digest (drop (2 ^ e) entries),
    merkle_root_from_entries-eq-tree_hash (take (2 ^ e) entries),
    merkle_root_from_entries-eq-tree_hash (drop (2 ^ e) entries),
    merkle_root_from_entries-eq-tree_hash entries ∙ ap some (tree_hash_split e entries h k),
  )
