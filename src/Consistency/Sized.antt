-- ===== src/Consistency/Sized.antt =====
-- Every hash of a consistency proof has 32 bytes, under a digest of 32 bytes.
use native.Mathlib.Nat.{pow-suc}
use dnsid_ts.Common.{
  ℕ, zero, suc, ◌-◌, ◌^◌, ◌≤◌, ◌<◌, Bool, true, false, List, [], ◌∷◌, length, take, drop, map, All,
  All-append, All-drop, Bytes, ◌≡◌, refl, arith, inl, inr, le_or_lt, length-take, length-drop,
}
use dnsid_ts.Merkle.{sha256, node_hash, leaf_hash}
use dnsid_ts.Merkle.Spec.{tree_hash_at}
use dnsid_ts.Merkle.Levels.{tree_hash_at_narrow, tree_hash_at_split, pow_pos}
use dnsid_ts.Consistency.{all_sized}
use dnsid_ts.Consistency.Spec.{whole_subproof, subproof_at}
use dnsid_ts.Consistency.Subproof.{
  subproof_at_whole, subproof_at_narrow, subproof_at_left, subproof_at_right,
}

abbrev pub HasSize : Bytes → Type 0
HasSize hash = length hash ≡ 32

All-take : (n : ℕ) (xs : List Bytes) → All HasSize xs → All HasSize (take n xs)
All-take zero xs h = tt
All-take (suc n) [] h = tt
All-take (suc n) (x ∷ xs) (p, h) = (p, All-take n xs h)

pub all_sized_lem : (xs : List Bytes) → All HasSize xs → all_sized xs ≡ true
all_sized_lem [] h = refl
all_sized_lem (x ∷ xs) (p, h) = ground (arith, p, all_sized_lem xs h)

module _ (digest : Bytes → Bytes) (sized : (bytes : Bytes) → HasSize (digest bytes)) where
  node_hash-HasSize : (l r : Bytes) → HasSize (node_hash digest l r)
  unfolding node_hash sha256
  node_hash-HasSize l r = sized _

  pub leaves-HasSize : (entries : List Bytes) → All HasSize (map (leaf_hash digest) entries)
  unfolding leaf_hash sha256
  leaves-HasSize [] = tt
  leaves-HasSize (e ∷ entries) = (sized _, leaves-HasSize entries)

  pub tree_hash_at-HasSize :
      (e : ℕ) (level : List Bytes)
      → 0 < length level
      → All HasSize level
      → HasSize (tree_hash_at digest e level)
  unfolding tree_hash_at
  tree_hash_at-HasSize e [] h all = absurd (omega arith)
  tree_hash_at-HasSize zero (x ∷ xs) h (p, all) = p
  tree_hash_at-HasSize (suc e) (x ∷ xs) h all = elim (le_or_lt (length (x ∷ xs)) (2 ^ e)) [
    | inl small ↦
        rw (tree_hash_at_narrow digest e (x ∷ xs) small) (tree_hash_at-HasSize e (x ∷ xs) h all)
    | inr large ↦ rw (tree_hash_at_split digest e (x ∷ xs) large) (node_hash-HasSize _ _)
  ]

  whole_subproof-HasSize :
      (e : ℕ) (level : List Bytes) (b : Bool)
      → 0 < length level
      → All HasSize level
      → All HasSize (whole_subproof digest e level b)
  whole_subproof-HasSize e level true h all = tt
  whole_subproof-HasSize e level false h all = (tree_hash_at-HasSize e level h all, tt)

  pub subproof_at-HasSize :
      (e m : ℕ) (level : List Bytes) (b : Bool)
      → 0 < m
      → m ≤ length level
      → length level ≤ 2 ^ e
      → All HasSize level
      → All HasSize (subproof_at digest e m level b)
  subproof_at-HasSize zero m level b pos h k all =
      rw (subproof_at_whole digest zero m level b (omega arith))
        (whole_subproof-HasSize zero level b (omega arith) all)
  subproof_at-HasSize (suc e) m level b pos h k all = elim (le_or_lt (length level) m) [
    | inl full ↦
        rw (subproof_at_whole digest (suc e) m level b (omega arith))
          (whole_subproof-HasSize (suc e) level b (omega arith) all)
    | inr inside ↦ elim (le_or_lt (length level) (2 ^ e)) [
      | inl small ↦
          rw (subproof_at_narrow digest e m level b inside small)
            (subproof_at-HasSize e m level b pos h small all)
      | inr large ↦ elim (le_or_lt m (2 ^ e)) [
        | inl left ↦ rw (subproof_at_left digest e m level b inside large left) (
            All-append HasSize _ _
              (subproof_at-HasSize e m (take (2 ^ e) level) b pos
                (omega (arith, length-take (2 ^ e) level))
                (omega (arith, length-take (2 ^ e) level)) (All-take (2 ^ e) level all))
              (
                tree_hash_at-HasSize e (drop (2 ^ e) level)
                    (omega (arith, length-drop (2 ^ e) level)) (All-drop HasSize (2 ^ e) level all),
                tt,
              ))
        | inr right ↦ rw (subproof_at_right digest e m level b inside large right) (
            All-append HasSize _ _
              (subproof_at-HasSize e (m - 2 ^ e) (drop (2 ^ e) level) false (omega arith)
                (omega (arith, length-drop (2 ^ e) level))
                (omega (arith, length-drop (2 ^ e) level, pow-suc 2 e))
                (All-drop HasSize (2 ^ e) level all))
              (
                tree_hash_at-HasSize e (take (2 ^ e) level)
                    (omega (arith, length-take (2 ^ e) level, pow_pos e))
                    (All-take (2 ^ e) level all),
                tt,
              ))
      ]
    ]
  ]
