-- ===== src/Consistency/Subproof.antt =====
-- A consistency proof from the bottom up: past the levels where the old size is even it is the hash of
-- the last old node, unless that is the old root, and the audit path of that node.
use dnsid_ts.Common.{
  ℕ, zero, suc, ◌-◌, ◌/◌, ◌%◌, ◌^◌, ◌≤◌, ◌<◌, Bool, true, false, List, [], ◌∷◌, ◌++◌, length, take,
  drop, Bytes, ◌≡◌, refl, sym, ap, ◌∙◌, arith, inl, inr, le_or_lt, length-take, length-drop,
}
use native.Mathlib.Nat.{pow-suc}
use dnsid_ts.Merkle.{next_level}
use dnsid_ts.Merkle.Spec.{tree_hash_at}
use dnsid_ts.Merkle.Levels.{length-next_level, tree_hash_at-next_level, next_level_halves}
use dnsid_ts.Consistency.Spec.{whole_subproof, subproof_at}

module _ (digest : Bytes → Bytes) where
  pub subproof_at_whole :
      (e m : ℕ) (level : List Bytes) (b : Bool)
      → m ≡ length level
      → subproof_at digest e m level b ≡ whole_subproof digest e level b
  unfolding subproof_at
  subproof_at_whole zero m level b h = refl
  subproof_at_whole (suc e) m level b h = ground arith

  module _ (e m : ℕ) (level : List Bytes) (b : Bool) (inside : m < length level) where
    pub subproof_at_narrow :
        length level ≤ 2 ^ e → subproof_at digest (suc e) m level b ≡ subproof_at digest e m level b
    unfolding subproof_at
    subproof_at_narrow h = ground arith

    pub subproof_at_left :
        2 ^ e < length level
        → m ≤ 2 ^ e
        → subproof_at digest (suc e) m level b
          ≡ subproof_at digest e m (take (2 ^ e) level) b
            ++ tree_hash_at digest e (drop (2 ^ e) level) ∷ []
    unfolding subproof_at
    subproof_at_left h k = ground arith

    pub subproof_at_right :
        2 ^ e < length level
        → 2 ^ e < m
        → subproof_at digest (suc e) m level b
          ≡ subproof_at digest e (m - 2 ^ e) (drop (2 ^ e) level) false
            ++ tree_hash_at digest e (take (2 ^ e) level) ∷ []
    unfolding subproof_at
    subproof_at_right h k = ground arith

  whole_subproof-next_level :
      (e : ℕ) (level : List Bytes) (b : Bool)
      → length level ≤ 2 ^ suc e
      → whole_subproof digest (suc e) level b ≡ whole_subproof digest e (next_level digest level) b
  whole_subproof-next_level e level true h = refl
  whole_subproof-next_level e level false h =
      ap (λ r. r ∷ []) (tree_hash_at-next_level digest e level h)

  -- One step of the induction below, in each half of a level.
  module _ (e m : ℕ) (level : List Bytes) (b : Bool) (even : m % 2 ≡ 0) (pos : 0 < m)
      (inside : m < length level) (bound : length level ≤ 2 ^ suc (suc e))
      (large : 2 ^ suc e < length level) where
    next_inside : m / 2 < length (next_level digest level)
    next_inside = omega (arith, length-next_level digest level)

    next_large : 2 ^ e < length (next_level digest level)
    next_large = omega (arith, length-next_level digest level, pow-suc 2 e)

    subproof_at_left_step :
        m ≤ 2 ^ suc e
        → subproof_at digest (suc e) m (take (2 ^ suc e) level) b
          ≡ subproof_at digest e (m / 2) (next_level digest (take (2 ^ suc e) level)) b
        → subproof_at digest (suc (suc e)) m level b
          ≡ subproof_at digest (suc e) (m / 2) (next_level digest level) b
    subproof_at_left_step left ih = rw (
      subproof_at_left (suc e) m level b inside large left,
      ih,
      tree_hash_at-next_level digest e (drop (2 ^ suc e) level)
          (omega (arith, length-drop (2 ^ suc e) level, pow-suc 2 (suc e))),
      (next_level_halves digest e level).0,
      (next_level_halves digest e level).1,
      subproof_at_left e (m / 2) (next_level digest level) b next_inside next_large
          (omega (arith, pow-suc 2 e)),
    )

    subproof_at_right_step :
        2 ^ suc e < m
        → subproof_at digest (suc e) (m - 2 ^ suc e) (drop (2 ^ suc e) level) false
          ≡ subproof_at digest e
              ((m - 2 ^ suc e) / 2)
              (next_level digest (drop (2 ^ suc e) level))
              false
        → subproof_at digest (suc (suc e)) m level b
          ≡ subproof_at digest (suc e) (m / 2) (next_level digest level) b
    subproof_at_right_step right ih =
        let half : (m - 2 ^ suc e) / 2 ≡ m / 2 - 2 ^ e = omega (arith, pow-suc 2 e) in
        rw (
          subproof_at_right (suc e) m level b inside large right,
          ih,
          tree_hash_at-next_level digest e (take (2 ^ suc e) level)
              (omega (arith, length-take (2 ^ suc e) level)),
          (next_level_halves digest e level).0,
          (next_level_halves digest e level).1,
          subproof_at_right e (m / 2) (next_level digest level) b next_inside next_large
              (omega (arith, pow-suc 2 e)),
          half,
        )

  subproof_at-next_level_full :
      (e m : ℕ) (level : List Bytes) (b : Bool)
      → m ≡ length level
      → m % 2 ≡ 0
      → length level ≤ 2 ^ suc e
      → subproof_at digest (suc e) m level b
        ≡ subproof_at digest e (m / 2) (next_level digest level) b
  subproof_at-next_level_full e m level b full even k =
      subproof_at_whole (suc e) m level b full
      ∙ whole_subproof-next_level e level b k
      ∙ sym (
          subproof_at_whole e (m / 2) (next_level digest level) b
            (omega (arith, length-next_level digest level)))

  -- An even number of old nodes is half as many old nodes of the next level.
  pub subproof_at-next_level :
      (e m : ℕ) (level : List Bytes) (b : Bool)
      → m % 2 ≡ 0
      → 0 < m
      → m ≤ length level
      → length level ≤ 2 ^ suc e
      → subproof_at digest (suc e) m level b
        ≡ subproof_at digest e (m / 2) (next_level digest level) b
  subproof_at-next_level zero m level b even pos h k =
      subproof_at-next_level_full zero m level b (omega arith) even k
  subproof_at-next_level (suc e) m level b even pos h k = elim (le_or_lt (length level) m) [
    | inl full ↦ subproof_at-next_level_full (suc e) m level b (omega arith) even k
    | inr inside ↦ elim (le_or_lt (length level) (2 ^ suc e)) [
      | inl small ↦
          subproof_at_narrow (suc e) m level b inside small
          ∙ subproof_at-next_level e m level b even pos h small
          ∙ sym (
              subproof_at_narrow e (m / 2) (next_level digest level) b
                (omega (arith, length-next_level digest level))
                (omega (arith, length-next_level digest level, pow-suc 2 e)))
      | inr large ↦ elim (le_or_lt m (2 ^ suc e)) [
        | inl left ↦ subproof_at_left_step e m level b even pos inside k large left (
            subproof_at-next_level e m (take (2 ^ suc e) level) b even pos
              (omega (arith, length-take (2 ^ suc e) level))
              (omega (arith, length-take (2 ^ suc e) level)))
        | inr right ↦ subproof_at_right_step e m level b even pos inside k large right (
            subproof_at-next_level e (m - 2 ^ suc e) (drop (2 ^ suc e) level) false
              (omega (arith, pow-suc 2 e)) (omega arith)
              (omega (arith, length-drop (2 ^ suc e) level))
              (omega (arith, length-drop (2 ^ suc e) level, pow-suc 2 (suc e))))
      ]
    ]
  ]
