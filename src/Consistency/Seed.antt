-- ===== src/Consistency/Seed.antt =====
-- Where the number of old nodes is odd: the consistency proof is the last old node and its audit path, or
-- the path alone where the old tree is the first node.
use dnsid_ts.Common.{
  ℕ, zero, suc, ◌-◌, ◌%◌, ◌^◌, ◌≤◌, ◌<◌, Bool, true, false, List, [], ◌∷◌, length, get_or, take,
  drop, Bytes, ◌≡◌, refl, ◌∙◌, arith, ◌⊎◌, inl, inr, le_or_lt, length-take, length-drop,
}
use native.Mathlib.Nat.{pow-suc}
use dnsid_ts.Merkle.Spec.{audit_path_at}
use dnsid_ts.Merkle.Levels.{pow_pos}
use dnsid_ts.Merkle.AuditPath.{
  audit_path_at_narrow, audit_path_at_left, audit_path_at_right, get_or-take, get_or-drop,
}
use dnsid_ts.Merkle.Root.{tree_hash_at-singleton}
use dnsid_ts.Consistency.Spec.{subproof_at}
use dnsid_ts.Consistency.Subproof.{
  subproof_at_whole, subproof_at_narrow, subproof_at_left, subproof_at_right,
}

-- 2 ^ e is 1 or even.
pow_parity : (e : ℕ) → (2 ^ e ≡ 1) ⊎ (2 ^ e % 2 ≡ 0)
pow_parity zero = inl refl
pow_parity (suc e) = inr (omega (arith, pow-suc 2 e))

module _ (digest : Bytes → Bytes) where
  audit_path_at-singleton : (e : ℕ) (x : Bytes) → audit_path_at digest e 0 (x ∷ []) ≡ []
  unfolding audit_path_at
  audit_path_at-singleton zero x = refl
  audit_path_at-singleton (suc e) x =
      audit_path_at_narrow digest e 0 (x ∷ []) (omega (arith, pow_pos e))
      ∙ audit_path_at-singleton e x

  subproof_at_single :
      (e : ℕ) (level : List Bytes)
      → length level ≡ 1
      → subproof_at digest e 1 level false ≡ get_or level 0 [] ∷ audit_path_at digest e 0 level
  subproof_at_single e [] h = absurd (omega arith)
  subproof_at_single e (x ∷ y ∷ rest) h = absurd (omega arith)
  subproof_at_single e (x ∷ []) h = rw (
    subproof_at_whole digest e 1 (x ∷ []) false refl,
    tree_hash_at-singleton digest e x,
    audit_path_at-singleton e x,
  )

  -- The path alone.
  pub subproof_at_first :
      (e : ℕ) (level : List Bytes)
      → 0 < length level
      → length level ≤ 2 ^ e
      → subproof_at digest e 1 level true ≡ audit_path_at digest e 0 level
  subproof_at_first e [] h k = absurd (omega arith)
  subproof_at_first e (x ∷ []) h k =
      rw (subproof_at_whole digest e 1 (x ∷ []) true refl, audit_path_at-singleton e x)
  subproof_at_first zero (x ∷ y ∷ rest) h k = absurd (omega arith)
  subproof_at_first (suc e) (x ∷ y ∷ rest) h k =
      let level = x ∷ y ∷ rest in
      elim (le_or_lt (length level) (2 ^ e)) [
        | inl small ↦ rw (
          subproof_at_narrow digest e 1 level true (omega arith) small,
          audit_path_at_narrow digest e 0 level small,
          subproof_at_first e level h small,
        )
        | inr large ↦ rw (
          subproof_at_left digest e 1 level true (omega arith) large (omega (arith, pow_pos e)),
          audit_path_at_left digest e 0 level large (omega (arith, pow_pos e)),
          subproof_at_first e (take (2 ^ e) level)
              (omega (arith, length-take (2 ^ e) level, pow_pos e))
              (omega (arith, length-take (2 ^ e) level)),
        )
      ]

  -- The two halves of the induction step.
  module _ (e m : ℕ) (level : List Bytes) (b : Bool) (odd : m % 2 ≡ 1)
      (ok_b : (b ≡ false) ⊎ (1 < m)) (inside : m < length level) (k : length level ≤ 2 ^ suc e)
      (large : 2 ^ e < length level) where
    odd_left :
        m ≤ 2 ^ e
        → subproof_at digest e m (take (2 ^ e) level) b
          ≡ get_or (take (2 ^ e) level) (m - 1) []
            ∷ audit_path_at digest e (m - 1) (take (2 ^ e) level)
        → subproof_at digest (suc e) m level b
          ≡ get_or level (m - 1) [] ∷ audit_path_at digest (suc e) (m - 1) level
    odd_left left ih = rw (
      subproof_at_left digest e m level b inside large left,
      audit_path_at_left digest e (m - 1) level large (omega arith),
      ih,
      get_or-take (2 ^ e) (m - 1) level [] (omega arith),
    )

    odd_right :
        2 ^ e < m
        → subproof_at digest e (m - 2 ^ e) (drop (2 ^ e) level) false
          ≡ get_or (drop (2 ^ e) level) (m - 2 ^ e - 1) []
            ∷ audit_path_at digest e (m - 2 ^ e - 1) (drop (2 ^ e) level)
        → subproof_at digest (suc e) m level b
          ≡ get_or level (m - 1) [] ∷ audit_path_at digest (suc e) (m - 1) level
    odd_right right ih =
        let index : m - 1 - 2 ^ e ≡ m - 2 ^ e - 1 = omega arith in
        rw (
          subproof_at_right digest e m level b inside large right,
          audit_path_at_right digest e (m - 1) level large (omega arith),
          ih,
          index,
          get_or-drop (2 ^ e) (m - 1) (m - 2 ^ e - 1) level [] (omega arith),
        )

  -- The last old node, and its path.
  pub subproof_at_odd :
      (e m : ℕ) (level : List Bytes) (b : Bool)
      → m % 2 ≡ 1
      → (b ≡ false) ⊎ (1 < m)
      → m < length level
      → length level ≤ 2 ^ e
      → subproof_at digest e m level b
        ≡ get_or level (m - 1) [] ∷ audit_path_at digest e (m - 1) level
  subproof_at_odd zero m level b odd ok_b inside k = absurd (omega arith)
  subproof_at_odd (suc e) m level b odd ok_b inside k = elim (le_or_lt (length level) (2 ^ e)) [
    | inl small ↦ rw (
      subproof_at_narrow digest e m level b inside small,
      audit_path_at_narrow digest e (m - 1) level small,
      subproof_at_odd e m level b odd ok_b inside small,
    )
    | inr large ↦ elim (le_or_lt m (2 ^ e)) [
      | inr right ↦ odd_right e m level b odd ok_b inside k large right (
          subproof_at_odd e (m - 2 ^ e) (drop (2 ^ e) level) false
            (elim (pow_parity e) [
              | inl one ↦ absurd (omega (arith, pow-suc 2 e))
              | inr even ↦ omega arith
            ])
            (inl refl) (omega (arith, length-drop (2 ^ e) level))
            (omega (arith, length-drop (2 ^ e) level, pow-suc 2 e)))
      | inl left ↦ odd_left e m level b odd ok_b inside k large left (elim (le_or_lt (2 ^ e) m) [
        | inr less ↦
            subproof_at_odd e m (take (2 ^ e) level) b odd ok_b
              (omega (arith, length-take (2 ^ e) level)) (omega (arith, length-take (2 ^ e) level))
        | inl full ↦ elim (pow_parity e) [
          | inr even ↦ absurd (omega arith)
          | inl one ↦ elim ok_b [
            | inr more ↦ absurd (omega arith)
            | inl small ↦
                let first : m ≡ 1 = omega arith in
                rw (small, first)
                  (subproof_at_single e (take (2 ^ e) level)
                    (omega (arith, length-take (2 ^ e) level)))
          ]
        ]
      ])
    ]
  ]
