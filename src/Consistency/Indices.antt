-- ===== src/Consistency/Indices.antt =====
-- The proof from the indices on, past the levels where the old size is even.
use dnsid_ts.Common.{
  ℕ, zero, suc, ◌-◌, ◌/◌, ◌%◌, ◌^◌, ◌≤◌, ◌<◌, true, ◌&&◌, List, [], ◌∷◌, length, get_or, take,
  Bytes, bytes_eq, bytes_eq_refl, ◌≡◌, refl, sym, ap, ◌∙◌, arith, inl, inr, le_or_lt, length-take,
}
use native.Mathlib.Nat.{pow-suc}
use dnsid_ts.Merkle.{next_level}
use dnsid_ts.Merkle.Spec.{tree_hash_at, audit_path_at}
use dnsid_ts.Merkle.Levels.{
  double, double-eq, length-next_level, take-next_level, tree_hash_at-next_level,
}
use dnsid_ts.Merkle.AuditPath.{get_or-take}
use dnsid_ts.Merkle.Root.{tree_hash_at-singleton}
use dnsid_ts.Consistency.{shift_odd, proof_loop, with_seed, from_indices}
use dnsid_ts.Consistency.Spec.{subproof_at}
use dnsid_ts.Consistency.Subproof.{subproof_at-next_level}
use dnsid_ts.Consistency.Seed.{subproof_at_first, subproof_at_odd}
use dnsid_ts.Consistency.Climb.{proof_loop-audit_path}
use dnsid_ts.Consistency.Shifts.{take-take}

-- As many rounds as the old index are enough.
shift_odd_fuel : (f g o n : ℕ) → o ≤ f → o ≤ g → shift_odd f o n ≡ shift_odd g o n
unfolding shift_odd
shift_odd_fuel zero zero o n h k = refl
shift_odd_fuel zero (suc g) o n h k = let none_left : o ≡ 0 = omega arith in ground arith
shift_odd_fuel (suc f) zero o n h k = let none_left : o ≡ 0 = omega arith in ground arith
shift_odd_fuel (suc f) (suc g) zero n h k = refl
shift_odd_fuel (suc f) (suc g) (suc o) n h k =
    rw (shift_odd_fuel f g (suc o / 2) (n / 2) (omega arith) (omega arith)) refl

shift_odd_step : (f o n : ℕ) → o % 2 ≡ 1 → shift_odd (suc f) o n ≡ shift_odd f (o / 2) (n / 2)
unfolding shift_odd
shift_odd_step f o n odd = ground arith

shift_odd_half : (o n : ℕ) → o % 2 ≡ 1 → shift_odd o o n ≡ shift_odd (o / 2) (o / 2) (n / 2)
shift_odd_half zero n h = absurd (omega arith)
shift_odd_half (suc o) n h =
    shift_odd_step o (suc o) n h
    ∙ shift_odd_fuel o (suc o / 2) (suc o / 2) (n / 2) (omega arith) (omega arith)

module _ (digest : Bytes → Bytes) (e : ℕ) where
  tree_hash_at_first :
      (level : List Bytes)
      → 0 < length level
      → tree_hash_at digest e (take 1 level) ≡ get_or level 0 []
  tree_hash_at_first [] h = absurd (omega arith)
  tree_hash_at_first (x ∷ rest) h = tree_hash_at-singleton digest e x

  -- The root of the first nodes, an even number of them, from the next level.
  tree_hash_at_half :
      (m : ℕ) (level : List Bytes)
      → m % 2 ≡ 0
      → length level ≤ 2 ^ suc e
      → tree_hash_at digest (suc e) (take m level)
        ≡ tree_hash_at digest e (take (m / 2) (next_level digest level))
  tree_hash_at_half m level even k =
      let twice : double (m / 2) ≡ m = omega (arith, double-eq (m / 2)) in
      tree_hash_at-next_level digest e (take m level) (omega (arith, length-take m level))
      ∙ ap (λ n. tree_hash_at digest e (next_level digest (take n level))) (sym twice)
      ∙ ap (tree_hash_at digest e) (sym (take-next_level digest (m / 2) level))

module _ (digest : Bytes → Bytes) (from_root to_root : Bytes) where
  from_indices_even :
      (o n : ℕ) (proof : List Bytes)
      → o % 2 ≡ 0
      → from_indices digest from_root to_root o n proof
        ≡ with_seed digest from_root to_root o n proof
  unfolding from_indices shift_odd
  from_indices_even zero n proof h = refl
  from_indices_even (suc o) n proof h = ground arith

  from_indices_odd :
      (o n : ℕ) (proof : List Bytes)
      → o % 2 ≡ 1
      → from_indices digest from_root to_root o n proof
        ≡ from_indices digest from_root to_root (o / 2) (n / 2) proof
  unfolding from_indices
  from_indices_odd o n proof h = rw (shift_odd_half o n h) refl

  module _ (e : ℕ) (level : List Bytes) (k : length level ≤ 2 ^ e)
      (to : tree_hash_at digest e level ≡ to_root) where
    loop_accepts :
        (o : ℕ)
        → o < length level
        → tree_hash_at digest e (take (suc o) level) ≡ from_root
        → proof_loop digest from_root to_root o
            (length level - 1)
            (get_or level o [])
            (get_or level o [])
            (audit_path_at digest e o level)
          ≡ true
    loop_accepts o inside from =
        let climbed : proof_loop digest from_root to_root o (length level - 1)
              (get_or (take (suc o) level) o []) (get_or level o [])
              (audit_path_at digest e o level)
            ≡ (bytes_eq (tree_hash_at digest e (take (suc o) level)) from_root
                && bytes_eq (tree_hash_at digest e level) to_root) =
          proof_loop-audit_path digest from_root to_root e o (take (suc o) level) level
            (omega (arith, length-take (suc o) level)) inside k
            (take-take o (suc o) level (omega arith)) in
        cc (
          climbed,
          get_or-take (suc o) o level [] (omega arith),
          from,
          to,
          bytes_eq_refl from_root,
          bytes_eq_refl to_root,
        )

    seed_accepts :
        (o : ℕ)
        → o % 2 ≡ 0
        → suc o < length level
        → tree_hash_at digest e (take (suc o) level) ≡ from_root
        → with_seed digest from_root to_root o
            (length level - 1)
            (subproof_at digest e (suc o) level true)
          ≡ true
    unfolding with_seed
    seed_accepts zero even inside from = rw (subproof_at_first digest e level (omega arith) k) (
        ap
          (λ h.
            proof_loop digest from_root to_root 0 (length level - 1) h h
              (audit_path_at digest e 0 level))
          (sym from ∙ tree_hash_at_first digest e level (omega arith))
        ∙ loop_accepts zero (omega arith) from)
    seed_accepts (suc o) even inside from =
        let last : suc (suc o) - 1 ≡ suc o = omega arith in
        rw
          (
            subproof_at_odd digest e (suc (suc o)) level true (omega arith) (inr (omega arith))
                inside k,
            last,
          )
          (loop_accepts (suc o) (omega arith) from)

  -- Both trees as the first and all of the nodes of a level.
  pub from_indices-subproof_at :
      (e m : ℕ) (level : List Bytes)
      → 0 < m
      → m < length level
      → length level ≤ 2 ^ e
      → tree_hash_at digest e (take m level) ≡ from_root
      → tree_hash_at digest e level ≡ to_root
      → from_indices digest from_root to_root
          (m - 1)
          (length level - 1)
          (subproof_at digest e m level true)
        ≡ true
  from_indices-subproof_at zero m level pos inside k from to = absurd (omega arith)
  from_indices-subproof_at (suc e) m level pos inside k from to = elim (le_or_lt 1 (m % 2)) [
    | inl odd ↦
        let whole : suc (m - 1) ≡ m = omega arith in
        rw (from_indices_even (m - 1) (length level - 1) _ (omega arith)) (
          sym (
            ap
              (λ x.
                with_seed digest from_root to_root (m - 1) (length level - 1)
                  (subproof_at digest (suc e) x level true))
              whole)
          ∙ seed_accepts (suc e) level k to (m - 1) (omega arith) (omega arith)
              (ap (λ x. tree_hash_at digest (suc e) (take x level)) whole ∙ from))
    | inr even ↦
        let old : (m - 1) / 2 ≡ m / 2 - 1 = omega arith in
        let new : (length level - 1) / 2 ≡ length (next_level digest level) - 1 =
          omega (arith, length-next_level digest level) in
        rw
          (
            from_indices_odd (m - 1) (length level - 1) _ (omega arith),
            subproof_at-next_level digest e m level true (omega arith) pos (omega arith) k,
            old,
            new,
          )
          (from_indices-subproof_at e (m / 2) (next_level digest level) (omega arith)
            (omega (arith, length-next_level digest level))
            (omega (arith, length-next_level digest level, pow-suc 2 e))
            (sym (tree_hash_at_half digest e m level (omega arith) k) ∙ from)
            (sym (tree_hash_at-next_level digest e level k) ∙ to))
  ]
