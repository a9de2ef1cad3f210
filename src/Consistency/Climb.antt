-- ===== src/Consistency/Climb.antt =====
-- The loop of `verifyC2spConsistencyProof` along an audit path: it computes the roots of both trees.
use dnsid_ts.Common.{
  ℕ, zero, suc, ◌-◌, ◌/◌, ◌^◌, ◌≤◌, ◌<◌, Bool, ◌&&◌, List, [], ◌++◌, length, get_or, take, Bytes,
  bytes_eq, ◌≡◌, refl, sym, ap, ◌∙◌, arith, ◌⊎◌, inl, inr, le_or_lt,
}
use native.Mathlib.Nat.{pow-suc}
use dnsid_ts.Merkle.{next_level}
use dnsid_ts.Merkle.Spec.{sibling_at, tree_hash_at, audit_path_at}
use dnsid_ts.Merkle.Levels.{
  double, double-eq, length-next_level, take-next_level, tree_hash_at-next_level,
}
use dnsid_ts.Merkle.AuditPath.{audit_path_at-next_level, get_or-take}
use dnsid_ts.Merkle.Inclusion.{
  parity_cases, sibling_at_odd, sibling_at_even, sibling_at_last, get_or-next_level,
  get_or-next_level_last,
}
use dnsid_ts.Consistency.{proof_loop}
use dnsid_ts.Consistency.Shifts.{take-take, proof_loop-double, proof_loop_odd, proof_loop_even}

module _ (digest : Bytes → Bytes) (from_root to_root : Bytes) where
  -- One level of both trees: the old one ends with node `o`, and is the first part of the new one.
  module _ (k : ℕ) (os ns proof : List Bytes) where
    -- What the loop does on the next level, with the last node of the old one there.
    abbrev next_loop : Bool
    next_loop =
        proof_loop digest from_root to_root k (length (next_level digest ns) - 1)
          (get_or (next_level digest os) k []) (get_or (next_level digest ns) k []) proof

    climb_odd :
        length os ≡ suc (suc (double k))
        → suc (double k) < length ns
        → get_or os (double k) [] ≡ get_or ns (double k) []
        → proof_loop digest from_root to_root
            (suc (double k))
            (length ns - 1)
            (get_or os (suc (double k)) [])
            (get_or ns (suc (double k)) [])
            (sibling_at (suc (double k)) ns ++ proof)
          ≡ next_loop
    climb_odd last inside agree =
        let next : length (next_level digest ns) - 1 ≡ (length ns - 1) / 2 =
          omega (arith, length-next_level digest ns) in
        rw (
          sibling_at_odd k ns,
          proof_loop_odd digest from_root to_root k (length ns - 1) _ _ _ proof (omega arith),
          get_or-next_level digest k os (omega arith),
          get_or-next_level digest k ns inside,
          agree,
          next,
        )

    climb_even :
        length os ≡ suc (double k)
        → suc (double k) < length ns
        → proof_loop digest from_root to_root
            (double k)
            (length ns - 1)
            (get_or os (double k) [])
            (get_or ns (double k) [])
            (sibling_at (double k) ns ++ proof)
          ≡ next_loop
    climb_even last inside =
        let next : length (next_level digest ns) - 1 ≡ (length ns - 1) / 2 =
          omega (arith, length-next_level digest ns) in
        rw (
          sibling_at_even k ns inside,
          proof_loop_even digest from_root to_root k (length ns - 1) _ _ _ proof (omega arith),
          get_or-next_level_last digest k os (sym last),
          get_or-next_level digest k ns inside,
          next,
        )

    climb_last :
        length os ≡ suc (double k)
        → length ns ≡ suc (double k)
        → proof_loop digest from_root to_root
            (double k)
            (length ns - 1)
            (get_or os (double k) [])
            (get_or ns (double k) [])
            (sibling_at (double k) ns ++ proof)
          ≡ next_loop
    climb_last last end =
        let next : length (next_level digest ns) - 1 ≡ k =
          omega (arith, length-next_level digest ns, double-eq k) in
        let here : length ns - 1 ≡ double k = omega arith in
        rw
          (
            sibling_at_last k ns (sym end),
            get_or-next_level_last digest k os (sym last),
            get_or-next_level_last digest k ns (sym end),
            next,
            here,
          )
          (proof_loop-double digest from_root to_root k _ _ proof)

  climb :
      (o : ℕ) (os ns proof : List Bytes)
      → length os ≡ suc o
      → o < length ns
      → take o os ≡ take o ns
      → proof_loop digest from_root to_root o
          (length ns - 1)
          (get_or os o [])
          (get_or ns o [])
          (sibling_at o ns ++ proof)
        ≡ next_loop (o / 2) os ns proof
  climb o os ns proof last inside agree = at_parity (o / 2) o (parity_cases o) last inside agree
    where
      at_parity :
          (k j : ℕ)
          → (j ≡ double k) ⊎ (j ≡ suc (double k))
          → length os ≡ suc j
          → j < length ns
          → take j os ≡ take j ns
          → proof_loop digest from_root to_root j
              (length ns - 1)
              (get_or os j [])
              (get_or ns j [])
              (sibling_at j ns ++ proof)
            ≡ next_loop k os ns proof
      at_parity k j (inr odd) last inside agree = rw odd (
          climb_odd k os ns proof (omega arith) (omega arith) (
            sym (get_or-take j (double k) os [] (omega arith))
            ∙ ap (λ level. get_or level (double k) []) agree
            ∙ get_or-take j (double k) ns [] (omega arith)))
      at_parity k j (inl even) last inside agree = elim (le_or_lt (length ns) (suc j)) [
        | inl end ↦ rw even (climb_last k os ns proof (omega arith) (omega arith))
        | inr more ↦ rw even (climb_even k os ns proof (omega arith) (omega arith))
      ]

  take-next_level_half :
      (o : ℕ) (os ns : List Bytes)
      → take o os ≡ take o ns
      → take (o / 2) (next_level digest os) ≡ take (o / 2) (next_level digest ns)
  take-next_level_half o os ns agree =
      let fewer : double (o / 2) ≤ o = omega (arith, double-eq (o / 2)) in
      take-next_level digest (o / 2) os
      ∙ ap (next_level digest) (
          sym (take-take (double (o / 2)) o os fewer)
          ∙ ap (take (double (o / 2))) agree
          ∙ take-take (double (o / 2)) o ns fewer)
      ∙ sym (take-next_level digest (o / 2) ns)

  -- From the last old node on every level up to the roots.
  pub proof_loop-audit_path :
      (e o : ℕ) (os ns : List Bytes)
      → length os ≡ suc o
      → o < length ns
      → length ns ≤ 2 ^ e
      → take o os ≡ take o ns
      → proof_loop digest from_root to_root o
          (length ns - 1)
          (get_or os o [])
          (get_or ns o [])
          (audit_path_at digest e o ns)
        ≡ (bytes_eq (tree_hash_at digest e os) from_root
            && bytes_eq (tree_hash_at digest e ns) to_root)
  proof_loop-audit_path zero o os ns last inside k agree =
      let first : o ≡ 0 = omega arith in
      let end : length ns - 1 ≡ 0 = omega arith in
      rw (first, end) (unfold proof_loop audit_path_at tree_hash_at in refl)
  proof_loop-audit_path (suc e) o os ns last inside k agree =
      rw
        (
          audit_path_at-next_level digest e o ns inside k,
          climb o os ns _ last inside agree,
          tree_hash_at-next_level digest e os (omega arith),
          tree_hash_at-next_level digest e ns k,
        )
        (proof_loop-audit_path e (o / 2) (next_level digest os) (next_level digest ns)
          (omega (arith, length-next_level digest os)) (omega (arith, length-next_level digest ns))
          (omega (arith, length-next_level digest ns, pow-suc 2 e))
          (take-next_level_half o os ns agree))
