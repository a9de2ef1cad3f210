-- ===== src/Merkle/Inclusion.antt =====
-- `verifyInclusion` accepts the audit paths of RFC 6962.
use dnsid_ts.Common.{
  ℕ, zero, suc, ◌+◌, ◌/◌, ◌^◌, ◌≤◌, ◌<◌, List, [], ◌∷◌, ◌++◌, length, get_or, Bytes, map, ◌≡◌, refl,
  ◌∙◌, ap, arith, ◌⊎◌, inl, inr, le_or_lt, length-map, get_or-map, some, ok, true, bytes_eq_refl,
}
use native.Mathlib.Nat.{pow-suc}
use dnsid_ts.Merkle.{
  node_hash, leaf_hash, next_level, inclusion_step, inclusion_loop, inclusion_root,
  merkle_root_from_entries, verify_inclusion,
}
use dnsid_ts.Merkle.Spec.{sibling_at, tree_hash_at, audit_path_at, audit_path}
use dnsid_ts.Merkle.Root.{tree_hash-eq-at, merkle_root_from_entries-eq-tree_hash}
use dnsid_ts.Merkle.AuditPath.{audit_path_at-next_level}
use dnsid_ts.Merkle.Levels.{lt-pow, double, double-eq, length-next_level, tree_hash_at-next_level}

pub parity_cases : (m : ℕ) → (m ≡ double (m / 2)) ⊎ (m ≡ suc (double (m / 2)))
parity_cases m = grind (arith, double-eq (m / 2))

module _ (k : ℕ) (level : List Bytes) where
  pub sibling_at_odd : sibling_at (suc (double k)) level ≡ get_or level (double k) [] ∷ []
  unfolding sibling_at
  sibling_at_odd = ground (arith, double-eq k)

  pub sibling_at_even :
      suc (double k) < length level
      → sibling_at (double k) level ≡ get_or level (suc (double k)) [] ∷ []
  unfolding sibling_at
  sibling_at_even h = ground (arith, double-eq k)

  pub sibling_at_last : suc (double k) ≡ length level → sibling_at (double k) level ≡ []
  unfolding sibling_at
  sibling_at_last h = ground (arith, double-eq k)

module _ (digest : Bytes → Bytes) where
  -- A node that is the last of its level stays the last, and takes every sibling on its left.
  inclusion_loop_last :
      (proof : List Bytes) (hash : Bytes) (i n j k : ℕ)
      → i + 1 ≡ n
      → j + 1 ≡ k
      → inclusion_loop digest hash i n proof ≡ inclusion_loop digest hash j k proof
  unfolding inclusion_loop
  inclusion_loop_last [] hash i n j k p q = refl
  inclusion_loop_last (s ∷ proof) hash i n j k p q =
      ap (λ h. inclusion_loop digest h (i / 2) ((n + 1) / 2) proof) same
      ∙ inclusion_loop_last proof (inclusion_step digest hash j k s) (i / 2) ((n + 1) / 2) (j / 2)
          ((k + 1) / 2) (omega arith) (omega arith)
    where
      same : inclusion_step digest hash i n s ≡ inclusion_step digest hash j k s
      same = unfold inclusion_step in ground arith

  inclusion_loop_cons :
      (hash sibling : Bytes) (i n : ℕ) (proof : List Bytes)
      → inclusion_loop digest hash i n (sibling ∷ proof)
        ≡ inclusion_loop digest (inclusion_step digest hash i n sibling) (i / 2) ((n + 1) / 2) proof
  unfolding inclusion_loop
  inclusion_loop_cons hash sibling i n proof = refl

  pub get_or-next_level :
      (k : ℕ) (level : List Bytes)
      → suc (double k) < length level
      → get_or (next_level digest level) k []
        ≡ node_hash digest (get_or level (double k) []) (get_or level (suc (double k)) [])
  unfolding next_level
  get_or-next_level k [] h = absurd (omega arith)
  get_or-next_level k (x ∷ []) h = absurd (omega arith)
  get_or-next_level zero (x ∷ y ∷ rest) h = refl
  get_or-next_level (suc k) (x ∷ y ∷ rest) h = get_or-next_level k rest (omega arith)

  pub get_or-next_level_last :
      (k : ℕ) (level : List Bytes)
      → suc (double k) ≡ length level
      → get_or (next_level digest level) k [] ≡ get_or level (double k) []
  unfolding next_level
  get_or-next_level_last k [] h = absurd (omega arith)
  get_or-next_level_last zero (x ∷ []) h = refl
  get_or-next_level_last (suc k) (x ∷ []) h = absurd (omega arith)
  get_or-next_level_last zero (x ∷ y ∷ rest) h = absurd (omega arith)
  get_or-next_level_last (suc k) (x ∷ y ∷ rest) h = get_or-next_level_last k rest (omega arith)

  module _ (k : ℕ) where
    inclusion_step_odd :
        (hash sibling : Bytes) (n : ℕ)
        → inclusion_step digest hash (suc (double k)) n sibling ≡ node_hash digest sibling hash
    unfolding inclusion_step
    inclusion_step_odd hash sibling n = ground (arith, double-eq k)

    inclusion_step_even :
        (hash sibling : Bytes) (n : ℕ)
        → suc (double k) < n
        → inclusion_step digest hash (double k) n sibling ≡ node_hash digest hash sibling
    unfolding inclusion_step
    inclusion_step_even hash sibling n h = ground (arith, double-eq k)

    double-halves : (double k / 2 ≡ k) × (suc (double k) / 2 ≡ k)
    double-halves = omega (arith, double-eq k)

    -- The loop goes one level up with the sibling, or with none past a node that moves up alone.
    module _ (level proof : List Bytes) where
      climb_odd :
          suc (double k) < length level
          → inclusion_loop digest
              (get_or level (suc (double k)) [])
              (suc (double k))
              (length level)
              (sibling_at (suc (double k)) level ++ proof)
            ≡ inclusion_loop digest
                (get_or (next_level digest level) k [])
                k
                (length (next_level digest level))
                proof
      climb_odd h = rw (
        sibling_at_odd k level,
        inclusion_loop_cons,
        inclusion_step_odd,
        get_or-next_level k level h,
        length-next_level digest level,
        double-halves.1,
      )

      climb_even :
          suc (double k) < length level
          → inclusion_loop digest
              (get_or level (double k) [])
              (double k)
              (length level)
              (sibling_at (double k) level ++ proof)
            ≡ inclusion_loop digest
                (get_or (next_level digest level) k [])
                k
                (length (next_level digest level))
                proof
      climb_even h = rw (
        sibling_at_even k level h,
        inclusion_loop_cons,
        inclusion_step_even _ _ _ h,
        get_or-next_level k level h,
        length-next_level digest level,
        double-halves.0,
      )

      climb_last :
          suc (double k) ≡ length level
          → inclusion_loop digest
              (get_or level (double k) [])
              (double k)
              (length level)
              (sibling_at (double k) level ++ proof)
            ≡ inclusion_loop digest
                (get_or (next_level digest level) k [])
                k
                (length (next_level digest level))
                proof
      climb_last h =
          rw (sibling_at_last k level h, get_or-next_level_last k level h)
            (inclusion_loop_last proof _ (double k) (length level) k _ (omega arith)
              (omega (arith, length-next_level digest level, double-eq k)))

  -- The three cases together.
  climb :
      (m : ℕ) (level proof : List Bytes)
      → m < length level
      → inclusion_loop digest (get_or level m []) m (length level) (sibling_at m level ++ proof)
        ≡ inclusion_loop digest
            (get_or (next_level digest level) (m / 2) [])
            (m / 2)
            (length (next_level digest level))
            proof
  climb m level proof h = at_parity (m / 2) m (parity_cases m) h
    where
      at_parity :
          (k j : ℕ)
          → (j ≡ double k) ⊎ (j ≡ suc (double k))
          → j < length level
          → inclusion_loop digest (get_or level j []) j (length level) (sibling_at j level ++ proof)
            ≡ inclusion_loop digest
                (get_or (next_level digest level) k [])
                k
                (length (next_level digest level))
                proof
      at_parity k j (inr odd) h = rw odd (climb_odd k level proof (omega arith))
      at_parity k j (inl even) h = elim (le_or_lt (length level) (suc j)) [
        | inl last ↦ rw even (climb_last k level proof (omega arith))
        | inr more ↦ rw even (climb_even k level proof (omega arith))
      ]

  inclusion_loop-audit_path :
      (e m : ℕ) (level : List Bytes)
      → m < length level
      → length level ≤ 2 ^ e
      → inclusion_loop digest (get_or level m []) m (length level) (audit_path_at digest e m level)
        ≡ tree_hash_at digest e level
  inclusion_loop-audit_path zero m level h k =
      let first : m ≡ 0 = omega arith in
      rw first (unfold inclusion_loop audit_path_at tree_hash_at in refl)
  inclusion_loop-audit_path (suc e) m level h k =
      rw
        (
          audit_path_at-next_level digest e m level h k,
          climb m level _ h,
          tree_hash_at-next_level digest e level k,
        )
        (inclusion_loop-audit_path e (m / 2) (next_level digest level)
          (omega (arith, length-next_level digest level))
          (omega (arith, length-next_level digest level, pow-suc 2 e)))

  inclusion_loop-audit_path_root :
      (m : ℕ) (entries : List Bytes) (root : Bytes)
      → m < length entries
      → merkle_root_from_entries digest entries ≡ some root
      → inclusion_loop digest
          (leaf_hash digest (get_or entries m []))
          m
          (length entries)
          (audit_path digest m entries)
        ≡ root
  unfolding audit_path
  inclusion_loop-audit_path_root m entries root h r =
      let leaves = map (leaf_hash digest) entries in
      let n = length entries in
      let climbed : inclusion_loop digest (get_or leaves m []) m (length leaves)
            (audit_path_at digest n m leaves)
          ≡ tree_hash_at digest n leaves =
        inclusion_loop-audit_path n m leaves (omega (arith, length-map (leaf_hash digest) entries))
          (omega (arith, length-map (leaf_hash digest) entries, lt-pow n)) in
      cc (
        climbed,
        get_or-map (leaf_hash digest) m entries [] [] h,
        length-map (leaf_hash digest) entries,
        tree_hash-eq-at digest n entries (omega arith) (omega (arith, lt-pow n)),
        merkle_root_from_entries-eq-tree_hash digest entries,
      )

  -- The audit path of RFC 6962 for the entry at an index verifies against the root that is computed
  -- from the entries, for every tree whose size is a safe integer.
  pub verify_inclusion-audit_path :
      (m : ℕ) (entries : List Bytes) (root : Bytes)
      → m < length entries
      → length entries < 2 ^ 53
      → merkle_root_from_entries digest entries ≡ some root
      → verify_inclusion digest
          (get_or entries m [])
          m
          (length entries)
          root
          (audit_path digest m entries)
        ≡ ok true
  unfolding verify_inclusion inclusion_root
  verify_inclusion-audit_path m entries root h k r =
      rw (inclusion_loop-audit_path_root m entries root h r) (ground (arith, bytes_eq_refl root))
