-- ===== src/Merkle/AuditPath.antt =====
-- The audit path over a level is one sibling, if there is one, and the audit path over the next level.
use dnsid_ts.Common.{
  ℕ, zero, suc, ◌+◌, ◌-◌, ◌/◌, ◌*◌, ◌^◌, ◌≤◌, ◌<◌, List, [], ◌∷◌, ◌++◌, length, get_or, take, drop,
  Bytes, ◌≡◌, refl, sym, ◌∙◌, ap, arith, inl, inr, le_or_lt, length-take, length-drop,
}
use native.Mathlib.Nat.{pow-suc}
use mathlib.Core.List.{append_assoc}
use dnsid_ts.Merkle.{next_level}
use dnsid_ts.Merkle.Spec.{sibling_at, tree_hash_at, audit_path_at}
use dnsid_ts.Merkle.Levels.{length-next_level, tree_hash_at-next_level, next_level_halves}

pub get_or-take {ℓ} :
    {A : Type ℓ} (n i : ℕ) (xs : List A) (d : A) → i < n → get_or (take n xs) i d ≡ get_or xs i d
get_or-take zero i xs d h = elim h [ ]
get_or-take (suc n) i [] d h = refl
get_or-take (suc n) zero (x ∷ xs) d h = refl
get_or-take (suc n) (suc i) (x ∷ xs) d h = get_or-take n i xs d (omega arith)

pub get_or-drop {ℓ} :
    {A : Type ℓ} (n i j : ℕ) (xs : List A) (d : A)
    → n + j ≡ i
    → get_or (drop n xs) j d ≡ get_or xs i d
get_or-drop zero i j xs d h = let e : j ≡ i = omega arith in rw e
get_or-drop (suc n) i j [] d h = refl
get_or-drop (suc n) zero j (x ∷ xs) d h = absurd (omega arith)
get_or-drop (suc n) (suc i) j (x ∷ xs) d h = get_or-drop n i j xs d (omega arith)

-- The siblings of a node are the same in its half of the level, which begins at an even place.
module _ (p q m : ℕ) (level : List Bytes) (even : p ≡ 2 * q) where
  sibling_at-take : m < p → p < length level → sibling_at m (take p level) ≡ sibling_at m level
  unfolding sibling_at
  sibling_at-take h k =
      ground
        (arith, length-take p level, get_or-take p (m - 1) level [], get_or-take p (m + 1) level [])

  sibling_at-drop :
      p ≤ m → m < length level → sibling_at (m - p) (drop p level) ≡ sibling_at m level
  unfolding sibling_at
  sibling_at-drop h k = ground (
    arith,
    length-drop p level,
    get_or-drop p (m - 1) (m - p - 1) level [],
    get_or-drop p (m + 1) (m - p + 1) level [],
  )

module _ (digest : Bytes → Bytes) where
  module _ (e m : ℕ) (level : List Bytes) where
    pub audit_path_at_narrow :
        length level ≤ 2 ^ e → audit_path_at digest (suc e) m level ≡ audit_path_at digest e m level
    unfolding audit_path_at
    audit_path_at_narrow h = ground arith

    pub audit_path_at_left :
        2 ^ e < length level
        → m < 2 ^ e
        → audit_path_at digest (suc e) m level
          ≡ audit_path_at digest e m (take (2 ^ e) level)
            ++ tree_hash_at digest e (drop (2 ^ e) level) ∷ []
    unfolding audit_path_at
    audit_path_at_left h k = ground arith

    pub audit_path_at_right :
        2 ^ e < length level
        → 2 ^ e ≤ m
        → audit_path_at digest (suc e) m level
          ≡ audit_path_at digest e (m - 2 ^ e) (drop (2 ^ e) level)
            ++ tree_hash_at digest e (take (2 ^ e) level) ∷ []
    unfolding audit_path_at
    audit_path_at_right h k = ground arith

  audit_path_at_one :
      (m : ℕ) (level : List Bytes)
      → m < length level
      → length level ≤ 2
      → audit_path_at digest 1 m level
        ≡ sibling_at m level ++ audit_path_at digest 0 (m / 2) (next_level digest level)
  unfolding audit_path_at sibling_at tree_hash_at
  audit_path_at_one m [] h k = elim h [ ]
  audit_path_at_one zero (x ∷ []) h k = refl
  audit_path_at_one (suc m) (x ∷ []) h k = absurd (omega arith)
  audit_path_at_one zero (x ∷ y ∷ []) h k = refl
  audit_path_at_one (suc zero) (x ∷ y ∷ []) h k = refl
  audit_path_at_one (suc (suc m)) (x ∷ y ∷ []) h k = absurd (omega arith)
  audit_path_at_one m (x ∷ y ∷ z ∷ rest) h k = absurd (omega arith)

  -- One step of the induction below, in each half of a level.
  module _ (e m : ℕ) (level : List Bytes) (inside : m < length level)
      (bound : length level ≤ 2 ^ suc (suc e)) (large : 2 ^ suc e < length level) where
    wide : 2 ^ e < length (next_level digest level)
    wide = omega (arith, length-next_level digest level, pow-suc 2 e)

    rest_bound : length (drop (2 ^ suc e) level) ≤ 2 ^ suc e
    rest_bound = omega (arith, length-drop (2 ^ suc e) level, pow-suc 2 (suc e))

    half : (m - 2 ^ suc e) / 2 ≡ m / 2 - 2 ^ e
    half = omega (arith, pow-suc 2 e)

    audit_path_at_left_step :
        m < 2 ^ suc e
        → audit_path_at digest (suc e) m (take (2 ^ suc e) level)
          ≡ sibling_at m (take (2 ^ suc e) level)
            ++ audit_path_at digest e (m / 2) (next_level digest (take (2 ^ suc e) level))
        → audit_path_at digest (suc (suc e)) m level
          ≡ sibling_at m level ++ audit_path_at digest (suc e) (m / 2) (next_level digest level)
    audit_path_at_left_step left ih =
        rw
          (
            audit_path_at_left (suc e) m level large left,
            ih,
            sibling_at-take (2 ^ suc e) (2 ^ e) m level (omega (arith, pow-suc 2 e)) left large,
            tree_hash_at-next_level digest e (drop (2 ^ suc e) level) rest_bound,
            (next_level_halves digest e level).0,
            (next_level_halves digest e level).1,
            audit_path_at_left e (m / 2) (next_level digest level) wide
                (omega (arith, pow-suc 2 e)),
          )
          (simp append_assoc)

    audit_path_at_right_step :
        2 ^ suc e ≤ m
        → audit_path_at digest (suc e) (m - 2 ^ suc e) (drop (2 ^ suc e) level)
          ≡ sibling_at (m - 2 ^ suc e) (drop (2 ^ suc e) level)
            ++ audit_path_at digest e
                ((m - 2 ^ suc e) / 2)
                (next_level digest (drop (2 ^ suc e) level))
        → audit_path_at digest (suc (suc e)) m level
          ≡ sibling_at m level ++ audit_path_at digest (suc e) (m / 2) (next_level digest level)
    audit_path_at_right_step right ih =
        rw
          (
            audit_path_at_right (suc e) m level large right,
            ih,
            sibling_at-drop (2 ^ suc e) (2 ^ e) m level (omega (arith, pow-suc 2 e)) right inside,
            tree_hash_at-next_level digest e (take (2 ^ suc e) level)
                (omega (arith, length-take (2 ^ suc e) level)),
            (next_level_halves digest e level).0,
            (next_level_halves digest e level).1,
            audit_path_at_right e (m / 2) (next_level digest level) wide
                (omega (arith, pow-suc 2 e)),
            half,
          )
          (simp append_assoc)

  pub audit_path_at-next_level :
      (e m : ℕ) (level : List Bytes)
      → m < length level
      → length level ≤ 2 ^ suc e
      → audit_path_at digest (suc e) m level
        ≡ sibling_at m level ++ audit_path_at digest e (m / 2) (next_level digest level)
  audit_path_at-next_level zero m level h k = audit_path_at_one m level h k
  audit_path_at-next_level (suc e) m level h k = elim (le_or_lt (length level) (2 ^ suc e)) [
    | inl small ↦
        audit_path_at_narrow (suc e) m level small
        ∙ audit_path_at-next_level e m level h small
        ∙ ap (λ p. sibling_at m level ++ p)
            (sym (
              audit_path_at_narrow e (m / 2) (next_level digest level)
                (omega (arith, length-next_level digest level, pow-suc 2 e))))
    | inr large ↦ elim (le_or_lt (2 ^ suc e) m) [
      | inl right ↦ audit_path_at_right_step e m level h k large right (
          audit_path_at-next_level e (m - 2 ^ suc e) (drop (2 ^ suc e) level)
            (omega (arith, length-drop (2 ^ suc e) level))
            (omega (arith, length-drop (2 ^ suc e) level, pow-suc 2 (suc e))))
      | inr left ↦ audit_path_at_left_step e m level h k large left (
          audit_path_at-next_level e m (take (2 ^ suc e) level)
            (omega (arith, length-take (2 ^ suc e) level))
            (omega (arith, length-take (2 ^ suc e) level)))
    ]
  ]
