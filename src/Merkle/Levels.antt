-- ===== src/Merkle/Levels.antt =====
-- Joining neighbours (`next_level`) against the recursive tree.
use dnsid_ts.Common.{
  ℕ, zero, suc, ◌+◌, ◌*◌, ◌/◌, ◌^◌, ◌≤◌, ◌<◌, List, [], ◌∷◌, length, take, drop, Bytes, ◌≡◌, refl,
  ap, arith, le_or_lt, inl, inr, sym, ◌∙◌, length-take, length-drop,
}
use native.Mathlib.Nat.{pow-suc, zero-add}
use dnsid_ts.Merkle.{node_hash, next_level}
use dnsid_ts.Merkle.Spec.{tree_hash_at}

abbrev pub double : ℕ → ℕ
double zero = 0
double (suc k) = suc (suc (double k))

pub double-eq : (k : ℕ) → double k ≡ 2 * k
double-eq zero = refl
double-eq (suc k) = omega (arith, double-eq k)

pub pow-eq-double : (e : ℕ) → 2 ^ suc e ≡ double (2 ^ e)
pow-eq-double e = omega (arith, double-eq (2 ^ e), pow-suc 2 e)

pub pow_pos : (e : ℕ) → 0 < 2 ^ e
pow_pos zero = omega arith
pow_pos (suc e) = omega (arith, pow_pos e, pow-suc 2 e)

pub lt-pow : (n : ℕ) → n < 2 ^ n
lt-pow zero = omega arith
lt-pow (suc n) = omega (arith, lt-pow n, pow-suc 2 n)

pub pow-le-add : (k e : ℕ) → 2 ^ e ≤ 2 ^ (k + e)
pow-le-add zero e = rw zero-add (omega arith)
pow-le-add (suc k) e =
    let next : suc k + e ≡ suc (k + e) = omega arith in
    rw next (omega (arith, pow-le-add k e, pow-suc 2 (k + e)))

module _ (digest : Bytes → Bytes) where
  pub length-next_level :
      (level : List Bytes) → length (next_level digest level) ≡ (length level + 1) / 2
  unfolding next_level
  length-next_level [] = refl
  length-next_level (x ∷ []) = refl
  length-next_level (x ∷ y ∷ rest) = omega (arith, length-next_level rest)

  pub take-next_level :
      (k : ℕ) (level : List Bytes)
      → take k (next_level digest level) ≡ next_level digest (take (double k) level)
  unfolding next_level
  take-next_level zero level = refl
  take-next_level (suc k) [] = refl
  take-next_level (suc zero) (x ∷ []) = refl
  take-next_level (suc (suc k)) (x ∷ []) = refl
  take-next_level (suc k) (x ∷ y ∷ rest) =
      ap (λ r. node_hash digest x y ∷ r) (take-next_level k rest)

  pub drop-next_level :
      (k : ℕ) (level : List Bytes)
      → drop k (next_level digest level) ≡ next_level digest (drop (double k) level)
  unfolding next_level
  drop-next_level zero level = refl
  drop-next_level (suc k) [] = refl
  drop-next_level (suc zero) (x ∷ []) = refl
  drop-next_level (suc (suc k)) (x ∷ []) = refl
  drop-next_level (suc k) (x ∷ y ∷ rest) = drop-next_level k rest

  module _ (e : ℕ) (level : List Bytes) where
    pub tree_hash_at_narrow :
        length level ≤ 2 ^ e → tree_hash_at digest (suc e) level ≡ tree_hash_at digest e level
    unfolding tree_hash_at
    tree_hash_at_narrow h = ground arith

    pub tree_hash_at_split :
        2 ^ e < length level
        → tree_hash_at digest (suc e) level
          ≡ node_hash digest
              (tree_hash_at digest e (take (2 ^ e) level))
              (tree_hash_at digest e (drop (2 ^ e) level))
    unfolding tree_hash_at
    tree_hash_at_split h = ground arith

  -- Both halves of a split level, one step lower.
  module _ (e : ℕ) (level : List Bytes) where
    pub next_level_halves :
        (next_level digest (take (2 ^ suc e) level) ≡ take (2 ^ e) (next_level digest level))
        × (next_level digest (drop (2 ^ suc e) level) ≡ drop (2 ^ e) (next_level digest level))
    next_level_halves =
        rw (pow-eq-double e)
          (sym (take-next_level (2 ^ e) level), sym (drop-next_level (2 ^ e) level))

  tree_hash_at_one :
      (level : List Bytes)
      → length level ≤ 2
      → tree_hash_at digest 1 level ≡ tree_hash_at digest 0 (next_level digest level)
  unfolding tree_hash_at next_level
  tree_hash_at_one [] h = refl
  tree_hash_at_one (x ∷ []) h = refl
  tree_hash_at_one (x ∷ y ∷ []) h = refl
  tree_hash_at_one (x ∷ y ∷ z ∷ rest) h = absurd (omega arith)

  -- The tree over a level is the tree over the next one, one step lower.
  pub tree_hash_at-next_level :
      (e : ℕ) (level : List Bytes)
      → length level ≤ 2 ^ suc e
      → tree_hash_at digest (suc e) level ≡ tree_hash_at digest e (next_level digest level)
  tree_hash_at-next_level zero level h = tree_hash_at_one level h
  tree_hash_at-next_level (suc e) level h = elim (le_or_lt (length level) (2 ^ suc e)) [
    | inl small ↦
        tree_hash_at_narrow (suc e) level small
        ∙ tree_hash_at-next_level e level small
        ∙ sym (
            tree_hash_at_narrow e (next_level digest level)
              (omega (arith, length-next_level level, pow-suc 2 e)))
    | inr large ↦
        let (left, right) = next_level_halves e level in
        let wide : 2 ^ e < length (next_level digest level) =
          omega (arith, length-next_level level, pow-suc 2 e) in
        rw (
          tree_hash_at_split (suc e) level large,
          tree_hash_at_split e (next_level digest level) wide,
          tree_hash_at-next_level e (take (2 ^ suc e) level)
              (omega (arith, length-take (2 ^ suc e) level)),
          tree_hash_at-next_level e (drop (2 ^ suc e) level)
              (omega (arith, length-drop (2 ^ suc e) level, pow-suc 2 (suc e))),
          left,
          right,
        )
  ]
