-- ===== src/Merkle/Binding.antt =====
-- What an accepted inclusion proof says: two proofs of one length that lead to one root at one place
-- are proofs of one entry, or show two strings with one digest.
use dnsid_ts.Common.{
  ℕ, ◌+◌, ◌-◌, ◌/◌, ◌%◌, List, [], ◌∷◌, ◌++◌, length, length-append, Bytes, Bytes-discrete,
  bytes_eq_sound, ok, some, get_or, ◌<◌, ◌^◌, append_injective, ◌≡◌, ◌≢◌, sym, ◌∙◌, ap, arith, ◌⊎◌,
  inl, inr, true, Bool-cases, ltb, ◌==◌,
}
use mathlib.Core.List.{append-nil, flatten}
use dnsid_ts.Merkle.{
  sha256, node_hash, leaf_hash, inclusion_step, inclusion_loop, inclusion_root,
  merkle_root_from_entries, verify_inclusion,
}
use dnsid_ts.Merkle.Spec.{audit_path}
use dnsid_ts.Merkle.Inclusion.{verify_inclusion-audit_path}

-- Two different strings with one digest.
abbrev pub Collision : (Bytes → Bytes) → Type 0
Collision digest = (x : Bytes) × (y : Bytes) × (x ≢ y) × (digest x ≡ digest y)

module _ (digest : Bytes → Bytes) where
  leaf_hash_lem : (x : Bytes) → leaf_hash digest x ≡ digest (0 ∷ x)
  unfolding leaf_hash sha256 flatten
  leaf_hash_lem x = rw append-nil

  node_hash_lem : (l r : Bytes) → node_hash digest l r ≡ digest (1 ∷ (l ++ r))
  unfolding node_hash sha256 flatten
  node_hash_lem l r = rw append-nil

  digest_injective_or : (x y : Bytes) → digest x ≡ digest y → (x ≡ y) ⊎ Collision digest
  digest_injective_or x y e = elim (Bytes-discrete x y) [ yes p ↦ inl p | no p ↦ inr (x, y, p, e) ]

  pub leaf_hash_binding :
      (x y : Bytes) → leaf_hash digest x ≡ leaf_hash digest y → (x ≡ y) ⊎ Collision digest
  leaf_hash_binding x y e =
      elim (digest_injective_or (0 ∷ x) (0 ∷ y) (sym (leaf_hash_lem x) ∙ e ∙ leaf_hash_lem y)) [
        | inl p ↦ inl (cc)
        | inr c ↦ inr c
      ]

  append_of_node_hash :
      (l r m s : Bytes)
      → node_hash digest l r ≡ node_hash digest m s
      → (l ++ r ≡ m ++ s) ⊎ Collision digest
  append_of_node_hash l r m s e =
      elim (digest_injective_or (1 ∷ (l ++ r)) (1 ∷ (m ++ s))
        (sym (node_hash_lem l r) ∙ e ∙ node_hash_lem m s)) [ inl p ↦ inl (cc) | inr c ↦ inr c ]

  leaf_hash-ne-node_hash :
      (x l r : Bytes) → leaf_hash digest x ≡ node_hash digest l r → Collision digest
  leaf_hash-ne-node_hash x l r e =
      elim (digest_injective_or (0 ∷ x) (1 ∷ (l ++ r))
        (sym (leaf_hash_lem x) ∙ e ∙ node_hash_lem l r)) [ inl p ↦ cc | inr c ↦ c ]

  -- At one place of one tree size the sibling is always on the same side.
  inclusion_step_side :
      (i k : ℕ)
      → ((hash s : Bytes) → inclusion_step digest hash i k s ≡ node_hash digest s hash)
        ⊎ ((hash s : Bytes) → inclusion_step digest hash i k s ≡ node_hash digest hash s)
  unfolding inclusion_step
  inclusion_step_side i k = elim (Bool-cases (i % 2 == 1)) [
    | inl odd ↦ inl (λ hash s. rw odd)
    | inr even ↦ elim (Bool-cases (ltb i (k - 1))) [
      | inl inner ↦ inr (λ hash s. rw (even, inner))
      | inr last ↦ inl (λ hash s. rw (even, last))
    ]
  ]

  -- An accepted proof leads to the root.
  verify_inclusion-eq-root :
      (entry root : Bytes) (index tree_size : ℕ) (proof : List Bytes)
      → verify_inclusion digest entry index tree_size root proof ≡ ok true
      → inclusion_loop digest (leaf_hash digest entry) index tree_size proof ≡ root
  unfolding verify_inclusion inclusion_root
  verify_inclusion-eq-root entry root index tree_size proof e =
      bytes_eq_sound (inclusion_loop digest (leaf_hash digest entry) index tree_size proof) root
        (ground arith)

  -- A hash of n bytes, as every digest is, is fixed by the node above it.
  module _ (n : ℕ) (sized : (x : Bytes) → length (digest x) ≡ n) where
    length-node_hash : (l r : Bytes) → length (node_hash digest l r) ≡ n
    length-node_hash l r = ap length (node_hash_lem l r) ∙ sized (1 ∷ (l ++ r))

    pub length-leaf_hash : (x : Bytes) → length (leaf_hash digest x) ≡ n
    length-leaf_hash x = ap length (leaf_hash_lem x) ∙ sized (0 ∷ x)

    length-inclusion_step :
        (hash sibling : Bytes) (i k : ℕ) → length (inclusion_step digest hash i k sibling) ≡ n
    unfolding inclusion_step
    length-inclusion_step hash sibling i k =
        ground (arith, length-node_hash hash sibling, length-node_hash sibling hash)

    right_binding :
        (l r m s : Bytes)
        → length r ≡ n
        → length s ≡ n
        → node_hash digest l r ≡ node_hash digest m s
        → (r ≡ s) ⊎ Collision digest
    right_binding l r m s p q e = elim (append_of_node_hash l r m s e) [
      | inl same ↦ inl (append_injective l m r s (p ∙ sym q) same).1
      | inr c ↦ inr c
    ]

    left_binding :
        (l r m s : Bytes)
        → length l ≡ n
        → length m ≡ n
        → node_hash digest l r ≡ node_hash digest m s
        → (l ≡ m) ⊎ Collision digest
    left_binding l r m s p q e = elim (append_of_node_hash l r m s e) [
      | inl same ↦
          inl
            (append_injective l m r s
              (omega (arith, ap length same, length-append l r, length-append m s)) same).0
      | inr c ↦ inr c
    ]

    inclusion_step_binding :
        (hash other s t : Bytes) (i k : ℕ)
        → length hash ≡ n
        → length other ≡ n
        → inclusion_step digest hash i k s ≡ inclusion_step digest other i k t
        → (hash ≡ other) ⊎ Collision digest
    inclusion_step_binding hash other s t i k p q e = elim (inclusion_step_side i k) [
      | inl on_left ↦ right_binding s hash t other p q (sym (on_left hash s) ∙ e ∙ on_left other t)
      | inr on_right ↦
          left_binding hash s other t p q (sym (on_right hash s) ∙ e ∙ on_right other t)
    ]

    inclusion_loop_binding :
        (ps qs : List Bytes) (hash other : Bytes) (i k : ℕ)
        → length ps ≡ length qs
        → length hash ≡ n
        → length other ≡ n
        → inclusion_loop digest hash i k ps ≡ inclusion_loop digest other i k qs
        → (hash ≡ other) ⊎ Collision digest
    unfolding inclusion_loop
    inclusion_loop_binding [] [] hash other i k l p q e = inl e
    inclusion_loop_binding [] (t ∷ qs) hash other i k l p q e = absurd (omega arith)
    inclusion_loop_binding (s ∷ ps) [] hash other i k l p q e = absurd (omega arith)
    inclusion_loop_binding (s ∷ ps) (t ∷ qs) hash other i k l p q e =
        elim (inclusion_loop_binding ps qs (inclusion_step digest hash i k s)
          (inclusion_step digest other i k t) (i / 2) ((k + 1) / 2) (omega arith)
          (length-inclusion_step hash s i k) (length-inclusion_step other t i k) e) [
            | inl same ↦ inclusion_step_binding hash other s t i k p q same
            | inr c ↦ inr c
          ]

    -- Two proofs of the same number of hashes that verify for one root, at one index of one tree size,
    -- are proofs of the same entry, or two different strings with one digest are at hand.
    pub verify_inclusion_binding :
        (entry other root : Bytes) (index tree_size : ℕ) (proof another : List Bytes)
        → length proof ≡ length another
        → verify_inclusion digest entry index tree_size root proof ≡ ok true
        → verify_inclusion digest other index tree_size root another ≡ ok true
        → (entry ≡ other) ⊎ Collision digest
    verify_inclusion_binding entry other root index tree_size proof another l e f =
        elim (inclusion_loop_binding proof another (leaf_hash digest entry) (leaf_hash digest other)
          index tree_size l (length-leaf_hash entry) (length-leaf_hash other)
          (verify_inclusion-eq-root entry root index tree_size proof e
            ∙ sym (verify_inclusion-eq-root other root index tree_size another f))) [
              | inl same ↦ leaf_hash_binding entry other same
              | inr c ↦ inr c
            ]

    -- The converse of completeness: a proof with as many hashes as the audit path of an index, which
    -- verifies there against the root of the entries, is a proof of the entry at that index.
    pub verify_inclusion_sound :
        (m : ℕ) (entries : List Bytes) (entry root : Bytes) (proof : List Bytes)
        → m < length entries
        → length entries < 2 ^ 53
        → merkle_root_from_entries digest entries ≡ some root
        → length proof ≡ length (audit_path digest m entries)
        → verify_inclusion digest entry m (length entries) root proof ≡ ok true
        → (entry ≡ get_or entries m []) ⊎ Collision digest
    verify_inclusion_sound m entries entry root proof h k r l e =
        verify_inclusion_binding entry (get_or entries m []) root m (length entries) proof
          (audit_path digest m entries) l e
          (verify_inclusion-audit_path digest m entries root h k r)
