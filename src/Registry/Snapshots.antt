-- ===== src/Registry/Snapshots.antt =====
-- A snapshot of a registry: registering all that is registered is a copy.
use dnsid_ts.Common.{
  true, false, [], ◌∷◌, ◌++◌, ◌==◌, ok, Bytes, bytes_eq, Bool-cases, All, All-append, ◌≡◌, inl, inr,
  refl, ap, ◌∙◌, arith,
}
use mathlib.Core.List.{append_assoc, append-nil}
use dnsid_ts.Registry.{Factory, LogRegistry, is_method, set, register, copy_into, snapshot}

pub bytes_eq_sym : (xs ys : Bytes) → bytes_eq xs ys ≡ bytes_eq ys xs
unfolding bytes_eq
bytes_eq_sym [] [] = refl
bytes_eq_sym [] (y ∷ ys) = refl
bytes_eq_sym (x ∷ xs) [] = refl
bytes_eq_sym (x ∷ xs) (y ∷ ys) =
    let same : (x == y) ≡ (y == x) = ground arith in rw same (rw (bytes_eq_sym xs ys) refl)

module _ {Options Opened : Type 0} where
  abbrev IsFresh : Bytes → LogRegistry Options Opened → Type 0
  IsFresh method registry = All (λ entry. bytes_eq entry.0 method ≡ false) registry

  -- Methods that are valid and distinct.
  abbrev pub IsWellFormed : LogRegistry Options Opened → Type 0
  IsWellFormed [] = Unit
  IsWellFormed ((method, factory) ∷ rest) =
      (is_method method ≡ true) × IsFresh method rest × IsWellFormed rest

  -- The registries that calls of `register` make.
  pub data IsReached : LogRegistry Options Opened → Type 0 where
    at_first : IsReached []
    registered :
        {registry registry' : LogRegistry Options Opened} (method : Bytes)
        (factory : Factory Options Opened)
        → IsReached registry
        → register method factory registry ≡ ok registry'
        → IsReached registry'

  set-IsFresh :
      (other method : Bytes) (factory : Factory Options Opened)
      (registry : LogRegistry Options Opened)
      → bytes_eq method other ≡ false
      → IsFresh other registry
      → IsFresh other (set method factory registry)
  unfolding set
  set-IsFresh other method factory [] apart fresh = (apart, tt)
  set-IsFresh other method factory ((m, f) ∷ rest) apart fresh =
      elim (Bool-cases (bytes_eq m method)) [
        | inl here ↦ rw here fresh
        | inr later ↦ rw later (fresh.0, set-IsFresh other method factory rest apart fresh.1)
      ]

  set-IsWellFormed :
      (method : Bytes) (factory : Factory Options Opened) (registry : LogRegistry Options Opened)
      → is_method method ≡ true
      → IsWellFormed registry
      → IsWellFormed (set method factory registry)
  unfolding set
  set-IsWellFormed method factory [] valid formed = (valid, tt, tt)
  set-IsWellFormed method factory ((m, f) ∷ rest) valid (v, fresh, formed) =
      elim (Bool-cases (bytes_eq m method)) [
        | inl here ↦ rw here (v, fresh, formed)
        | inr later ↦ rw later (
          v,
          set-IsFresh m method factory rest (rw (bytes_eq_sym method m) later) fresh,
          set-IsWellFormed method factory rest valid formed,
        )
      ]

  pub register_sound :
      (method : Bytes) (factory : Factory Options Opened) (registry : LogRegistry Options Opened)
      {registry' : LogRegistry Options Opened}
      → register method factory registry ≡ ok registry'
      → (is_method method ≡ true) × (set method factory registry ≡ registry')
  unfolding register
  register_sound method factory registry h = ground arith

  pub IsReached-IsWellFormed :
      (registry : LogRegistry Options Opened) → IsReached registry → IsWellFormed registry
  IsReached-IsWellFormed _ at_first = tt
  IsReached-IsWellFormed _ (registered {registry} method factory before h) =
      let (valid, updated) = register_sound method factory registry h in
      rw (← updated)
        (set-IsWellFormed method factory registry valid (IsReached-IsWellFormed registry before))

  set-eq-append :
      (method : Bytes) (factory : Factory Options Opened) (registry : LogRegistry Options Opened)
      → IsFresh method registry
      → set method factory registry ≡ registry ++ (method, factory) ∷ []
  unfolding set
  set-eq-append method factory [] fresh = refl
  set-eq-append method factory ((m, f) ∷ rest) (apart, fresh) =
      rw apart (ap (λ r. (m, f) ∷ r) (set-eq-append method factory rest fresh))

  IsFresh-behind :
      (method : Bytes) (factory : Factory Options Opened) (copied rest : LogRegistry Options Opened)
      → IsFresh method rest
      → All (λ entry. IsFresh entry.0 copied) rest
      → All (λ entry. IsFresh entry.0 (copied ++ (method, factory) ∷ [])) rest
  IsFresh-behind method factory copied [] apart fresh = tt
  IsFresh-behind method factory copied ((m, f) ∷ rest) (a, apart) (g, fresh) = (
    All-append _ copied ((method, factory) ∷ []) g (rw (bytes_eq_sym method m) a, tt),
    IsFresh-behind method factory copied rest apart fresh,
  )

  copy_into-eq-append :
      (copied rest : LogRegistry Options Opened)
      → IsWellFormed rest
      → All (λ entry. IsFresh entry.0 copied) rest
      → copy_into copied rest ≡ ok (copied ++ rest)
  unfolding copy_into register
  copy_into-eq-append copied [] formed fresh = rw (append-nil copied) refl
  copy_into-eq-append copied ((m, f) ∷ rest) (valid, apart, formed) (g, fresh) = rw valid (
      rw (set-eq-append m f copied g) (
        copy_into-eq-append (copied ++ (m, f) ∷ []) rest formed
          (IsFresh-behind m f copied rest apart fresh)
        ∙ ap ok (append_assoc copied ((m, f) ∷ []) rest)))

  nothing_copied :
      (registry : LogRegistry Options Opened) → All (λ entry. IsFresh entry.0 []) registry
  nothing_copied [] = tt
  nothing_copied (e ∷ rest) = (tt, nothing_copied rest)

  -- The snapshot of a registry that calls of `register` made never throws, and is the registry: the same
  -- methods in the same order with the same factories.
  pub snapshot_lem :
      (registry : LogRegistry Options Opened) → IsReached registry → snapshot registry ≡ ok registry
  unfolding snapshot
  snapshot_lem registry reached =
      copy_into-eq-append [] registry (IsReached-IsWellFormed registry reached)
        (nothing_copied registry)
