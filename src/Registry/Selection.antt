-- ===== src/Registry/Selection.antt =====
-- What a registry opens for a reference, behind a call of `register`.
use dnsid_ts.Common.{
  ℕ, Bool, true, false, Option, none, some, [], ◌∷◌, ◌++◌, ◌==◌, if◌then◌else◌, ok, Bytes, bytes_eq,
  bytes_eq_sound, bytes_eq_refl, Bool-cases, Option-cases, ◌≡◌, ◌≢◌, inl, inr, refl, ap, sym, ◌∙◌,
  arith, ==_iff,
}
use mathlib.Core.Bool.{and-eq-true_iff}
use dnsid_ts.Registry.{
  Factory, LogRegistry, made, colon, is_method, is_lower_letter, is_method_unit, are_method_units,
  before_colon, set, lookup, register, read_method, new_reader,
}
use dnsid_ts.Registry.Snapshots.{register_sound}

letter-apart : (c : ℕ) → is_method_unit c ≡ true → (c == colon) ≡ false
letter-apart c h = ground arith

letter_unit : (c : ℕ) → is_lower_letter c ≡ true → is_method_unit c ≡ true
letter_unit c h = ground arith

before_colon-units :
    (units rest : Bytes)
    → are_method_units units ≡ true
    → before_colon (units ++ colon ∷ rest) ≡ some units
unfolding before_colon are_method_units
before_colon-units [] rest h = refl
before_colon-units (c ∷ cs) rest h =
    let (unit, units) = (and-eq-true_iff _ _).0 h in
    rw (letter-apart c unit) (rw (before_colon-units cs rest units) refl)

before_colon-method :
    (method rest : Bytes)
    → is_method method ≡ true
    → before_colon (method ++ colon ∷ rest) ≡ some method
unfolding is_method are_method_units
before_colon-method [] rest h = cc
before_colon-method (c ∷ cs) rest h =
    let (letter, units) = (and-eq-true_iff _ _).0 h in
    before_colon-units (c ∷ cs) rest ((and-eq-true_iff _ _).1 (letter_unit c letter, units))

join_sound :
    (c : ℕ) (cs : Bytes) (is_colon : Bool) (found : Option Bytes) {units : Bytes}
    → (c == colon) ≡ is_colon
    → ((u : Bytes) → found ≡ some u → (rest : Bytes) × (cs ≡ u ++ colon ∷ rest))
    → (if is_colon then some [] else (elim found [ none ↦ none | some u ↦ some (c ∷ u) ]))
      ≡ some units
    → (rest : Bytes) × (c ∷ cs ≡ units ++ colon ∷ rest)
join_sound c cs true found {units} test split h =
    let empty : [] ≡ units = cc in (cs, rw (← empty) (ap (λ x. x ∷ cs) ((==_iff c colon).0 test)))
join_sound c cs false none test split h = cc
join_sound c cs false (some u) {units} test split h =
    let (rest, e) = split u refl in
    let whole : c ∷ u ≡ units = cc in (rest, rw (← whole) (ap (λ r. c ∷ r) e))

before_colon_sound :
    (lr : Bytes) {units : Bytes}
    → before_colon lr ≡ some units
    → (rest : Bytes) × (lr ≡ units ++ colon ∷ rest)
unfolding before_colon
before_colon_sound [] h = cc
before_colon_sound (c ∷ cs) h =
    join_sound c cs (c == colon) (before_colon cs) refl (λ u e. before_colon_sound cs e) h

module _ {Options Opened : Type 0} where
  lookup-set_same :
      (method : Bytes) (factory : Factory Options Opened) (registry : LogRegistry Options Opened)
      → lookup method (set method factory registry) ≡ some factory
  unfolding lookup set
  lookup-set_same method factory [] = rw (bytes_eq_refl method) refl
  lookup-set_same method factory ((m, f) ∷ rest) = elim (Bool-cases (bytes_eq m method)) [
    | inl here ↦ rw here (rw here refl)
    | inr later ↦ rw later (rw later (lookup-set_same method factory rest))
  ]

  lookup-set_other :
      (other method : Bytes) (factory : Factory Options Opened)
      (registry : LogRegistry Options Opened)
      → bytes_eq method other ≡ false
      → lookup other (set method factory registry) ≡ lookup other registry
  unfolding lookup set
  lookup-set_other other method factory [] apart = rw apart refl
  lookup-set_other other method factory ((m, f) ∷ rest) apart =
      elim (Bool-cases (bytes_eq m method)) [
        | inl here ↦
            let same : m ≡ method = bytes_eq_sound m method here in
            let missed : bytes_eq m other ≡ false = rw same apart in rw here (rw missed refl)
        | inr later ↦ rw later (rw (lookup-set_other other method factory rest apart) refl)
      ]

  opened :
      (units lr : Bytes) (options : Options) (method : Bytes) (factory : Factory Options Opened)
      (registry : LogRegistry Options Opened)
      → bytes_eq method units ≡ false
      → read_method (some units) lr options (set method factory registry)
        ≡ read_method (some units) lr options registry
  opened units lr options method factory registry apart =
      rw (lookup-set_other units method factory registry apart) refl

  -- Once a factory is registered under a method, `newReader` opens each reference of that method, which
  -- is the method, a colon and anything behind it, with that factory, whatever was registered before, and
  -- does with any other reference what it did before.
  pub new_reader-register :
      (method : Bytes) (factory : Factory Options Opened) (options : Options)
      (registry : LogRegistry Options Opened) {registry' : LogRegistry Options Opened}
      → register method factory registry ≡ ok registry'
      → ((rest : Bytes)
          → new_reader (method ++ colon ∷ rest) options registry'
            ≡ ok (made (factory (method ++ colon ∷ rest) options)))
        × ((lr : Bytes)
            → ((rest : Bytes) → lr ≢ method ++ colon ∷ rest)
            → new_reader lr options registry' ≡ new_reader lr options registry)
  unfolding new_reader
  new_reader-register method factory options registry h =
      let (valid, updated) = register_sound method factory registry h in
      (
        λ rest. rw (← updated) (
            rw (before_colon-method method rest valid)
              (rw valid (rw (lookup-set_same method factory registry) refl))),
        λ lr foreign. rw (← updated) (elim (Option-cases (before_colon lr)) [
          | inl absent ↦ rw absent refl
          | inr (units, found) ↦ elim (Bool-cases (bytes_eq method units)) [
            | inl same ↦
                let (rest, e) = before_colon_sound lr found in
                absurd
                  (foreign rest (e ∙ ap (λ u. u ++ colon ∷ rest) (sym (bytes_eq_sound _ _ same))))
            | inr apart ↦ rw found (opened units lr options method factory registry apart)
          ]
        ]),
      )
