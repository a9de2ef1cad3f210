-- ===== src/Stream/Order.antt =====
-- The order of the events in an accepted stream: their numbers, and where a terminal event may stand.
use dnsid_ts.Common.{
  ℕ, zero, suc, ◌^◌, ◌≤◌, ◌<◌, Bool, true, false, some, List, [], ◌∷◌, ◌++◌, length, length-append,
  get_elem?, ok, throw_if, >>=-eq-ok, ◌≡◌, ◌⊎◌, inl, inr, refl, ap, arith, ltb,
}
use dnsid_ts.Stream.Evidence.{number, VerifiedEvent, Options, Suite}
use dnsid_ts.Stream.Checks.{ends_lifecycle}
use dnsid_ts.Stream.Verifier.{LifecycleKeys, Progress, verify_lifecycle}
use dnsid_ts.Stream.Lineage.{Lineage, founded, extended}
use dnsid_ts.Stream.Reached.{verify_lifecycle-Lineage, Founds-continues}

-- The items of a list with one more at its end.
pub get_elem?-snoc {ℓ} :
    {A : Type ℓ} (xs : List A) (x : A) (i : ℕ) {y : A}
    → get_elem? (xs ++ x ∷ []) i ≡ some y
    → ((i < length xs) × (get_elem? xs i ≡ some y)) ⊎ ((i ≡ length xs) × (x ≡ y))
get_elem?-snoc [] x zero h = inr (refl, cc)
get_elem?-snoc [] x (suc i) h = cc
get_elem?-snoc (z ∷ xs) x zero h = inl (omega arith, h)
get_elem?-snoc (z ∷ xs) x (suc i) h = elim (get_elem?-snoc xs x i h) [
  | inl (within, found) ↦ inl (omega (arith, within), found)
  | inr (at_end, same) ↦ inr (ap suc at_end, same)
]

get_elem?-bound {ℓ} :
    {A : Type ℓ} (xs : List A) (i : ℕ) {y : A} → get_elem? xs i ≡ some y → i < length xs
get_elem?-bound [] i h = cc
get_elem?-bound (x ∷ xs) zero h = omega arith
get_elem?-bound (x ∷ xs) (suc i) h = omega (arith, get_elem?-bound xs i h)

continues_not : {b : Bool} → b ≡ false → b ≡ true → ⊥
continues_not p q = cc

module _ (suite : Suite) (options : Options) where
  Lineage-last :
      {items : List VerifiedEvent} {last : VerifiedEvent} {keys : LifecycleKeys} {ended : Bool}
      → Lineage suite options items last keys ended
      → (n : ℕ) × (last.chain.seq ≡ number n) × (suc n ≡ length items)
  Lineage-last (founded item numbered _ _) = (0, numbered, refl)
  Lineage-last (extended {items} {prev} item before linked _ _) =
      let (n, prev_numbered, long) = Lineage-last before in
      let same : linked.prev_seq ≡ n = cc (linked.prev_numbered, prev_numbered) in
      (suc n, rw (← same) linked.numbered, omega (arith, long, length-append items (item ∷ [])))

  Lineage-numbered :
      {items : List VerifiedEvent} {last : VerifiedEvent} {keys : LifecycleKeys} {ended : Bool}
      (i : ℕ) {item : VerifiedEvent}
      → Lineage suite options items last keys ended
      → get_elem? items i ≡ some item
      → item.chain.seq ≡ number i
  Lineage-numbered zero {item} (founded first numbered _ _) h =
      let same : first ≡ item = cc h in rw (← same) numbered
  Lineage-numbered (suc i) (founded first numbered _ _) h = cc
  Lineage-numbered i (extended {items} {prev} last before linked extends timely) h =
      elim (get_elem?-snoc items last i h) [
        | inl (_, found) ↦ Lineage-numbered i before found
        | inr (at_end, same) ↦
            let (n, numbered, long) = Lineage-last (extended last before linked extends timely) in
            let n_is_i : n ≡ i = omega (arith, long, at_end, length-append items (last ∷ [])) in
            rw (← same, ← n_is_i) numbered
      ]

  Lineage-terminal :
      {items : List VerifiedEvent} {last : VerifiedEvent} {keys : LifecycleKeys} {ended : Bool}
      (i : ℕ) {item : VerifiedEvent}
      → Lineage suite options items last keys ended
      → get_elem? items i ≡ some item
      → ends_lifecycle item.event.body ≡ true
      → (suc i ≡ length items) × (ended ≡ true)
  Lineage-terminal zero {item} (founded first numbered founds _) h terminal =
      let same : first ≡ item = cc h in
      absurd (continues_not (Founds-continues suite options first founds) (rw same terminal))
  Lineage-terminal (suc i) (founded first numbered _ _) h terminal = cc
  Lineage-terminal i (extended {items} last before linked extends timely) h terminal =
      elim (get_elem?-snoc items last i h) [
        | inl (_, found) ↦ absurd (continues_not refl (Lineage-terminal i before found terminal).1)
        | inr (at_end, same) ↦
            (omega (arith, at_end, length-append items (last ∷ [])), rw same terminal)
      ]

  -- What verifyLifecycle accepts has 1 to 10000 events; each carries its position as its seq, which is a
  -- safe integer; and a REVOCATION or RETIREMENT is the last of them.
  pub verify_lifecycle-ordered :
      (items : List VerifiedEvent) {s : Progress}
      → verify_lifecycle suite options items ≡ ok s
      → (1 ≤ length items)
        × (length items ≤ 10000)
        × ((i : ℕ) (item : VerifiedEvent)
            → get_elem? items i ≡ some item
            → (item.chain.seq ≡ number i)
              × (i < 2 ^ 53)
              × (ends_lifecycle item.event.body ≡ true → suc i ≡ length items))
  unfolding verify_lifecycle
  verify_lifecycle-ordered items h =
      let (last, keys, known, lineage) = verify_lifecycle-Lineage suite options items h in
      let (n, _, long) = Lineage-last lineage in
      let (_, short, _) = >>=-eq-ok (throw_if (ltb 10000 (length items)) _) _ h in
      let within : length items ≤ 10000 = ground arith in
      (
        omega (arith, long),
        within,
        λ i item found. (
          Lineage-numbered i lineage found,
          omega (arith, within, get_elem?-bound items i found),
          λ terminal. (Lineage-terminal i lineage found terminal).0,
        ),
      )
