-- ===== src/Stream/Stitched.antt =====
-- What a stitched history is.

use dnsid_ts.Common.{
  ℕ, zero, suc, ◌+◌, Bool, true, false, not, Option, none, some, String, str_eq, eq_iff, List, [],
  ◌∷◌, ◌++◌, map, length, get_elem?, Result, ok, err, throw_if, >>=-eq-ok, Bytes, ◌≡◌, ◌⊎◌, inl,
  inr, refl, arith,
}
use dnsid_ts.Lifecycle.Events.{
  Migration, Body, issuance, key_rotation, revocation, retirement, migration, delegation,
  unsupported, LogEvent,
}
use dnsid_ts.Lifecycle.Keys.{LifecycleError}
use dnsid_ts.Lifecycle.Snapshot.{Snapshot, snapshot_at, is_active, active}
use dnsid_ts.Stream.Evidence.{VerifiedEvent, MigrationResult, Options, Suite}
use dnsid_ts.Stream.Checks.{require, thumbprint}
use dnsid_ts.Stream.Facts.{ok_unique, throw_if-eq-ok, require-eq-ok}
use dnsid_ts.Stream.Lineage.{Lineage, founded, extended, Extends, rotated, confirmed, IsEntityEvent}
use dnsid_ts.Stream.Verifier.{LifecycleKeys, Progress, verify_lifecycle}
use dnsid_ts.Stream.Reached.{verify_lifecycle-Lineage}
use dnsid_ts.Stream.Order.{get_elem?-snoc}
use dnsid_ts.Stream.References.{ParsedLr, inbound_of}
use dnsid_ts.Stream.Stitching.{
  latest, is_same_migration, some_same_migration, materialised, check_imported_keys,
  check_references, is_empty_history, stitch_verified_migration_history,
}

opposed : {b : Bool} → b ≡ false → b ≡ true → ⊥
opposed p q = cc

materialised-eq-ok :
    (r : Result LifecycleError Snapshot) {s : Snapshot} → materialised r ≡ ok s → r ≡ ok s
materialised-eq-ok (err c) h = cc
materialised-eq-ok (ok s) h = cc

module _ (suite : Suite) (hash : List (String × String) → String)
    (parse_lr : Bytes → Option ParsedLr) where
  pub record IsStitched (domain : String) (current : List LogEvent) (result : MigrationResult)
      (stitched : List LogEvent) : Type 0 where
    pub inbound : Migration
    pub inbound_first : inbound_of current ≡ some inbound
    pub joined : stitched ≡ result.prior_history ++ current
    pub once_before : some_same_migration inbound result.prior_history ≡ false
    pub prior : Snapshot
    pub prior_materialised :
        snapshot_at hash domain result.prior_history (latest result.prior_history) ≡ ok prior
    pub prior_active : prior.state ≡ active
    pub imported_key :
        suite.jwk_thumbprint result.active_operational_key ≡ some prior.active_key_thumbprint
    pub whole : Snapshot
    pub whole_materialised : snapshot_at hash domain stitched (latest stitched) ≡ ok whole

  -- What stitchVerifiedMigrationHistory returns is the prior history followed by the current events; the
  -- prior history does not hold the inbound MIGRATION, materialises as active with the imported key, and
  -- the whole materialises too.
  pub stitch_verified_migration_history-IsStitched :
      (domain : String) (current : List LogEvent) (result : MigrationResult)
      {stitched : List LogEvent}
      → stitch_verified_migration_history suite hash parse_lr domain current result ≡ ok stitched
      → IsStitched domain current result stitched
  unfolding stitch_verified_migration_history check_imported_keys
  stitch_verified_migration_history-IsStitched domain current result h =
      let (inbound, first, h1) = >>=-eq-ok (require _ (inbound_of current)) _ h in
      let (_, _, h2) = >>=-eq-ok (throw_if (is_empty_history result.prior_history) _) _ h1 in
      let (_, once, h3) =
        >>=-eq-ok (throw_if (some_same_migration inbound result.prior_history) _) _ h2 in
      let (_, _, h4) =
        >>=-eq-ok
          (check_references suite hash parse_lr inbound result result.prior_history_references) _
          h3 in
      let (_, imported, h5) =
        >>=-eq-ok (check_imported_keys suite hash parse_lr domain result) _ h4 in
      let stitched' : List LogEvent = result.prior_history ++ current in
      let (whole, made, h6) =
        >>=-eq-ok (materialised (snapshot_at hash domain stitched' (latest stitched'))) _ h5 in
      let (prior, prior_made, i1) =
        >>=-eq-ok
          (materialised
            (snapshot_at hash domain result.prior_history (latest result.prior_history)))
          _ imported in
      let (_, live, i2) = >>=-eq-ok (throw_if (not (is_active prior.state)) _) _ i1 in
      let (t, hashed, i3) = >>=-eq-ok (thumbprint suite result.active_operational_key) _ i2 in
      let (_, same, i4) =
        >>=-eq-ok (throw_if (not (str_eq prior.active_key_thumbprint t)) _) _ i3 in
      rw (← ok_unique (ok stitched') refl h6) record {
        inbound = inbound;
        inbound_first = require-eq-ok _ _ first;
        joined = refl;
        once_before = throw_if-eq-ok _ _ once;
        prior = prior;
        prior_materialised = materialised-eq-ok _ prior_made;
        prior_active = ground (arith, throw_if-eq-ok _ _ live);
        imported_key = ground (
          arith,
          require-eq-ok _ _ hashed,
          throw_if-eq-ok _ _ same,
          eq_iff prior.active_key_thumbprint t,
        );
        whole = whole;
        whole_materialised = materialised-eq-ok _ made;
      }

get_elem?-append {ℓ} :
    {A : Type ℓ} (xs ys : List A) (i : ℕ) {y : A}
    → get_elem? (xs ++ ys) i ≡ some y
    → (get_elem? xs i ≡ some y) ⊎ ((j : ℕ) × (i ≡ length xs + j) × (get_elem? ys j ≡ some y))
get_elem?-append [] ys i h = inr (i, omega arith, h)
get_elem?-append (x ∷ xs) ys zero h = inl h
get_elem?-append (x ∷ xs) ys (suc i) h = elim (get_elem?-append xs ys i h) [
  | inl found ↦ inl found
  | inr (j, place, found) ↦ inr (j, omega (arith, place), found)
]

get_elem?-map {ℓ κ} :
    {A : Type ℓ} {B : Type κ} (f : A → B) (xs : List A) (i : ℕ) {y : B}
    → get_elem? (map f xs) i ≡ some y
    → (x : A) × (get_elem? xs i ≡ some x) × (f x ≡ y)
get_elem?-map f [] i h = cc
get_elem?-map f (x ∷ xs) zero h = (x, refl, cc)
get_elem?-map f (x ∷ xs) (suc i) h = get_elem?-map f xs i h

inbound_of-first :
    (prior current : List LogEvent) {inbound : Migration}
    → inbound_of current ≡ some inbound
    → (first : LogEvent) × (get_elem? (prior ++ current) (length prior) ≡ some first)
      × (first.body ≡ migration inbound)
inbound_of-first (e ∷ prior) current h = inbound_of-first prior current h
inbound_of-first [] [] h = cc
inbound_of-first [] (e ∷ current) {inbound} h = (e, refl, by_body e.body h)
  where
    by_body :
        (b : Body)
        → (elim b [ migration m ↦ some m | _ ↦ none ]) ≡ some inbound
        → b ≡ migration inbound
    by_body (migration m) h = cc
    by_body (issuance _) h = cc
    by_body (key_rotation _) h = cc
    by_body (revocation _) h = cc
    by_body retirement h = cc
    by_body delegation h = cc
    by_body unsupported h = cc

some_same_migration-none :
    (inbound : Migration) (events : List LogEvent) (i : ℕ) {event : LogEvent}
    → some_same_migration inbound events ≡ false
    → get_elem? events i ≡ some event
    → is_same_migration inbound event.body ≡ false
some_same_migration-none inbound [] i none_same h = cc
some_same_migration-none inbound (e ∷ events) zero {event} none_same h =
    let same : e ≡ event = cc h in rw (← same) (ground arith)
some_same_migration-none inbound (e ∷ events) (suc i) none_same h =
    some_same_migration-none inbound events i (ground arith) h

module _ (suite : Suite) (options : Options) where
  Extends-no_migration :
      (inbound : Migration) (item : VerifiedEvent) {old new : LifecycleKeys}
      → Extends suite item old new
      → is_same_migration inbound item.event.body ≡ false
  Extends-no_migration inbound item (rotated e sig is _ _) = rw is refl
  Extends-no_migration inbound item (confirmed sig shape _ _) = by_body item.event.body shape
    where
      by_body : (b : Body) → IsEntityEvent b → is_same_migration inbound b ≡ false
      by_body (issuance e) valid = refl
      by_body (migration e) valid = absurd valid
      by_body (key_rotation e) valid = refl
      by_body (revocation r) valid = refl
      by_body retirement valid = refl
      by_body delegation valid = refl
      by_body unsupported valid = refl

  Lineage-no_migration :
      (inbound : Migration) {items : List VerifiedEvent} {last : VerifiedEvent}
      {keys : LifecycleKeys} {ended : Bool} (i : ℕ) {item : VerifiedEvent}
      → Lineage suite options items last keys ended
      → get_elem? items (suc i) ≡ some item
      → is_same_migration inbound item.event.body ≡ false
  Lineage-no_migration inbound i (founded first _ _ _) h = cc
  Lineage-no_migration inbound i (extended {items} last before _ extends _) h =
      elim (get_elem?-snoc items last (suc i) h) [
        | inl (_, found) ↦ Lineage-no_migration inbound i before found
        | inr (_, same) ↦ rw (← same) (Extends-no_migration inbound last extends)
      ]

module _ (suite : Suite) (hash : List (String × String) → String)
    (parse_lr : Bytes → Option ParsedLr) where
  -- Where verifyLifecycle accepted the current events, the stitched history is the prior history followed
  -- by them; the MIGRATION that starts them stands right behind the prior history, and no other event is a
  -- MIGRATION with its fields.
  pub stitch_verified_migration_history_once :
      (domain : String) (options : Options) (items : List VerifiedEvent) (result : MigrationResult)
      {s : Progress} {stitched : List LogEvent}
      → verify_lifecycle suite options items ≡ ok s
      → stitch_verified_migration_history suite hash parse_lr domain
          (map (λ i. i.event) items)
          result
        ≡ ok stitched
      → (inbound : Migration) × (first : LogEvent) × (stitched
          ≡ result.prior_history ++ map (λ i. i.event) items)
        × (get_elem? stitched (length result.prior_history) ≡ some first)
        × (first.body ≡ migration inbound)
        × ((i : ℕ) (event : LogEvent)
            → get_elem? stitched i ≡ some event
            → is_same_migration inbound event.body ≡ true
            → i ≡ length result.prior_history)
  stitch_verified_migration_history_once domain options items result {stitched = stitched} accepted
        h =
      let facts =
        stitch_verified_migration_history-IsStitched suite hash parse_lr domain
          (map (λ i. i.event) items) result h in
      let (last, keys, _, lineage) = verify_lifecycle-Lineage suite options items accepted in
      let (first, behind, body) =
        inbound_of-first result.prior_history (map (λ i. i.event) items) facts.inbound_first in
      (
        facts.inbound,
        first,
        facts.joined,
        rw facts.joined behind,
        body,
        λ i event found same.
            let in_whole : get_elem? (result.prior_history ++ map (λ i. i.event) items) i
                ≡ some event =
              rw (← facts.joined) found in
            elim (get_elem?-append result.prior_history (map (λ i. i.event) items) i in_whole) [
              | inl before ↦ absurd (
                  opposed
                    (some_same_migration-none facts.inbound result.prior_history i facts.once_before
                      before)
                    same)
              | inr (zero, place, _) ↦ omega (arith, place)
              | inr (suc j, place, behind) ↦
                  let (item, at_item, is) = get_elem?-map (λ i. i.event) items (suc j) behind in
                  let no = Lineage-no_migration suite options facts.inbound j lineage at_item in
                  absurd (opposed no (rw is same))
            ],
      )
