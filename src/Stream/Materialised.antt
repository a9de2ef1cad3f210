-- ===== src/Stream/Materialised.antt =====
-- The composition with DomainLog of packages/protocol/src/verified-domain.ts: what the verification of a
-- stream accepts, snapshotAt materialises.
use mathlib.Core.Path.{subst}
use mathlib.Core.List.{map-append}
use dnsid_ts.Common.{
  ℕ, ◌≤◌, Bool, true, false, Option, some, String, eq_iff, List, [], ◌∷◌, ◌++◌, map, All, All-split,
  ok, ◌≡◌, ◌≢◌, refl, ap, ◌∙◌, arith, ◌↔◌,
}
use dnsid_ts.Stream.Evidence.{VerifiedEvent, Options, Suite}
use dnsid_ts.Stream.Checks.{ends_lifecycle}
use dnsid_ts.Stream.Verifier.{LifecycleKeys, Progress, verify_lifecycle}
use dnsid_ts.Stream.Lineage.{
  Lineage, founded, extended, Founds, issued, imported, Extends, IsTimely, Lineage-nonempty,
}
use dnsid_ts.Stream.Reached.{verify_lifecycle-Lineage}
use dnsid_ts.Stream.Thumbprints.{IsRfc7638}
use dnsid_ts.Lifecycle.Prefix.{fold_events-append}
use dnsid_ts.Lifecycle.Snapshot.{
  active, Snapshot, start, is_terminal, apply_body, apply_event, step, fold_events, finish,
  snapshot_at,
}
use dnsid_ts.Stream.Matching.{
  IsNative, IsNativeBody, step-eq-apply_body, Matches, apply_issuance-Matches, pushed-Matches,
  Extends-Matches,
}

limit_unique : {o : Option ℕ} {a b : ℕ} → o ≡ some a → o ≡ some b → a ≡ b
limit_unique p q = cc

module _ (suite : Suite) (hash : List (String × String) → String) (rfc : IsRfc7638 suite hash) where
  module _ (domain : String) (at limit : ℕ) (options : Options) where
    abbrev Folds : List VerifiedEvent → Snapshot → Type 0
    Folds items s = fold_events hash domain at start (map (λ item. item.event) items) ≡ ok s

    first_step :
        (item : VerifiedEvent) (keys : LifecycleKeys)
        → options.checkpoint_integration_time_ms ≡ some limit
        → limit ≤ at
        → IsNative domain item
        → Founds suite options item keys
        → IsTimely suite options item
        → (s' : Snapshot) × (step hash domain at start item.event ≡ ok s')
          × Matches suite hash rfc keys false s'
    unfolding step apply_event apply_body
    first_step item keys set within (dom, native) (imported e sig is _ _) time =
        absurd (subst IsNativeBody is native)
    first_step item keys set within (dom, native) (issued e sig is _ facts)
          (t, l, stamp, lim, early) =
        let before : t ≤ at = omega (arith, limit_unique set lim) in
        let (s', applied, matches) =
          apply_issuance-Matches suite hash rfc (record start { events_up_to = item.event ∷ [] })
            item sig t e keys refl refl (subst IsNativeBody is native) facts in
        (s', rw is (ground (arith, eq_iff item.event.domain domain, stamp, applied)), matches)

    later_step :
        (s : Snapshot) (item : VerifiedEvent) (old new : LifecycleKeys)
        → options.checkpoint_integration_time_ms ≡ some limit
        → limit ≤ at
        → IsNative domain item
        → Matches suite hash rfc old false s
        → Extends suite item old new
        → IsTimely suite options item
        → (s' : Snapshot) × (step hash domain at s item.event ≡ ok s')
          × Matches suite hash rfc new (ends_lifecycle item.event.body) s'
    unfolding apply_body
    later_step s item old new set within (dom, native) m extends (t, l, stamp, lim, early) =
        let before : t ≤ at = omega (arith, limit_unique set lim) in
        let pushed : Snapshot = record s { events_up_to = s.events_up_to ++ item.event ∷ [] } in
        let stepped =
          step-eq-apply_body hash domain at s item.event t dom stamp before m.within
            (m.live refl) in
        let (s', applied, next) =
          Extends-Matches suite hash rfc pushed item t old new native
            (pushed-Matches suite hash rfc s old (s.events_up_to ++ item.event ∷ []) m) extends in
        (s', stepped ∙ applied, next)

    fold_events-snoc :
        (items : List VerifiedEvent) (item : VerifiedEvent) (s s' : Snapshot)
        → Folds items s
        → step hash domain at s item.event ≡ ok s'
        → Folds (items ++ item ∷ []) s'
    unfolding fold_events
    fold_events-snoc items item s s' before stepped =
        ap (fold_events hash domain at start) (map-append (λ i. i.event) items (item ∷ []))
        ∙ fold_events-append hash domain at start (map (λ i. i.event) items) (item.event ∷ [])
        ∙ rw (before, stepped) refl

    Lineage-Matches :
        {items : List VerifiedEvent} {last : VerifiedEvent} {keys : LifecycleKeys} {ended : Bool}
        → options.checkpoint_integration_time_ms ≡ some limit
        → limit ≤ at
        → Lineage suite options items last keys ended
        → All (IsNative domain) items
        → (s : Snapshot) × Folds items s × Matches suite hash rfc keys ended s
    unfolding fold_events
    Lineage-Matches set within (founded {keys} item numbered founds timely) (native, _) =
        let (s', stepped, m) = first_step item keys set within native founds timely in
        (s', rw stepped refl, m)
    Lineage-Matches set within
          (extended {items} {prev} {keys} {keys'} item before linked extends timely) native =
        let (earlier, (now, _)) = All-split (IsNative domain) items (item ∷ []) native in
        let (s, folded, m) = Lineage-Matches set within before earlier in
        let (s', stepped, next) = later_step s item keys keys' set within now m extends timely in
        (s', fold_events-snoc items item s s' folded stepped, next)

    Matches-finish :
        (keys : LifecycleKeys) (ended : Bool) (s : Snapshot)
        → Matches suite hash rfc keys ended s
        → finish s ≡ ok s
    unfolding finish
    Matches-finish keys false s m =
        let live = m.live refl in let key = m.active_key in ground (arith, live, key)
    Matches-finish keys true s m =
        let over = m.over refl in let key = m.active_key in ground (arith, over, key)

    Matches-continues :
        (keys : LifecycleKeys) (ended : Bool) (s : Snapshot)
        → Matches suite hash rfc keys ended s
        → s.state ≡ active
        → ended ≡ false
    Matches-continues keys false s m live = refl
    Matches-continues keys true s m live =
        let over : is_terminal s.state ≡ true = m.over refl in cc (over, live)

    Matches-snapshot_at :
        (items : List VerifiedEvent) (keys : LifecycleKeys) (ended : Bool) (s : Snapshot)
        → items ≢ []
        → Folds items s
        → Matches suite hash rfc keys ended s
        → snapshot_at hash domain (map (λ item. item.event) items) at ≡ ok s
    unfolding snapshot_at
    Matches-snapshot_at [] keys ended s some_event folded m = absurd (some_event refl)
    Matches-snapshot_at (item ∷ items) keys ended s some_event folded m =
        rw folded (Matches-finish keys ended s m)

    -- Let a stream hold no MIGRATION and no event of an unsupported type, an ISSUANCE that gives its keys in
    -- the c2sp-tlog fields and not in draft-01 slots, and events of the one domain only, and let jose compute
    -- the thumbprints that verified-domain.ts does, none of them empty. If verifyLifecycle accepts it,
    -- snapshotAt materialises it at any time from the checkpoint's integration time on: with the operational
    -- key that the verification ends with, that key's thumbprint, and an active state exactly when no
    -- REVOCATION or RETIREMENT ended it.
    pub verify_lifecycle-snapshot_at :
        (items : List VerifiedEvent) {s : Progress}
        → options.checkpoint_integration_time_ms ≡ some limit
        → limit ≤ at
        → All (IsNative domain) items
        → verify_lifecycle suite options items ≡ ok s
        → (snapshot : Snapshot) × (keys : LifecycleKeys) × (snapshot_at hash domain
              (map (λ item. item.event) items)
              at
            ≡ ok snapshot)
          × (s.keys ≡ some keys)
          × (snapshot.active_key ≡ some keys.active_operational_key)
          × (suite.jwk_thumbprint keys.active_operational_key ≡ some snapshot.active_key_thumbprint)
          × ((snapshot.state ≡ active) ↔ (s.terminal ≡ false))
    verify_lifecycle-snapshot_at items {s} set within native h =
        let (last, keys, known, lineage) = verify_lifecycle-Lineage suite options items h in
        let (snapshot, folded, m) = Lineage-Matches set within lineage native in
        (
          snapshot,
          keys,
          Matches-snapshot_at items keys s.terminal snapshot
              (Lineage-nonempty suite options lineage) folded m,
          known,
          m.active_key,
          m.thumbprint,
          (Matches-continues keys s.terminal snapshot m, m.live),
        )
