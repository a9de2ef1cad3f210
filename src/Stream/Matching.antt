-- ===== src/Stream/Matching.antt =====
-- The snapshot of DomainLog in packages/protocol/src/verified-domain.ts beside the keys that the
-- verification of a stream has: each event keeps them in step.

use dnsid_ts.Common.{
  ℕ, ◌≤◌, Bool, true, false, none, some, String, eq_iff, List, [], ◌∷◌, ◌++◌, ok, ◌≡◌, ◌≢◌, refl,
  sym, ◌∙◌, arith, eq_refl,
}
use dnsid_ts.Lifecycle.Keys.{
  Key, key_continuity, invalid_issuance, synchronous_jwk_thumbprint, same_jwk_material,
}
use dnsid_ts.Lifecycle.Events.{
  Issuance, KeyRotation, Body, issuance, key_rotation, revocation, retirement, migration,
  delegation, unsupported, LogEvent,
}
use dnsid_ts.Stream.Evidence.{VerifiedEvent, Suite}
use dnsid_ts.Stream.Checks.{is_supported_lifecycle_jwk, ends_lifecycle}
use dnsid_ts.Stream.Verifier.{LifecycleKeys}
use dnsid_ts.Stream.Facts.{IsRotation, IsIssuance}
use dnsid_ts.Stream.Lineage.{Extends, rotated, confirmed, IsEntityEvent}
use dnsid_ts.Stream.Thumbprints.{IsRfc7638, is_supported_lifecycle_jwk-agrees, distinct_thumbprints}
use dnsid_ts.Lifecycle.Snapshot.{
  unissued, active, revoked, retired, Snapshot, is_terminal, is_revocation_reason, check_binding,
  apply_issuance, check_new_key, apply_rotation, apply_body, apply_event, step,
}

module _ (hash : List (String × String) → String) where
  check_binding-eq-ok :
      (entity operational : Key) (s t : String)
      → synchronous_jwk_thumbprint hash entity invalid_issuance ≡ ok s
      → synchronous_jwk_thumbprint hash operational invalid_issuance ≡ ok t
      → s ≢ ""
      → t ≢ ""
      → s ≢ t
      → same_jwk_material entity operational ≡ false
      → check_binding hash (some entity) (some operational) s t ≡ ok operational
  unfolding check_binding
  check_binding-eq-ok entity operational s t p q sn tn differ apart =
      ground (arith, eq_iff s "", eq_iff t "", eq_iff s t, p, q, eq_refl s, eq_refl t)

  check_new_key-eq-ok :
      (old key : Key) (current t : String)
      → synchronous_jwk_thumbprint hash key key_continuity ≡ ok t
      → t ≢ ""
      → t ≢ current
      → same_jwk_material old key ≡ false
      → check_new_key hash (some old) current t (some key) ≡ ok key
  unfolding check_new_key
  check_new_key-eq-ok old key current t p tn differ apart =
      ground (arith, eq_iff t "", eq_iff t current, p, eq_refl t)

  -- An event of the domain that is not past the boundary.
  pub step-eq-apply_body :
      (domain : String) (at : ℕ) (s : Snapshot) (event : LogEvent) (t : ℕ)
      → event.domain ≡ domain
      → event.timestamp ≡ some t
      → t ≤ at
      → s.past_snapshot_boundary ≡ false
      → s.state ≡ active
      → step hash domain at s event
        ≡ apply_body hash (record s { events_up_to = s.events_up_to ++ event ∷ [] }) t event.body
  unfolding step apply_event
  step-eq-apply_body domain at s event t dom stamp early within live =
      ground (arith, eq_iff event.domain domain, stamp, live, within)

-- The events that the envelope's parser makes of a stream of one domain that starts with its ISSUANCE:
-- no draft-01 key slots, no type that it does not know, and no MIGRATION.
abbrev pub IsNativeBody : Body → Type 0
IsNativeBody (issuance e) = (e.entity_key ≡ none) × (e.operational_key ≡ none)
IsNativeBody (migration e) = ⊥
IsNativeBody unsupported = ⊥
IsNativeBody _ = Unit

abbrev pub IsNative : String → VerifiedEvent → Type 0
IsNative domain item = (item.event.domain ≡ domain) × IsNativeBody item.event.body

module _ (suite : Suite) (hash : List (String × String) → String) (rfc : IsRfc7638 suite hash) where
  -- The snapshot and the keys of the stream agree.
  pub record Matches (keys : LifecycleKeys) (ended : Bool) (s : Snapshot) : Type 0 where
    pub active_key : s.active_key ≡ some keys.active_operational_key
    pub thumbprint : suite.jwk_thumbprint keys.active_operational_key ≡ some s.active_key_thumbprint
    pub supported : is_supported_lifecycle_jwk keys.active_operational_key ≡ true
    pub within : s.past_snapshot_boundary ≡ false
    pub live : ended ≡ false → s.state ≡ active
    pub over : ended ≡ true → is_terminal s.state ≡ true

  pub apply_issuance-Matches :
      (s : Snapshot) (item : VerifiedEvent) (sig : String) (t : ℕ) (e : Issuance)
      (keys : LifecycleKeys)
      → s.state ≡ unissued
      → s.past_snapshot_boundary ≡ false
      → (e.entity_key ≡ none) × (e.operational_key ≡ none)
      → IsIssuance suite item sig e keys
      → (s' : Snapshot) × (apply_issuance hash s t e ≡ ok s') × Matches keys false s'
  unfolding apply_issuance
  apply_issuance-Matches s item sig t e keys fresh within (no_entity, no_operational) facts =
      let en =
        is_supported_lifecycle_jwk-agrees suite hash rfc keys.entity_key invalid_issuance
          facts.entity_supported facts.entity_hashed in
      let op =
        is_supported_lifecycle_jwk-agrees suite hash rfc keys.active_operational_key
          invalid_issuance facts.operational_supported facts.operational_hashed in
      let apart =
        distinct_thumbprints suite hash rfc keys.entity_key keys.active_operational_key
          facts.entity_supported facts.operational_supported facts.entity_hashed
          facts.operational_hashed facts.distinct in
      let bound =
        check_binding-eq-ok hash keys.entity_key keys.active_operational_key facts.entity_thumbprint
          facts.operational_thumbprint en.0 op.0 en.1 op.1 facts.distinct apart in
      let s' : Snapshot = record s {
        state = active;
        active_key = some keys.active_operational_key;
        active_key_thumbprint = facts.operational_thumbprint;
        key_bound_at = t;
        governance_id = e.governance_id;
      } in
      (
        s',
        rw
            (
              no_entity, no_operational, facts.entity_given, facts.operational_given,
              facts.entity_thumbprint_given, facts.operational_thumbprint_given,
            )
            (ground (arith, bound, fresh)),
        record {
          active_key = refl;
          thumbprint = facts.operational_hashed;
          supported = facts.operational_supported;
          within = within;
          live = λ _. refl;
          over = λ bad. cc;
        },
      )

  apply_rotation-Matches :
      (s : Snapshot) (item : VerifiedEvent) (sig : String) (t : ℕ) (e : KeyRotation)
      (old new : LifecycleKeys)
      → Matches old false s
      → IsRotation suite item sig e old new
      → (s' : Snapshot) × (apply_rotation hash s t e ≡ ok s') × Matches new false s'
  unfolding apply_rotation
  apply_rotation-Matches s item sig t e old new m facts =
      let hashed =
        is_supported_lifecycle_jwk-agrees suite hash rfc new.active_operational_key key_continuity
          facts.supported facts.hashed in
      let apart =
        distinct_thumbprints suite hash rfc old.active_operational_key new.active_operational_key
          m.supported facts.supported facts.previous facts.hashed (λ e. facts.differs (sym e)) in
      let current : e.previous_operational_thumbprint ≡ s.active_key_thumbprint =
        cc (facts.previous, m.thumbprint) in
      let checked =
        check_new_key-eq-ok hash old.active_operational_key new.active_operational_key
          s.active_key_thumbprint e.new_operational_thumbprint hashed.0 hashed.1
          (λ same. facts.differs (same ∙ sym current)) apart in
      let s' : Snapshot = record s {
        active_key = some new.active_operational_key;
        active_key_thumbprint = e.new_operational_thumbprint;
        key_bound_at = t;
      } in
      let given = facts.given in
      let known = m.active_key in
      let live = m.live refl in
      (
        s',
        rw (facts.given, m.active_key)
            (ground (
              arith,
              checked,
              live,
              current,
              eq_iff e.previous_operational_thumbprint s.active_key_thumbprint,
            )),
        record {
          active_key = refl;
          thumbprint = facts.hashed;
          supported = facts.supported;
          within = m.within;
          live = λ _. live;
          over = λ bad. cc;
        },
      )

  pub pushed-Matches :
      (s : Snapshot) (keys : LifecycleKeys) (events : List LogEvent) {ended : Bool}
      → Matches keys ended s
      → Matches keys ended (record s { events_up_to = events })
  pushed-Matches s keys events m = record {
    active_key = m.active_key;
    thumbprint = m.thumbprint;
    supported = m.supported;
    within = m.within;
    live = m.live;
    over = m.over;
  }

  apply_body-Matches :
      (s : Snapshot) (t : ℕ) (b : Body) (keys : LifecycleKeys)
      → Matches keys false s
      → IsNativeBody b
      → IsEntityEvent b
      → (s' : Snapshot) × (apply_body hash s t b ≡ ok s') × Matches keys (ends_lifecycle b) s'
  unfolding apply_body
  apply_body-Matches s t (issuance e) keys m native valid = absurd valid
  apply_body-Matches s t (migration e) keys m native valid = absurd valid
  apply_body-Matches s t (key_rotation e) keys m native valid = absurd valid
  apply_body-Matches s t unsupported keys m native valid = absurd native
  apply_body-Matches s t delegation keys m native valid =
      let live = m.live refl in (s, rw live refl, m)
  apply_body-Matches s t retirement keys m native valid =
      let s' : Snapshot = record s { state = retired } in
      let live = m.live refl in
      (
        s',
        rw live refl,
        record {
          active_key = m.active_key;
          thumbprint = m.thumbprint;
          supported = m.supported;
          within = m.within;
          live = λ bad. cc;
          over = λ _. refl;
        },
      )
  apply_body-Matches s t (revocation reason) keys m native valid =
      let s' : Snapshot = record s { state = revoked } in
      let live = m.live refl in
      let reason_valid : is_revocation_reason reason ≡ true = ground arith in
      (
        s',
        rw (live, reason_valid) refl,
        record {
          active_key = m.active_key;
          thumbprint = m.thumbprint;
          supported = m.supported;
          within = m.within;
          live = λ bad. cc;
          over = λ _. refl;
        },
      )

  -- Any later event.
  pub Extends-Matches :
      (s : Snapshot) (item : VerifiedEvent) (t : ℕ) (old new : LifecycleKeys)
      → IsNativeBody item.event.body
      → Matches old false s
      → Extends suite item old new
      → (s' : Snapshot) × (apply_body hash s t item.event.body ≡ ok s')
        × Matches new (ends_lifecycle item.event.body) s'
  unfolding apply_body
  Extends-Matches s item t old _ native m (rotated {new} e sig is _ facts) =
      rw is (apply_rotation-Matches s item sig t e old new m facts)
  Extends-Matches s item t old _ native m (confirmed sig shape _ _) =
      apply_body-Matches s t item.event.body old m native shape
