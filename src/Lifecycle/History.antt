-- ===== src/Lifecycle/History.antt =====
-- The snapshot that DomainLog.snapshotAt of packages/protocol/src/verified-domain.ts makes summarises a
-- history of the grammar.
use dnsid_ts.Common.{
  ℕ, true, Option, none, some, String, eq_iff, List, [], ◌∷◌, ◌++◌, ok, Bool-cases, >>=-eq-ok, ltb,
  throw_if, str_eq, not, ◌||◌, Result-cases, ◌≡◌, ◌≢◌, refl, arith, inl, inr,
}
use dnsid_ts.Lifecycle.Keys.{
  Key, LifecycleError, synchronous_jwk_thumbprint, invalid_issuance, key_continuity,
  same_jwk_material,
}
use dnsid_ts.Lifecycle.Events.{
  Issuance, KeyRotation, Body, issuance, key_rotation, revocation, retirement, migration,
  delegation, unsupported, LogEvent,
}
use dnsid_ts.Lifecycle.Snapshot.{
  State, unissued, active, revoked, retired, Snapshot, start, is_revocation_reason, check_binding,
  apply_issuance, check_new_key, apply_rotation, apply_body, apply_event, step, fold_events, finish,
  snapshot_at, issued_entity_key, issued_entity_thumbprint, issued_active_key,
  issued_active_thumbprint,
}
use dnsid_ts.Lifecycle.Given.{
  slot_jwk-eq-jwk_in, slot_thumbprint-eq-thumbprint_in, or_else-IsFirst_of_two,
  or_else-IsFirst_of_three, or_empty-IsFirst_of_two, or_empty-IsFirst_of_three,
}
use dnsid_ts.Lifecycle.Grammar.{
  IsBound, IsIssuedKey, History, nothing, genesis, rotate, keep, revoke, retire,
}

module _ (hash : List (String × String) → String) where
  abbrev pub Summarises : Snapshot → Type 0
  Summarises s = History hash s.events_up_to s.state s.active_key s.active_key_thumbprint

  -- The thumbprint does not depend on the category of its error.
  pub synchronous_jwk_thumbprint_category :
      (key : Key) (c d : LifecycleError) {t : String}
      → synchronous_jwk_thumbprint hash key c ≡ ok t
      → synchronous_jwk_thumbprint hash key d ≡ ok t
  unfolding synchronous_jwk_thumbprint
  synchronous_jwk_thumbprint_category key c d h = ground arith

  check_new_key_sound :
      (old : Option Key) (current new : String) (given : Option Key) {key : Key}
      → check_new_key hash old current new given ≡ ok key
      → (given ≡ some key) × IsBound hash key new × (new ≢ current)
  unfolding check_new_key
  check_new_key_sound old current new none h = cc
  check_new_key_sound old current new (some k) h =
      elim (Result-cases (synchronous_jwk_thumbprint hash k key_continuity)) [
        | inl (t, hashed) ↦ ground (arith, hashed, eq_iff new t, eq_iff new "", eq_iff new current)
        | inr (e, failed) ↦ absurd (ground (arith, failed))
      ]

  pub record IsBinding (entity active_key : Option Key) (entity_thumbprint thumbprint : String)
      (key : Key) : Type 0 where
    pub entity_key : Key
    pub entity_given : entity ≡ some entity_key
    pub given : active_key ≡ some key
    pub entity_bound : IsBound hash entity_key entity_thumbprint
    pub bound : IsBound hash key thumbprint
    pub apart : entity_thumbprint ≢ thumbprint

  check_binding_sound :
      (entity active_key : Option Key) (entity_thumbprint thumbprint : String) {key : Key}
      → check_binding hash entity active_key entity_thumbprint thumbprint ≡ ok key
      → IsBinding entity active_key entity_thumbprint thumbprint key
  unfolding check_binding
  check_binding_sound (some e) (some k) et t {key} h =
      let (_, named, h1) =
        >>=-eq-ok (throw_if (str_eq et "" || str_eq t "") invalid_issuance) _ h in
      let (u, hashed_e, h2) = >>=-eq-ok (synchronous_jwk_thumbprint hash e invalid_issuance) _ h1 in
      let (_, same_e, h3) = >>=-eq-ok (throw_if (not (str_eq et u)) invalid_issuance) _ h2 in
      let (v, hashed, h4) = >>=-eq-ok (synchronous_jwk_thumbprint hash k invalid_issuance) _ h3 in
      let (_, same, h5) = >>=-eq-ok (throw_if (not (str_eq t v)) invalid_issuance) _ h4 in
      let (_, differ, last) =
        >>=-eq-ok (throw_if (str_eq et t || same_jwk_material e k) invalid_issuance) _ h5 in
      let is_e : et ≡ u = ground (arith, same_e, eq_iff et u) in
      let is_k : t ≡ v = ground (arith, same, eq_iff t v) in
      let whole : k ≡ key = cc in
      rw (← whole) record {
        entity_key = e;
        entity_given = refl;
        given = refl;
        entity_bound = record {
          hashed =
              rw is_e
                (synchronous_jwk_thumbprint_category e invalid_issuance key_continuity hashed_e);
          nonempty = ground (arith, named, eq_iff et "");
        };
        bound = record {
          hashed =
              rw is_k
                (synchronous_jwk_thumbprint_category k invalid_issuance key_continuity hashed);
          nonempty = ground (arith, named, eq_iff t "");
        };
        apart = ground (arith, differ, eq_iff et t);
      }
  check_binding_sound none k et t h = cc
  check_binding_sound (some e) none et t h = cc

  issued_from :
      (i : Issuance) {key : Key}
      → IsBinding
          (issued_entity_key i)
          (issued_active_key i)
          (issued_entity_thumbprint i)
          (issued_active_thumbprint i)
          key
      → IsIssuedKey hash i key (issued_active_thumbprint i)
  issued_from i b = record {
    given = rw (← slot_jwk-eq-jwk_in i.operational_key) (or_else-IsFirst_of_three _ _ _ b.given);
    thumbprint_given =
        rw (← slot_thumbprint-eq-thumbprint_in i.operational_key)
          (or_empty-IsFirst_of_three _ _ _ b.bound.nonempty);
    bound = b.bound;
    entity_key = b.entity_key;
    entity_thumbprint = issued_entity_thumbprint i;
    entity_given =
        rw (← slot_jwk-eq-jwk_in i.entity_key) (or_else-IsFirst_of_two _ _ b.entity_given);
    entity_thumbprint_given =
        rw (← slot_thumbprint-eq-thumbprint_in i.entity_key)
          (or_empty-IsFirst_of_two _ _ b.entity_bound.nonempty);
    entity_bound = b.entity_bound;
    apart = b.apart;
  }

  -- What each kind of event changes, when it is applied.
  module _ (s : Snapshot) (timestamp : ℕ) {s' : Snapshot} where
    apply_issuance_sound :
        (i : Issuance)
        → apply_issuance hash s timestamp i ≡ ok s'
        → (key : Key) × (s.state ≡ unissued)
          × IsIssuedKey hash i key (issued_active_thumbprint i)
          × (s' ≡ record s {
            state = active;
            active_key = some key;
            active_key_thumbprint = issued_active_thumbprint i;
            key_bound_at = timestamp;
            governance_id = i.governance_id;
          })
    unfolding apply_issuance
    apply_issuance_sound i h =
        elim (Result-cases (
          check_binding hash (issued_entity_key i) (issued_active_key i)
            (issued_entity_thumbprint i) (issued_active_thumbprint i))) [
              | inl (key, bound) ↦ (
                key,
                ground (arith, bound),
                issued_from i (
                    check_binding_sound (issued_entity_key i) (issued_active_key i)
                      (issued_entity_thumbprint i) (issued_active_thumbprint i) bound),
                ground (arith, bound),
              )
              | inr (f, failed) ↦ absurd (ground (arith, failed))
            ]

    apply_rotation_sound :
        (r : KeyRotation)
        → apply_rotation hash s timestamp r ≡ ok s'
        → (key : Key) × (s.state ≡ active)
          × (r.previous_operational_thumbprint ≡ s.active_key_thumbprint)
          × (r.new_operational_public_key ≡ some key)
          × (r.new_operational_thumbprint ≢ s.active_key_thumbprint)
          × IsBound hash key r.new_operational_thumbprint
          × (s' ≡ record s {
            active_key = some key;
            active_key_thumbprint = r.new_operational_thumbprint;
            key_bound_at = timestamp;
          })
    unfolding apply_rotation
    apply_rotation_sound r h =
        elim (Result-cases (
          check_new_key hash s.active_key s.active_key_thumbprint r.new_operational_thumbprint
            r.new_operational_public_key)) [
              | inl (key, checked) ↦
                  let (given, bound, differs) =
                    check_new_key_sound s.active_key s.active_key_thumbprint
                      r.new_operational_thumbprint r.new_operational_public_key checked in
                  (
                    key,
                    ground (arith, checked),
                    ground (
                      arith,
                      checked,
                      eq_iff r.previous_operational_thumbprint s.active_key_thumbprint,
                    ),
                    given,
                    differs,
                    bound,
                    ground (arith, checked),
                  )
              | inr (f, failed) ↦ absurd (ground (arith, failed))
            ]

  History-unissued :
      {es : List LogEvent} {st : State} {key : Option Key} {t : String}
      → History hash es st key t
      → st ≡ unissued
      → es ≡ []
  History-unissued nothing e = refl
  History-unissued (genesis _ _ _ _ _ _) e = cc
  History-unissued (rotate _ _ _ _ _ _ _ _ _) e = cc
  History-unissued (keep _ _ _) e = cc
  History-unissued (revoke _ _ _ _ _) e = cc
  History-unissued (retire _ _ _) e = cc

  -- Each event that is applied goes on with a history of the grammar.
  module _ (s : Snapshot) (event : LogEvent) (timestamp : ℕ) (h : Summarises s) where
    pushed : Snapshot
    pushed = record s { events_up_to = s.events_up_to ++ event ∷ [] }

    active-History :
        s.state ≡ active → History hash s.events_up_to active s.active_key s.active_key_thumbprint
    active-History e = rw (← e) h

    apply_body-Summarises :
        (b : Body) {s' : Snapshot}
        → event.body ≡ b
        → apply_body hash pushed timestamp b ≡ ok s'
        → Summarises s'
    unfolding apply_body pushed
    apply_body-Summarises (issuance i) is e =
        let (key, none_before, bound, whole) = apply_issuance_sound pushed timestamp i e in
        rw (whole, History-unissued h none_before) (genesis event i key _ is bound)
    apply_body-Summarises (key_rotation r) is e =
        let (key, before, previous, given, differs, bound, whole) =
          apply_rotation_sound pushed timestamp r e in
        rw (whole, before)
          (rotate event r key (active-History before) is previous given differs bound)
    apply_body-Summarises (revocation reason) {s'} is e =
        let before : s.state ≡ active = ground arith in
        let valid : is_revocation_reason reason ≡ true = ground arith in
        let whole : s' ≡ record pushed { state = revoked } = ground arith in
        rw whole (revoke event reason (active-History before) is valid)
    apply_body-Summarises retirement {s'} is e =
        let before : s.state ≡ active = ground arith in
        let whole : s' ≡ record pushed { state = retired } = ground arith in
        rw whole (retire event (active-History before) is)
    apply_body-Summarises (migration m) {s'} is e =
        let before : s.state ≡ active = ground arith in
        let differ : m.previous_log ≢ m.new_log = ground (arith, eq_iff m.previous_log m.new_log) in
        let whole : s' ≡ pushed = ground arith in
        rw (whole, before) (keep event (active-History before) (rw is differ))
    apply_body-Summarises delegation {s'} is e =
        let before : s.state ≡ active = ground arith in
        let whole : s' ≡ pushed = ground arith in
        rw (whole, before) (keep event (active-History before) (rw is tt))
    apply_body-Summarises unsupported is e = cc

    apply_event-Summarises :
        {s' : Snapshot} → apply_event hash s event timestamp ≡ ok s' → Summarises s'
    unfolding apply_event pushed
    apply_event-Summarises {s'} e = apply_body-Summarises event.body {s' = s'} refl (ground arith)

  -- A boundary that an event lies past is noted, and changes nothing else.
  module _ (domain : String) (at : ℕ) (s : Snapshot) (event : LogEvent) (h : Summarises s) where
    step-Summarises : {s' : Snapshot} → step hash domain at s event ≡ ok s' → Summarises s'
    unfolding step
    step-Summarises {s'} e = at_timestamp event.timestamp refl
      where
        at_timestamp : (t : Option ℕ) → event.timestamp ≡ t → Summarises s'
        at_timestamp none same = absurd (ground (arith, same))
        at_timestamp (some t) same = elim (Bool-cases (ltb at t)) [
          | inl later ↦
              let whole : s' ≡ record s { past_snapshot_boundary = true } = ground (arith, same) in
              rw whole h
          | inr applied ↦ apply_event-Summarises s event t h {s' = s'} (ground (arith, same))
        ]

  fold_events-Summarises :
      (domain : String) (at : ℕ) (s : Snapshot) (events : List LogEvent) {s' : Snapshot}
      → Summarises s
      → fold_events hash domain at s events ≡ ok s'
      → Summarises s'
  unfolding fold_events
  fold_events-Summarises domain at s [] {s'} h e = let same : s' ≡ s = ground arith in rw same h
  fold_events-Summarises domain at s (event ∷ events) h e =
      let (t, stepped, rest) = >>=-eq-ok (step hash domain at s event) _ e in
      fold_events-Summarises domain at t events (step-Summarises domain at s event h stepped) rest

  -- The last check lets the variables of the loop through as they are.
  finish-eq-ok : (t : Snapshot) {s : Snapshot} → finish t ≡ ok s → (t ≡ s) × (s.state ≢ unissued)
  unfolding finish
  finish-eq-ok t h = ground arith

  pub snapshot_at-fold_events :
      (domain : String) (events : List LogEvent) (at : ℕ) {s : Snapshot}
      → snapshot_at hash domain events at ≡ ok s
      → (fold_events hash domain at start events ≡ ok s) × (s.state ≢ unissued)
  unfolding snapshot_at
  snapshot_at-fold_events domain [] at e = cc
  snapshot_at-fold_events domain (event ∷ events) at e =
      let (t, folded, finished) =
        >>=-eq-ok (fold_events hash domain at start (event ∷ events)) finish e in
      let (same, issued) = finish-eq-ok t finished in (rw (← same) folded, issued)

  -- A materialised snapshot summarises a history of the grammar, which is not empty: its state is the one
  -- that the history leads to, and its active key and thumbprint are those that the last KEY_ROTATION gives,
  -- or else the operational ones that the ISSUANCE gives.
  pub snapshot_at-History :
      (domain : String) (events : List LogEvent) (at : ℕ) {s : Snapshot}
      → snapshot_at hash domain events at ≡ ok s
      → History hash s.events_up_to s.state s.active_key s.active_key_thumbprint
        × (s.state ≢ unissued)
  snapshot_at-History domain events at e =
      let (folded, issued) = snapshot_at-fold_events domain events at e in
      (fold_events-Summarises domain at start events nothing folded, issued)
