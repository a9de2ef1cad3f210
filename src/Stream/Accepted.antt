-- ===== src/Stream/Accepted.antt =====
-- What one round of `verifyLifecycle` has checked, by the place of its event.
use dnsid_ts.Common.{
  ℕ, suc, ◌^◌, ◌<◌, true, false, not, Option, none, some, String, eq_iff, ok, throw_if, >>=-eq-ok,
  Option-cases, Bool-cases, ◌≡◌, refl, sym, ◌∙◌, ap, arith, inl, inr, ==_iff,
}
use dnsid_ts.Lifecycle.Events.{
  Body, issuance, key_rotation, revocation, retirement, migration, delegation, unsupported,
}
use dnsid_ts.Stream.Evidence.{
  Field, absent, other, number, text, VerifiedEvent, LifecycleState, Options, Suite, c2sp_event_id,
}
use dnsid_ts.Stream.Checks.{
  ends_lifecycle, check_place, check_time, check_prohibited, assert_first_chain_fields,
  assert_chain_fields, is_number, is_text, follows, thumbprint, require,
}
use dnsid_ts.Stream.Lineage.{
  IsEntityEvent, IsActiveState, IsLinked, Founds, issued, imported, Extends, rotated, confirmed,
  IsTimely,
}
use dnsid_ts.Stream.Verifier.{
  LifecycleKeys, Progress, Outcome, is_first, is_bad_revocation, is_delegation, status_after,
  active_state, next_state, apply_entity_event, apply_transition, apply_later, apply_body,
  check_chain, check_event,
}
use dnsid_ts.Stream.Facts.{
  ok_unique, throw_if-eq-ok, require-eq-ok, require_text-eq-ok, apply_rotation_sound,
  apply_issuance_sound, apply_migration_sound, apply_entity_event_sound,
}

is_number_sound : (f : Field) (n : ℕ) → is_number f n ≡ true → f ≡ number n
is_number_sound (number m) n h = ap number ((==_iff m n).0 h)
is_number_sound absent n h = cc
is_number_sound other n h = cc
is_number_sound (text t) n h = cc

is_text_sound : (f : Field) (t : String) → is_text f t ≡ true → f ≡ text t
is_text_sound (text s) t h = ap text ((eq_iff s t).0 h)
is_text_sound absent n h = cc
is_text_sound other n h = cc
is_text_sound (number m) n h = cc

follows_sound :
    (f g : Field)
    → follows f g ≡ true
    → (n : ℕ) × (f ≡ number n) × (n < 2 ^ 53) × (g ≡ number (suc n))
follows_sound (number n) g h =
    let numbered : g ≡ number (suc n) = is_number_sound g (suc n) (ground arith) in
    (n, refl, ground arith, numbered)
follows_sound absent g h = cc
follows_sound other g h = cc
follows_sound (text t) g h = cc

status_after_active :
    (b : Body) (status : String) → ends_lifecycle b ≡ false → status_after b status ≡ status
status_after_active (issuance e) status h = refl
status_after_active (key_rotation e) status h = refl
status_after_active (migration e) status h = refl
status_after_active delegation status h = refl
status_after_active unsupported status h = refl
status_after_active retirement status h = cc
status_after_active (revocation r) status h = cc

module _ (suite : Suite) where
  pub assert_first_chain_fields_sound :
      (item : VerifiedEvent) {u : Unit {0}}
      → assert_first_chain_fields item.chain ≡ ok u
      → item.chain.seq ≡ number 0
  unfolding assert_first_chain_fields
  assert_first_chain_fields_sound item h =
      let (_, first, _) = >>=-eq-ok (throw_if (not (is_number item.chain.seq 0)) _) _ h in
      is_number_sound _ _ (ground (arith, throw_if-eq-ok _ _ first))

  pub assert_chain_fields_sound :
      (prev item : VerifiedEvent) (keys : LifecycleKeys) (st : LifecycleState) {u : Unit {0}}
      → IsActiveState suite keys st
      → assert_chain_fields suite item.chain prev (some st) ≡ ok u
      → IsLinked suite prev keys item
  unfolding assert_chain_fields
  assert_chain_fields_sound prev item keys st active h =
      let (_, next, h1) =
        >>=-eq-ok (throw_if (not (follows prev.chain.seq item.chain.seq)) _) _ h in
      let (signed, entry, h2) = >>=-eq-ok (require _ (suite.signed_entry_bytes prev.bytes)) _ h1 in
      let (_, id, h3) =
        >>=-eq-ok (throw_if (not (is_text item.chain.prev_event_id (c2sp_event_id suite signed))) _)
          _ h2 in
      let (n, prev_numbered, safe, numbered) =
        follows_sound prev.chain.seq item.chain.seq (ground (arith, throw_if-eq-ok _ _ next)) in
      record {
        prev_seq = n;
        prev_numbered = prev_numbered;
        safe = safe;
        numbered = numbered;
        prev_signed = signed;
        prev_entry = require-eq-ok _ _ entry;
        names_prev = is_text_sound _ _ (ground (arith, throw_if-eq-ok _ _ id));
        state = st;
        state_of_keys = active;
        commits = is_text_sound _ _ (ground (arith, throw_if-eq-ok _ _ h3));
      }

  check_time_sound :
      (options : Options) (item : VerifiedEvent) {u : Unit {0}}
      → check_time item.event.timestamp item.event.body options.checkpoint_integration_time_ms
        ≡ ok u
      → IsTimely suite options item
  unfolding check_time
  check_time_sound options item h = elim (Option-cases item.event.timestamp) [
    | inl missing ↦ absurd (ground (arith, missing))
    | inr (t, given) ↦ elim (Option-cases options.checkpoint_integration_time_ms) [
      | inl unset ↦ absurd (ground (arith, given, unset))
      | inr (limit, set) ↦ (t, limit, given, set, ground (arith, given, set))
    ]
  ]

  pub record IsChecked (options : Options) (s : Progress) (item : VerifiedEvent) (sig : String)
      : Type 0 where
    pub continues : s.terminal ≡ false
    pub placed : check_place (is_first s.previous) item.event.body ≡ ok tt
    pub timely : IsTimely suite options item
    pub chained : check_chain suite item s s.previous ≡ ok tt
    pub sig_given : item.event.sig ≡ some sig

  pub check_event-IsChecked :
      (options : Options) (s : Progress) (item : VerifiedEvent) {sig : String}
      → check_event suite options s item ≡ ok sig
      → IsChecked options s item sig
  unfolding check_event
  check_event-IsChecked options s item h =
      let (_, _, h1) = >>=-eq-ok (throw_if (options.aborted_at s.position) _) _ h in
      let (_, continues, h2) = >>=-eq-ok (throw_if s.terminal _) _ h1 in
      let (_, placed, h3) = >>=-eq-ok (check_place (is_first s.previous) item.event.body) _ h2 in
      let (_, timely, h4) =
        >>=-eq-ok
          (check_time item.event.timestamp item.event.body options.checkpoint_integration_time_ms) _
          h3 in
      let (_, _, h5) = >>=-eq-ok (check_prohibited item.chain) _ h4 in
      let (_, chained, h6) = >>=-eq-ok (check_chain suite item s s.previous) _ h5 in
      record {
        continues = throw_if-eq-ok _ _ continues;
        placed = placed;
        timely = check_time_sound options item timely;
        chained = chained;
        sig_given = (require_text-eq-ok _ _ h6).0;
      }

  active_state-IsActiveState :
      (domain : String) (keys : LifecycleKeys) {st : LifecycleState}
      → active_state suite domain keys ≡ ok st
      → IsActiveState suite keys st
  unfolding active_state
  active_state-IsActiveState domain keys h =
      let (et, entity, h1) = >>=-eq-ok (thumbprint suite keys.entity_key) _ h in
      let (ot, operational, h2) = >>=-eq-ok (thumbprint suite keys.active_operational_key) _ h1 in
      let st : LifecycleState = record {
        fqdn = domain;
        status = "ACTIVE";
        entity_thumb = et;
        operational_thumb = ot;
      } in
      rw (← ok_unique (ok st) refl h2) record {
        entity = require-eq-ok _ _ entity;
        operational = require-eq-ok _ _ operational;
        status = refl;
      }

  -- The state that the next event is to commit to.
  abbrev pub Commits : LifecycleKeys → Option LifecycleState → Type 0
  Commits keys state = (st : LifecycleState) × (state ≡ some st) × IsActiveState suite keys st

  next_state-Commits :
      (domain : String) (b : Body) (keys keys' : LifecycleKeys) (state : Option LifecycleState)
      {state' : Option LifecycleState}
      → Commits keys state
      → (is_delegation b ≡ true → keys' ≡ keys)
      → next_state suite state domain b keys' ≡ ok state'
      → ends_lifecycle b ≡ false
      → Commits keys' state'
  unfolding next_state
  next_state-Commits domain b keys keys' state {state'} (st, given, active) kept h goes_on =
      elim (Bool-cases (is_delegation b)) [
        | inl delegated ↦
            let same : state' ≡ some st = ground (arith, delegated, given) in
            (st, same, rw (kept delegated) active)
        | inr changed ↦
            let (st', made, h1) =
              >>=-eq-ok (active_state suite domain keys')
                (λ made. ok (some (record made { status = status_after b made.status })))
                (ground (arith, changed)) in
            let now = active_state-IsActiveState domain keys' made in
            let st'' : LifecycleState = record st' { status = status_after b st'.status } in
            (
              st'',
              ok_unique (ok state') refl (sym h1),
              record {
                entity = now.entity;
                operational = now.operational;
                status = status_after_active b st'.status goes_on ∙ now.status;
              },
            )
      ]

  -- A first event.
  pub apply_body-Founds :
      (options : Options) (s : Progress) (item : VerifiedEvent) (sig : String) (b : Body)
      {o : Outcome}
      → s.previous ≡ none
      → item.event.body ≡ b
      → item.event.sig ≡ some sig
      → check_place true b ≡ ok tt
      → apply_body suite options item sig b s ≡ ok o
      → Founds suite options item o.keys × Commits o.keys o.state
  unfolding apply_body check_place
  apply_body-Founds options s item sig (issuance e) first is given placed h =
      let (facts, state) = apply_issuance_sound suite options item sig e h in
      let active : IsActiveState suite _ _ = record {
        entity = facts.entity_hashed;
        operational = facts.operational_hashed;
        status = refl;
      } in
      (issued e sig is given facts, (_, state, active))
  apply_body-Founds options s item sig (migration e) first is given placed h =
      let (facts, st, state, made) =
        apply_migration_sound suite options item sig e (ground (arith, first)) in
      (imported e sig is given facts, (st, state, active_state-IsActiveState _ _ made))
  apply_body-Founds options s item sig (key_rotation e) first is given placed h = cc
  apply_body-Founds options s item sig (revocation r) first is given placed h = cc
  apply_body-Founds options s item sig retirement first is given placed h = cc
  apply_body-Founds options s item sig delegation first is given placed h = cc
  apply_body-Founds options s item sig unsupported first is given placed h = cc

  entity_event-Extends :
      (item : VerifiedEvent) (sig : String) (b : Body) (keys : LifecycleKeys)
      {keys' : LifecycleKeys}
      → item.event.body ≡ b
      → item.event.sig ≡ some sig
      → (is_bad_revocation b ≡ false → IsEntityEvent b)
      → apply_entity_event suite item sig b keys ≡ ok keys'
      → Extends suite item keys keys' × (is_delegation b ≡ true → keys' ≡ keys)
  entity_event-Extends item sig b keys is given shape h =
      let (same, valid, signed) = apply_entity_event_sound suite item sig b keys h in
      rw same (confirmed sig (rw is (shape valid)) given signed, λ d. refl)

  apply_transition-Extends :
      (item : VerifiedEvent) (sig : String) (b : Body) (keys : LifecycleKeys)
      {keys' : LifecycleKeys}
      → item.event.body ≡ b
      → item.event.sig ≡ some sig
      → check_place false b ≡ ok tt
      → apply_transition suite item sig b keys ≡ ok keys'
      → Extends suite item keys keys' × (is_delegation b ≡ true → keys' ≡ keys)
  unfolding apply_transition check_place
  apply_transition-Extends item sig (key_rotation e) keys is given placed h =
      (rotated e sig is given (apply_rotation_sound suite item sig e keys h), λ d. cc)
  apply_transition-Extends item sig (issuance e) keys is given placed h = cc
  apply_transition-Extends item sig (migration e) keys is given placed h = cc
  apply_transition-Extends item sig (revocation r) keys is given placed h =
      entity_event-Extends item sig (revocation r) keys is given (λ v. v) h
  apply_transition-Extends item sig retirement keys is given placed h =
      entity_event-Extends item sig retirement keys is given (λ v. v) h
  apply_transition-Extends item sig delegation keys is given placed h =
      entity_event-Extends item sig delegation keys is given (λ v. v) h
  apply_transition-Extends item sig unsupported keys is given placed h =
      entity_event-Extends item sig unsupported keys is given (λ v. v) h

  -- A later event.
  pub apply_later-Extends :
      (s : Progress) (item : VerifiedEvent) (sig : String) (keys : LifecycleKeys) {o : Outcome}
      → s.keys ≡ some keys
      → Commits keys s.prev_state
      → item.event.sig ≡ some sig
      → check_place false item.event.body ≡ ok tt
      → apply_later suite item sig s ≡ ok o
      → Extends suite item keys o.keys
        × (ends_lifecycle item.event.body ≡ false → Commits o.keys o.state)
  unfolding apply_later
  apply_later-Extends s item sig keys {o} known commits given placed h =
      let (k, found, h1) = >>=-eq-ok (require _ s.keys) _ h in
      let (keys', changed, h2) =
        >>=-eq-ok (apply_transition suite item sig item.event.body k) _ h1 in
      let (state, next, h3) =
        >>=-eq-ok (next_state suite s.prev_state item.event.domain item.event.body keys') _ h2 in
      let outcome : Outcome = record { keys = keys'; state = state } in
      let whole : outcome ≡ o = ok_unique (ok outcome) refl h3 in
      let same : k ≡ keys = cc (require-eq-ok _ _ found, known) in
      let (extends, kept) =
        apply_transition-Extends item sig item.event.body keys refl given placed
          (rw (← same) changed) in
      rw (← whole) (
        extends,
        λ goes_on.
            next_state-Commits item.event.domain item.event.body keys keys' s.prev_state commits
              kept next goes_on,
      )

  pub apply_body-eq-apply_later :
      (options : Options) (s : Progress) (item : VerifiedEvent) (sig : String) (b : Body)
      → check_place false b ≡ ok tt
      → apply_body suite options item sig b s ≡ apply_later suite item sig s
  unfolding apply_body check_place
  apply_body-eq-apply_later options s item sig (issuance e) placed = cc
  apply_body-eq-apply_later options s item sig (migration e) placed = cc
  apply_body-eq-apply_later options s item sig (key_rotation e) placed = refl
  apply_body-eq-apply_later options s item sig (revocation r) placed = refl
  apply_body-eq-apply_later options s item sig retirement placed = refl
  apply_body-eq-apply_later options s item sig delegation placed = refl
  apply_body-eq-apply_later options s item sig unsupported placed = refl
