-- ===== src/Stream/Verifier.antt =====
-- `verifyLifecycle` of packages/log-c2sp-tlog/src/stream-verifier.ts: one round of its loop, and the loop.
use dnsid_ts.Common.{
  ℕ, suc, Bool, true, false, not, ◌&&◌, ◌||◌, Option, none, some, String, str_eq, List, [], ◌∷◌,
  length, Result, ok, ◌>>=◌, ◌>>◌, throw_if, ltb, if◌then◌else◌,
}
use dnsid_ts.Lifecycle.Keys.{
  Key, opt_eq, invalid_issuance, key_continuity, invalid_evidence, invalid_migration,
  genesis_required, terminal_state,
}
use dnsid_ts.Lifecycle.Events.{
  Issuance, KeyRotation, Migration, Body, issuance, key_rotation, revocation, retirement, migration,
  delegation,
}
use dnsid_ts.Lifecycle.Snapshot.{is_revocation_reason}
use dnsid_ts.Stream.Evidence.{
  StreamError, log_error, raised, VerifiedEvent, LifecycleState, Options, Suite,
}
use dnsid_ts.Stream.Checks.{
  truthy, require_text, require, assert_supported_lifecycle_jwk, C2spIssuance,
  assert_c2sp_issuance_event, ends_lifecycle, check_place, check_time, check_prohibited,
  assert_first_chain_fields, assert_chain_fields, thumbprint, verify_event_signature,
  assert_distinct_lifecycle_keys, assert_issuance_key_metadata, assert_rotation_key_metadata,
}

-- `entityKey` and `activeOperationalKey`, which are assigned together.
pub record LifecycleKeys : Type 0 where
  pub entity_key : Key
  pub active_operational_key : Key

-- The variables of the loop; `previous` is `events[pos - 1]`, absent where `pos` is 0.
pub record Progress : Type 0 where
  pub position : ℕ
  pub previous : Option VerifiedEvent
  pub terminal : Bool
  pub prev_state : Option LifecycleState
  pub keys : Option LifecycleKeys

abbrev pub at_start : Progress
at_start = record {
  position = 0;
  previous = none;
  terminal = false;
  prev_state = none;
  keys = none;
}

abbrev pub is_first : Option VerifiedEvent → Bool
is_first none = true
is_first (some prev) = false

-- What an event leaves: the keys, and the state that the next event commits to.
pub record Outcome : Type 0 where
  pub keys : LifecycleKeys
  pub state : Option LifecycleState

-- `options.lr && event.newLog !== options.lr`
abbrev pub other_stream : Option String → String → Bool
other_stream lr new_log = truthy lr && not (opt_eq lr (some new_log))

abbrev pub is_bad_revocation : Body → Bool
is_bad_revocation (revocation reason) = not (is_revocation_reason reason)
is_bad_revocation _ = false

abbrev pub status_after : Body → String → String
status_after (revocation reason) status = "REVOKED"
status_after retirement status = "RETIRED"
status_after _ status = status

abbrev pub is_delegation : Body → Bool
is_delegation delegation = true
is_delegation _ = false

module _ (suite : Suite) where
  -- `if (options.signerKey && await jwkThumbprint(options.signerKey) !== …) throw …`
  unfoldable pub check_signer_key : Option Key → String → Result StreamError (Unit {0})
  check_signer_key none entity_thumb = ok tt
  check_signer_key (some signer_key) entity_thumb = do
    signer_thumb ← thumbprint suite signer_key
    throw_if (not (str_eq signer_thumb entity_thumb)) (log_error invalid_evidence)

  unfoldable pub issuance_state : String → C2spIssuance → LifecycleState
  issuance_state domain e = record {
    fqdn = domain;
    status = "ACTIVE";
    entity_thumb = e.entity_thumbprint;
    operational_thumb = e.operational_thumbprint;
  }

  unfoldable pub active_state : String → LifecycleKeys → Result StreamError LifecycleState
  active_state domain keys = do
    entity_thumb ← thumbprint suite keys.entity_key
    operational_thumb ← thumbprint suite keys.active_operational_key
    ok (record {
      fqdn = domain;
      status = "ACTIVE";
      entity_thumb = entity_thumb;
      operational_thumb = operational_thumb;
    })

  unfoldable pub next_state :
      Option LifecycleState
      → String
      → Body
      → LifecycleKeys
      → Result StreamError (Option LifecycleState)
  next_state previous domain b keys = if is_delegation b then ok previous else do
    state ← active_state domain keys
    ok (some (record state { status = status_after b state.status }))

  unfoldable pub apply_issuance :
      Options → VerifiedEvent → String → Issuance → Result StreamError Outcome
  apply_issuance options item sig e = do
    i ← assert_c2sp_issuance_event e
    assert_issuance_key_metadata suite i
    assert_distinct_lifecycle_keys suite i.entity_public_key i.operational_public_key
        invalid_issuance
    check_signer_key options.signer_key i.entity_thumbprint
    verify_event_signature suite item sig i.entity_public_key
    countersig ← require_text (log_error invalid_evidence) item.event.operational_countersig
    verify_event_signature suite item countersig i.operational_public_key
    ok (record {
      keys = record {
        entity_key = i.entity_public_key;
        active_operational_key = i.operational_public_key;
      };
      state = some (issuance_state item.event.domain i);
    })

  unfoldable pub apply_migration :
      Options → VerifiedEvent → String → Migration → Result StreamError Outcome
  apply_migration options item sig e = do
    verify ← require (log_error invalid_migration) options.verify_migration
    throw_if (other_stream options.lr e.new_log) (log_error invalid_migration)
    migrated ← require raised (verify item.event)
    assert_supported_lifecycle_jwk migrated.entity_key
    assert_supported_lifecycle_jwk migrated.active_operational_key
    assert_distinct_lifecycle_keys suite migrated.entity_key migrated.active_operational_key
        key_continuity
    entity_thumb ← thumbprint suite migrated.entity_key
    check_signer_key options.signer_key entity_thumb
    throw_if (not (opt_eq item.event.signing_kid (some migrated.entity_key.kid)))
        (log_error invalid_evidence)
    verify_event_signature suite item sig migrated.entity_key
    let keys : LifecycleKeys = record {
      entity_key = migrated.entity_key;
      active_operational_key = migrated.active_operational_key;
    }
    state ← active_state item.event.domain keys
    ok (record { keys = keys; state = some state })

  -- KEY_ROTATION: the keys after it.
  unfoldable pub apply_rotation :
      VerifiedEvent → String → KeyRotation → LifecycleKeys → Result StreamError LifecycleKeys
  apply_rotation item sig e keys = do
    active_thumb ← thumbprint suite keys.active_operational_key
    throw_if
        (not (str_eq e.previous_operational_thumbprint active_thumb)
          || not (str_eq e.previous_operational_kid keys.active_operational_key.kid))
        (log_error key_continuity)
    new_key ← require raised e.new_operational_public_key
    assert_rotation_key_metadata suite e new_key
    throw_if (str_eq e.new_operational_thumbprint active_thumb) (log_error key_continuity)
    assert_distinct_lifecycle_keys suite keys.entity_key new_key key_continuity
    verify_event_signature suite item sig keys.active_operational_key
    proof ← require_text (log_error invalid_evidence) item.event.new_operational_proof
    verify_event_signature suite item proof new_key
    ok (record keys { active_operational_key = new_key })

  -- Any other event: one that the entity signs, and that keeps the keys.
  unfoldable pub apply_entity_event :
      VerifiedEvent → String → Body → LifecycleKeys → Result StreamError LifecycleKeys
  unfolding is_revocation_reason
  apply_entity_event item sig b keys = do
    throw_if (not (opt_eq item.event.signing_kid (some keys.entity_key.kid)))
        (log_error invalid_evidence)
    verify_event_signature suite item sig keys.entity_key
    throw_if (is_bad_revocation b) (log_error invalid_evidence)
    ok keys

  unfoldable pub apply_transition :
      VerifiedEvent → String → Body → LifecycleKeys → Result StreamError LifecycleKeys
  apply_transition item sig (key_rotation e) keys = apply_rotation item sig e keys
  apply_transition item sig b keys = apply_entity_event item sig b keys

  -- The branches by type. A MIGRATION past the first position does not come this far.
  unfoldable pub apply_later : VerifiedEvent → String → Progress → Result StreamError Outcome
  apply_later item sig s = do
    keys ← require (log_error invalid_evidence) s.keys
    keys' ← apply_transition item sig item.event.body keys
    state ← next_state s.prev_state item.event.domain item.event.body keys'
    ok (record { keys = keys'; state = state })

  unfoldable pub apply_body :
      Options → VerifiedEvent → String → Body → Progress → Result StreamError Outcome
  apply_body options item sig (issuance e) s = apply_issuance options item sig e
  apply_body options item sig (migration e) s =
      if is_first s.previous then apply_migration options item sig e else apply_later item sig s
  apply_body options item sig b s = apply_later item sig s

  abbrev pub check_chain :
      VerifiedEvent → Progress → Option VerifiedEvent → Result StreamError (Unit {0})
  check_chain item s none = assert_first_chain_fields item.chain
  check_chain item s (some prev) = assert_chain_fields suite item.chain prev s.prev_state

  -- The tests that come before an event's signatures, and its signature.
  unfoldable pub check_event : Options → Progress → VerifiedEvent → Result StreamError String
  check_event options s item = do
    throw_if (options.aborted_at s.position) (log_error invalid_evidence)
    throw_if s.terminal (log_error terminal_state)
    check_place (is_first s.previous) item.event.body
    check_time item.event.timestamp item.event.body options.checkpoint_integration_time_ms
    check_prohibited item.chain
    check_chain item s s.previous
    require_text (log_error invalid_evidence) item.event.sig

  -- One round of the loop.
  unfoldable pub step : Options → Progress → VerifiedEvent → Result StreamError Progress
  step options s item = do
    sig ← check_event options s item
    outcome ← apply_body options item sig item.event.body s
    ok (record {
      position = suc s.position;
      previous = some item;
      terminal = ends_lifecycle item.event.body;
      prev_state = outcome.state;
      keys = some outcome.keys;
    })

  unfoldable pub steps : Options → Progress → List VerifiedEvent → Result StreamError Progress
  steps options s [] = ok s
  steps options s (item ∷ items) = do s' ← step options s item; steps options s' items

  abbrev is_empty : List VerifiedEvent → Bool
  is_empty [] = true
  is_empty _ = false

  -- `verifyLifecycleWithinBudget`: what its loop ends with.
  unfoldable pub verify_lifecycle : Options → List VerifiedEvent → Result StreamError Progress
  verify_lifecycle options events = do
    throw_if (ltb 10000 (length events)) (log_error invalid_evidence)
    throw_if (is_empty events) (log_error genesis_required)
    steps options at_start events
