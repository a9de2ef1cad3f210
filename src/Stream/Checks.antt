-- ===== src/Stream/Checks.antt =====
-- The assertions that `verifyLifecycle` of packages/log-c2sp-tlog/src/stream-verifier.ts calls, and
-- `assertSupportedLifecycleJwk` of event-codec.ts.
use dnsid_ts.Common.{
  ℕ, ◌+◌, Bool, true, false, not, ◌&&◌, ◌||◌, Option, none, some, String, str_eq, Result, ok, err,
  ◌>>=◌, ◌>>◌, throw_if, ◌==◌, ltb, if◌then◌else◌, is_safe_integer,
}
use dnsid_ts.Lifecycle.Keys.{
  Key, LifecycleError, opt_eq, invalid_issuance, key_continuity, invalid_evidence, chain_continuity,
  invalid_migration, duplicate_issuance, genesis_required,
}
use dnsid_ts.Lifecycle.Events.{
  Issuance, KeyRotation, Body, issuance, revocation, retirement, migration,
}
use dnsid_ts.Stream.Evidence.{
  StreamError, log_error, signature_invalid, raised, Field, absent, number, text, ChainFields,
  VerifiedEvent, LifecycleState, Suite, c2sp_event_id, state_hash,
}

-- A value that is neither undefined nor empty.
abbrev pub truthy : Option String → Bool
truthy none = false
truthy (some s) = not (str_eq s "")

-- The value of a text that must be truthy, and of anything that must be there.
abbrev pub require_text : StreamError → Option String → Result StreamError String
require_text thrown none = err thrown
require_text thrown (some s) = if str_eq s "" then err thrown else ok s

abbrev pub require : {A : Type 0} → StreamError → Option A → Result StreamError A
require thrown none = err thrown
require thrown (some a) = ok a

-- `assertSupportedLifecycleJwk`: whether it returns.
unfoldable pub is_supported_lifecycle_jwk : Key → Bool
is_supported_lifecycle_jwk key =
    (opt_eq key.key_use none || opt_eq key.key_use (some "sig"))
    && (opt_eq key.d none
        && (if opt_eq key.alg (some "EdDSA")
            then str_eq key.kty "OKP" && (opt_eq key.crv (some "Ed25519") && truthy key.x)
            else if opt_eq key.alg (some "ES256")
            then str_eq key.kty "EC"
              && (opt_eq key.crv (some "P-256") && (truthy key.x && truthy key.y))
            else false))

abbrev pub assert_supported_lifecycle_jwk : Key → Result StreamError (Unit {0})
assert_supported_lifecycle_jwk key =
    throw_if (not (is_supported_lifecycle_jwk key)) (log_error invalid_evidence)

-- The fields of an ISSUANCE of c2sp-tlog, which all have a value.
pub record C2spIssuance : Type 0 where
  pub entity_kid : String
  pub entity_alg : String
  pub entity_public_key : Key
  pub entity_thumbprint : String
  pub operational_kid : String
  pub operational_alg : String
  pub operational_public_key : Key
  pub operational_thumbprint : String

-- `assertC2spIssuanceEvent`, and the event under its narrower type.
unfoldable pub assert_c2sp_issuance_event : Issuance → Result StreamError C2spIssuance
assert_c2sp_issuance_event e = do
  operational_kid ← require_text (log_error invalid_issuance) e.initial_operational_kid
  operational_alg ← require_text (log_error invalid_issuance) e.initial_operational_alg
  operational_key ← require (log_error invalid_issuance) e.initial_operational_public_key
  operational_thumb ← require_text (log_error invalid_issuance) e.initial_operational_thumbprint
  entity_kid ← require_text (log_error invalid_issuance) e.initial_entity_kid
  entity_alg ← require_text (log_error invalid_issuance) e.initial_entity_alg
  entity_key ← require (log_error invalid_issuance) e.initial_entity_public_key
  entity_thumb ← require_text (log_error invalid_issuance) e.initial_entity_thumbprint
  ok (record {
    entity_kid = entity_kid;
    entity_alg = entity_alg;
    entity_public_key = entity_key;
    entity_thumbprint = entity_thumb;
    operational_kid = operational_kid;
    operational_alg = operational_alg;
    operational_public_key = operational_key;
    operational_thumbprint = operational_thumb;
  })

-- `event.type === 'REVOCATION' || event.type === 'RETIREMENT'`
abbrev pub ends_lifecycle : Body → Bool
ends_lifecycle (revocation reason) = true
ends_lifecycle retirement = true
ends_lifecycle _ = false

-- The tests of an event's type by its position, `first` being `pos === 0`.
unfoldable pub check_place : (first : Bool) → Body → Result StreamError (Unit {0})
check_place true (issuance e) = ok tt
check_place true (migration e) = ok tt
check_place true _ = err (log_error genesis_required)
check_place false (issuance e) = err (log_error duplicate_issuance)
check_place false (migration e) = err (log_error invalid_migration)
check_place false _ = ok tt

unfoldable pub check_migration_fields : Body → Result StreamError (Unit {0})
check_migration_fields (migration e) =
    throw_if
      (str_eq e.previous_log ""
        || (str_eq e.new_log ""
            || (str_eq e.previous_log e.new_log || str_eq e.final_entry_ref "")))
      (log_error invalid_migration)
check_migration_fields _ = ok tt

-- The tests of the timestamp against the time at which the checkpoint integrated the events.
unfoldable pub check_time : Option ℕ → Body → Option ℕ → Result StreamError (Unit {0})
check_time none b integration = err (log_error invalid_evidence)
check_time (some timestamp) b integration = do
  check_migration_fields b
  latest ← require (log_error invalid_evidence) integration
  throw_if (ltb latest timestamp) (log_error invalid_evidence)

abbrev pub is_absent : Field → Bool
is_absent absent = true
is_absent _ = false

abbrev pub is_number : Field → ℕ → Bool
is_number (number m) n = m == n
is_number _ n = false

abbrev pub is_text : Field → String → Bool
is_text (text s) t = str_eq s t
is_text _ t = false

unfoldable pub check_prohibited : ChainFields → Result StreamError (Unit {0})
check_prohibited c =
    throw_if
      (not (is_absent c.event_id)
        || (not (is_absent c.prev_index) || not (is_absent c.prev_leaf_hash)))
      (log_error chain_continuity)

unfoldable pub assert_first_chain_fields : ChainFields → Result StreamError (Unit {0})
assert_first_chain_fields c = do
  throw_if (not (is_number c.seq 0)) (log_error chain_continuity)
  throw_if (not (is_absent c.prev_event_id) || not (is_absent c.prev_state_hash))
      (log_error chain_continuity)

-- `!Number.isSafeInteger(prevSeq) || event.seq !== prevSeq + 1`, negated.
abbrev pub follows : Field → Field → Bool
follows (number n) seq = is_safe_integer n && is_number seq (n + 1)
follows _ seq = false

module _ (suite : Suite) where
  unfoldable pub assert_chain_fields :
      ChainFields → VerifiedEvent → Option LifecycleState → Result StreamError (Unit {0})
  assert_chain_fields c prev prev_state = do
    throw_if (not (follows prev.chain.seq c.seq)) (log_error chain_continuity)
    prev_signed ← require (log_error invalid_evidence) (suite.signed_entry_bytes prev.bytes)
    throw_if (not (is_text c.prev_event_id (c2sp_event_id suite prev_signed)))
        (log_error chain_continuity)
    throw_if (not (is_text c.prev_state_hash (state_hash suite prev_state)))
        (log_error chain_continuity)

  -- `await jwkThumbprint(key)`
  abbrev pub thumbprint : Key → Result StreamError String
  thumbprint key = require raised (suite.jwk_thumbprint key)

  unfoldable pub verify_event_signature :
      VerifiedEvent → String → Key → Result StreamError (Unit {0})
  verify_event_signature item signature key = do
    signed ← require (log_error invalid_evidence) (suite.signed_entry_bytes item.bytes)
    raw ← require raised (suite.from_base64_url signature)
    throw_if (not (suite.verify_with_key signed raw key)) signature_invalid

  -- `verifyLoggedEventSignature`
  unfoldable pub verify_logged_event_signature : VerifiedEvent → Key → Result StreamError (Unit {0})
  verify_logged_event_signature item signer_key = do
    sig ← require_text (log_error invalid_evidence) item.event.sig
    verify_event_signature item sig signer_key

  unfoldable pub assert_distinct_lifecycle_keys :
      Key → Key → LifecycleError → Result StreamError (Unit {0})
  assert_distinct_lifecycle_keys entity_key operational_key category = do
    entity_thumb ← thumbprint entity_key
    operational_thumb ← thumbprint operational_key
    throw_if (str_eq entity_thumb operational_thumb) (log_error category)

  -- A key with the metadata that stands beside it.
  abbrev kid_and_alg_match : Key → String → String → Bool
  kid_and_alg_match key kid alg = str_eq kid key.kid && opt_eq (some alg) key.alg

  unfoldable pub assert_issuance_key_metadata : C2spIssuance → Result StreamError (Unit {0})
  assert_issuance_key_metadata e = do
    assert_supported_lifecycle_jwk e.operational_public_key
    assert_supported_lifecycle_jwk e.entity_public_key
    operational_thumb ← thumbprint e.operational_public_key
    throw_if (not (str_eq e.operational_thumbprint operational_thumb)) (log_error invalid_issuance)
    entity_thumb ← thumbprint e.entity_public_key
    throw_if (not (str_eq e.entity_thumbprint entity_thumb)) (log_error invalid_issuance)
    throw_if (not (kid_and_alg_match e.operational_public_key e.operational_kid e.operational_alg))
        (log_error invalid_issuance)
    throw_if (not (kid_and_alg_match e.entity_public_key e.entity_kid e.entity_alg))
        (log_error invalid_issuance)

  unfoldable pub assert_rotation_key_metadata : KeyRotation → Key → Result StreamError (Unit {0})
  assert_rotation_key_metadata e key = do
    assert_supported_lifecycle_jwk key
    new_thumb ← thumbprint key
    throw_if (not (str_eq e.new_operational_thumbprint new_thumb)) (log_error key_continuity)
    throw_if (not (kid_and_alg_match key e.new_operational_kid e.new_operational_alg))
        (log_error key_continuity)
