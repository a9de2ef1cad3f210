-- ===== src/Rotation/Resume.antt =====
-- `validateSavedRotation` and `resumeManagedOperationalKeyRotation` of
-- packages/sdk/src/managed-key-rotation.ts.
use dnsid_ts.Common.{
  true, false, not, ◌&&◌, Option, none, some, str_eq, Result, ok, err, ◌==◌, if◌then◌else◌,
}
use dnsid_ts.Lifecycle.Keys.{Key}
use dnsid_ts.Jwks.{is_one_of}
use dnsid_ts.Rotation.Calls
use dnsid_ts.Rotation.Calls.{
  Submission, Rotation, RotationError, permanent, raised, argument_error, preparation_unavailable,
  submission_error, activation_error, Prepared, Provider, Environment, Program, pure, throw, ◌>>=◌,
  ◌>>◌, lift, require, catching, when, throw_when, perform,
}
use dnsid_ts.Rotation.Checks.{
  has_accepted, has_rejected, assert_operation_references, assert_key_binding,
  assert_submission_matches_rotation, assert_prepared_rotation_key, is_prepared_for,
}
use dnsid_ts.Rotation.Steps.{
  is_some, active_key, activate_rotation, restore_activated_rotation, submit_managed_rotation,
}

-- The catch of the function: the file's own errors pass, with `rotation` in any other.
abbrev pub keep_rotation_errors : Rotation → RotationError → RotationError
keep_rotation_errors rotation (submission_error r retry) = submission_error r retry
keep_rotation_errors rotation (activation_error r) = activation_error r
keep_rotation_errors rotation _ = activation_error rotation

module _ (env : Environment) where
  unfoldable pub check_saved_domain : Rotation → Result RotationError (Unit {0})
  check_saved_domain rotation = elim (env.normalize_fqdn rotation.domain) [
    | none ↦ err raised
    | some domain ↦
        if str_eq domain rotation.domain
          && str_eq (env.sha256_hex rotation.entry_bytes) rotation.entry_hash
        then ok tt
        else err permanent
  ]

  abbrev pub assert_saved_submission :
      Rotation → Option Submission → Result RotationError (Unit {0})
  assert_saved_submission rotation none = ok tt
  assert_saved_submission rotation (some submission) =
      assert_submission_matches_rotation env rotation submission

  -- The source's active key, where the source still lists the previous one.
  abbrev pub check_source_active :
      Provider → Provider → Rotation → Option Key → Result RotationError (Unit {0})
  check_source_active previous target rotation none = ok tt
  check_source_active previous target rotation (some active) =
      if (previous == target)
        && (has_accepted rotation.submission && str_eq active.kid rotation.new_kid)
      then assert_key_binding env active rotation.new_kid rotation.new_thumbprint
      else assert_key_binding env active rotation.previous_kid rotation.previous_thumbprint

  unfoldable pub validate_listed_source :
      Provider → Provider → Rotation → Option Key → Program (Unit {0})
  validate_listed_source previous target rotation source_active = do
    key ← perform env (Calls.jwk previous rotation.previous_kid)
    lift (assert_key_binding env key rotation.previous_kid rotation.previous_thumbprint)
    lift (check_source_active previous target rotation source_active)

  unfoldable pub validate_removed_source :
      Provider → Provider → Rotation → Option Key → Program (Unit {0})
  validate_removed_source previous target rotation source_active = do
    throw_when (not (has_accepted rotation.submission)) permanent
    lift (assert_saved_submission rotation rotation.submission)
    active ← perform env (Calls.signing_key target)
    lift (assert_key_binding env active rotation.new_kid rotation.new_thumbprint)
    throw_when (not (previous == target) && is_some source_active) permanent

  unfoldable pub validate_source : Provider → Provider → Rotation → Program (Unit {0})
  validate_source previous target rotation = do
    previous_ids ← perform env (Calls.list_key_ids previous)
    source_active ← active_key env previous previous_ids
    if is_one_of previous_ids rotation.previous_kid
        then validate_listed_source previous target rotation source_active
        else validate_removed_source previous target rotation source_active

  unfoldable pub validate_saved_event : Key → Rotation → Program (Unit {0})
  validate_saved_event next rotation = do
    prepared ← lift (
        require raised (
          env.parse_prepared rotation.entry_bytes rotation.log_reference rotation.domain
            rotation.previous_key))
    throw_when (not (is_prepared_for prepared rotation.domain rotation.previous_thumbprint))
        permanent
    lift (assert_prepared_rotation_key env prepared.new_ku prepared.new_thumb next)
    bytes ← lift (require raised (env.c2sp_tlog_entry_bytes prepared))
    lift (assert_saved_submission rotation rotation.submission)

  unfoldable pub validate_saved_rotation : Provider → Provider → Rotation → Program (Unit {0})
  validate_saved_rotation previous target rotation = do
    lift (
        assert_operation_references rotation.previous_provider_reference
          rotation.new_provider_reference rotation.idempotency_key)
    lift (check_saved_domain rotation)
    lift (
        assert_key_binding env rotation.previous_key rotation.previous_kid
          rotation.previous_thumbprint)
    validate_source previous target rotation
    next ← perform env (Calls.jwk target rotation.new_kid)
    lift (assert_key_binding env next rotation.new_kid rotation.new_thumbprint)
    validate_saved_event next rotation

  -- An activated rotation: its submission was accepted, and only local state remains.
  unfoldable pub resume_activated : Provider → Provider → Rotation → Program Rotation
  resume_activated previous target rotation = do
    throw_when (not (has_accepted rotation.submission)) permanent
    lift (assert_saved_submission rotation rotation.submission)
    restore_activated_rotation env previous target rotation

  -- After `rotation = { ...rotation, applicationSigningPaused: true }`.
  unfoldable pub resume_paused : Provider → Provider → Rotation → Program Rotation
  resume_paused previous target rotation = catching (keep_rotation_errors rotation) (do
    perform env (Calls.set_application_signing_paused true)
    perform env (Calls.persist_rotation rotation)
    if has_accepted rotation.submission
        then lift (assert_saved_submission rotation rotation.submission)
          >> activate_rotation env previous target rotation
        else submit_managed_rotation env previous target rotation)

  unfoldable pub resume_pending : Provider → Provider → Rotation → Program Rotation
  resume_pending previous target rotation = do
    throw_when (has_rejected rotation.submission) (submission_error rotation false)
    resume_paused previous target (record rotation { application_signing_paused = true })

  unfoldable pub resolve_target : Rotation → Provider → Program Provider
  resolve_target rotation previous =
      if str_eq rotation.new_provider_reference rotation.previous_provider_reference
      then pure previous
      else perform env (Calls.resolve_key_provider rotation.new_provider_reference)

  unfoldable pub resume_managed_operational_key_rotation : Rotation → Program Rotation
  resume_managed_operational_key_rotation rotation = catching (keep_rotation_errors rotation) (do
    lift (
        assert_operation_references rotation.previous_provider_reference
          rotation.new_provider_reference rotation.idempotency_key)
    previous ← perform env (Calls.resolve_key_provider rotation.previous_provider_reference)
    target ← resolve_target rotation previous
    validate_saved_rotation previous target rotation
    if rotation.activated
        then resume_activated previous target rotation
        else resume_pending previous target rotation)
