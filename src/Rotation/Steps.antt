-- ===== src/Rotation/Steps.antt =====
-- The steps of packages/sdk/src/managed-key-rotation.ts that make calls: reconciling, activating,
-- restoring and submitting. Two providers are one object exactly if their numbers are equal.
use dnsid_ts.Common.{
  Bool, true, false, not, ◌||◌, Option, none, some, String, str_eq, List, [], ◌∷◌, Result, ok, err,
  ◌==◌, if◌then◌else◌,
}
use dnsid_ts.Lifecycle.Keys.{Key}
use dnsid_ts.Jwks.{current_draft01_signing_key, is_one_of}
use dnsid_ts.Rotation.Calls
use dnsid_ts.Rotation.Calls.{
  Submission, Rotation, RotationError, permanent, raised, submission_error, activation_error,
  Prepared, Publication, SubmitReply, returned, refused, Provider, Environment, Program, pure,
  throw, ◌>>=◌, ◌>>◌, lift, require, catching, when, throw_when, attempt, perform,
}
use dnsid_ts.Rotation.Checks.{
  is_accepted, is_rejected, assert_key_binding, assert_submission_matches_rotation, is_continuous,
}

abbrev jwks_error : {E A : Type 0} → Result E A → Result RotationError A
jwks_error (err e) = err raised
jwks_error (ok a) = ok a

abbrev pub log_ref_of : Option Submission → Option String
log_ref_of none = none
log_ref_of (some s) = s.log_ref

abbrev pub is_some : {A : Type 0} → Option A → Bool
is_some none = false
is_some (some a) = true

module _ (env : Environment) where
  -- `listedIds.length ? provider.signingKey() : null`
  abbrev pub signing_key_if_listed : Provider → List String → Program (Option Key)
  signing_key_if_listed provider [] = pure none
  signing_key_if_listed provider (id ∷ ids) = do
    key ← perform env (Calls.signing_key provider)
    pure (some key)

  -- `activeKey`
  unfoldable pub active_key : Provider → List String → Program (Option Key)
  active_key provider listed_ids =
      if env.has_active_signing_key provider
      then perform env (Calls.active_signing_key provider)
      else signing_key_if_listed provider listed_ids

  unfoldable pub verify_accepted_publication : Rotation → Program (Unit {0})
  verify_accepted_publication rotation = do
    verified ← perform env Calls.verify_local_publication
    throw_when
        (not (str_eq verified.domain rotation.domain)
          || not (str_eq verified.lr rotation.log_reference))
        permanent
    key ← lift (jwks_error (current_draft01_signing_key verified.jwks))
    lift (assert_key_binding env key rotation.new_kid rotation.new_thumbprint)
    prepared ← lift (
        require raised (
          env.parse_prepared rotation.entry_bytes rotation.log_reference rotation.domain
            rotation.previous_key))
    log_ref ← lift (require raised (log_ref_of rotation.submission))
    event ← perform env (Calls.read_event log_ref)
    throw_when (not (is_continuous event rotation prepared)) permanent

  -- The part of reconcileAcceptedRotation that makes the new key active.
  unfoldable pub activate_if_needed : Provider → Provider → Rotation → Program (Unit {0})
  activate_if_needed previous target rotation = do
    active ← perform env (Calls.signing_key target)
    if str_eq active.kid rotation.new_kid
        then pure tt
        else when (previous == target) (
            lift (assert_key_binding env active rotation.previous_kid rotation.previous_thumbprint))
          >> perform env (Calls.activate target rotation.new_kid)

  unfoldable pub reconcile_accepted_rotation : Provider → Provider → Rotation → Program (Unit {0})
  reconcile_accepted_rotation previous target rotation = do
    activate_if_needed previous target rotation
    active ← perform env (Calls.signing_key target)
    lift (assert_key_binding env active rotation.new_kid rotation.new_thumbprint)
    ids ← perform env (Calls.list_key_ids previous)
    when (is_one_of ids rotation.previous_kid)
        (perform env (Calls.supersede previous rotation.previous_kid))

  -- `previous !== target && await activeKey(previous, await previous.listKeyIds())`, as an error.
  unfoldable pub assert_no_source_key : Provider → Provider → Program (Unit {0})
  assert_no_source_key previous target = when (not (previous == target)) (do
    ids ← perform env (Calls.list_key_ids previous)
    key ← active_key previous ids
    throw_when (is_some key) permanent)

  -- The new key is the target's signing key; the application signs with it from here on.
  unfoldable pub restore_signer : Provider → Rotation → Program (Unit {0})
  restore_signer target rotation = do
    active ← perform env (Calls.signing_key target)
    lift (assert_key_binding env active rotation.new_kid rotation.new_thumbprint)
    perform env (Calls.set_application_signer target rotation.new_kid)

  -- Resumes application signing, and saves that it did.
  unfoldable pub resume_signing : Rotation → Program Rotation
  resume_signing rotation = do
    perform env (Calls.set_application_signing_paused false)
    let completed : Rotation = record rotation { application_signing_paused = false }
    perform env (Calls.persist_rotation completed)
    pure completed

  -- activateRotation up to the point where `recoverable` changes.
  unfoldable pub save_activation : Provider → Provider → Rotation → Program Rotation
  save_activation previous target rotation = do
    verify_accepted_publication rotation
    reconcile_accepted_rotation previous target rotation
    assert_no_source_key previous target
    let activated : Rotation = record rotation {
      activated = true;
      application_signing_paused = true;
    }
    perform env (Calls.persist_rotation activated)
    pure activated

  unfoldable pub complete_activation : Provider → Rotation → Program Rotation
  complete_activation target activated = do
    restore_signer target activated
    resume_signing activated

  unfoldable pub activate_rotation : Provider → Provider → Rotation → Program Rotation
  activate_rotation previous target rotation = do
    activated ←
        catching (λ cause. activation_error rotation) (save_activation previous target rotation)
    catching (λ cause. activation_error activated) (complete_activation target activated)

  unfoldable pub restore_signing : Provider → Provider → Rotation → Program Rotation
  restore_signing previous target rotation = do
    assert_no_source_key previous target
    restore_signer target rotation
    if not rotation.application_signing_paused then pure rotation else resume_signing rotation

  unfoldable pub restore_activated_rotation : Provider → Provider → Rotation → Program Rotation
  restore_activated_rotation previous target rotation =
      catching (λ cause. activation_error rotation) (restore_signing previous target rotation)

  -- The registry's answer; `structuredRetryWithSameBytes` of an error without the member is true.
  abbrev pub submission_of : Rotation → Option SubmitReply → Result RotationError Submission
  submission_of rotation none = err (submission_error rotation true)
  submission_of rotation (some (refused retry)) = err (submission_error rotation retry)
  submission_of rotation (some (returned submission)) = ok submission

  unfoldable pub submit_bytes : Rotation → Program Submission
  submit_bytes rotation = do
    reply ←
        attempt env (
          Calls.submit_prepared_event rotation.domain rotation.entry_bytes rotation.idempotency_key)
    lift (submission_of rotation reply)

  -- The submission belongs to the rotation, and is saved with it.
  unfoldable pub save_submission : Rotation → Submission → Program Rotation
  save_submission rotation submission =
      let next = record rotation { submission = some submission } in
      catching (λ cause. submission_error next true)
        (do
          lift (assert_submission_matches_rotation env rotation submission)
          perform env (Calls.persist_rotation next)
          pure next)

  unfoldable pub submit_managed_rotation : Provider → Provider → Rotation → Program Rotation
  submit_managed_rotation previous target rotation = do
    submission ← submit_bytes rotation
    next ← save_submission rotation submission
    throw_when (is_rejected submission.state) (submission_error next false)
    if is_accepted submission.state then activate_rotation previous target next else pure next
