-- ===== src/Rotation/Tests.antt =====
-- A rotation within one provider, in an environment that answers every call, and in one that fails to
-- save the submission.
use dnsid_ts.Common.{
  Bool, true, false, ◌||◌, Option, none, some, String, [], ◌∷◌, ok, err, bytes_eq, ◌≡◌, refl, inl,
}
use dnsid_ts.Lifecycle.Keys.{Key}
use dnsid_ts.Lifecycle.Events.{key_rotation, LogEvent}
use dnsid_ts.Jwks.{
  is_draft01_signing_alg, stated_signature_alg, is_alg_consistent_with_key, jwk_signature_alg,
  unique_kids, current_draft01_signing_key, validate_operational,
}
use dnsid_ts.Rotation.Calls.{
  Call, Reply, persist_rotation, set_application_signing_paused, set_application_signer,
  verify_local_publication, read_event, submit_prepared_event, prepare_key_rotation,
  resolve_key_provider, signing_key, active_signing_key, list_key_ids, jwk, activate, supersede,
  validate_key_generation, generate_key, sign_previous_operational, sign_new_operational, accepted,
  Submission, returned, Rotation, submission_error, Prepared, Trace, Environment, pure, throw,
  ◌>>=◌, lift, catching, when, attempt, perform,
}
use dnsid_ts.Rotation.Checks.{
  assert_operation_references, assert_key_binding, assert_operational, assert_accepted,
  assert_submission_matches_rotation, assert_prepared_rotation_key, is_continuous,
}
use dnsid_ts.Rotation.Steps.{
  active_key, verify_accepted_publication, activate_if_needed, reconcile_accepted_rotation,
  assert_no_source_key, restore_signer, resume_signing, save_activation, complete_activation,
  activate_rotation, restore_signing, restore_activated_rotation, submit_bytes, save_submission,
  submit_managed_rotation,
}
use dnsid_ts.Rotation.Resume.{
  check_saved_domain, validate_listed_source, validate_removed_source, validate_source,
  validate_saved_event, validate_saved_rotation, resume_activated, resume_paused, resume_pending,
  resolve_target, resume_managed_operational_key_rotation,
}
use dnsid_ts.Rotation.Rotate.{
  RotateOptions, check_generation, generate_pending_key, prepare_entry, save_and_pause,
  rotation_for, rotate_managed_operational_key,
}
use dnsid_ts.Rotation.Safety.{Saved, Safe, After}
use dnsid_ts.Rotation.Recovery.{resume-Safe, rotate-Safe}
use dnsid_ts.Rotation.Errors.{SameEvent, Carries, Outcome, submit_managed_rotation-Carries}

runs : Unit {0}
unfolding is_draft01_signing_alg stated_signature_alg is_alg_consistent_with_key jwk_signature_alg
    unique_kids current_draft01_signing_key validate_operational pure throw ◌>>=◌ lift catching when
    attempt perform assert_operation_references assert_key_binding assert_operational
    assert_accepted assert_submission_matches_rotation assert_prepared_rotation_key is_continuous
    active_key verify_accepted_publication activate_if_needed reconcile_accepted_rotation
    assert_no_source_key restore_signer resume_signing save_activation complete_activation
    activate_rotation restore_signing restore_activated_rotation submit_bytes save_submission
    submit_managed_rotation check_saved_domain validate_listed_source validate_removed_source
    validate_source validate_saved_event validate_saved_rotation resume_activated resume_paused
    resume_pending resolve_target resume_managed_operational_key_rotation check_generation
    generate_pending_key prepare_entry save_and_pause rotation_for rotate_managed_operational_key
    bytes_eq
runs = tt

abbrev okp : String → Key
okp x = record {
  kty = "OKP";
  kid = x;
  alg = some "EdDSA";
  key_use = none;
  crv = some "Ed25519";
  x = some x;
  y = none;
  n = none;
  e = none;
  k = none;
  d = none;
}

abbrev submission : Submission
submission = record {
  state = accepted;
  entry_hash = some "hash";
  index = some 7;
  log_ref = some "log@7";
  key_id = some "second";
}

abbrev prepared : Prepared
prepared = record {
  event_type = "KEY_ROTATION";
  fqdn = "a.example";
  ts = 20;
  prev_thumb = some "first";
  new_ku = some (okp "second");
  new_thumb = some "second";
  prev_op = some (record { kid = "first"; sig = "old" });
  new_op = some (record { kid = "second"; sig = "new" });
}

abbrev logged : LogEvent
logged = record {
  domain = "a.example";
  timestamp = some 20000;
  body = key_rotation (record {
    previous_operational_kid = "first";
    previous_operational_thumbprint = "first";
    new_operational_kid = "second";
    new_operational_alg = "EdDSA";
    new_operational_thumbprint = "second";
    new_operational_public_key = some (okp "second");
  });
  signing_kid = some "first";
  sig = some "old";
  operational_countersig = none;
  new_operational_proof = some "new";
}

-- Whether a key was activated so far.
abbrev was_activated : Trace → Bool
was_activated [] = false
was_activated (e ∷ earlier) = is_activation e.call || was_activated earlier
  where
    is_activation : Call → Bool
    is_activation (activate p kid) = true
    is_activation _ = false

abbrev current_key : Bool → Key
current_key true = okp "second"
current_key false = okp "first"

abbrev answer : (c : Call) → Trace → Option (Reply c)
answer (persist_rotation r) t = some tt
answer (set_application_signing_paused b) t = some tt
answer (set_application_signer p kid) t = some tt
answer verify_local_publication t =
    some (record { domain = "a.example"; lr = "log"; jwks = okp "second" ∷ [] })
answer (read_event ref) t = some logged
answer (submit_prepared_event domain bytes key) t = some (returned submission)
answer (prepare_key_rotation domain previous key idempotency) t = some (1 ∷ [])
answer (resolve_key_provider ref) t = some 0
answer (signing_key p) t = some (current_key (was_activated t))
answer (active_signing_key p) t = some (some (current_key (was_activated t)))
answer (list_key_ids p) t = some ("first" ∷ [])
answer (jwk p kid) t = some (okp kid)
answer (activate p kid) t = some tt
answer (supersede p kid) t = some tt
answer (validate_key_generation p algorithm) t = some tt
answer (generate_key p algorithm) t = some "second"
answer (sign_previous_operational d p) t = some d
answer (sign_new_operational d p) t = some d

-- The same, but a rotation with a submission cannot be saved.
abbrev failing : (c : Call) → Trace → Option (Reply c)
failing (persist_rotation r) t = elim r.submission [ none ↦ some tt | some s ↦ none ]
failing c t = answer c t

abbrev with_answers : ((c : Call) → Trace → Option (Reply c)) → Environment
with_answers respond = record {
  respond = respond;
  jwk_thumbprint = λ key. key.x;
  sha256_hex = λ bytes. "hash";
  normalize_fqdn = λ domain. some domain;
  parse_prepared = λ bytes log fqdn key. some prepared;
  c2sp_tlog_entry_bytes = λ d. some (1 ∷ []);
  has_active_signing_key = λ p. true;
  has_validate_key_generation = λ p. true;
}

abbrev options : RotateOptions
options = record {
  domain = "a.example";
  log_reference = "log";
  key_provider = 0;
  previous_provider_reference = "kms";
  target_key_provider = none;
  target_algorithm = none;
  new_provider_reference = "kms";
  idempotency_key = "once";
}

abbrev saved : Rotation
saved = record {
  domain = "a.example";
  log_reference = "log";
  previous_kid = "first";
  new_kid = "second";
  previous_provider_reference = "kms";
  new_provider_reference = "kms";
  previous_key = okp "first";
  previous_thumbprint = "first";
  new_thumbprint = "second";
  entry_hash = "hash";
  entry_bytes = 1 ∷ [];
  idempotency_key = "once";
  submission = none;
  activated = false;
  application_signing_paused = true;
}

abbrev completed : Rotation
completed = record saved {
  submission = some submission;
  activated = true;
  application_signing_paused = false;
}

-- The rotation completes; if the submission cannot be saved, it ends in the error to resume from, and
-- resuming completes it.
rotations :
    ((rotate_managed_operational_key (with_answers answer) options []).0 ≡ ok completed)
    × ((rotate_managed_operational_key (with_answers failing) options []).0
        ≡ err (submission_error (record saved { submission = some submission }) true))
    × ((resume_managed_operational_key_rotation
          (with_answers answer)
          (record saved { submission = some submission })
          []).0
        ≡ ok completed)
unfolding runs
rotations = (refl, refl, refl)

abbrev activation_saved : Rotation
activation_saved = record completed { application_signing_paused = true }

abbrev history : Trace
history = record { call = persist_rotation activation_saved; reply = some tt } ∷ []

abbrev answered : Environment
answered = with_answers answer

resume-Safe_example :
    Safe answered (resume_managed_operational_key_rotation answered activation_saved history).1
    × After
        (λ done t'. Saved done t')
        (resume_managed_operational_key_rotation answered activation_saved history).0
        (resume_managed_operational_key_rotation answered activation_saved history).1
resume-Safe_example = resume-Safe answered activation_saved history (tt, tt) (λ active. inl refl)

rotate-Safe_example :
    Safe answered (rotate_managed_operational_key answered options []).1
    × After
        (λ done t'. Saved done t')
        (rotate_managed_operational_key answered options []).0
        (rotate_managed_operational_key answered options []).1
rotate-Safe_example = rotate-Safe answered options [] tt

submit_managed_rotation-Carries_example :
    Outcome
      (SameEvent saved)
      (Carries saved)
      (submit_managed_rotation (with_answers failing) 0 0 saved []).0
submit_managed_rotation-Carries_example =
    submit_managed_rotation-Carries (with_answers failing) saved 0 0 []
