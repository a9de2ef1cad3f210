-- ===== src/Rotation/Rotate.antt =====
-- `rotateManagedOperationalKey` of packages/sdk/src/managed-key-rotation.ts.
use dnsid_ts.Common.{
  Bool, true, false, not, ◌||◌, Option, none, some, String, str_eq, Result, ok, err, ◌==◌,
  if◌then◌else◌, Bytes,
}
use dnsid_ts.Lifecycle.Keys.{Key, opt_eq}
use dnsid_ts.Rotation.Calls
use dnsid_ts.Rotation.Calls.{
  Submission, Rotation, RotationError, permanent, raised, argument_error, preparation_unavailable,
  submission_error, Prepared, Provider, Environment, Program, pure, throw, ◌>>=◌, ◌>>◌, lift,
  require, catching, when, throw_when, perform,
}
use dnsid_ts.Rotation.Checks.{
  assert_operation_references, assert_operational, assert_prepared_rotation_key, is_prepared_for,
  thumbprint,
}
use dnsid_ts.Rotation.Steps.{submit_managed_rotation}

-- `RotateManagedOperationalKeyOptions`.
pub record RotateOptions : Type 0 where
  pub domain : String
  pub log_reference : String
  pub key_provider : Provider
  pub previous_provider_reference : String
  pub target_key_provider : Option Provider
  pub target_algorithm : Option String
  pub new_provider_reference : String
  pub idempotency_key : String

-- `newKid` and `newKey`.
pub record PendingKey : Type 0 where
  pub kid : String
  pub key : Key
  pub key_thumbprint : String

abbrev pub target_of : RotateOptions → Provider
target_of options = elim options.target_key_provider [ none ↦ options.key_provider | some p ↦ p ]

abbrev algorithm_of : RotateOptions → Key → Option String
algorithm_of options key = elim options.target_algorithm [ none ↦ key.alg | some a ↦ some a ]

abbrev same_bool : Bool → Bool → Bool
same_bool true b = b
same_bool false b = not b

-- `algorithm !== 'EdDSA' && algorithm !== 'ES256'`
abbrev supported_algorithm : Option String → Result RotationError String
supported_algorithm none = err argument_error
supported_algorithm (some a) =
    if str_eq a "EdDSA" || str_eq a "ES256" then ok a else err argument_error

module _ (env : Environment) where
  unfoldable pub check_generation : Provider → String → Program (Unit {0})
  check_generation target algorithm =
      if env.has_validate_key_generation target
      then perform env (Calls.validate_key_generation target algorithm)
      else perform env (Calls.signing_key target) >>= λ active.
          lift (assert_operational env active)
          >> throw_when (not (opt_eq active.alg (some algorithm))) argument_error

  -- The pending key, which is not the previous one.
  unfoldable pub generate_pending_key : Provider → String → String → Program PendingKey
  generate_pending_key target algorithm previous_thumbprint = do
    new_kid ← perform env (Calls.generate_key target algorithm)
    new_key ← perform env (Calls.jwk target new_kid)
    lift (assert_operational env new_key)
    throw_when (not (opt_eq new_key.alg (some algorithm))) permanent
    new_thumbprint ← lift (thumbprint env new_key)
    throw_when (str_eq new_thumbprint previous_thumbprint) permanent
    pure (record { kid = new_kid; key = new_key; key_thumbprint = new_thumbprint })

  -- The event that the registry prepares, checked and signed by both keys.
  unfoldable pub prepare_entry : RotateOptions → String → Key → String → Key → Program Bytes
  prepare_entry options domain previous_key previous_thumbprint new_key = do
    raw ←
        catching (λ cause. preparation_unavailable)
          (perform env
            (Calls.prepare_key_rotation domain previous_thumbprint new_key options.idempotency_key))
    prepared ←
        lift (require raised (env.parse_prepared raw options.log_reference domain previous_key))
    throw_when (not (is_prepared_for prepared domain previous_thumbprint)) permanent
    lift (assert_prepared_rotation_key env prepared.new_ku prepared.new_thumb new_key)
    once ← perform env (Calls.sign_previous_operational prepared options.key_provider)
    twice ← perform env (Calls.sign_new_operational once (target_of options))
    lift (require raised (env.c2sp_tlog_entry_bytes twice))

  -- The rotation is saved, and signing paused, before anything is submitted.
  unfoldable pub save_and_pause : Rotation → Program (Unit {0})
  save_and_pause rotation =
      catching (λ cause. submission_error rotation true)
        (do
          perform env (Calls.persist_rotation rotation)
          perform env (Calls.set_application_signing_paused true))

  unfoldable pub rotation_for :
      RotateOptions → String → Key → String → PendingKey → Bytes → Rotation
  rotation_for options domain previous_key previous_thumbprint new_key entry_bytes = record {
    domain = domain;
    log_reference = options.log_reference;
    previous_kid = previous_key.kid;
    new_kid = new_key.kid;
    previous_provider_reference = options.previous_provider_reference;
    new_provider_reference = options.new_provider_reference;
    previous_key = previous_key;
    previous_thumbprint = previous_thumbprint;
    new_thumbprint = new_key.key_thumbprint;
    entry_hash = env.sha256_hex entry_bytes;
    entry_bytes = entry_bytes;
    idempotency_key = options.idempotency_key;
    submission = none;
    activated = false;
    application_signing_paused = true;
  }

  unfoldable pub rotate_managed_operational_key : RotateOptions → Program Rotation
  rotate_managed_operational_key options = do
    domain ← lift (require raised (env.normalize_fqdn options.domain))
    lift (
        assert_operation_references options.previous_provider_reference
          options.new_provider_reference options.idempotency_key)
    throw_when
        (not (
          same_bool (target_of options == options.key_provider)
            (str_eq options.previous_provider_reference options.new_provider_reference)))
        argument_error
    previous_key ← perform env (Calls.signing_key options.key_provider)
    lift (assert_operational env previous_key)
    previous_thumbprint ← lift (thumbprint env previous_key)
    algorithm ← lift (supported_algorithm (algorithm_of options previous_key))
    check_generation (target_of options) algorithm
    new_key ← generate_pending_key (target_of options) algorithm previous_thumbprint
    entry_bytes ← prepare_entry options domain previous_key previous_thumbprint new_key.key
    let rotation = rotation_for options domain previous_key previous_thumbprint new_key entry_bytes
    save_and_pause rotation
    submit_managed_rotation env options.key_provider (target_of options) rotation
