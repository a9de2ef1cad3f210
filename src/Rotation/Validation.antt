-- ===== src/Rotation/Validation.antt =====
-- Validating, generating a key and preparing an entry make only quiet calls, so that they keep what quiet
-- calls keep.

use dnsid_ts.Common.{String, str_eq}
use dnsid_ts.Lifecycle.Keys.{Key}
use dnsid_ts.Jwks.{is_one_of}
use dnsid_ts.Rotation.Calls.{
  resolve_key_provider, list_key_ids, signing_key, jwk, generate_key, validate_key_generation,
  prepare_key_rotation, sign_previous_operational, sign_new_operational, Rotation, Trace, Provider,
  Environment,
}
use dnsid_ts.Rotation.Resume.{
  validate_listed_source, validate_removed_source, validate_source, validate_saved_event,
  validate_saved_rotation, resolve_target,
}
use dnsid_ts.Rotation.Rotate.{
  RotateOptions, target_of, check_generation, generate_pending_key, prepare_entry,
}
use dnsid_ts.Rotation.Safety.{Triple, Framed, bind-Triple, catching-Triple, if-Triple}
use dnsid_ts.Rotation.Quiet.{lift_keeps, pure_keeps, call_keeps, active_key_keeps}

module _ (env : Environment) where
  module _ {P : Trace → Type 0} (framed : Framed env P) where
    validate_source_keeps :
        (previous target : Provider) (r : Rotation)
        → Triple env P (validate_source env previous target r) (λ u t. P t)
    unfolding validate_source validate_listed_source validate_removed_source
    validate_source_keeps previous target r =
        bind-Triple env (call_keeps env (list_key_ids previous) tt framed (λ t p. tt)) (λ ids.
          bind-Triple env (active_key_keeps env previous ids framed) (λ source.
            if-Triple env (is_one_of ids r.previous_kid)
              (λ listed.
                bind-Triple env (call_keeps env (jwk previous r.previous_kid) tt framed (λ t p. tt))
                  (λ k. bind-Triple env (lift_keeps env _) (λ u. lift_keeps env _)))
              (λ removed. bind-Triple env (lift_keeps env _) (λ u.
                bind-Triple env (lift_keeps env _) (λ v.
                  bind-Triple env (call_keeps env (signing_key target) tt framed (λ t p. tt))
                    (λ k. bind-Triple env (lift_keeps env _) (λ w. lift_keeps env _)))))))

    validate_saved_event_keeps :
        (next : Key) (r : Rotation) → Triple env P (validate_saved_event env next r) (λ u t. P t)
    unfolding validate_saved_event
    validate_saved_event_keeps next r = bind-Triple env (lift_keeps env _) (λ prepared.
        bind-Triple env (lift_keeps env _) (λ u.
          bind-Triple env (lift_keeps env _)
            (λ v. bind-Triple env (lift_keeps env _) (λ bytes. lift_keeps env _))))

    pub validate_saved_rotation_keeps :
        (previous target : Provider) (r : Rotation)
        → Triple env P (validate_saved_rotation env previous target r) (λ u t. P t)
    unfolding validate_saved_rotation
    validate_saved_rotation_keeps previous target r = bind-Triple env (lift_keeps env _) (λ u.
        bind-Triple env (lift_keeps env _) (λ v. bind-Triple env (lift_keeps env _) (λ w.
          bind-Triple env (validate_source_keeps previous target r) (λ x.
            bind-Triple env (call_keeps env (jwk target r.new_kid) tt framed (λ t p. tt)) (λ next.
              bind-Triple env (lift_keeps env _) (λ y. validate_saved_event_keeps next r))))))

    pub resolve_target_keeps :
        (r : Rotation) (previous : Provider)
        → Triple env P (resolve_target env r previous) (λ p t. P t)
    unfolding resolve_target
    resolve_target_keeps r previous =
        if-Triple env (str_eq r.new_provider_reference r.previous_provider_reference)
          (λ same. pure_keeps env previous)
          (λ other.
            call_keeps env (resolve_key_provider r.new_provider_reference) tt framed (λ t p. tt))

    pub prepare_entry_keeps :
        (o : RotateOptions) (domain : String) (old : Key) (thumb : String) (new : Key)
        → Triple env P (prepare_entry env o domain old thumb new) (λ b t. P t)
    unfolding prepare_entry
    prepare_entry_keeps o domain old thumb new =
        bind-Triple env
          (catching-Triple env _ (
            call_keeps env (prepare_key_rotation domain thumb new o.idempotency_key) tt framed
              (λ t p. tt)))
          (λ raw. bind-Triple env (lift_keeps env _) (λ prepared.
            bind-Triple env (lift_keeps env _) (λ u. bind-Triple env (lift_keeps env _) (λ v.
              bind-Triple env
                (call_keeps env (sign_previous_operational prepared o.key_provider) tt framed
                  (λ t p. tt))
                (λ once.
                  bind-Triple env
                    (call_keeps env (sign_new_operational once (target_of o)) tt framed (λ t p. tt))
                    (λ twice. lift_keeps env _))))))

    pub generate_pending_key_keeps :
        (target : Provider) (algorithm thumb : String)
        → Triple env P (generate_pending_key env target algorithm thumb) (λ k t. P t)
    unfolding generate_pending_key
    generate_pending_key_keeps target algorithm thumb =
        bind-Triple env (call_keeps env (generate_key target algorithm) tt framed (λ t p. tt))
          (λ kid. bind-Triple env (call_keeps env (jwk target kid) tt framed (λ t p. tt)) (λ key.
            bind-Triple env (lift_keeps env _) (λ u. bind-Triple env (lift_keeps env _) (λ v.
              bind-Triple env (lift_keeps env _)
                (λ thumb'. bind-Triple env (lift_keeps env _) (λ w. pure_keeps env _))))))

    pub check_generation_keeps :
        (target : Provider) (algorithm : String)
        → Triple env P (check_generation env target algorithm) (λ u t. P t)
    unfolding check_generation
    check_generation_keeps target algorithm =
        if-Triple env (env.has_validate_key_generation target)
          (λ it_has.
            call_keeps env (validate_key_generation target algorithm) tt framed (λ t p. tt))
          (λ it_has_not.
            bind-Triple env (call_keeps env (signing_key target) tt framed (λ t p. tt))
              (λ active. bind-Triple env (lift_keeps env _) (λ u. lift_keeps env _)))
