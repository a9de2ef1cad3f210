-- ===== src/Rotation/Recovery.antt =====
-- Rotating and resuming make only calls that are permitted, whatever the environment answers.

use dnsid_ts.Common.{true, not, some, ◌∷◌, ok, ◌≡◌, inr, refl, arith, throw_if}
use dnsid_ts.Rotation.Calls.{
  persist_rotation, set_application_signing_paused, resolve_key_provider, signing_key, Rotation,
  permanent, Entry, Trace, Provider, Environment, Program, perform,
}
use dnsid_ts.Rotation.Checks.{has_accepted}
use dnsid_ts.Rotation.Resume.{
  assert_saved_submission, resume_activated, resume_paused, resume_pending,
  resume_managed_operational_key_rotation,
}
use dnsid_ts.Rotation.Rotate.{
  RotateOptions, target_of, save_and_pause, rotation_for, rotate_managed_operational_key,
}
use dnsid_ts.Rotation.Safety.{
  Saved, is_paused, IsAccepted, Safe, After, Triple, Framed, bind-Triple, lift-Triple,
  catching-Triple, if-Triple, weaken-Triple, perform-Triple, quiet-Triple,
}
use dnsid_ts.Rotation.Quiet.{paused-Framed, fact-Framed, both-Framed, Ready, lift_keeps, call_keeps}
use dnsid_ts.Rotation.Activation.{activate_rotation-Triple, restore_activated_rotation-Triple}
use dnsid_ts.Rotation.Submission.{saved-IsAccepted, submit_managed_rotation-Triple}
use dnsid_ts.Rotation.Validation.{
  validate_saved_rotation_keeps, resolve_target_keeps, prepare_entry_keeps,
  generate_pending_key_keeps, check_generation_keeps,
}

module _ (env : Environment) where
  -- A pause that returned, whatever held before.
  pause-Triple :
      {P : Trace → Type 0}
      → ((e : Entry) (t : Trace) → P t → P (e ∷ t))
      → Triple env P
          (perform env (set_application_signing_paused true))
          (λ u t. P t × (is_paused t ≡ true))
  pause-Triple {P} stable =
      weaken-Triple env (λ t p. p) (λ u t q. q.0)
        (perform-Triple env {P = λ t. P t × (is_paused t ≡ true)}
          (set_application_signing_paused true)
          (λ a t p. (
            stable (record { call = set_application_signing_paused true; reply = some a }) t p,
            refl,
          ))
          (λ t p. tt))

  save_and_pause-Triple :
      (r : Rotation) → Triple env (λ t. Unit {0}) (save_and_pause env r) (λ u t. Ready r t)
  unfolding save_and_pause
  save_and_pause-Triple r = catching-Triple env _ (
      bind-Triple env (quiet-Triple env (persist_rotation r) tt (fact-Framed env _) (λ t p. tt))
        (λ u. weaken-Triple env (λ t p. p.1) (λ w t q. q) (pause-Triple (λ e t p. inr p))))

  resume_paused-Triple :
      (previous target : Provider) (r : Rotation)
      → Triple env (λ t. Unit {0}) (resume_paused env previous target r) (λ done t. Saved done t)
  unfolding resume_paused
  resume_paused-Triple previous target r = catching-Triple env _ (
      bind-Triple env (pause-Triple (λ e t p. tt)) (λ u.
        bind-Triple env {Q = λ w t. Ready r t}
          (weaken-Triple env (λ t p. p) (λ w t q. (q.1, q.0.1))
            (quiet-Triple env (persist_rotation r) tt
              (both-Framed env (fact-Framed env _) (paused-Framed env)) (λ t p. tt)))
          (λ w.
            if-Triple env (has_accepted r.submission)
              (λ accepted.
                bind-Triple env (lift-Triple env (assert_saved_submission env r r.submission))
                  (λ x. with_check accepted (activate_rotation-Triple env previous target r)))
              (λ pending_still. submit_managed_rotation-Triple env previous target r))))
    where
      with_check :
          {m : Program Rotation} {x : Unit {0}}
          → has_accepted r.submission ≡ true
          → (IsAccepted env r → Triple env (Ready r) m (λ done t. Saved done t))
          → Triple env
              (λ t. Ready r t × (assert_saved_submission env r r.submission ≡ ok x))
              m
              (λ done t. Saved done t)
      with_check accepted each = record {
        run = λ t safe p. (each (saved-IsAccepted env r accepted p.1)).run t safe p.0;
      }

  resume_activated-Triple :
      (previous target : Provider) (r : Rotation)
      → r.activated ≡ true
      → Triple env (Saved r) (resume_activated env previous target r) (λ done t. Saved done t)
  unfolding resume_activated
  resume_activated-Triple previous target r active = bind-Triple env (lift-Triple env _) (λ u.
      bind-Triple env (lift-Triple env (assert_saved_submission env r r.submission))
        (λ x. with_check (restore_activated_rotation-Triple env previous target r active)))
    where
      with_check :
          {m : Program Rotation} {u x : Unit {0}}
          → (IsAccepted env r → Triple env (Saved r) m (λ done t. Saved done t))
          → Triple env
              (λ t.
                (Saved r t × (throw_if (not (has_accepted r.submission)) permanent ≡ ok u))
                × (assert_saved_submission env r r.submission ≡ ok x))
              m
              (λ done t. Saved done t)
      with_check each = record {
        run = λ t safe p.
            (each (saved-IsAccepted env r (ground (arith, p.0.1)) p.1)).run t safe p.0.0;
      }

  -- What resuming needs: an activated rotation is one that was saved.
  abbrev pub Resumable : Rotation → Trace → Type 0
  Resumable r t = r.activated ≡ true → Saved r t

  resume-Triple :
      (r : Rotation)
      → Triple env
          (Resumable r)
          (resume_managed_operational_key_rotation env r)
          (λ done t. Saved done t)
  unfolding resume_managed_operational_key_rotation resume_pending
  resume-Triple r =
      let kept : Framed env (Resumable r) = λ e t quiet p active. inr (p active) in
      catching-Triple env _ (
        bind-Triple env (lift_keeps env _) (λ u.
          bind-Triple env
            (call_keeps env (resolve_key_provider r.previous_provider_reference) tt kept
              (λ t p. tt))
            (λ previous. bind-Triple env (resolve_target_keeps env kept r previous) (λ target.
              bind-Triple env (validate_saved_rotation_keeps env kept previous target r) (λ v.
                if-Triple env r.activated
                  (λ active.
                    weaken-Triple env (λ t p. p active) (λ d t q. q)
                      (resume_activated-Triple previous target r active))
                  (λ inactive. bind-Triple env (lift_keeps env _) (λ w.
                    weaken-Triple env (λ t p. tt) (λ d t q. q)
                      (resume_paused-Triple previous target
                        (record r { application_signing_paused = true })))))))))

  rotate-Triple :
      (o : RotateOptions)
      → Triple env (λ t. Unit {0}) (rotate_managed_operational_key env o) (λ done t. Saved done t)
  unfolding rotate_managed_operational_key
  rotate-Triple o =
      let kept : Framed env (λ t. Unit {0}) = fact-Framed env _ in
      bind-Triple env (lift_keeps env _) (λ domain. bind-Triple env (lift_keeps env _) (λ u.
        bind-Triple env (lift_keeps env _) (λ v.
          bind-Triple env (call_keeps env (signing_key o.key_provider) tt kept (λ t p. tt)) (λ old.
            bind-Triple env (lift_keeps env _) (λ w. bind-Triple env (lift_keeps env _) (λ thumb.
              bind-Triple env (lift_keeps env _) (λ algorithm.
                bind-Triple env (check_generation_keeps env kept (target_of o) algorithm) (λ x.
                  bind-Triple env
                    (generate_pending_key_keeps env kept (target_of o) algorithm thumb)
                    (λ new.
                      bind-Triple env (prepare_entry_keeps env kept o domain old thumb new.key)
                        (λ bytes.
                          let r = rotation_for env o domain old thumb new bytes in
                          bind-Triple env (save_and_pause-Triple r) (λ y.
                            submit_managed_rotation-Triple env o.key_provider (target_of o)
                              r)))))))))))

  -- Whatever the environment answers, and whether it throws: from a safe trace, in which the rotation was
  -- saved if it is activated, resumeManagedOperationalKeyRotation makes a safe one; and a rotation that it
  -- returns was saved.
  pub resume-Safe :
      (r : Rotation) (t : Trace)
      → Safe env t
      → (r.activated ≡ true → Saved r t)
      → Safe env (resume_managed_operational_key_rotation env r t).1
        × After
            (λ done t'. Saved done t')
            (resume_managed_operational_key_rotation env r t).0
            (resume_managed_operational_key_rotation env r t).1
  resume-Safe r t safe saved = (resume-Triple r).run t safe saved

  -- The same of rotateManagedOperationalKey, from any safe trace.
  pub rotate-Safe :
      (o : RotateOptions) (t : Trace)
      → Safe env t
      → Safe env (rotate_managed_operational_key env o t).1
        × After
            (λ done t'. Saved done t')
            (rotate_managed_operational_key env o t).0
            (rotate_managed_operational_key env o t).1
  rotate-Safe o t safe = (rotate-Triple o).run t safe tt
