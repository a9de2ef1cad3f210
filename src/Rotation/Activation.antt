-- ===== src/Rotation/Activation.antt =====
-- The calls of an activation are permitted.
use dnsid_ts.Common.{
  true, false, not, ◌||◌, String, str_eq, eq_iff, ok, ◌≡◌, refl, sym, ap, arith, throw_if, ◌==◌,
}
use mathlib.Core.Path.{subst}
use dnsid_ts.Lifecycle.Keys.{Key}
use dnsid_ts.Jwks.{is_one_of}
use dnsid_ts.Rotation.Calls.{
  persist_rotation, set_application_signing_paused, set_application_signer,
  verify_local_publication, read_event, list_key_ids, signing_key, activate, supersede, Rotation,
  permanent, Publication, Trace, Provider, Environment, Program,
}
use dnsid_ts.Rotation.Checks.{assert_key_binding}
use dnsid_ts.Rotation.Steps.{
  verify_accepted_publication, activate_if_needed, reconcile_accepted_rotation, restore_signer,
  resume_signing, save_activation, complete_activation, activate_rotation, restore_signing,
  restore_activated_rotation,
}
use dnsid_ts.Rotation.Safety.{
  Returned, Saved, IsAccepted, Triple, Framed, bind-Triple, lift-Triple, pure-Triple,
  catching-Triple, if-Triple, weaken-Triple, when-Triple, perform-Triple, quiet-Triple,
}
use dnsid_ts.Rotation.Quiet.{
  Returned-Framed, fact-Framed, both-Framed, Ready, Ready-Framed, lift_keeps, pure_keeps,
  call_keeps, assert_no_source_key_keeps,
}

module _ (env : Environment) where
  assert_key_binding_kid :
      (key : Key) (kid thumb : String) {u : Unit {0}}
      → assert_key_binding env key kid thumb ≡ ok u
      → key.kid ≡ kid
  unfolding assert_key_binding
  assert_key_binding_kid key kid thumb h = ground (arith, eq_iff key.kid kid)

  -- The publication of the rotation's domain was verified.
  abbrev Published : Rotation → Publication → Trace → Type 0
  Published r v t = Returned verify_local_publication v t × (v.domain ≡ r.domain)

  same_publication :
      (v : Publication) (r : Rotation) {u : Unit {0}}
      → throw_if (not (str_eq v.domain r.domain) || not (str_eq v.lr r.log_reference)) permanent
        ≡ ok u
      → v.domain ≡ r.domain
  same_publication v r h = ground (arith, eq_iff v.domain r.domain)

  verify_accepted_publication-Triple :
      (r : Rotation) {P : Trace → Type 0}
      → Framed env P
      → Triple env P
          (verify_accepted_publication env r)
          (λ u t. P t × ((v : Publication) × Published r v t))
  unfolding verify_accepted_publication
  verify_accepted_publication-Triple r {P} framed =
      bind-Triple env (quiet-Triple env verify_local_publication tt framed (λ t p. tt)) (λ v.
        let K : Trace → Type 0 = λ t. P t × Published r v t in
        let kept : Framed env K =
          both-Framed env framed (
            both-Framed env (Returned-Framed env verify_local_publication v) (fact-Framed env _)) in
        bind-Triple env {Q = λ u t. K t}
          (weaken-Triple env (λ t p. p) (λ u t q. (q.0.0, (q.0.1, same_publication v r q.1)))
            (lift-Triple env _))
          (λ u. bind-Triple env (lift_keeps env _) (λ key.
            bind-Triple env (lift_keeps env _) (λ bound.
              bind-Triple env (lift_keeps env _) (λ prepared.
                bind-Triple env (lift_keeps env _) (λ log_ref.
                  bind-Triple env (call_keeps env (read_event log_ref) tt kept (λ t p. tt))
                    (λ event.
                      weaken-Triple env (λ t p. p) (λ w t q. (q.0, (v, q.1)))
                        (lift_keeps env _))))))))

  -- Ready, with a verified publication.
  abbrev Verified : Rotation → Publication → Trace → Type 0
  Verified r v t = Ready r t × Published r v t

  Verified-Framed : (r : Rotation) (v : Publication) → Framed env (Verified r v)
  Verified-Framed r v =
      both-Framed env (Ready-Framed env r)
        (both-Framed env (Returned-Framed env verify_local_publication v) (fact-Framed env _))

  activate_if_needed-Triple :
      (previous target : Provider) (r : Rotation) (v : Publication)
      → IsAccepted env r
      → Triple env (Verified r v) (activate_if_needed env previous target r) (λ u t. Verified r v t)
  unfolding activate_if_needed
  activate_if_needed-Triple previous target r v accepted =
      let kept = Verified-Framed r v in
      bind-Triple env (call_keeps env (signing_key target) tt kept (λ t p. tt)) (λ active.
        if-Triple env (str_eq active.kid r.new_kid) (λ already. pure_keeps env tt)
          (λ other.
            bind-Triple env (when-Triple env (previous == target) (λ same. lift_keeps env _)) (λ u.
              call_keeps env (activate target r.new_kid) tt kept
                (λ t p. (r, v, accepted, p.0.0, p.0.1, refl, p.1.0, p.1.1)))))

  -- Ready, and the new key was read as the target's signing key.
  abbrev Reconciled : Rotation → Provider → Key → Trace → Type 0
  Reconciled r q k t = Ready r t × (Returned (signing_key q) k t × (k.kid ≡ r.new_kid))

  Reconciled-Framed : (r : Rotation) (q : Provider) (k : Key) → Framed env (Reconciled r q k)
  Reconciled-Framed r q k =
      both-Framed env (Ready-Framed env r)
        (both-Framed env (Returned-Framed env (signing_key q) k) (fact-Framed env _))

  reconcile_accepted_rotation-Triple :
      (previous target : Provider) (r : Rotation) (v : Publication)
      → IsAccepted env r
      → Triple env
          (Verified r v)
          (reconcile_accepted_rotation env previous target r)
          (λ u t. Ready r t)
  unfolding reconcile_accepted_rotation
  reconcile_accepted_rotation-Triple previous target r v accepted =
      bind-Triple env (activate_if_needed-Triple previous target r v accepted) (λ u.
        bind-Triple env (quiet-Triple env (signing_key target) tt (Verified-Framed r v) (λ t p. tt))
          (λ active.
            let kept = Reconciled-Framed r target active in
            bind-Triple env {Q = λ u t. Reconciled r target active t}
              (weaken-Triple env (λ t p. p)
                (λ w t q.
                  (q.0.0.0, (q.0.1, assert_key_binding_kid active r.new_kid r.new_thumbprint q.1)))
                (lift-Triple env _))
              (λ w.
                bind-Triple env (call_keeps env (list_key_ids previous) tt kept (λ t p. tt)) (λ ids.
                  weaken-Triple env (λ t p. p) (λ x t q. q.0)
                    (when-Triple env (is_one_of ids r.previous_kid) (λ listed.
                      call_keeps env (supersede previous r.previous_kid) tt kept (λ t p.
                        (r, target, active, accepted, p.0.0, p.0.1, refl, p.1.0, p.1.1))))))))

  abbrev pub activated_of : Rotation → Rotation
  activated_of r = record r { activated = true; application_signing_paused = true }

  save_activation-Triple :
      (previous target : Provider) (r : Rotation)
      → IsAccepted env r
      → Triple env
          (Ready r)
          (save_activation env previous target r)
          (λ a t. Ready (activated_of r) t × (a ≡ activated_of r))
  unfolding save_activation
  save_activation-Triple previous target r accepted =
      bind-Triple env (verify_accepted_publication-Triple r (Ready-Framed env r)) (λ u.
        bind-Triple env
          (with_publication (λ v. reconcile_accepted_rotation-Triple previous target r v accepted))
          (λ w.
            bind-Triple env (assert_no_source_key_keeps env previous target (Ready-Framed env r))
              (λ x.
                bind-Triple env {Q = λ y t. Ready (activated_of r) t}
                  (weaken-Triple env (λ t p. p) (λ y t q. (q.1, q.0.1))
                    (quiet-Triple env (persist_rotation (activated_of r)) tt (Ready-Framed env r)
                      (λ t p. tt)))
                  (λ y. pure-Triple env (activated_of r)))))
    where
      with_publication :
          {m : Program (Unit {0})} {Q : Unit {0} → Trace → Type 0}
          → ((v : Publication) → Triple env (Verified r v) m Q)
          → Triple env (λ t. Ready r t × ((v : Publication) × Published r v t)) m Q
      with_publication each = record {
        run = λ t safe (ready, (v, published)). (each v).run t safe (ready, published);
      }

  -- Saved, with the application's signer set to its key.
  abbrev Signing : Provider → Rotation → Trace → Type 0
  Signing target r t = Saved r t × Returned (set_application_signer target r.new_kid) tt t

  restore_signer-Triple :
      (target : Provider) (r : Rotation)
      → Triple env (Saved r) (restore_signer env target r) (λ u t. Signing target r t)
  unfolding restore_signer
  restore_signer-Triple target r =
      let kept = Returned-Framed env (persist_rotation r) tt in
      bind-Triple env (call_keeps env (signing_key target) tt kept (λ t p. tt)) (λ active.
        bind-Triple env (lift_keeps env _)
          (λ u. quiet-Triple env (set_application_signer target r.new_kid) tt kept (λ t p. tt)))

  resume_signing-Triple :
      (target : Provider) (r : Rotation)
      → r.activated ≡ true
      → IsAccepted env r
      → Triple env (Signing target r) (resume_signing env r) (λ done t. Saved done t)
  unfolding resume_signing
  resume_signing-Triple target r active accepted =
      let completed : Rotation = record r { application_signing_paused = false } in
      bind-Triple env {Q = λ u t. Unit {0}}
        (weaken-Triple env (λ t p. p) (λ u t q. tt)
          (perform-Triple env {P = λ t. Unit {0}} (set_application_signing_paused false)
            (λ e t p. tt) (λ t p. (r, target, active, accepted, p.0, p.1))))
        (λ u.
          bind-Triple env
            (quiet-Triple env (persist_rotation completed) tt (fact-Framed env _) (λ t p. tt))
            (λ w.
              weaken-Triple env (λ t p. p) (λ done t q. subst (λ d. Saved d t) (sym q.1) q.0.1)
                (pure-Triple env completed)))

  activated-IsAccepted : (r : Rotation) → IsAccepted env r → IsAccepted env (activated_of r)
  activated-IsAccepted r a = record {
    submission = a.submission;
    given = a.given;
    state = a.state;
    hash = a.hash;
    key = a.key;
  }

  complete_activation-Triple :
      (target : Provider) (a : Rotation)
      → a.activated ≡ true
      → IsAccepted env a
      → Triple env (Saved a) (complete_activation env target a) (λ done t. Saved done t)
  unfolding complete_activation
  complete_activation-Triple target a active accepted =
      bind-Triple env (restore_signer-Triple target a)
        (λ u. resume_signing-Triple target a active accepted)

  pub activate_rotation-Triple :
      (previous target : Provider) (r : Rotation)
      → IsAccepted env r
      → Triple env (Ready r) (activate_rotation env previous target r) (λ done t. Saved done t)
  unfolding activate_rotation
  activate_rotation-Triple previous target r accepted =
      bind-Triple env (catching-Triple env _ (save_activation-Triple previous target r accepted))
        (λ a. catching-Triple env _ (
          same_rotation a (λ same.
            complete_activation-Triple target a (ap (λ d. d.activated) same)
              (subst (IsAccepted env) (sym same) (activated-IsAccepted r accepted)))))
    where
      same_rotation :
          {m : Program Rotation} (a : Rotation)
          → (a ≡ activated_of r → Triple env (Saved a) m (λ done t. Saved done t))
          → Triple env
              (λ t. Ready (activated_of r) t × (a ≡ activated_of r))
              m
              (λ done t. Saved done t)
      same_rotation a each = record {
        run = λ t safe (ready, same).
            (each same).run t safe (subst (λ d. Saved d t) (sym same) ready.0);
      }

  -- A rotation that was saved as activated, in this or an earlier run.
  pub restore_activated_rotation-Triple :
      (previous target : Provider) (r : Rotation)
      → r.activated ≡ true
      → IsAccepted env r
      → Triple env
          (Saved r)
          (restore_activated_rotation env previous target r)
          (λ done t. Saved done t)
  unfolding restore_activated_rotation restore_signing
  restore_activated_rotation-Triple previous target r active accepted =
      let kept = Returned-Framed env (persist_rotation r) tt in
      catching-Triple env _ (
        bind-Triple env (assert_no_source_key_keeps env previous target kept) (λ u.
          bind-Triple env (restore_signer-Triple target r) (λ w.
            if-Triple env (not r.application_signing_paused)
              (λ resumed.
                weaken-Triple env (λ t p. p.0) (λ d t q. subst (λ d. Saved d t) (sym q.1) q.0)
                  (pure-Triple env r))
              (λ paused. resume_signing-Triple target r active accepted))))
