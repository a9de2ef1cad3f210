-- ===== src/Rotation/Submission.antt =====
-- Submitting a rotation makes only calls that are permitted, whatever the environment answers.
use mathlib.Core.Path.{subst}
use dnsid_ts.Common.{true, Option, none, some, String, eq_iff, ok, ◌≡◌, refl, sym, ap, arith}
use dnsid_ts.Lifecycle.Keys.{opt_eq}
use dnsid_ts.Rotation.Calls.{
  persist_rotation, submit_prepared_event, Submission, Rotation, Provider, Environment, Program,
}
use dnsid_ts.Rotation.Checks.{
  is_accepted, has_accepted, assert_accepted, assert_submission_matches_rotation,
}
use dnsid_ts.Rotation.Steps.{submit_bytes, save_submission, submit_managed_rotation}
use dnsid_ts.Rotation.Resume.{assert_saved_submission}
use dnsid_ts.Rotation.Safety.{
  Saved, IsAccepted, Triple, bind-Triple, lift-Triple, pure-Triple, catching-Triple, if-Triple,
  weaken-Triple, quiet-Triple, attempt-Triple,
}
use dnsid_ts.Rotation.Quiet.{fact-Framed, both-Framed, Ready, Ready-Framed, lift_keeps}
use dnsid_ts.Rotation.Activation.{activate_rotation-Triple}

opt_eq-some : (o : Option String) (t : String) → opt_eq o (some t) ≡ true → o ≡ some t
opt_eq-some none t h = cc
opt_eq-some (some s) t h = ap some ((eq_iff s t).0 h)

module _ (env : Environment) where
  assert_submission_matches_rotation_sound :
      (r : Rotation) (s : Submission) {u : Unit {0}}
      → assert_submission_matches_rotation env r s ≡ ok u
      → is_accepted s.state ≡ true
      → (s.entry_hash ≡ some (env.sha256_hex r.entry_bytes)) × (s.key_id ≡ some r.new_kid)
  unfolding assert_submission_matches_rotation assert_accepted
  assert_submission_matches_rotation_sound r s h accepted =
      (opt_eq-some s.entry_hash _ (ground arith), opt_eq-some s.key_id _ (ground arith))

  pub saved-IsAccepted :
      (r : Rotation) {u : Unit {0}}
      → has_accepted r.submission ≡ true
      → assert_saved_submission env r r.submission ≡ ok u
      → IsAccepted env r
  saved-IsAccepted r {u} accepted h = by_submission r.submission refl accepted h
    where
      by_submission :
          (o : Option Submission)
          → r.submission ≡ o
          → has_accepted o ≡ true
          → assert_saved_submission env r o ≡ ok u
          → IsAccepted env r
      by_submission none given accepted h = cc
      by_submission (some s) given accepted h =
          let (hash, key) = assert_submission_matches_rotation_sound r s h accepted in
          record { submission = s; given = given; state = accepted; hash = hash; key = key }

  submit_bytes-Triple :
      (r : Rotation) → Triple env (Ready r) (submit_bytes env r) (λ s t. Ready r t)
  unfolding submit_bytes
  submit_bytes-Triple r =
      bind-Triple env
        (attempt-Triple env (submit_prepared_event r.domain r.entry_bytes r.idempotency_key) tt
          (Ready-Framed env r) (λ t p. (r, p.0, p.1, refl, refl, refl)))
        (λ reply. lift_keeps env _)

  abbrev with_submission : Rotation → Submission → Rotation
  with_submission r s = record r { submission = some s }

  save_submission-Triple :
      (r : Rotation) (s : Submission)
      → Triple env (Ready r) (save_submission env r s) (λ next t.
        Ready next t
        × (next ≡ with_submission r s)
        × (is_accepted s.state ≡ true → IsAccepted env next))
  unfolding save_submission
  save_submission-Triple r s =
      let next = with_submission r s in
      catching-Triple env _ (
        bind-Triple env (lift-Triple env (assert_submission_matches_rotation env r s)) (λ u.
          bind-Triple env
            (quiet-Triple env (persist_rotation next) tt
              (both-Framed env (Ready-Framed env r) (fact-Framed env _)) (λ t p. tt))
            (λ w.
              weaken-Triple env
                {R = λ n t.
                  Ready n t × (n ≡ next) × (is_accepted s.state ≡ true → IsAccepted env n)}
                (λ t p. p)
                (λ n t q.
                  subst
                    (λ d. Ready d t × (d ≡ next) × (is_accepted s.state ≡ true → IsAccepted env d))
                    (sym q.1)
                    (
                      (q.0.1, q.0.0.0.1),
                      refl,
                      λ accepted.
                          let (hash, key) =
                            assert_submission_matches_rotation_sound r s q.0.0.1 accepted in
                          record {
                            submission = s;
                            given = refl;
                            state = accepted;
                            hash = hash;
                            key = key;
                          },
                    ))
                (pure-Triple env next))))

  pub submit_managed_rotation-Triple :
      (previous target : Provider) (r : Rotation)
      → Triple env
          (Ready r)
          (submit_managed_rotation env previous target r)
          (λ done t. Saved done t)
  unfolding submit_managed_rotation
  submit_managed_rotation-Triple previous target r = bind-Triple env (submit_bytes-Triple r) (λ s.
      bind-Triple env (save_submission-Triple r s) (λ next. bind-Triple env (lift_keeps env _) (λ u.
        if-Triple env (is_accepted s.state)
          (λ accepted.
            with_facts next s accepted (activate_rotation-Triple env previous target next))
          (λ open_still.
            weaken-Triple env (λ t p. p.0.0) (λ d t q. subst (λ e. Saved e t) (sym q.1) q.0)
              (pure-Triple env next)))))
    where
      with_facts :
          {m : Program Rotation} (next : Rotation) (s : Submission)
          → is_accepted s.state ≡ true
          → (IsAccepted env next → Triple env (Ready next) m (λ done t. Saved done t))
          → Triple env
              (λ t.
                Ready next t
                × (next ≡ with_submission r s)
                × (is_accepted s.state ≡ true → IsAccepted env next))
              m
              (λ done t. Saved done t)
      with_facts next s accepted each = record {
        run = λ t safe p. (each (p.2 accepted)).run t safe p.0;
      }
