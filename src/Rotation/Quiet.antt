-- ===== src/Rotation/Quiet.antt =====
-- What holds of a trace through calls that neither pause nor resume application signing.
use dnsid_ts.Common.{
  Bool, true, none, some, String, List, [], ◌∷◌, Result, ◌≡◌, inr, refl, ◌∙◌, throw_if,
}
use dnsid_ts.Rotation.Calls.{
  Call, Reply, persist_rotation, set_application_signing_paused, set_application_signer,
  verify_local_publication, read_event, submit_prepared_event, prepare_key_rotation,
  resolve_key_provider, signing_key, active_signing_key, list_key_ids, jwk, activate, supersede,
  validate_key_generation, generate_key, sign_previous_operational, sign_new_operational, Rotation,
  RotationError, Trace, Provider, Environment, pure, lift, perform,
}
use dnsid_ts.Rotation.Steps.{signing_key_if_listed, active_key, assert_no_source_key, is_some}
use dnsid_ts.Rotation.Safety.{
  Returned, Saved, pause_after, is_done, is_paused, IsQuiet, Permitted, Triple, Framed, bind-Triple,
  lift-Triple, pure-Triple, if-Triple, weaken-Triple, when-Triple, quiet-Triple,
}

pause_after_quiet : (c : Call) (done before : Bool) → IsQuiet c → pause_after c done before ≡ before
pause_after_quiet (set_application_signing_paused b) done before q = absurd q
pause_after_quiet (persist_rotation r) done before q = refl
pause_after_quiet (set_application_signer p kid) done before q = refl
pause_after_quiet verify_local_publication done before q = refl
pause_after_quiet (read_event ref) done before q = refl
pause_after_quiet (submit_prepared_event d b k) done before q = refl
pause_after_quiet (prepare_key_rotation d p k i) done before q = refl
pause_after_quiet (resolve_key_provider ref) done before q = refl
pause_after_quiet (signing_key p) done before q = refl
pause_after_quiet (active_signing_key p) done before q = refl
pause_after_quiet (list_key_ids p) done before q = refl
pause_after_quiet (jwk p kid) done before q = refl
pause_after_quiet (activate p kid) done before q = refl
pause_after_quiet (supersede p kid) done before q = refl
pause_after_quiet (validate_key_generation p a) done before q = refl
pause_after_quiet (generate_key p a) done before q = refl
pause_after_quiet (sign_previous_operational d p) done before q = refl
pause_after_quiet (sign_new_operational d p) done before q = refl

-- The rotation is saved, and application signing is paused.
abbrev pub Ready : Rotation → Trace → Type 0
Ready r t = Saved r t × (is_paused t ≡ true)

module _ (env : Environment) where
  pub paused-Framed : Framed env (λ t. is_paused t ≡ true)
  paused-Framed e t quiet paused =
      pause_after_quiet e.call (is_done e.reply) (is_paused t) quiet ∙ paused

  pub Returned-Framed : (c : Call) (a : Reply c) → Framed env (Returned c a)
  Returned-Framed c a e t quiet h = inr h

  pub fact-Framed : (X : Type 0) → Framed env (λ t. X)
  fact-Framed X e t quiet x = x

  pub both-Framed :
      {P Q : Trace → Type 0} → Framed env P → Framed env Q → Framed env (λ t. P t × Q t)
  both-Framed f g e t quiet (p, q) = (f e t quiet p, g e t quiet q)

  pub Ready-Framed : (r : Rotation) → Framed env (Ready r)
  Ready-Framed r = both-Framed (Returned-Framed (persist_rotation r) tt) paused-Framed

  module _ {P : Trace → Type 0} where
    pub lift_keeps : {A : Type 0} (r : Result RotationError A) → Triple env P (lift r) (λ a t. P t)
    lift_keeps r = weaken-Triple env (λ t p. p) (λ a t q. q.0) (lift-Triple env r)

    pub pure_keeps : {A : Type 0} (a : A) → Triple env P (pure a) (λ b t. P t)
    pure_keeps a = weaken-Triple env (λ t p. p) (λ b t q. q.0) (pure-Triple env a)

    pub call_keeps :
        (c : Call)
        → IsQuiet c
        → Framed env P
        → ((t : Trace) → P t → Permitted env c t)
        → Triple env P (perform env c) (λ a t. P t)
    call_keeps c quiet framed allowed =
        weaken-Triple env (λ t p. p) (λ a t q. q.0) (quiet-Triple env c quiet framed allowed)

    signing_key_if_listed_keeps :
        (p : Provider) (ids : List String)
        → Framed env P
        → Triple env P (signing_key_if_listed env p ids) (λ a t. P t)
    signing_key_if_listed_keeps p [] framed = pure_keeps none
    signing_key_if_listed_keeps p (id ∷ ids) framed =
        bind-Triple env (call_keeps (signing_key p) tt framed (λ t q. tt))
          (λ key. pure_keeps (some key))

    pub active_key_keeps :
        (p : Provider) (ids : List String)
        → Framed env P
        → Triple env P (active_key env p ids) (λ a t. P t)
    unfolding active_key
    active_key_keeps p ids framed =
        if-Triple env (env.has_active_signing_key p)
          (λ yes_it_has. call_keeps (active_signing_key p) tt framed (λ t q. tt))
          (λ it_has_not. signing_key_if_listed_keeps p ids framed)

    pub assert_no_source_key_keeps :
        (previous target : Provider)
        → Framed env P
        → Triple env P (assert_no_source_key env previous target) (λ a t. P t)
    unfolding assert_no_source_key
    assert_no_source_key_keeps previous target framed = when-Triple env _ (λ differ.
        bind-Triple env (call_keeps (list_key_ids previous) tt framed (λ t q. tt)) (λ ids.
          bind-Triple env (active_key_keeps previous ids framed)
            (λ key. lift_keeps (throw_if (is_some key) _))))
