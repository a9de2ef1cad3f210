-- ===== src/Rotation/Errors.antt =====
-- The errors of a recovery carry the rotation to resume.
use dnsid_ts.Common.{
  Bool, true, false, Option, none, some, Result, ok, err, ◌≡◌, refl, throw_if, if◌then◌else◌,
}
use dnsid_ts.Rotation.Calls.{
  Call, submit_prepared_event, SubmitReply, returned, refused, Submission, Rotation, RotationError,
  submission_error, activation_error, Trace, Provider, Environment, Program, pure, resume_with,
  ◌>>=◌, lift, handle_with, catching, attempt,
}
use dnsid_ts.Rotation.Checks.{is_accepted, is_rejected}
use dnsid_ts.Rotation.Steps.{
  submission_of, save_activation, complete_activation, activate_rotation, resume_signing,
  submit_bytes, save_submission, submit_managed_rotation,
}

-- The parts of a rotation that its event fixes.
pub record SameEvent (r s : Rotation) : Type 0 where
  pub domain : r.domain ≡ s.domain
  pub log_reference : r.log_reference ≡ s.log_reference
  pub new_kid : r.new_kid ≡ s.new_kid
  pub entry_bytes : r.entry_bytes ≡ s.entry_bytes
  pub entry_hash : r.entry_hash ≡ s.entry_hash
  pub idempotency_key : r.idempotency_key ≡ s.idempotency_key

-- An error of the file's own classes, whose rotation is one of the same event.
abbrev pub Carries : Rotation → RotationError → Type 0
Carries r (submission_error s retry) = SameEvent r s
Carries r (activation_error s) = SameEvent r s
Carries r _ = ⊥

abbrev pub Outcome :
    {A : Type 0} → (A → Type 0) → (RotationError → Type 0) → Result RotationError A → Type 0
Outcome V E (err e) = E e
Outcome V E (ok a) = V a

-- Whatever the trace, a value that the program returns is in V, and an error that it throws in E.
pub record Ends {A : Type 0} (V : A → Type 0) (E : RotationError → Type 0) (m : Program A)
    : Type 0 where
  pub ends : (t : Trace) → Outcome V E (m t).0

abbrev Anything : {A : Type 0} → A → Type 0
Anything a = Unit

module _ {A : Type 0} where
  any_result : (r : Result RotationError A) → Outcome Anything Anything r
  any_result (err e) = tt
  any_result (ok a) = tt

  any : (m : Program A) → Ends Anything Anything m
  any m = record { ends = λ t. any_result (m t).0 }

  handled :
      (V : A → Type 0) (E F : RotationError → Type 0) (f : RotationError → RotationError)
      (r : Result RotationError A)
      → ((e : RotationError) → E e → F (f e))
      → Outcome V E r
      → Outcome V F (handle_with f r)
  handled V E F f (err e) g h = g e h
  handled V E F f (ok a) g h = h

  catching-Ends :
      {V : A → Type 0} {E F : RotationError → Type 0} {m : Program A}
      (f : RotationError → RotationError)
      → ((e : RotationError) → E e → F (f e))
      → Ends V E m
      → Ends V F (catching f m)
  unfolding catching
  catching-Ends {V} {E} {F} {m} f g body = record {
    ends = λ t. handled V E F f (m t).0 g (body.ends t);
  }

  lift-Ends :
      {V : A → Type 0} {E : RotationError → Type 0} (r : Result RotationError A)
      → Outcome V E r
      → Ends V E (lift r)
  unfolding lift
  lift-Ends r h = record { ends = λ t. h }

  pure-Ends : {V : A → Type 0} {E : RotationError → Type 0} (a : A) → V a → Ends V E (pure a)
  unfolding pure
  pure-Ends a v = record { ends = λ t. v }

  if-Ends :
      {V : A → Type 0} {E : RotationError → Type 0} {m n : Program A} (b : Bool)
      → Ends V E m
      → Ends V E n
      → Ends V E (if b then m else n)
  if-Ends true taken other = taken
  if-Ends false taken other = other

module _ {A B : Type 0} where
  bound :
      (V : A → Type 0) (W : B → Type 0) (E : RotationError → Type 0) (r : Result RotationError A)
      (t : Trace) (f : A → Program B)
      → Outcome V E r
      → ((a : A) → V a → Ends W E (f a))
      → Outcome W E (resume_with r t f).0
  bound V W E (err e) t f h k = h
  bound V W E (ok a) t f h k = (k a h).ends t

  bind-Ends :
      {V : A → Type 0} {W : B → Type 0} {E : RotationError → Type 0} {m : Program A}
      {f : A → Program B}
      → Ends V E m
      → ((a : A) → V a → Ends W E (f a))
      → Ends W E (m >>= f)
  unfolding ◌>>=◌
  bind-Ends {V} {W} {E} {m} {f} first then_do = record {
    ends = λ t. bound V W E (m t).0 (m t).1 f (first.ends t) then_do;
  }

module _ (env : Environment) (r : Rotation) where
  resume_signing-Ends :
      (s : Rotation) → SameEvent r s → Ends (SameEvent r) Anything (resume_signing env s)
  unfolding resume_signing
  resume_signing-Ends s same = bind-Ends (any _) (λ u _. bind-Ends (any _) (λ w _.
      pure-Ends _ (record {
        domain = same.domain;
        log_reference = same.log_reference;
        new_kid = same.new_kid;
        entry_bytes = same.entry_bytes;
        entry_hash = same.entry_hash;
        idempotency_key = same.idempotency_key;
      })))

  save_activation-Ends :
      (previous target : Provider) (s : Rotation)
      → SameEvent r s
      → Ends (SameEvent r) Anything (save_activation env previous target s)
  unfolding save_activation
  save_activation-Ends previous target s same = bind-Ends (any _) (λ u _. bind-Ends (any _) (λ w _.
      bind-Ends (any _) (λ x _. bind-Ends (any _) (λ y _. pure-Ends _ (record {
        domain = same.domain;
        log_reference = same.log_reference;
        new_kid = same.new_kid;
        entry_bytes = same.entry_bytes;
        entry_hash = same.entry_hash;
        idempotency_key = same.idempotency_key;
      })))))

  activate_rotation-Ends :
      (previous target : Provider) (s : Rotation)
      → SameEvent r s
      → Ends (SameEvent r) (Carries r) (activate_rotation env previous target s)
  unfolding activate_rotation complete_activation
  activate_rotation-Ends previous target s same =
      bind-Ends (catching-Ends _ (λ e _. same) (save_activation-Ends previous target s same))
        (λ a same_a.
          catching-Ends _ (λ e _. same_a) (bind-Ends (any _) (λ u _. resume_signing-Ends a same_a)))

  submission_of-Outcome :
      (reply : Option SubmitReply)
      → SameEvent r r
      → Outcome Anything (Carries r) (submission_of env r reply)
  submission_of-Outcome none same = same
  submission_of-Outcome (some (refused retry)) same = same
  submission_of-Outcome (some (returned s)) same = tt

  rejected-Outcome :
      (b : Bool) (next : Rotation)
      → SameEvent r next
      → Outcome Anything (Carries r) (throw_if b (submission_error next false))
  rejected-Outcome true next same = same
  rejected-Outcome false next same = tt

  attempt-Ends : {E : RotationError → Type 0} (c : Call) → Ends Anything E (attempt env c)
  unfolding attempt
  attempt-Ends c = record { ends = λ t. tt }

  itself : SameEvent r r
  itself = record {
    domain = refl;
    log_reference = refl;
    new_kid = refl;
    entry_bytes = refl;
    entry_hash = refl;
    idempotency_key = refl;
  }

  submit_bytes-Ends : Ends Anything (Carries r) (submit_bytes env r)
  unfolding submit_bytes
  submit_bytes-Ends =
      bind-Ends (attempt-Ends (submit_prepared_event r.domain r.entry_bytes r.idempotency_key))
        (λ reply _. lift-Ends (submission_of env r reply) (submission_of-Outcome reply itself))

  abbrev with_submission : Submission → Rotation
  with_submission s = record r { submission = some s }

  same_with_submission : (s : Submission) → SameEvent r (with_submission s)
  same_with_submission s = record {
    domain = refl;
    log_reference = refl;
    new_kid = refl;
    entry_bytes = refl;
    entry_hash = refl;
    idempotency_key = refl;
  }

  save_submission-Ends : (s : Submission) → Ends (SameEvent r) (Carries r) (save_submission env r s)
  unfolding save_submission
  save_submission-Ends s =
      catching-Ends {E = Anything} _ (λ e _. same_with_submission s)
        (bind-Ends (any _) (λ u _. bind-Ends (any _) (λ w _. pure-Ends _ (same_with_submission s))))

  submit_managed_rotation-Ends :
      (previous target : Provider)
      → Ends (SameEvent r) (Carries r) (submit_managed_rotation env previous target r)
  unfolding submit_managed_rotation
  submit_managed_rotation-Ends previous target = bind-Ends submit_bytes-Ends (λ s _.
      bind-Ends (save_submission-Ends s) (λ next same.
        bind-Ends (lift-Ends _ (rejected-Outcome (is_rejected s.state) next same)) (λ u _.
          if-Ends (is_accepted s.state) (activate_rotation-Ends previous target next same)
            (pure-Ends next same))))

  -- Whatever the environment answers, submitManagedRotation returns a rotation of the same event, or
  -- throws one of the file's two errors, which carries a rotation of the same event: the domain, log
  -- reference, key, bytes, hash and idempotency key with which it can be resumed.
  pub submit_managed_rotation-Carries :
      (previous target : Provider) (t : Trace)
      → Outcome (SameEvent r) (Carries r) (submit_managed_rotation env previous target r t).0
  submit_managed_rotation-Carries previous target t =
      (submit_managed_rotation-Ends previous target).ends t
