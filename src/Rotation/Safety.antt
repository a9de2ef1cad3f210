-- ===== src/Rotation/Safety.antt =====
-- Which calls a rotation may make after which others, and a logic for programs that make calls.
use dnsid_ts.Common.{
  ℕ, Bool, true, false, Option, none, some, [], ◌∷◌, Result, ok, err, ◌≡◌, ◌⊎◌, inl, refl,
  if◌then◌else◌,
}
use dnsid_ts.Lifecycle.Keys.{Key}
use dnsid_ts.Rotation.Calls.{
  Call, Reply, persist_rotation, set_application_signing_paused, set_application_signer,
  verify_local_publication, submit_prepared_event, signing_key, activate, supersede, Submission,
  Rotation, RotationError, raised, Publication, Entry, Trace, Environment, Program, pure,
  resume_with, ◌>>=◌, lift, require, handle_with, catching, when, attempt, perform,
}
use dnsid_ts.Rotation.Checks.{is_accepted}

-- A call was made and returned.
abbrev pub Returned : (c : Call) → Reply c → Trace → Type 0
Returned c a [] = ⊥
Returned c a (e ∷ earlier) = (record { call = c; reply = some a } ≡ e) ⊎ Returned c a earlier

abbrev pub Saved : Rotation → Trace → Type 0
Saved r t = Returned (persist_rotation r) tt t

abbrev pub is_done : {A : Type 0} → Option A → Bool
is_done none = false
is_done (some a) = true

abbrev pub pause_after : Call → (done : Bool) → (before : Bool) → Bool
pause_after (set_application_signing_paused true) true before = true
pause_after (set_application_signing_paused false) done before = false
pause_after _ done before = before

-- Whether application signing is paused for sure: a pause returned, and nothing tried to resume since.
abbrev pub is_paused : Trace → Bool
is_paused [] = false
is_paused (e ∷ earlier) = pause_after e.call (is_done e.reply) (is_paused earlier)

-- The calls that neither pause nor resume.
abbrev pub IsQuiet : Call → Type 0
IsQuiet (set_application_signing_paused b) = ⊥
IsQuiet _ = Unit

-- Q, if the program returned.
abbrev pub After : {A : Type 0} → (A → Trace → Type 0) → Result RotationError A → Trace → Type 0
After Q (err e) t = Unit
After Q (ok a) t = Q a t

module _ (env : Environment) where
  -- The rotation holds an accepted submission of its exact bytes and its new key.
  pub record IsAccepted (r : Rotation) : Type 0 where
    pub submission : Submission
    pub given : r.submission ≡ some submission
    pub state : is_accepted submission.state ≡ true
    pub hash : submission.entry_hash ≡ some (env.sha256_hex r.entry_bytes)
    pub key : submission.key_id ≡ some r.new_kid

  -- What must have happened before a call. Application signing resumes only behind a saved, activated and
  -- accepted rotation, with its key set as the application's signer. Only the bytes of a saved rotation
  -- are submitted, under its idempotency key, while signing is paused. A key is activated, and one
  -- superseded, only while signing is paused, behind a saved acceptance, and behind a verified publication
  -- or a reading of the new key as the signing key.
  abbrev pub Permitted : Call → Trace → Type 0
  Permitted (set_application_signing_paused false) t =
      (r : Rotation) × (p : ℕ) × (r.activated ≡ true)
      × IsAccepted r
      × Saved r t
      × Returned (set_application_signer p r.new_kid) tt t
  Permitted (submit_prepared_event domain bytes key) t =
      (r : Rotation) × Saved r t
      × (is_paused t ≡ true)
      × (r.domain ≡ domain)
      × (r.entry_bytes ≡ bytes)
      × (r.idempotency_key ≡ key)
  Permitted (activate p kid) t =
      (r : Rotation) × (v : Publication) × IsAccepted r
      × Saved r t
      × (is_paused t ≡ true)
      × (r.new_kid ≡ kid)
      × Returned verify_local_publication v t
      × (v.domain ≡ r.domain)
  Permitted (supersede p kid) t =
      (r : Rotation) × (q : ℕ) × (k : Key) × IsAccepted r
      × Saved r t
      × (is_paused t ≡ true)
      × (r.previous_kid ≡ kid)
      × Returned (signing_key q) k t
      × (k.kid ≡ r.new_kid)
  Permitted _ t = Unit

  -- Every call of the trace was permitted when it was made.
  abbrev pub Safe : Trace → Type 0
  Safe [] = Unit
  Safe (e ∷ earlier) = Permitted e.call earlier × Safe earlier

  -- From a safe trace of which P holds the program makes a safe one, of which Q holds if it returns.
  pub record Triple {A : Type 0} (P : Trace → Type 0) (m : Program A) (Q : A → Trace → Type 0)
      : Type 0 where
    pub run : (t : Trace) → Safe t → P t → Safe (m t).1 × After Q (m t).0 (m t).1

  -- What a quiet call, and what any call, leaves true.
  abbrev pub Framed : (Trace → Type 0) → Type 0
  Framed P = (e : Entry) (t : Trace) → IsQuiet e.call → P t → P (e ∷ t)

  bind-run :
      {A B : Type 0} (Q : A → Trace → Type 0) (R : B → Trace → Type 0) (r : Result RotationError A)
      (t : Trace) (f : A → Program B)
      → Safe t
      → After Q r t
      → ((a : A) → Triple (Q a) (f a) R)
      → Safe (resume_with r t f).1 × After R (resume_with r t f).0 (resume_with r t f).1
  bind-run Q R (err e) t f safe q k = (safe, tt)
  bind-run Q R (ok a) t f safe q k = (k a).run t safe q

  pub bind-Triple :
      {A B : Type 0} {P : Trace → Type 0} {m : Program A} {f : A → Program B}
      {Q : A → Trace → Type 0} {R : B → Trace → Type 0}
      → Triple P m Q
      → ((a : A) → Triple (Q a) (f a) R)
      → Triple P (m >>= f) R
  unfolding ◌>>=◌
  bind-Triple {m = m} {f = f} {Q = Q} {R = R} first then_do = record {
    run = λ t safe p.
        let (safe', q) = first.run t safe p in bind-run Q R (m t).0 (m t).1 f safe' q then_do;
  }

  lifted :
      {A : Type 0} (P : Trace → Type 0) (r : Result RotationError A) (t : Trace)
      → P t
      → After (λ a u. P u × (r ≡ ok a)) r t
  lifted P (err e) t p = tt
  lifted P (ok a) t p = (p, refl)

  handled :
      {A : Type 0} (Q : A → Trace → Type 0) (f : RotationError → RotationError)
      (r : Result RotationError A) (t : Trace)
      → After Q r t
      → After Q (handle_with f r) t
  handled Q f (err e) t q = tt
  handled Q f (ok a) t q = q

  weakened :
      {A : Type 0} (Q R : A → Trace → Type 0) (r : Result RotationError A) (t : Trace)
      → ((a : A) (t : Trace) → Q a t → R a t)
      → After Q r t
      → After R r t
  weakened Q R (err e) t w q = tt
  weakened Q R (ok a) t w q = w a t q

  replied :
      (P : Trace → Type 0) (c : Call) (reply : Option (Reply c)) (t : Trace)
      → ((a : Reply c) → P (record { call = c; reply = some a } ∷ t))
      → After
          (λ a u. P u × Returned c a u)
          (require raised reply)
          (record { call = c; reply = reply } ∷ t)
  replied P c none t p = tt
  replied P c (some a) t p = (p a, inl refl)

  module _ {A : Type 0} {P : Trace → Type 0} where
    pub lift-Triple : (r : Result RotationError A) → Triple P (lift r) (λ a t. P t × (r ≡ ok a))
    unfolding lift
    lift-Triple r = record { run = λ t safe p. (safe, lifted P r t p) }

    pub pure-Triple : (a : A) → Triple P (pure a) (λ b t. P t × (b ≡ a))
    unfolding pure
    pure-Triple a = record { run = λ t safe p. (safe, (p, refl)) }

    pub catching-Triple :
        {m : Program A} {Q : A → Trace → Type 0} (f : RotationError → RotationError)
        → Triple P m Q
        → Triple P (catching f m) Q
    unfolding catching
    catching-Triple {m} {Q} f body = record {
      run =
          λ t safe p. let (safe', q) = body.run t safe p in (safe', handled Q f (m t).0 (m t).1 q);
    }

    pub if-Triple :
        {m n : Program A} {Q : A → Trace → Type 0} (b : Bool)
        → (b ≡ true → Triple P m Q)
        → (b ≡ false → Triple P n Q)
        → Triple P (if b then m else n) Q
    if-Triple true taken other = taken refl
    if-Triple false taken other = other refl

    pub weaken-Triple :
        {m : Program A} {P' : Trace → Type 0} {Q R : A → Trace → Type 0}
        → ((t : Trace) → P t → P' t)
        → ((a : A) (t : Trace) → Q a t → R a t)
        → Triple P' m Q
        → Triple P m R
    weaken-Triple {m} {Q = Q} {R = R} pre post body = record {
      run = λ t safe p.
          let (safe', q) = body.run t safe (pre t p) in
          (safe', weakened Q R (m t).0 (m t).1 post q);
    }

  module _ {P : Trace → Type 0} where
    pub when-Triple :
        {m : Program (Unit {0})} (b : Bool)
        → (b ≡ true → Triple P m (λ a t. P t))
        → Triple P (when b m) (λ a t. P t)
    unfolding when pure
    when-Triple true body = body refl
    when-Triple false body = record { run = λ t safe p. (safe, p) }

    -- A call that is permitted, and what it leaves.
    pub perform-Triple :
        {P' : Trace → Type 0} (c : Call)
        → ((a : Reply c) (t : Trace) → P' t → P (record { call = c; reply = some a } ∷ t))
        → ((t : Trace) → P' t → Permitted c t)
        → Triple P' (perform env c) (λ a t. P t × Returned c a t)
    unfolding perform attempt ◌>>=◌ lift
    perform-Triple c after allowed = record {
      run = λ t safe p. ((allowed t p, safe), replied P c (env.respond c t) t (λ a. after a t p));
    }

    pub quiet-Triple :
        (c : Call)
        → IsQuiet c
        → Framed P
        → ((t : Trace) → P t → Permitted c t)
        → Triple P (perform env c) (λ a t. P t × Returned c a t)
    quiet-Triple c quiet framed allowed =
        perform-Triple c (λ a t p. framed (record { call = c; reply = some a }) t quiet p) allowed

    pub attempt-Triple :
        (c : Call)
        → IsQuiet c
        → Framed P
        → ((t : Trace) → P t → Permitted c t)
        → Triple P (attempt env c) (λ o t. P t)
    unfolding attempt
    attempt-Triple c quiet framed allowed = record {
      run = λ t safe p.
          ((allowed t p, safe), framed (record { call = c; reply = env.respond c t }) t quiet p);
    }
