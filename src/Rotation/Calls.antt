-- ===== src/Rotation/Calls.antt =====
-- The state of a managed rotation, the calls that it makes of its environment, and programs of such calls:
-- the interfaces of packages/sdk/src/managed-key-rotation.ts.
use dnsid_ts.Common.{
  ℕ, Bool, true, false, Option, none, some, String, List, ◌∷◌, Result, ok, err, Bytes, throw_if,
}
use dnsid_ts.Lifecycle.Keys.{Key}
use dnsid_ts.Lifecycle.Events.{LogEvent}

pub data SubmissionState : Type 0 where
  pending accepted rejected : SubmissionState

-- `SubmissionResult`, as far as a rotation reads it.
pub record Submission : Type 0 where
  pub state : SubmissionState
  pub entry_hash : Option String
  pub index : Option ℕ
  pub log_ref : Option String
  pub key_id : Option String

-- `ManagedKeyRotationResult`.
pub record Rotation : Type 0 where
  pub domain : String
  pub log_reference : String
  pub previous_kid : String
  pub new_kid : String
  pub previous_provider_reference : String
  pub new_provider_reference : String
  pub previous_key : Key
  pub previous_thumbprint : String
  pub new_thumbprint : String
  pub entry_hash : String
  pub entry_bytes : Bytes
  pub idempotency_key : String
  pub submission : Option Submission
  pub activated : Bool
  pub application_signing_paused : Bool

-- `submission_error` and `activation_error` are the two classes of the file, with the rotation to resume;
-- `permanent` is what permanentRotationError makes, `raised` any other error.
pub data RotationError : Type 0 where
  permanent raised argument_error preparation_unavailable : RotationError
  submission_error : (rotation : Rotation) → (retry_with_same_bytes : Bool) → RotationError
  activation_error : (rotation : Rotation) → RotationError

pub record Signature : Type 0 where
  pub kid : String
  pub sig : String

-- The envelope of a prepared event.
pub record Prepared : Type 0 where
  pub event_type : String
  pub fqdn : String
  pub ts : ℕ
  pub prev_thumb : Option String
  pub new_ku : Option Key
  pub new_thumb : Option String
  pub prev_op : Option Signature
  pub new_op : Option Signature

-- What verifyLocalPublication returns.
pub record Publication : Type 0 where
  pub domain : String
  pub lr : String
  pub jwks : List Key

-- What submitPreparedEvent does: return, or throw an error that has a retryWithSameBytes.
pub data SubmitReply : Type 0 where
  returned : (submission : Submission) → SubmitReply
  refused : (retry_with_same_bytes : Bool) → SubmitReply

-- A key provider, by identity.
abbrev pub Provider : Type 0
Provider = ℕ

pub data Call : Type 0 where
  persist_rotation : Rotation → Call
  set_application_signing_paused : (paused : Bool) → Call
  set_application_signer : Provider → (kid : String) → Call
  verify_local_publication : Call
  read_event : (log_ref : String) → Call
  submit_prepared_event :
      (domain : String) → (entry_bytes : Bytes) → (idempotency_key : String) → Call
  prepare_key_rotation :
      (domain : String)
      → (previous_key_id : String) → (public_key : Key) → (idempotency_key : String) → Call
  resolve_key_provider : (reference : String) → Call
  signing_key active_signing_key list_key_ids : Provider → Call
  jwk activate supersede : Provider → (kid : String) → Call
  validate_key_generation generate_key : Provider → (algorithm : String) → Call
  sign_previous_operational sign_new_operational : Prepared → Provider → Call

-- What a call returns where it does not throw.
abbrev pub Reply : Call → Type 0
Reply (persist_rotation r) = Unit
Reply (set_application_signing_paused b) = Unit
Reply (set_application_signer p kid) = Unit
Reply verify_local_publication = Publication
Reply (read_event ref) = LogEvent
Reply (submit_prepared_event domain bytes key) = SubmitReply
Reply (prepare_key_rotation domain previous key idempotency) = Bytes
Reply (resolve_key_provider ref) = Provider
Reply (signing_key p) = Key
Reply (active_signing_key p) = Option Key
Reply (list_key_ids p) = List String
Reply (jwk p kid) = Key
Reply (activate p kid) = Unit
Reply (supersede p kid) = Unit
Reply (validate_key_generation p algorithm) = Unit
Reply (generate_key p algorithm) = String
Reply (sign_previous_operational prepared p) = Prepared
Reply (sign_new_operational prepared p) = Prepared

-- A call that was made, and its reply; `none` where it threw.
pub record Entry : Type 0 where
  pub call : Call
  pub reply : Option (Reply call)

-- The calls so far, the latest first.
abbrev pub Trace : Type 0
Trace = List Entry

-- The environment: what each call does may depend on all calls before it. The other fields are functions
-- of their arguments: jose's thumbprint, the hex text of a SHA-256 digest, `normalizeFQDN`,
-- `parsePreparedC2spTlogEvent`, `c2spTlogEntryBytes`, and which optional methods a provider has.
pub record Environment : Type 0 where
  pub respond : (c : Call) → Trace → Option (Reply c)
  pub jwk_thumbprint : Key → Option String
  pub sha256_hex : Bytes → String
  pub normalize_fqdn : String → Option String
  pub parse_prepared : Bytes → (log_reference : String) → (fqdn : String) → Key → Option Prepared
  pub c2sp_tlog_entry_bytes : Prepared → Option Bytes
  pub has_active_signing_key : Provider → Bool
  pub has_validate_key_generation : Provider → Bool

-- A program that makes calls, and may throw.
abbrev pub Program : Type 0 → Type 0
Program A = Trace → Result RotationError A × Trace

unfoldable pub pure : {A : Type 0} → A → Program A
pure a t = (ok a, t)

unfoldable pub throw : {A : Type 0} → RotationError → Program A
throw e t = (err e, t)

abbrev pub resume_with :
    {A B : Type 0}
    → Result RotationError A
    → Trace
    → (A → Program B)
    → Result RotationError B × Trace
resume_with (err e) t f = (err e, t)
resume_with (ok a) t f = f a t

infixl 5 ◌>>=◌ ◌>>◌
-- Sequence: an error ends the program.
unfoldable pub ◌>>=◌ : {A B : Type 0} → Program A → (A → Program B) → Program B
◌>>=◌ m f t = let (r, t') = m t in resume_with r t' f

abbrev pub ◌>>◌ : {B : Type 0} → Program (Unit {0}) → Program B → Program B
m >> n = m >>= (λ _. n)

-- A value that may be an error, as a program.
unfoldable pub lift : {A : Type 0} → Result RotationError A → Program A
lift r t = (r, t)

abbrev pub require : {A : Type 0} → RotationError → Option A → Result RotationError A
require e none = err e
require e (some a) = ok a

abbrev pub handle_with :
    {A : Type 0} → (RotationError → RotationError) → Result RotationError A → Result RotationError A
handle_with f (err e) = err (f e)
handle_with f (ok a) = ok a

-- `try { … } catch (cause) { throw … }`
unfoldable pub catching : {A : Type 0} → (RotationError → RotationError) → Program A → Program A
catching f m t = let (r, t') = m t in (handle_with f r, t')

unfoldable pub when : Bool → Program (Unit {0}) → Program (Unit {0})
when false m = pure tt
when true m = m

-- `if (bad) throw e`
abbrev pub throw_when : Bool → RotationError → Program (Unit {0})
throw_when bad e = lift (throw_if bad e)

module _ (env : Environment) where
  -- A call, with what it did as a value.
  unfoldable pub attempt : (c : Call) → Program (Option (Reply c))
  attempt c t = let done = env.respond c t in (ok done, record { call = c; reply = done } ∷ t)

  -- A call whose error is not caught here.
  unfoldable pub perform : (c : Call) → Program (Reply c)
  perform c = attempt c >>= λ done. lift (require raised done)
