-- ===== src/Stream/Evidence.antt =====
-- What the verification of a stream reads and throws: the interfaces at the top of
-- packages/log-c2sp-tlog/src/stream-verifier.ts, `c2spEventId` of event-codec.ts, and `stateHash`.
use dnsid_ts.Common.{ℕ, Bool, Option, String, List, ◌∷◌, ◌++◌, Bytes, codes}
use dnsid_ts.Lifecycle.Keys.{Key, LifecycleError}
use dnsid_ts.Lifecycle.Events.{LogEvent}

-- `log_error` is a C2spTlogVerificationError or C2spTlogParseError with its category,
-- `signature_invalid` a VerificationError of that code, and `raised` any other error.
pub data StreamError : Type 0 where
  log_error : (category : LifecycleError) → StreamError
  signature_invalid raised : StreamError

-- The value of a chain field in an envelope, which nothing has checked yet.
pub data Field : Type 0 where
  absent other : Field
  number : (n : ℕ) → Field
  text : (t : String) → Field

-- The members that `parseChainFields` copies to an event.
pub record ChainFields : Type 0 where
  pub seq : Field
  pub prev_event_id : Field
  pub prev_state_hash : Field
  pub event_id : Field
  pub prev_index : Field
  pub prev_leaf_hash : Field

-- `VerifiedLifecycleEvent`, with the chain fields that its event carries.
pub record VerifiedEvent : Type 0 where
  pub index : ℕ
  pub bytes : Bytes
  pub event : LogEvent
  pub chain : ChainFields

-- The object of `issuanceState`, `activeState` and `nextState`.
pub record LifecycleState : Type 0 where
  pub fqdn : String
  pub status : String
  pub entity_thumb : String
  pub operational_thumb : String

pub record MigrationResult : Type 0 where
  pub entity_key : Key
  pub active_operational_key : Key
  pub prior_history : List LogEvent
  pub prior_history_references : Option (List String)

abbrev pub VerifyMigration : Type 0
VerifyMigration = LogEvent → Option MigrationResult

-- `StreamVerifierOptions`. `aborted_at pos` says whether the signal is aborted when the loop comes to
-- `pos`; `verify_migration` returns `none` where the promise that is waited for rejects.
pub record Options : Type 0 where
  pub aborted_at : ℕ → Bool
  pub signer_key : Option Key
  pub checkpoint_integration_time_ms : Option ℕ
  pub lr : Option String
  pub verify_migration : Option VerifyMigration

-- What the verification calls: jose's thumbprint, WebCrypto's verification of a signature, base64url,
-- the digest of node:crypto as base64url text, and the canonical JSON of envelopes and states.
-- A result `none` stands for an exception.
pub record Suite : Type 0 where
  pub jwk_thumbprint : Key → Option String
  pub verify_with_key : Bytes → Bytes → Key → Bool
  pub from_base64_url : String → Option Bytes
  pub digest : Bytes → String
  pub signed_entry_bytes : Bytes → Option Bytes
  pub canonical_state : Option LifecycleState → Bytes

module _ (suite : Suite) where
  abbrev pub c2sp_event_id : Bytes → String
  c2sp_event_id signed_bytes = suite.digest (codes "dnsid-c2sp-event-v1" ++ 0 ∷ signed_bytes)

  abbrev pub state_hash : Option LifecycleState → String
  state_hash state = suite.digest (codes "dnsid-c2sp-state-v1" ++ suite.canonical_state state)
