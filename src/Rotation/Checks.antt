-- ===== src/Rotation/Checks.antt =====
-- The assertions of packages/sdk/src/managed-key-rotation.ts that make no call.
use dnsid_ts.Common.{
  ℕ, ◌+◌, ◌*◌, Bool, true, false, not, ◌&&◌, ◌||◌, Option, none, some, String, str_eq, [], ◌∷◌,
  ◌++◌, Result, ok, err, ◌>>=◌, ◌>>◌, throw_if, ltb, leb, ◌==◌, if◌then◌else◌, Bytes, bytes_eq,
  codes, is_safe_integer,
}
use dnsid_ts.Lifecycle.Keys.{Key, opt_eq}
use dnsid_ts.Lifecycle.Events.{Body, key_rotation, LogEvent}
use dnsid_ts.Notes.{decimal}
use dnsid_ts.Trust.{is_space, all_space}
use dnsid_ts.Jwks.{InvalidJwks, validate_operational}
use dnsid_ts.Rotation.Calls.{
  SubmissionState, accepted, rejected, Submission, Rotation, RotationError, permanent, raised,
  Signature, Prepared, Environment, require,
}

abbrev pub is_accepted : SubmissionState → Bool
is_accepted accepted = true
is_accepted _ = false

abbrev pub is_rejected : SubmissionState → Bool
is_rejected rejected = true
is_rejected _ = false

-- `rotation.submission?.state === 'accepted'`
abbrev pub has_accepted : Option Submission → Bool
has_accepted none = false
has_accepted (some s) = is_accepted s.state

abbrev pub has_rejected : Option Submission → Bool
has_rejected none = false
has_rejected (some s) = is_rejected s.state

-- `previous?.entryHash && next.entryHash && previous.entryHash !== next.entryHash`
abbrev differ_if_given : Option String → Option String → Bool
differ_if_given (some a) (some b) = not (str_eq a "") && (not (str_eq b "") && not (str_eq a b))
differ_if_given _ _ = false

abbrev entry_hash_of : Option Submission → Option String
entry_hash_of none = none
entry_hash_of (some s) = s.entry_hash

-- `value !== undefined && value !== expected`
abbrev given_and_other : Option String → String → Bool
given_and_other none expected = false
given_and_other (some value) expected = not (str_eq value expected)

-- The log reference of an entry, where its index is a safe integer.
abbrev pub is_indexed_reference : Option String → String → Option ℕ → Bool
is_indexed_reference (some log_ref) log_reference (some index) =
    is_safe_integer index && bytes_eq (codes log_ref) (codes log_reference ++ 64 ∷ decimal index)
is_indexed_reference _ log_reference _ = false

-- The errors of jwks.ts are not caught as such.
abbrev from_jwks : {A : Type 0} → Result InvalidJwks A → Result RotationError A
from_jwks (err e) = err raised
from_jwks (ok a) = ok a

-- `text.trim()` is not empty.
abbrev is_nonblank : String → Bool
is_nonblank s = not (all_space (codes s))

abbrev ends_in_space : Bytes → Bool
ends_in_space [] = false
ends_in_space (c ∷ []) = is_space c
ends_in_space (_ ∷ cs) = ends_in_space cs

abbrev starts_with_space : Bytes → Bool
starts_with_space [] = false
starts_with_space (c ∷ cs) = is_space c

-- `length` of a text counts UTF-16 units.
abbrev pub utf16_length : Bytes → ℕ
utf16_length [] = 0
utf16_length (c ∷ cs) = (if leb 65536 c then 2 else 1) + utf16_length cs

unfoldable pub assert_operation_references :
    String → String → String → Result RotationError (Unit {0})
assert_operation_references previous next idempotency_key =
    let key = codes idempotency_key in
    throw_if
      (not (is_nonblank previous)
        || (not (is_nonblank next)
            || (str_eq idempotency_key ""
                || ((starts_with_space key || ends_in_space key) || ltb 200 (utf16_length key)))))
      permanent

-- The envelope of a prepared event against the rotation.
abbrev pub is_prepared_for : Prepared → String → String → Bool
is_prepared_for prepared domain previous_thumbprint =
    str_eq prepared.event_type "KEY_ROTATION"
    && (str_eq prepared.fqdn domain && opt_eq prepared.prev_thumb (some previous_thumbprint))

module _ (env : Environment) where
  abbrev pub thumbprint : Key → Result RotationError String
  thumbprint key = require raised (env.jwk_thumbprint key)

  unfoldable pub assert_key_binding : Key → String → String → Result RotationError (Unit {0})
  assert_key_binding key kid thumb = do
    from_jwks (validate_operational (key ∷ []))
    throw_if (not (str_eq key.kid kid)) permanent
    actual ← thumbprint key
    throw_if (not (str_eq actual thumb)) permanent

  unfoldable pub assert_operational : Key → Result RotationError (Unit {0})
  assert_operational key = from_jwks (validate_operational (key ∷ []))

  unfoldable pub assert_accepted : Rotation → Submission → Result RotationError (Unit {0})
  assert_accepted rotation submission = do
    throw_if (not (opt_eq submission.entry_hash (some (env.sha256_hex rotation.entry_bytes))))
        permanent
    throw_if (not (is_indexed_reference submission.log_ref rotation.log_reference submission.index))
        permanent
    throw_if (not (opt_eq submission.key_id (some rotation.new_kid))) permanent

  unfoldable pub assert_submission_matches_rotation :
      Rotation → Submission → Result RotationError (Unit {0})
  assert_submission_matches_rotation rotation submission = do
    throw_if (differ_if_given (entry_hash_of rotation.submission) submission.entry_hash) permanent
    throw_if (given_and_other submission.entry_hash rotation.entry_hash) permanent
    if not (is_accepted submission.state) then ok tt else assert_accepted rotation submission

  unfoldable pub assert_prepared_rotation_key :
      Option Key → Option String → Key → Result RotationError (Unit {0})
  assert_prepared_rotation_key value thumb expected = do
    actual ← require permanent value
    actual_thumb ← thumbprint actual
    expected_thumb ← thumbprint expected
    throw_if
        (not (str_eq actual.kid expected.kid)
          || (not (opt_eq actual.alg expected.alg) || not (str_eq actual_thumb expected_thumb)))
        permanent
    throw_if (not (opt_eq thumb (some expected_thumb))) permanent

abbrev has_sig : Option Signature → Option String → Bool
has_sig none sig = false
has_sig (some s) sig = opt_eq sig (some s.sig)

abbrev has_kid : Option Signature → Option String → Bool
has_kid none kid = false
has_kid (some s) kid = opt_eq kid (some s.kid)

abbrev is_time : Option ℕ → ℕ → Bool
is_time none ms = false
is_time (some t) ms = t == ms

abbrev rotates : Rotation → Body → Bool
rotates rotation (key_rotation e) =
    str_eq e.previous_operational_thumbprint rotation.previous_thumbprint
    && (str_eq e.new_operational_kid rotation.new_kid
        && str_eq e.new_operational_thumbprint rotation.new_thumbprint)
rotates rotation _ = false

-- The logged event continues the saved, signed one.
unfoldable pub is_continuous : LogEvent → Rotation → Prepared → Bool
is_continuous event rotation prepared =
    rotates rotation event.body
    && (str_eq event.domain rotation.domain
        && (has_kid prepared.prev_op event.signing_kid
            && (has_sig prepared.prev_op event.sig
                && (has_sig prepared.new_op event.new_operational_proof
                    && is_time event.timestamp (prepared.ts * 1000)))))
