-- ===== src/Trust/Store.antt =====
-- `InMemoryTrustedC2spCheckpointStore`. Each method runs to its end without a pause, so the signal is the
-- same wherever it looks at it.
use dnsid_ts.Common.{
  Bool, true, false, Option, none, some, String, str_eq, Bytes, Result, ok, ◌>>◌, throw_if,
  if◌then◌else◌,
}
use dnsid_ts.Trust.{
  TrustedCheckpoint, TrustError, aborted_signal, validate_origin, validate_checkpoint,
  same_checkpoint,
}

-- `Map<string, TrustedC2spCheckpoint>`
abbrev pub Checkpoints : Type 0
Checkpoints = String → Option TrustedCheckpoint

unfoldable pub set : String → TrustedCheckpoint → Checkpoints → Checkpoints
set origin value checkpoints =
    λ other. if str_eq other origin then some value else checkpoints other

unfoldable pub load : Bool → String → Checkpoints → Result TrustError (Option TrustedCheckpoint)
load aborted origin checkpoints = do
  throw_if aborted aborted_signal
  validate_origin origin
  ok (checkpoints origin)

module _ (digest : Bytes → Bytes) where
  abbrev pub validate_expected : Option TrustedCheckpoint → String → Result TrustError (Unit {0})
  validate_expected none origin = ok tt
  validate_expected (some expected) origin = validate_checkpoint digest expected origin

  unfoldable pub compare_and_swap :
      Bool
      → String
      → Option TrustedCheckpoint
      → TrustedCheckpoint
      → Checkpoints
      → Result TrustError (Bool × Checkpoints)
  compare_and_swap aborted origin expected candidate checkpoints = do
    throw_if aborted aborted_signal
    validate_origin origin
    validate_expected expected origin
    validate_checkpoint digest candidate origin
    ok (
        if same_checkpoint (checkpoints origin) expected
        then (true, set origin candidate checkpoints)
        else (false, checkpoints))
