-- ===== src/Lifecycle/Tests.antt =====
-- Histories of one identity. The thumbprint of a key is the text of its `x`, under a hash that a test can
-- follow.
use dnsid_ts.Common.{
  ℕ, true, none, some, String, List, [], ◌∷◌, ok, err, ◌≡◌, ◌≢◌, refl, ◌⊎◌, arith,
}
use dnsid_ts.Lifecycle.Keys.{
  Key, key_continuity, snapshot_non_prefix, terminal_state, genesis_required, complete_material,
  thumbprint_material, synchronous_jwk_thumbprint, same_jwk_material,
}
use dnsid_ts.Lifecycle.Events.{Body, issuance, key_rotation, revocation, retirement, LogEvent}
use dnsid_ts.Lifecycle.Snapshot.{
  unissued, revoked, Snapshot, snapshot_at, fold_events, step, apply_event, apply_body,
  apply_issuance, apply_rotation, is_revocation_reason,
}
use dnsid_ts.Lifecycle.Grammar.{History}
use dnsid_ts.Lifecycle.History.{snapshot_at-History}
use dnsid_ts.Lifecycle.Prefix.{IsPrefix, snapshot_at-IsPrefix, snapshot_at_terminal}

hash : List (String × String) → String
hash [] = ""
hash ((name, value) ∷ []) = value
hash (_ ∷ rest) = hash rest

runs : Unit {0}
unfolding hash complete_material thumbprint_material synchronous_jwk_thumbprint same_jwk_material
    snapshot_at fold_events step apply_event apply_body apply_issuance apply_rotation
    is_revocation_reason
runs = tt

abbrev okp : String → Key
okp x = record {
  kty = "OKP";
  kid = x;
  alg = some "EdDSA";
  key_use = none;
  crv = some "Ed25519";
  x = some x;
  y = none;
  n = none;
  e = none;
  k = none;
  d = none;
}

abbrev event : ℕ → Body → LogEvent
event t b = record {
  domain = "a.example";
  timestamp = some t;
  body = b;
  signing_kid = some "entity";
  sig = some "entity";
  operational_countersig = some "first";
  new_operational_proof = some "second";
}

abbrev issued : LogEvent
issued = event 10 (
    issuance (record {
      governance_id = "example";
      entity_key = none;
      operational_key = none;
      initial_entity_kid = some "entity";
      initial_entity_alg = some "EdDSA";
      initial_operational_kid = some "first";
      initial_operational_alg = some "EdDSA";
      initial_entity_public_key = some (okp "entity");
      initial_entity_thumbprint = some "entity";
      initial_operational_public_key = some (okp "first");
      initial_operational_thumbprint = some "first";
      public_key = none;
      thumbprint = none;
    }))

abbrev rotated : LogEvent
rotated = event 20 (
    key_rotation (record {
      previous_operational_kid = "first";
      previous_operational_thumbprint = "first";
      new_operational_kid = "second";
      new_operational_alg = "EdDSA";
      new_operational_thumbprint = "second";
      new_operational_public_key = some (okp "second");
    }))

abbrev ended : LogEvent
ended = event 30 (revocation "keyCompromise")

abbrev late : LogEvent
late = event 40 retirement

abbrev summary : Snapshot
summary = record {
  state = revoked;
  active_key = some (okp "second");
  active_key_thumbprint = "second";
  key_bound_at = 20;
  governance_id = "example";
  events_up_to = issued ∷ rotated ∷ ended ∷ [];
  past_snapshot_boundary = true;
}

whole_history : snapshot_at hash "a.example" (issued ∷ rotated ∷ ended ∷ late ∷ []) 30 ≡ ok summary
unfolding runs
whole_history = refl

errors :
    (snapshot_at hash "a.example" (issued ∷ rotated ∷ rotated ∷ []) 30 ≡ err key_continuity)
    × (snapshot_at hash "a.example" (rotated ∷ []) 30 ≡ err genesis_required)
    × (snapshot_at hash "a.example" (issued ∷ late ∷ rotated ∷ []) 30 ≡ err snapshot_non_prefix)
    × (snapshot_at hash "a.example" (issued ∷ ended ∷ late ∷ []) 50 ≡ err terminal_state)
unfolding runs
errors = (refl, refl, refl, refl)

snapshot_at-History_example :
    History hash (issued ∷ rotated ∷ ended ∷ []) revoked (some (okp "second")) "second"
    × (revoked ≢ unissued)
snapshot_at-History_example =
    snapshot_at-History hash "a.example" (issued ∷ rotated ∷ ended ∷ late ∷ []) 30 whole_history

snapshot_at-IsPrefix_example :
    IsPrefix "a.example" 30 (issued ∷ rotated ∷ ended ∷ late ∷ []) (issued ∷ rotated ∷ ended ∷ [])
snapshot_at-IsPrefix_example =
    snapshot_at-IsPrefix hash "a.example" (issued ∷ rotated ∷ ended ∷ late ∷ []) 30 whole_history

snapshot_at_terminal_example :
    (snapshot_at hash "a.example" (issued ∷ rotated ∷ ended ∷ late ∷ rotated ∷ []) 30
      ≡ err terminal_state)
    ⊎ (snapshot_at hash "a.example" (issued ∷ rotated ∷ ended ∷ late ∷ rotated ∷ []) 30
        ≡ err snapshot_non_prefix)
snapshot_at_terminal_example =
    snapshot_at_terminal hash "a.example" (issued ∷ rotated ∷ ended ∷ late ∷ []) 30 rotated
      whole_history refl (refl, (20, refl, omega arith))
