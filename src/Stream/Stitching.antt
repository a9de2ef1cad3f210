-- ===== src/Stream/Stitching.antt =====
-- `stitchVerifiedMigrationHistory` of packages/log-c2sp-tlog/src/stream-verifier.ts.
use dnsid_ts.Common.{
  ℕ, Bool, true, false, not, ◌&&◌, ◌||◌, Option, none, some, String, str_eq, List, [], ◌∷◌, ◌++◌,
  Result, ok, err, ◌>>=◌, ◌>>◌, throw_if, ltb, if◌then◌else◌, Bytes, codes, map,
}
use dnsid_ts.Lifecycle.Keys.{LifecycleError}
use dnsid_ts.Lifecycle.Events.{Issuance, Migration, Body, issuance, migration, LogEvent}
use dnsid_ts.Lifecycle.Snapshot.{Snapshot, snapshot_at, is_active, issued_entity_key}
use dnsid_ts.Stream.Evidence.{StreamError, log_error, MigrationResult, Suite}
use dnsid_ts.Stream.Checks.{require, thumbprint}
use dnsid_ts.Stream.References.{
  ParsedLr, rejected_migration, inbound_of, validate_prior_history_references,
}

-- The latest valid timestamp. An invalid one makes the maximum NaN, which no timestamp is later than either.
abbrev pub latest : List LogEvent → ℕ
latest [] = 0
latest (event ∷ events) =
    let rest = latest events in
    elim event.timestamp [ none ↦ rest | some t ↦ if ltb rest t then t else rest ]

-- A MIGRATION with the fields of another.
abbrev pub is_same_migration : Migration → Body → Bool
is_same_migration inbound (migration e) =
    str_eq e.previous_log inbound.previous_log
    && (str_eq e.new_log inbound.new_log && str_eq e.final_entry_ref inbound.final_entry_ref)
is_same_migration inbound _ = false

abbrev pub some_same_migration : Migration → List LogEvent → Bool
some_same_migration inbound [] = false
some_same_migration inbound (event ∷ events) =
    is_same_migration inbound event.body || some_same_migration inbound events

-- `find` of the ISSUANCE.
abbrev pub find_issuance : List LogEvent → Option Issuance
find_issuance [] = none
find_issuance (event ∷ events) =
    let rest = find_issuance events in elim event.body [ issuance e ↦ some e | _ ↦ rest ]

-- A snapshot whose error is a lifecycle error.
abbrev pub materialised : Result LifecycleError Snapshot → Result StreamError Snapshot
materialised (err category) = err (log_error category)
materialised (ok s) = ok s

abbrev pub is_empty_history : List LogEvent → Bool
is_empty_history [] = true
is_empty_history _ = false

module _ (suite : Suite) (hash : List (String × String) → String)
    (parse_lr : Bytes → Option ParsedLr) where
  abbrev pub check_references :
      Migration → MigrationResult → Option (List String) → Result StreamError (Unit {0})
  check_references inbound result none = ok tt
  check_references inbound result (some references) = do
    checked ←
        validate_prior_history_references parse_lr inbound result.prior_history
          (some (map codes references))
    ok tt

  -- The prior history establishes the two imported keys.
  unfoldable pub check_imported_keys : String → MigrationResult → Result StreamError (Unit {0})
  check_imported_keys domain result = do
    prior ←
        materialised (snapshot_at hash domain result.prior_history (latest result.prior_history))
    throw_if (not (is_active prior.state)) rejected_migration
    active_thumb ← thumbprint suite result.active_operational_key
    throw_if (not (str_eq prior.active_key_thumbprint active_thumb)) rejected_migration
    issued ← require rejected_migration (find_issuance result.prior_history)
    entity_key ← require rejected_migration (issued_entity_key issued)
    prior_thumb ← thumbprint suite entity_key
    entity_thumb ← thumbprint suite result.entity_key
    throw_if (not (str_eq prior_thumb entity_thumb)) rejected_migration

  unfoldable pub stitch_verified_migration_history :
      String → List LogEvent → MigrationResult → Result StreamError (List LogEvent)
  stitch_verified_migration_history domain current_events result = do
    inbound ← require rejected_migration (inbound_of current_events)
    throw_if (is_empty_history result.prior_history) rejected_migration
    throw_if (some_same_migration inbound result.prior_history) rejected_migration
    check_references inbound result result.prior_history_references
    check_imported_keys domain result
    let stitched : List LogEvent = result.prior_history ++ current_events
    snapshot ← materialised (snapshot_at hash domain stitched (latest stitched))
    ok stitched
