-- ===== src/Stream/References.antt =====
-- Log references of stitched histories: `assertLogReference`, `assertReferenceBelongsToLog`,
-- `validatePriorHistoryReferences` and `stitchVerifiedMigrationReferences` of
-- packages/log-c2sp-tlog/src/stream-verifier.ts. A reference is the list of its characters' codes.
use dnsid_ts.Common.{
  ℕ, Bool, true, false, not, ◌&&◌, ◌||◌, Option, none, some, List, [], ◌∷◌, ◌++◌, length, Result,
  ok, ◌>>=◌, ◌>>◌, throw_if, ◌==◌, leb, if◌then◌else◌, Bytes, bytes_eq, codes,
}
use dnsid_ts.Lifecycle.Keys.{invalid_migration}
use dnsid_ts.Lifecycle.Events.{Migration, migration, LogEvent}
use dnsid_ts.Stream.Evidence.{StreamError, log_error}
use dnsid_ts.Stream.Checks.{require}

abbrev pub rejected_migration : StreamError
rejected_migration = log_error invalid_migration

-- [a-z]
abbrev is_lower : ℕ → Bool
is_lower c = leb 97 c && leb c 122

-- [a-z0-9-]
abbrev is_scheme_char : ℕ → Bool
is_scheme_char c = is_lower c || ((leb 48 c && leb c 57) || (c == 45))

-- What `.` does not match.
abbrev is_line_end : ℕ → Bool
is_line_end c = (c == 10) || ((c == 13) || ((c == 8232) || (c == 8233)))

abbrev starts_in_line : Bytes → Bool
starts_in_line [] = false
starts_in_line (c ∷ cs) = not (is_line_end c)

-- [a-z0-9-]*:.+
abbrev matches_tail : Bytes → Bool
matches_tail [] = false
matches_tail (c ∷ cs) =
    let rest = matches_tail cs in if c == 58 then starts_in_line cs else is_scheme_char c && rest

-- /^[a-z][a-z0-9-]*:.+/
abbrev is_log_reference : Bytes → Bool
is_log_reference [] = false
is_log_reference (c ∷ cs) = is_lower c && matches_tail cs

unfoldable pub assert_log_reference : Bytes → Result StreamError (Unit {0})
assert_log_reference reference = throw_if (not (is_log_reference reference)) rejected_migration

-- `reference.split(':', 1)[0]`
abbrev pub scheme_of : Bytes → Bytes
scheme_of [] = []
scheme_of (c ∷ cs) = let rest = scheme_of cs in if c == 58 then [] else c ∷ rest

abbrev starts_with : Bytes → Bytes → Bool
starts_with [] cs = true
starts_with (p ∷ ps) [] = false
starts_with (p ∷ ps) (c ∷ cs) = (p == c) && starts_with ps cs

abbrev is_c2sp : Bytes → Bool
is_c2sp reference = starts_with (codes "c2sp-tlog:") reference

-- `ParsedC2spTlogLr`, as far as it is compared.
pub record ParsedLr : Type 0 where
  pub lr : Bytes
  pub entry_index : Option ℕ

abbrev is_given : Option ℕ → Bool
is_given none = false
is_given (some n) = true

-- The events of a verified prior history with their references.
abbrev pub Referenced : Type 0
Referenced = List (Bytes × LogEvent)

abbrev pub zip : List Bytes → List LogEvent → Referenced
zip [] es = []
zip (r ∷ rs) [] = []
zip (r ∷ rs) (e ∷ es) = (r, e) ∷ zip rs es

abbrev pub reverse_onto : Referenced → Referenced → Referenced
reverse_onto [] acc = acc
reverse_onto (p ∷ ps) acc = reverse_onto ps (p ∷ acc)

-- The reference of the event before, which the list from the end has next.
abbrev ends_at : Referenced → Bytes → Bool
ends_at [] reference = false
ends_at ((r, e) ∷ rest) reference = bytes_eq r reference

abbrev pub last_is : List Bytes → Bytes → Bool
last_is [] reference = false
last_is (r ∷ []) reference = bytes_eq r reference
last_is (_ ∷ rs) reference = last_is rs reference

-- The first event, if it is a MIGRATION.
abbrev pub inbound_of : List LogEvent → Option Migration
inbound_of [] = none
inbound_of (event ∷ events) = elim event.body [ migration e ↦ some e | _ ↦ none ]

-- `parse_lr` stands for parseC2spTlogLr of lr.ts; `none` where it throws.
module _ (parse_lr : Bytes → Option ParsedLr) where
  -- The test behind the catch.
  unfoldable pub belongs_to_c2sp_log : Bytes → Bytes → Result StreamError (Unit {0})
  belongs_to_c2sp_log reference log_reference = do
    event ← require rejected_migration (parse_lr reference)
    log ← require rejected_migration (parse_lr log_reference)
    throw_if
        (is_given log.entry_index
          || (not (is_given event.entry_index) || not (bytes_eq event.lr log.lr)))
        rejected_migration

  unfoldable pub assert_reference_belongs_to_log : Bytes → Bytes → Result StreamError (Unit {0})
  unfolding assert_log_reference
  assert_reference_belongs_to_log reference log_reference = do
    assert_log_reference reference
    assert_log_reference log_reference
    throw_if (not (bytes_eq (scheme_of reference) (scheme_of log_reference))) rejected_migration
    if is_c2sp reference || is_c2sp log_reference
        then belongs_to_c2sp_log reference log_reference
        else ok tt

  unfoldable pub all_log_references : List Bytes → Result StreamError (Unit {0})
  all_log_references [] = ok tt
  all_log_references (r ∷ rs) = do assert_log_reference r; all_log_references rs

  -- The loop from the last event to the first; `log` is `expectedLog`.
  unfoldable pub walk_back : (log : Bytes) → Referenced → Result StreamError (Unit {0})
  walk_back log [] = ok tt
  walk_back log ((reference, event) ∷ earlier) = do
    assert_reference_belongs_to_log reference log
    elim event.body [
      | migration e ↦ do
        throw_if
            (not (bytes_eq (codes e.new_log) log)
              || not (ends_at earlier (codes e.final_entry_ref)))
            rejected_migration
        assert_reference_belongs_to_log (codes e.final_entry_ref) (codes e.previous_log)
        walk_back (codes e.previous_log) earlier
      | _ ↦ walk_back log earlier
    ]

  unfoldable pub validate_prior_history_references :
      Migration → List LogEvent → Option (List Bytes) → Result StreamError (List Bytes)
  validate_prior_history_references inbound history given = do
    references ← require rejected_migration given
    throw_if (not (length references == length history) || (length references == 0))
        rejected_migration
    all_log_references references
    throw_if (not (last_is references (codes inbound.final_entry_ref))) rejected_migration
    walk_back (codes inbound.previous_log) (reverse_onto (zip references history) [])
    ok references

  unfoldable pub all_belong : Bytes → List Bytes → Result StreamError (Unit {0})
  all_belong log [] = ok tt
  all_belong log (r ∷ rs) = do assert_reference_belongs_to_log r log; all_belong log rs

  unfoldable pub stitch_verified_migration_references :
      List LogEvent
      → List Bytes
      → List LogEvent
      → Option (List Bytes)
      → Result StreamError (List Bytes)
  stitch_verified_migration_references current_events current_references history given = do
    inbound ← require rejected_migration (inbound_of current_events)
    throw_if (not (length current_events == length current_references)) rejected_migration
    prior ← validate_prior_history_references inbound history given
    all_belong (codes inbound.new_log) current_references
    ok (prior ++ current_references)
