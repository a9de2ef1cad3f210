-- ===== src/Policy/Enforcement/Unwitnessed.antt =====
-- A group of rules that ask for nothing is a rule that no witness satisfies, or has to.
use dnsid_ts.Common.{ℕ, ◌<◌, ◌^◌, Bool, true, none, some, eq_iff, [], ◌∷◌, Bytes, ok, ◌≡◌, arith}
use mathlib.Core.List.{flatten}
use dnsid_ts.Notes.{SignedNoteKey, Checkpoint, verify_checkpoint_signature}
use dnsid_ts.Policy.{
  QuorumRule, no_witness, threshold, no_rule, rule_and, Policy, evaluate_quorum,
  normalize_quorum_rule, collect_witness_keys, count_rules, sort_latest, insert_latest,
}
use dnsid_ts.Policy.Enforcement.{
  find_origin, any_key, filter_keys, all_distinct, check_witnesses, check_log_keys,
  accepted_log_keys, normalized_origin_policy, enforce_checkpoint_policy,
}

abbrev pub asks_nothing : QuorumRule
asks_nothing = threshold 1 (rule_and no_witness no_rule)

abbrev pub policy_of : SignedNoteKey → Policy
policy_of key = record {
  scope = none;
  origins =
      (
        key.name,
        record {
          log_keys = key ∷ [];
          witness_keys = [];
          quorum = 0;
          quorum_rule = some asks_nothing;
        },
      )
      ∷ [];
}

-- In the public scope, a policy whose rule is a group of one `none` accepts every checkpoint of a
-- nonempty tree that its log key signed, with no witness at all and no witness time.
pub enforce_checkpoint_policy_unwitnessed :
    (digest : Bytes → Bytes) (verify : Bytes → Bytes → Bytes → Bool) (checkpoint : Checkpoint)
    (key : SignedNoteKey) (now skew : ℕ)
    → skew < 2 ^ 53
    → 0 < checkpoint.tree_size
    → checkpoint.origin ≡ key.name
    → key.signature_type ≡ some (1 ∷ [])
    → verify_checkpoint_signature verify checkpoint key ≡ true
    → enforce_checkpoint_policy digest verify checkpoint key.name (policy_of key) "public" now skew
      ≡ ok (record { accepted_witness_timestamps = []; checkpoint_witness_time = none })
unfolding enforce_checkpoint_policy normalized_origin_policy find_origin any_key filter_keys
    all_distinct check_witnesses check_log_keys accepted_log_keys normalize_quorum_rule
    collect_witness_keys count_rules evaluate_quorum sort_latest insert_latest flatten
enforce_checkpoint_policy_unwitnessed digest verify checkpoint key now skew small nonempty same type
      signed =
    ground (arith, eq_iff checkpoint.origin key.name, eq_iff key.name key.name)
