-- ===== src/Policy/Tests.antt =====
-- A checkpoint with a log signature and a cosignature, where every signature verifies.
use dnsid_ts.Common.{
  ℕ, zero, suc, Bool, true, none, some, List, [], ◌∷◌, ◌++◌, All, Bytes, bytes_eq, ok, err, ◌≡◌,
  ◌↔◌, refl, arith,
}
use mathlib.Core.List.{flatten}
use dnsid_ts.Merkle.{sha256}
use dnsid_ts.Notes.{
  SignedNoteKey, Checkpoint, key_id_matches, cosignature_text, verify_note_signature,
  some_signature, verify_checkpoint_signature, cosignature_loop, verified_cosignature_timestamp,
}
use dnsid_ts.Policy.{
  QuorumRule, witness, threshold, no_rule, rule_and, Policy, count_rules, flat_members,
  flat_quorum_rule, normalize_quorum_rule, collect_witness_keys, insert_latest, sort_latest,
  evaluate_quorum, quorum_not_satisfied,
}
use dnsid_ts.Policy.Spec.{IsSatisfied}
use dnsid_ts.Policy.Quorum.{evaluate_quorum-IsSatisfied}
use dnsid_ts.Policy.Times.{IsWitnessed, evaluate_quorum-IsWitnessed}
use dnsid_ts.Policy.Enforcement.{
  find_origin, any_key, filter_keys, all_distinct, check_witnesses, check_log_keys,
  normalized_origin_policy, CheckpointPolicyResult, accepted_log_keys, enforce_checkpoint_policy,
}
use dnsid_ts.Policy.Enforcement.Guarantee.{IsEnforced, enforce_checkpoint_policy-IsEnforced}
use dnsid_ts.Policy.Enforcement.Unwitnessed.{policy_of, enforce_checkpoint_policy_unwitnessed}

abbrev zeros : ℕ → Bytes
zeros zero = []
zeros (suc n) = 0 ∷ zeros n

abbrev ones : ℕ → Bytes
ones zero = []
ones (suc n) = 1 ∷ ones n

abbrev verify : Bytes → Bytes → Bytes → Bool
verify message key signature = true

abbrev digest : Bytes → Bytes
digest bytes = zeros 32

abbrev log_key : SignedNoteKey
log_key = record {
  name = "log.example";
  key_bytes = zeros 32;
  key_id = none;
  signature_type = some (1 ∷ []);
}

abbrev witness_key : SignedNoteKey
witness_key = record {
  name = "witness.example";
  key_bytes = ones 32;
  key_id = none;
  signature_type = some (4 ∷ []);
}

-- The witness signed five seconds after the epoch.
abbrev checkpoint : Checkpoint
checkpoint = record {
  origin = "log.example";
  tree_size = 3;
  root_hash = zeros 32;
  signatures =
      record { name = "log.example"; key_hash = none; signature = zeros 64 }
      ∷ record { name = "witness.example"; key_hash = none; signature = zeros 7 ++ 5 ∷ zeros 64 }
      ∷ [];
  signed_text = [];
}

abbrev rule : QuorumRule
rule = threshold 1 (rule_and (witness log_key) (rule_and (witness witness_key) no_rule))

abbrev policy : Policy
policy = record {
  scope = none;
  origins =
      (
        "log.example",
        record {
          log_keys = log_key ∷ [];
          witness_keys = witness_key ∷ [];
          quorum = 1;
          quorum_rule = none;
        },
      )
      ∷ [];
}

abbrev result : CheckpointPolicyResult
result = record { accepted_witness_timestamps = 5 ∷ []; checkpoint_witness_time = some 5000 }

runs : Unit {0}
unfolding bytes_eq flatten sha256 key_id_matches cosignature_text verify_note_signature
    some_signature verify_checkpoint_signature cosignature_loop verified_cosignature_timestamp
    count_rules flat_members flat_quorum_rule normalize_quorum_rule collect_witness_keys
    insert_latest sort_latest evaluate_quorum find_origin any_key filter_keys all_distinct
    check_witnesses check_log_keys normalized_origin_policy accepted_log_keys
    enforce_checkpoint_policy
runs = tt

evaluates : evaluate_quorum verify checkpoint 5000 0 rule ≡ some (5 ∷ [])
unfolding runs
evaluates = refl

accepts :
    enforce_checkpoint_policy digest verify checkpoint "log.example" policy "public" 5000 0
    ≡ ok result
unfolding runs
accepts = refl

too_early :
    enforce_checkpoint_policy digest verify checkpoint "log.example" policy "public" 4999 0
    ≡ err quorum_not_satisfied
unfolding runs
too_early = refl

log_signed : verify_checkpoint_signature verify checkpoint log_key ≡ true
unfolding runs
log_signed = refl

evaluate_quorum-IsSatisfied_example :
    ((ts : List ℕ) × (evaluate_quorum verify checkpoint 5000 0 rule ≡ some ts))
    ↔ IsSatisfied verify checkpoint 5000 0 rule
evaluate_quorum-IsSatisfied_example = evaluate_quorum-IsSatisfied verify checkpoint 5000 0 rule

evaluate_quorum-IsWitnessed_example :
    All (IsWitnessed verify checkpoint 5000 0 (collect_witness_keys rule)) (5 ∷ [])
evaluate_quorum-IsWitnessed_example =
    evaluate_quorum-IsWitnessed verify checkpoint 5000 0 rule (5 ∷ []) evaluates

enforce_checkpoint_policy-IsEnforced_example :
    IsEnforced digest verify checkpoint "log.example" policy "public" 5000 0 result
enforce_checkpoint_policy-IsEnforced_example =
    enforce_checkpoint_policy-IsEnforced digest verify checkpoint "log.example" policy "public" 5000
      0 result accepts

enforce_checkpoint_policy_unwitnessed_example :
    enforce_checkpoint_policy digest verify checkpoint "log.example"
      (policy_of log_key)
      "public"
      0
      0
    ≡ ok (record { accepted_witness_timestamps = []; checkpoint_witness_time = none })
enforce_checkpoint_policy_unwitnessed_example =
    enforce_checkpoint_policy_unwitnessed digest verify checkpoint log_key 0 0 (omega arith)
      (omega arith) refl refl log_signed
