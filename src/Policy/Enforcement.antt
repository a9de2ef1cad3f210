-- ===== src/Policy/Enforcement.antt =====
-- `normalizedOriginPolicy` and `enforceCheckpointPolicy`.
pub mod Guarantee
pub mod Unwitnessed
use dnsid_ts.Common.{
  ℕ, ◌*◌, Bool, true, false, not, ◌&&◌, ◌||◌, Option, none, some, String, str_eq, List, [], ◌∷◌,
  map, length, ltb, leb, ◌==◌, if◌then◌else◌, is_safe_integer, Bytes, bytes_eq, Result, ok, err,
  ◌>>=◌, ◌>>◌, throw_if,
}
use dnsid_ts.Merkle.{sha256}
use dnsid_ts.Notes.{SignedNoteKey, Checkpoint, is_cosignature_type, verify_checkpoint_signature}
use dnsid_ts.Policy.{
  QuorumRule, no_witness, OriginPolicy, Policy, NormalizedOriginPolicy, PolicyError,
  no_local_policy, invalid_quorum, quorum_exceeds_witnesses, no_log_key, log_key_name, log_key_type,
  witness_key_type, not_distinct, log_and_witness_not_distinct, invalid_clock_skew, scope_mismatch,
  origin_mismatch, empty_root, missing_log_signature, public_without_witnesses,
  quorum_not_satisfied, flat_quorum_rule, normalize_quorum_rule, collect_witness_keys,
  top_level_threshold, earliest, evaluate_quorum,
}

-- `policy.origins[origin]`
unfoldable pub find_origin : String → List (String × OriginPolicy) → Result PolicyError OriginPolicy
find_origin origin [] = err no_local_policy
find_origin origin ((name, p) ∷ rest) =
    let later = find_origin origin rest in if str_eq name origin then ok p else later

-- `keys.some(test)`
unfoldable pub any_key : (SignedNoteKey → Bool) → List SignedNoteKey → Bool
any_key test [] = false
any_key test (key ∷ keys) = test key || any_key test keys

unfoldable pub filter_keys : (SignedNoteKey → Bool) → List SignedNoteKey → List SignedNoteKey
filter_keys test [] = []
filter_keys test (key ∷ keys) =
    let rest = filter_keys test keys in if test key then key ∷ rest else rest

-- `signatureType !== undefined && (signatureType.length !== 1 || signatureType[0] !== 0x01)`
abbrev pub is_bad_log_type : Option Bytes → Bool
is_bad_log_type none = false
is_bad_log_type (some (t ∷ [])) = not (t == 1)
is_bad_log_type (some _) = true

-- `signatureType?.[0] === 0x01`
abbrev pub starts_as_log_type : Option Bytes → Bool
starts_as_log_type (some (t ∷ _)) = t == 1
starts_as_log_type _ = false

-- Keys of one identity (`keyIdentity`): with one kind of keys, their bytes tell.
abbrev pub same_identity : SignedNoteKey → SignedNoteKey → Bool
same_identity k l = bytes_eq k.key_bytes l.key_bytes

abbrev pub has_identity : List SignedNoteKey → SignedNoteKey → Bool
has_identity keys key = any_key (same_identity key) keys

unfoldable pub all_distinct : List SignedNoteKey → Bool
all_distinct [] = true
all_distinct (key ∷ keys) = not (has_identity keys key) && all_distinct keys

abbrev pub or_flat_rule : Option QuorumRule → QuorumRule → QuorumRule
or_flat_rule none flat = flat
or_flat_rule (some rule) flat = rule

unfoldable pub check_witnesses :
    List SignedNoteKey → List SignedNoteKey → Result PolicyError (Unit {0})
check_witnesses log_keys keys = do
  throw_if (any_key (λ k. not (is_cosignature_type k.signature_type)) keys) witness_key_type
  throw_if (not (all_distinct keys)) not_distinct
  throw_if (any_key (has_identity log_keys) keys) log_and_witness_not_distinct

unfoldable pub check_log_keys : String → List SignedNoteKey → Result PolicyError (Unit {0})
check_log_keys origin log_keys = do
  throw_if (length log_keys == 0) no_log_key
  throw_if (any_key (λ k. not (str_eq k.name origin)) log_keys) log_key_name
  throw_if (any_key (λ k. is_bad_log_type k.signature_type) log_keys) log_key_type

unfoldable pub normalized_origin_policy :
    Policy → String → Result PolicyError NormalizedOriginPolicy
normalized_origin_policy policy origin = do
  p ← find_origin origin policy.origins
  throw_if (not (is_safe_integer p.quorum)) invalid_quorum
  throw_if (ltb (length p.witness_keys) p.quorum) quorum_exceeds_witnesses
  check_log_keys origin p.log_keys
  throw_if (any_key (λ k. not (is_cosignature_type k.signature_type)) p.witness_keys)
      witness_key_type
  throw_if (not (all_distinct p.log_keys)) not_distinct
  throw_if (not (all_distinct p.witness_keys)) not_distinct
  throw_if (any_key (has_identity p.log_keys) p.witness_keys) log_and_witness_not_distinct
  rule ←
      normalize_quorum_rule (or_flat_rule p.quorum_rule (flat_quorum_rule p.witness_keys p.quorum))
  check_witnesses p.log_keys (collect_witness_keys rule)
  ok (record {
    log_keys = p.log_keys;
    witness_keys = collect_witness_keys rule;
    quorum = top_level_threshold rule;
    quorum_rule = rule;
  })

-- `checkpoint_witness_time` is in milliseconds.
pub record CheckpointPolicyResult : Type 0 where
  pub accepted_witness_timestamps : List ℕ
  pub checkpoint_witness_time : Option ℕ

abbrev pub to_milliseconds : Option ℕ → Option ℕ
to_milliseconds none = none
to_milliseconds (some t) = some (t * 1000)

abbrev pub is_no_witness : QuorumRule → Bool
is_no_witness no_witness = true
is_no_witness _ = false

abbrev pub other_scope : Option String → String → Bool
other_scope none scope = false
other_scope (some pinned) scope = not (str_eq pinned scope)

unfoldable pub accepted_log_keys : String → List SignedNoteKey → List SignedNoteKey
accepted_log_keys scope keys =
    if str_eq scope "public"
    then filter_keys (λ k. starts_as_log_type k.signature_type) keys
    else keys

abbrev pub with_times : Option (List ℕ) → Result PolicyError CheckpointPolicyResult
with_times none = err quorum_not_satisfied
with_times (some ts) = ok (record {
  accepted_witness_timestamps = ts;
  checkpoint_witness_time = to_milliseconds (earliest ts);
})

module _ (digest : Bytes → Bytes) (verify : Bytes → Bytes → Bytes → Bool) where
  unfoldable pub enforce_checkpoint_policy :
      Checkpoint → String → Policy → String → ℕ → ℕ → Result PolicyError CheckpointPolicyResult
  enforce_checkpoint_policy checkpoint origin policy scope now max_clock_skew = do
    throw_if (not (is_safe_integer max_clock_skew)) invalid_clock_skew
    throw_if (other_scope policy.scope scope) scope_mismatch
    throw_if (not (str_eq checkpoint.origin origin)) origin_mismatch
    throw_if (checkpoint.tree_size == 0 && not (bytes_eq checkpoint.root_hash (sha256 digest [])))
        empty_root
    p ← normalized_origin_policy policy origin
    throw_if
        (not (
          any_key (verify_checkpoint_signature verify checkpoint)
            (accepted_log_keys scope p.log_keys)))
        missing_log_signature
    throw_if (str_eq scope "public" && is_no_witness p.quorum_rule) public_without_witnesses
    with_times (evaluate_quorum verify checkpoint now max_clock_skew p.quorum_rule)
