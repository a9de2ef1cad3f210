-- ===== src/Policy.antt =====
-- packages/log-c2sp-tlog/src/policy.ts: which log and witness signatures a checkpoint needs. The keys of a
-- policy are parsed (`asKey` of a key that is no text).
pub mod Spec
pub mod Quorum
pub mod Times
pub mod Enforcement
mod Tests
use dnsid_ts.Common.{
  ℕ, zero, suc, ◌+◌, ◌*◌, Bool, true, false, not, ◌&&◌, ◌||◌, Option, none, some, String, str_eq,
  List, [], ◌∷◌, ◌++◌, map, length, take, ltb, leb, ◌==◌, min, if◌then◌else◌, is_safe_integer,
  Bytes, bytes_eq, Result, ok, err, ◌>>=◌, ◌>>◌, throw_if,
}
use mathlib.Core.List.{flatten}
use dnsid_ts.Merkle.{sha256}
use dnsid_ts.Notes.{
  SignedNoteKey, Checkpoint, is_cosignature_type, verify_checkpoint_signature,
  verified_cosignature_timestamp,
}

-- The quorum rules; a normalized rule has parsed keys and sensible thresholds.
mutual
  pub data QuorumRule : Type 0 where
    no_witness : QuorumRule
    witness : SignedNoteKey → QuorumRule
    threshold : ℕ → QuorumRules → QuorumRule

  pub data QuorumRules : Type 0 where
    no_rule : QuorumRules
    rule_and : QuorumRule → QuorumRules → QuorumRules

pub record OriginPolicy : Type 0 where
  pub log_keys : List SignedNoteKey
  pub witness_keys : List SignedNoteKey
  pub quorum : ℕ
  pub quorum_rule : Option QuorumRule

pub record Policy : Type 0 where
  pub scope : Option String
  pub origins : List (String × OriginPolicy)

pub record NormalizedOriginPolicy : Type 0 where
  pub log_keys : List SignedNoteKey
  pub witness_keys : List SignedNoteKey
  pub quorum : ℕ
  pub quorum_rule : QuorumRule

-- The messages of the errors.
pub data PolicyError : Type 0 where
  no_local_policy invalid_quorum quorum_exceeds_witnesses no_log_key log_key_name log_key_type
        witness_key_type not_distinct log_and_witness_not_distinct invalid_threshold
        invalid_clock_skew scope_mismatch origin_mismatch empty_root missing_log_signature
        public_without_witnesses quorum_not_satisfied :
      PolicyError

unfoldable pub count_rules : QuorumRules → ℕ
count_rules no_rule = 0
count_rules (rule_and rule rules) = suc (count_rules rules)

unfoldable pub flat_members : List SignedNoteKey → QuorumRules
flat_members [] = no_rule
flat_members (key ∷ keys) = rule_and (witness key) (flat_members keys)

unfoldable pub flat_quorum_rule : List SignedNoteKey → ℕ → QuorumRule
flat_quorum_rule keys zero = no_witness
flat_quorum_rule keys (suc n) = threshold (suc n) (flat_members keys)

unfoldable mutual
  pub normalize_quorum_rule : QuorumRule → Result PolicyError QuorumRule
  normalize_quorum_rule no_witness = ok no_witness
  normalize_quorum_rule (witness key) = ok (witness key)
  normalize_quorum_rule (threshold n members) = do
    throw_if (not (is_safe_integer n) || (ltb n 1 || ltb (count_rules members) n)) invalid_threshold
    normalized ← normalize_members members
    ok (threshold n normalized)

  pub normalize_members : QuorumRules → Result PolicyError QuorumRules
  normalize_members no_rule = ok no_rule
  normalize_members (rule_and rule rules) = do
    first ← normalize_quorum_rule rule
    rest ← normalize_members rules
    ok (rule_and first rest)

unfoldable mutual
  pub collect_witness_keys : QuorumRule → List SignedNoteKey
  collect_witness_keys no_witness = []
  collect_witness_keys (witness key) = key ∷ []
  collect_witness_keys (threshold n members) = collect_members members

  pub collect_members : QuorumRules → List SignedNoteKey
  collect_members no_rule = []
  collect_members (rule_and rule rules) = collect_witness_keys rule ++ collect_members rules

abbrev pub top_level_threshold : QuorumRule → ℕ
top_level_threshold no_witness = 0
top_level_threshold (witness key) = 1
top_level_threshold (threshold n members) = n

-- `Math.min(...values)`, where `none` is the Infinity of no values.
abbrev pub earliest : List ℕ → Option ℕ
earliest [] = none
earliest (t ∷ []) = some t
earliest (t ∷ u ∷ rest) = elim (earliest (u ∷ rest)) [ none ↦ some t | some v ↦ some (min t v) ]

-- `Math.min(...b) - Math.min(...a) > 0`; the difference of two Infinities is NaN, which sorts as 0.
abbrev pub sorts_after : Option ℕ → Option ℕ → Bool
sorts_after none b = false
sorts_after (some a) none = true
sorts_after (some a) (some b) = ltb a b

-- The stable sort, the latest first.
unfoldable pub insert_latest : List ℕ → List (List ℕ) → List (List ℕ)
insert_latest a [] = a ∷ []
insert_latest a (b ∷ bs) =
    let later = insert_latest a bs in
    if sorts_after (earliest a) (earliest b) then b ∷ later else a ∷ b ∷ bs

unfoldable pub sort_latest : List (List ℕ) → List (List ℕ)
sort_latest [] = []
sort_latest (a ∷ rest) = insert_latest a (sort_latest rest)

-- `.map(...)` and `.filter(value => value !== undefined)`
abbrev pub cons_some : Option (List ℕ) → List (List ℕ) → List (List ℕ)
cons_some none rest = rest
cons_some (some ts) rest = ts ∷ rest

-- The test of one cosignature against the clock.
abbrev pub accepted_time : Option ℕ → ℕ → ℕ → Option (List ℕ)
accepted_time none now skew = none
accepted_time (some t) now skew = if leb (t * 1000) (now + skew) then some (t ∷ []) else none

module _ (verify : Bytes → Bytes → Bytes → Bool) (checkpoint : Checkpoint) (now skew : ℕ) where
  unfoldable mutual
    pub evaluate_quorum : QuorumRule → Option (List ℕ)
    evaluate_quorum no_witness = some []
    evaluate_quorum (witness key) =
        accepted_time (verified_cosignature_timestamp verify checkpoint key) now skew
    evaluate_quorum (threshold n members) =
        let satisfied = sort_latest (evaluate_members members) in
        if ltb (length satisfied) n then none else some (flatten (take n satisfied))

    pub evaluate_members : QuorumRules → List (List ℕ)
    evaluate_members no_rule = []
    evaluate_members (rule_and rule rules) =
        cons_some (evaluate_quorum rule) (evaluate_members rules)
