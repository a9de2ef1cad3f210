-- ===== src/Policy/Spec.antt =====
-- What a quorum rule asks for: a witness signed in time, or of a group so many members are satisfied.
use dnsid_ts.Common.{ℕ, zero, suc, ◌+◌, ◌*◌, ◌≤◌, some, Bytes, Bool, ◌≡◌}
use dnsid_ts.Notes.{SignedNoteKey, Checkpoint, verified_cosignature_timestamp}
use dnsid_ts.Policy.{QuorumRule, QuorumRules, no_witness, witness, threshold, rule_and}

module _ (verify : Bytes → Bytes → Bytes → Bool) (checkpoint : Checkpoint) (now skew : ℕ) where
  mutual
    pub data IsSatisfied : QuorumRule → Type 0 where
      nothing_asked : IsSatisfied no_witness
      witnessed :
          (key : SignedNoteKey) (timestamp : ℕ)
          → verified_cosignature_timestamp verify checkpoint key ≡ some timestamp
          → timestamp * 1000 ≤ now + skew
          → IsSatisfied (witness key)
      group :
          (n : ℕ) (members : QuorumRules) → AtLeast n members → IsSatisfied (threshold n members)

    -- At least so many of the members.
    pub data AtLeast : ℕ → QuorumRules → Type 0 where
      enough : (members : QuorumRules) → AtLeast zero members
      counted :
          (n : ℕ) (rule : QuorumRule) (rules : QuorumRules)
          → IsSatisfied rule
          → AtLeast n rules
          → AtLeast (suc n) (rule_and rule rules)
      skipped :
          (n : ℕ) (rule : QuorumRule) (rules : QuorumRules)
          → AtLeast n rules
          → AtLeast n (rule_and rule rules)
