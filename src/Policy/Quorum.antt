-- ===== src/Policy/Quorum.antt =====
-- `evaluateQuorum` decides what a rule asks for, and returns times of its own witnesses only.
use dnsid_ts.Common.{
  ℕ, zero, suc, ◌≤◌, Bool, some, List, [], ◌∷◌, length, take, Bytes, Option-cases, Bool-cases,
  le_or_lt, ◌≡◌, refl, ap, ◌∙◌, arith, ◌↔◌, inl, inr,
}
use mathlib.Core.List.{flatten}
use dnsid_ts.Notes.{SignedNoteKey, Checkpoint, verified_cosignature_timestamp}
use dnsid_ts.Policy.{
  QuorumRule, QuorumRules, no_witness, witness, threshold, no_rule, rule_and, earliest, sorts_after,
  insert_latest, sort_latest, cons_some, accepted_time, evaluate_quorum, evaluate_members,
}
use dnsid_ts.Policy.Spec.{
  IsSatisfied, AtLeast, nothing_asked, witnessed, group, enough, counted, skipped,
}

length-insert_latest :
    (a : List ℕ) (bs : List (List ℕ)) → length (insert_latest a bs) ≡ suc (length bs)
unfolding insert_latest
length-insert_latest a [] = refl
length-insert_latest a (b ∷ bs) = elim (Bool-cases (sorts_after (earliest a) (earliest b))) [
  | inl after ↦ rw after (ap suc (length-insert_latest a bs))
  | inr before ↦ rw before
]

length-sort_latest : (found : List (List ℕ)) → length (sort_latest found) ≡ length found
unfolding sort_latest
length-sort_latest [] = refl
length-sort_latest (a ∷ rest) =
    length-insert_latest a (sort_latest rest) ∙ ap suc (length-sort_latest rest)

module _ (verify : Bytes → Bytes → Bytes → Bool) (checkpoint : Checkpoint) (now skew : ℕ) where
  accepted_time_sound :
      (key : SignedNoteKey) (ts : List ℕ)
      → accepted_time (verified_cosignature_timestamp verify checkpoint key) now skew ≡ some ts
      → IsSatisfied verify checkpoint now skew (witness key)
  accepted_time_sound key ts h =
      elim (Option-cases (verified_cosignature_timestamp verify checkpoint key)) [
        | inl absent ↦ absurd (ground (arith, absent))
        | inr (t, found) ↦ witnessed key t found (ground (arith, found))
      ]

  mutual
    unfolding evaluate_quorum evaluate_members

    evaluate_quorum_sound :
        (rule : QuorumRule) (ts : List ℕ)
        → evaluate_quorum verify checkpoint now skew rule ≡ some ts
        → IsSatisfied verify checkpoint now skew rule
    evaluate_quorum_sound no_witness ts h = nothing_asked
    evaluate_quorum_sound (witness key) ts h = accepted_time_sound key ts h
    evaluate_quorum_sound (threshold n members) ts h =
        let sorted = sort_latest (evaluate_members verify checkpoint now skew members) in
        elim (le_or_lt n (length sorted)) [
          | inl reached ↦ group n members (
              evaluate_members_sound members n (
                omega (
                  arith,
                  length-sort_latest (evaluate_members verify checkpoint now skew members),
                )))
          | inr short ↦ absurd (ground arith)
        ]

    evaluate_members_sound :
        (rules : QuorumRules) (n : ℕ)
        → n ≤ length (evaluate_members verify checkpoint now skew rules)
        → AtLeast verify checkpoint now skew n rules
    evaluate_members_sound rules zero h = enough rules
    evaluate_members_sound no_rule (suc n) h = absurd (omega arith)
    evaluate_members_sound (rule_and rule rules) (suc n) h =
        elim (Option-cases (evaluate_quorum verify checkpoint now skew rule)) [
          | inl absent ↦ skipped (suc n) rule rules (
              evaluate_members_sound rules (suc n) (
                omega (
                  arith,
                  ap (λ o. length (cons_some o (evaluate_members verify checkpoint now skew rules)))
                      absent,
                )))
          | inr (ts, found) ↦ counted n rule rules (evaluate_quorum_sound rule ts found) (
              evaluate_members_sound rules n (
                omega (
                  arith,
                  ap (λ o. length (cons_some o (evaluate_members verify checkpoint now skew rules)))
                      found,
                )))
        ]

  mutual
    unfolding evaluate_quorum evaluate_members

    evaluate_quorum_complete :
        (rule : QuorumRule)
        → IsSatisfied verify checkpoint now skew rule
        → (ts : List ℕ) × (evaluate_quorum verify checkpoint now skew rule ≡ some ts)
    evaluate_quorum_complete no_witness nothing_asked = ([], refl)
    evaluate_quorum_complete (witness key) (witnessed _ t found early) =
        (t ∷ [], ground (arith, found))
    evaluate_quorum_complete (threshold n members) (group _ _ h) =
        let sorted = sort_latest (evaluate_members verify checkpoint now skew members) in
        let reached : n ≤ length sorted = omega (
          arith,
          evaluate_members_complete members n h,
          length-sort_latest (evaluate_members verify checkpoint now skew members),
        ) in
        (flatten (take n sorted), ground (arith, reached))

    evaluate_members_complete :
        (rules : QuorumRules) (n : ℕ)
        → AtLeast verify checkpoint now skew n rules
        → n ≤ length (evaluate_members verify checkpoint now skew rules)
    evaluate_members_complete rules zero h = omega arith
    evaluate_members_complete no_rule (suc n) h = elim h [ ]
    evaluate_members_complete (rule_and rule rules) (suc n) (counted _ _ _ sat h) =
        let (ts, found) = evaluate_quorum_complete rule sat in
        omega (
          arith,
          ap (λ o. length (cons_some o (evaluate_members verify checkpoint now skew rules))) found,
          evaluate_members_complete rules n h,
        )
    evaluate_members_complete (rule_and rule rules) (suc n) (skipped m _ _ h) =
        elim (Option-cases (evaluate_quorum verify checkpoint now skew rule)) [
          | inl absent ↦ omega (
            arith,
            ap (λ o. length (cons_some o (evaluate_members verify checkpoint now skew rules)))
                absent,
            evaluate_members_complete rules (suc n) h,
          )
          | inr (ts, found) ↦ omega (
            arith,
            ap (λ o. length (cons_some o (evaluate_members verify checkpoint now skew rules)))
                found,
            evaluate_members_complete rules (suc n) h,
          )
        ]

  -- A rule is satisfied exactly when `evaluateQuorum` returns times.
  -- `evaluateQuorum` returns times for a rule exactly when the rule is satisfied: every witness that it
  -- counts signed no further in the future than the clock skew allows, and every group has as many
  -- satisfied members as its threshold.
  pub evaluate_quorum-IsSatisfied :
      (rule : QuorumRule)
      → ((ts : List ℕ) × (evaluate_quorum verify checkpoint now skew rule ≡ some ts))
        ↔ IsSatisfied verify checkpoint now skew rule
  evaluate_quorum-IsSatisfied rule =
      (λ (ts, h). evaluate_quorum_sound rule ts h, evaluate_quorum_complete rule)
