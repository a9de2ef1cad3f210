-- ===== src/Policy/Enforcement/Guarantee.antt =====
-- What a checkpoint has whose policy is satisfied.
use dnsid_ts.Common.{
  ℕ, Bool, true, false, Option, none, some, String, str_eq, eq_iff, List, [], ◌∷◌, Bytes, Result,
  ok, err, Result-cases, Bool-cases, ◌≡◌, ◌≢◌, refl, ap, arith, inl, inr, if◌then◌else◌,
}
use mathlib.Core.List.{Memᴰ}
use dnsid_ts.Notes.{SignedNoteKey, Checkpoint, verify_checkpoint_signature}
use dnsid_ts.Policy.{no_witness, Policy, NormalizedOriginPolicy, PolicyError, evaluate_quorum}
use dnsid_ts.Policy.Spec.{IsSatisfied}
use dnsid_ts.Policy.Quorum.{evaluate_quorum-IsSatisfied}
use dnsid_ts.Policy.Enforcement.{
  any_key, filter_keys, accepted_log_keys, normalized_origin_policy, CheckpointPolicyResult,
  with_times, is_no_witness, starts_as_log_type, enforce_checkpoint_policy,
}

any_key_sound :
    (test : SignedNoteKey → Bool) (keys : List SignedNoteKey)
    → any_key test keys ≡ true
    → (key : SignedNoteKey) × Memᴰ key keys × (test key ≡ true)
unfolding any_key
any_key_sound test [] h = cc
any_key_sound test (key ∷ keys) h = elim (Bool-cases (test key)) [
  | inl yes_it_is ↦ (key, Memᴰ.head refl, yes_it_is)
  | inr no_it_is ↦
      let (found, listed, passed) = any_key_sound test keys (ground (arith, no_it_is)) in
      (found, Memᴰ.tail listed, passed)
]

Mem-if :
    (b : Bool) (key k : SignedNoteKey) (rest keys : List SignedNoteKey)
    → (Memᴰ key rest → Memᴰ key keys)
    → Memᴰ key (if b then k ∷ rest else rest)
    → Memᴰ key (k ∷ keys)
Mem-if true key k rest keys f (Memᴰ.head e) = Memᴰ.head e
Mem-if true key k rest keys f (Memᴰ.tail h) = Memᴰ.tail (f h)
Mem-if false key k rest keys f h = Memᴰ.tail (f h)

filter_keys_sound :
    (test : SignedNoteKey → Bool) (keys : List SignedNoteKey) (key : SignedNoteKey)
    → Memᴰ key (filter_keys test keys)
    → Memᴰ key keys
unfolding filter_keys
filter_keys_sound test [] key h = h
filter_keys_sound test (k ∷ keys) key h =
    Mem-if (test k) key k _ keys (filter_keys_sound test keys key) h

accepted_log_keys_sound :
    (scope : String) (keys : List SignedNoteKey) (key : SignedNoteKey)
    → Memᴰ key (accepted_log_keys scope keys)
    → Memᴰ key keys
unfolding accepted_log_keys
accepted_log_keys_sound scope keys key h = go (str_eq scope "public") h
  where
    go :
        (b : Bool)
        → Memᴰ key (if b then filter_keys (λ k. starts_as_log_type k.signature_type) keys else keys)
        → Memᴰ key keys
    go true rest = filter_keys_sound _ keys key rest
    go false rest = rest

with_times_sound :
    (times : Option (List ℕ)) (result : CheckpointPolicyResult)
    → with_times times ≡ ok result
    → times ≡ some result.accepted_witness_timestamps
with_times_sound none result h = cc
with_times_sound (some ts) result h = ap accepted_of h
  where
    accepted_of : Result PolicyError CheckpointPolicyResult → Option (List ℕ)
    accepted_of (ok r) = some r.accepted_witness_timestamps
    accepted_of (err e) = none

module _ (digest : Bytes → Bytes) (verify : Bytes → Bytes → Bytes → Bool) (checkpoint : Checkpoint)
    (origin : String) (policy : Policy) (scope : String) (now skew : ℕ) where
  -- The normalized policy of the origin, a log key of it that signed the checkpoint, and the witnesses
  -- that its rule asks for; in the public scope the rule is not `none`.
  pub record IsEnforced (result : CheckpointPolicyResult) : Type 0 where
    pub same_origin : checkpoint.origin ≡ origin
    pub applied : NormalizedOriginPolicy
    pub normalized : normalized_origin_policy policy origin ≡ ok applied
    pub log_key : SignedNoteKey
    pub accepted : Memᴰ log_key applied.log_keys
    pub signed : verify_checkpoint_signature verify checkpoint log_key ≡ true
    pub witnessed : IsSatisfied verify checkpoint now skew applied.quorum_rule
    pub returned :
        evaluate_quorum verify checkpoint now skew applied.quorum_rule
        ≡ some result.accepted_witness_timestamps
    pub not_unwitnessed : scope ≡ "public" → applied.quorum_rule ≢ no_witness

  -- A checkpoint passes the policy only with the origin asked for, a valid signature by a log key of
  -- the origin's policy, and a satisfied quorum rule, whose times are returned; in the public scope the
  -- rule is not `none`.
  pub enforce_checkpoint_policy-IsEnforced :
      (result : CheckpointPolicyResult)
      → enforce_checkpoint_policy digest verify checkpoint origin policy scope now skew ≡ ok result
      → IsEnforced result
  unfolding enforce_checkpoint_policy
  enforce_checkpoint_policy-IsEnforced result h =
      elim (Result-cases (normalized_origin_policy policy origin)) [
        | inr (e, failed) ↦ absurd (ground (arith, failed))
        | inl (p, found) ↦
            let usable = accepted_log_keys scope p.log_keys in
            let (key, listed, good) =
              any_key_sound (verify_checkpoint_signature verify checkpoint) usable
                (ground (arith, found)) in
            let times : evaluate_quorum verify checkpoint now skew p.quorum_rule
                ≡ some result.accepted_witness_timestamps =
              with_times_sound _ result (ground (arith, found)) in
            record {
              same_origin = ground (arith, eq_iff checkpoint.origin origin);
              applied = p;
              normalized = found;
              log_key = key;
              accepted = accepted_log_keys_sound scope p.log_keys key listed;
              signed = good;
              witnessed =
                  (evaluate_quorum-IsSatisfied verify checkpoint now skew p.quorum_rule).0
                    (result.accepted_witness_timestamps, times);
              returned = times;
              not_unwitnessed =
                  λ s n. absurd (ground (arith, found, eq_iff scope "public", ap is_no_witness n));
            }
      ]
