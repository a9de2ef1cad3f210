-- ===== src/Policy/Times.antt =====
-- The times that `evaluateQuorum` returns.
use dnsid_ts.Common.{
  ℕ, zero, suc, ◌+◌, ◌*◌, ◌≤◌, Bool, Option, none, some, List, [], ◌∷◌, ◌++◌, length, take, All,
  All-append, Bytes, Option-cases, Bool-cases, le_or_lt, ◌≡◌, refl, sym, arith, inl, inr,
}
use mathlib.Core.List.{flatten, Memᴰ}
use dnsid_ts.Notes.{SignedNoteKey, Checkpoint, verified_cosignature_timestamp}
use dnsid_ts.Policy.{
  QuorumRule, QuorumRules, no_witness, witness, threshold, no_rule, rule_and, earliest, sorts_after,
  insert_latest, sort_latest, cons_some, accepted_time, evaluate_quorum, evaluate_members,
  collect_witness_keys, collect_members,
}

module _ {A : Type 0} where
  All-map {κ} : (P Q : A → Type κ) → ((a : A) → P a → Q a) → (xs : List A) → All P xs → All Q xs
  All-map P Q f [] h = tt
  All-map P Q f (x ∷ xs) (p, h) = (f x p, All-map P Q f xs h)

  All-take {κ} : (P : A → Type κ) (n : ℕ) (xs : List A) → All P xs → All P (take n xs)
  All-take P zero xs h = tt
  All-take P (suc n) [] h = tt
  All-take P (suc n) (x ∷ xs) (p, h) = (p, All-take P n xs h)

  All-flatten {κ} : (P : A → Type κ) (xss : List (List A)) → All (All P) xss → All P (flatten xss)
  unfolding flatten
  All-flatten P [] h = tt
  All-flatten P (xs ∷ xss) (p, h) = All-append P xs (flatten xss) p (All-flatten P xss h)

  Mem-append-left : (a : A) (xs ys : List A) → Memᴰ a xs → Memᴰ a (xs ++ ys)
  Mem-append-left a [] ys h = elim h [ ]
  Mem-append-left a (x ∷ xs) ys (Memᴰ.head e) = Memᴰ.head e
  Mem-append-left a (x ∷ xs) ys (Memᴰ.tail h) = Memᴰ.tail (Mem-append-left a xs ys h)

  Mem-append-right : (a : A) (xs ys : List A) → Memᴰ a ys → Memᴰ a (xs ++ ys)
  Mem-append-right a [] ys h = h
  Mem-append-right a (x ∷ xs) ys h = Memᴰ.tail (Mem-append-right a xs ys h)

All-insert_latest :
    (P : List ℕ → Type 0) (a : List ℕ) (bs : List (List ℕ))
    → P a
    → All P bs
    → All P (insert_latest a bs)
unfolding insert_latest
All-insert_latest P a [] p h = (p, tt)
All-insert_latest P a (b ∷ bs) p (q, h) =
    elim (Bool-cases (sorts_after (earliest a) (earliest b))) [
      | inl after ↦ rw after (q, All-insert_latest P a bs p h)
      | inr before ↦ rw before (p, (q, h))
    ]

All-sort_latest :
    (P : List ℕ → Type 0) (found : List (List ℕ)) → All P found → All P (sort_latest found)
unfolding sort_latest
All-sort_latest P [] h = tt
All-sort_latest P (a ∷ rest) (p, h) =
    All-insert_latest P a (sort_latest rest) p (All-sort_latest P rest h)

All-cons_some :
    (P : List ℕ → Type 0) (o : Option (List ℕ)) (rest : List (List ℕ))
    → ((ts : List ℕ) → o ≡ some ts → P ts)
    → All P rest
    → All P (cons_some o rest)
All-cons_some P none rest f h = h
All-cons_some P (some ts) rest f h = (f ts refl, h)

module _ (verify : Bytes → Bytes → Bytes → Bool) (checkpoint : Checkpoint) (now skew : ℕ) where
  -- A time at which one of the keys signed, and which is not in the future.
  pub record IsWitnessed (keys : List SignedNoteKey) (timestamp : ℕ) : Type 0 where
    pub key : SignedNoteKey
    pub listed : Memᴰ key keys
    pub signed : verified_cosignature_timestamp verify checkpoint key ≡ some timestamp
    pub in_time : timestamp * 1000 ≤ now + skew

  widen :
      (keys more : List SignedNoteKey)
      → ((k : SignedNoteKey) → Memᴰ k keys → Memᴰ k more)
      → (ts : List ℕ) → All (IsWitnessed keys) ts
      → All (IsWitnessed more) ts
  widen keys more f ts h =
      let still : (t : ℕ) → IsWitnessed keys t → IsWitnessed more t = λ t w. record {
        key = w.key;
        listed = f w.key w.listed;
        signed = w.signed;
        in_time = w.in_time;
      } in
      All-map (IsWitnessed keys) (IsWitnessed more) still ts h

  accepted_time-IsWitnessed :
      (key : SignedNoteKey) (ts : List ℕ)
      → accepted_time (verified_cosignature_timestamp verify checkpoint key) now skew ≡ some ts
      → All (IsWitnessed (key ∷ [])) ts
  accepted_time-IsWitnessed key ts h =
      elim (Option-cases (verified_cosignature_timestamp verify checkpoint key)) [
        | inl absent ↦ absurd (ground (arith, absent))
        | inr (t, found) ↦ elim (le_or_lt (t * 1000) (now + skew)) [
          | inr late ↦ absurd (ground (arith, found))
          | inl early ↦
              let e : t ∷ [] ≡ ts = ground (arith, found) in
              rw (sym e)
                (record { key = key; listed = Memᴰ.head refl; signed = found; in_time = early }, tt)
        ]
      ]

  mutual
    unfolding evaluate_quorum evaluate_members collect_witness_keys collect_members

    rule-IsWitnessed :
        (rule : QuorumRule) (ts : List ℕ)
        → evaluate_quorum verify checkpoint now skew rule ≡ some ts
        → All (IsWitnessed (collect_witness_keys rule)) ts
    rule-IsWitnessed no_witness ts h = let e : [] ≡ ts = cc in rw (sym e) tt
    rule-IsWitnessed (witness key) ts h = accepted_time-IsWitnessed key ts h
    rule-IsWitnessed (threshold n members) ts h =
        let found = evaluate_members verify checkpoint now skew members in
        let sorted = sort_latest found in
        let own = All (IsWitnessed (collect_members members)) in
        elim (le_or_lt n (length sorted)) [
          | inr short ↦ absurd (ground arith)
          | inl reached ↦
              let e : flatten (take n sorted) ≡ ts = ground arith in
              rw (sym e) (
                All-flatten _ (take n sorted)
                  (All-take own n sorted (All-sort_latest own found (members-IsWitnessed members))))
        ]

    members-IsWitnessed :
        (rules : QuorumRules)
        → All
            (All (IsWitnessed (collect_members rules)))
            (evaluate_members verify checkpoint now skew rules)
    members-IsWitnessed no_rule = tt
    members-IsWitnessed (rule_and rule rules) =
        let mine = collect_witness_keys rule in
        let theirs = collect_members rules in
        All-cons_some (All (IsWitnessed (mine ++ theirs)))
          (evaluate_quorum verify checkpoint now skew rule) _
          (λ ts found.
            widen mine (mine ++ theirs) (λ k. Mem-append-left k mine theirs) ts
              (rule-IsWitnessed rule ts found))
          (All-map (All (IsWitnessed theirs)) (All (IsWitnessed (mine ++ theirs)))
            (widen theirs (mine ++ theirs) (λ k. Mem-append-right k mine theirs)) _
            (members-IsWitnessed rules))

  -- Every time that `evaluateQuorum` returns is that of a verified cosignature by a witness key of the
  -- rule, and lies no further in the future than the clock skew allows.
  pub evaluate_quorum-IsWitnessed :
      (rule : QuorumRule) (ts : List ℕ)
      → evaluate_quorum verify checkpoint now skew rule ≡ some ts
      → All (IsWitnessed (collect_witness_keys rule)) ts
  evaluate_quorum-IsWitnessed = rule-IsWitnessed
