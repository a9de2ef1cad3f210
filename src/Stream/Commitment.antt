-- ===== src/Stream/Commitment.antt =====
-- The last event of an accepted stream commits to all the events before it, if the chain fields of each
-- event were read in its bytes, as parseC2spEventEntry of event-codec.ts does.
use dnsid_ts.Common.{
  ℕ, suc, Bool, false, Option, some, Option-cases, str_eq, eq_iff, arith, String, List, [], ◌∷◌,
  ◌++◌, map, All, All-split, Bytes, Bytes-discrete, codes, ok, ◌≡◌, ◌≢◌, ◌⊎◌, inl, inr, refl, sym,
  ap, ◌∙◌,
}
use mathlib.Core.List.{map-append}
use dnsid_ts.Stream.Evidence.{number, text, VerifiedEvent, Options, Suite, c2sp_event_id}
use dnsid_ts.Stream.Envelopes.{
  Codec, Envelope, member, without, parse_chain_fields, canonicalize_unknown_c2sp_envelope,
  signed_c2sp_entry_bytes, with_codec,
}
use dnsid_ts.Stream.Verifier.{LifecycleKeys, Progress, verify_lifecycle}
use dnsid_ts.Stream.Lineage.{Lineage, founded, extended, issued, imported, rotated, confirmed}
use dnsid_ts.Stream.Reached.{verify_lifecycle-Lineage}

-- Two inputs of one digest.
abbrev pub Collides : (Bytes → String) → Type 0
Collides digest = (x : Bytes) × (y : Bytes) × (x ≢ y) × (digest x ≡ digest y)

append_cancel : (p x y : Bytes) → p ++ x ≡ p ++ y → x ≡ y
append_cancel [] x y e = e
append_cancel (b ∷ p) x y e = append_cancel p x y (cc)

zero_or_suc : {n : ℕ} → number 0 ≡ number (suc n) → ⊥
zero_or_suc h = cc

text_injective : {s t : String} → text s ≡ text t → s ≡ t
text_injective h = cc

snoc_injective :
    (xs ys : List VerifiedEvent) (x y : VerifiedEvent) → xs ++ x ∷ [] ≡ ys ++ y ∷ [] → x ≡ y
snoc_injective [] [] x y e = cc
snoc_injective [] (b ∷ []) x y e = cc
snoc_injective [] (b ∷ c ∷ ys) x y e = cc
snoc_injective (a ∷ []) [] x y e = cc
snoc_injective (a ∷ c ∷ xs) [] x y e = cc
snoc_injective (a ∷ xs) (b ∷ ys) x y e = snoc_injective xs ys x y (cc)

module _ (suite : Suite) where
  abbrev pub signed_of : VerifiedEvent → Option Bytes
  signed_of item = suite.signed_entry_bytes item.bytes

  c2sp_event_id_injective_or :
      (x y : Bytes)
      → c2sp_event_id suite x ≡ c2sp_event_id suite y
      → (x ≡ y) ⊎ Collides suite.digest
  c2sp_event_id_injective_or x y e = elim (Bytes-discrete x y) [
    | yes same ↦ inl same
    | no differ ↦ inr (
      codes "dnsid-c2sp-event-v1" ++ 0 ∷ x,
      codes "dnsid-c2sp-event-v1" ++ 0 ∷ y,
      λ same. differ (cc (append_cancel (codes "dnsid-c2sp-event-v1") (0 ∷ x) (0 ∷ y) same)),
      e,
    )
  ]

  -- For events that `IsRead` holds of, the signed bytes determine the chain fields.
  abbrev pub Determines : (VerifiedEvent → Type 0) → Type 0
  Determines IsRead =
      (a b : VerifiedEvent) (signed : Bytes)
      → IsRead a
      → IsRead b
      → signed_of a ≡ some signed
      → signed_of b ≡ some signed
      → a.chain ≡ b.chain

  module _ (IsRead : VerifiedEvent → Type 0) (determined : Determines IsRead) where
    Lineage-signed :
        (o : Options) {items : List VerifiedEvent} {last : VerifiedEvent} {keys : LifecycleKeys}
        {ended : Bool}
        → Lineage suite o items last keys ended
        → (signed : Bytes) × (signed_of last ≡ some signed)
    Lineage-signed o (founded item _ (issued _ _ _ _ facts) _) =
        (facts.signed.signed, facts.signed.entry)
    Lineage-signed o (founded item _ (imported _ _ _ _ facts) _) =
        (facts.signed.signed, facts.signed.entry)
    Lineage-signed o (extended item _ _ (rotated _ _ _ _ facts) _) =
        (facts.signed.signed, facts.signed.entry)
    Lineage-signed o (extended item _ _ (confirmed _ _ _ signed) _) = (signed.signed, signed.entry)

    pub Lineage-ends :
        (o : Options) (items : List VerifiedEvent) (last : VerifiedEvent)
        {whole : List VerifiedEvent} {z : VerifiedEvent} {keys : LifecycleKeys} {ended : Bool}
        → Lineage suite o whole z keys ended
        → whole ≡ items ++ last ∷ []
        → z ≡ last
    Lineage-ends o items last (founded item _ _ _) e = snoc_injective [] items item last e
    Lineage-ends o items last (extended {items = before} item _ _ _ _) e =
        snoc_injective before items item last e

    same_chain :
        (o o' : Options) {items items' : List VerifiedEvent} {last last' : VerifiedEvent}
        {keys keys' : LifecycleKeys} {ended ended' : Bool}
        → Lineage suite o items last keys ended
        → Lineage suite o' items' last' keys' ended'
        → IsRead last
        → IsRead last'
        → signed_of last ≡ signed_of last'
        → last.chain ≡ last'.chain
    same_chain o o' {last = last} {last' = last'} l l' parsed parsed' same =
        let (signed, entry) = Lineage-signed o l in
        determined last last' signed parsed parsed' entry (sym same ∙ entry)

    map_snoc :
        (items items' : List VerifiedEvent) (last last' : VerifiedEvent)
        → map signed_of items ≡ map signed_of items'
        → signed_of last ≡ signed_of last'
        → map signed_of (items ++ last ∷ []) ≡ map signed_of (items' ++ last' ∷ [])
    map_snoc items items' last last' before same =
        rw
          (
            map-append signed_of items (last ∷ []),
            map-append signed_of items' (last' ∷ []),
            before,
            same,
          )
          refl

    last-IsRead :
        (o : Options) {items : List VerifiedEvent} {last : VerifiedEvent} {keys : LifecycleKeys}
        {ended : Bool}
        → Lineage suite o items last keys ended
        → All IsRead items
        → IsRead last
    last-IsRead o (founded item _ _ _) (parsed, _) = parsed
    last-IsRead o (extended {items} item _ _ _ _) all = (All-split IsRead items (item ∷ []) all).1.0

    pub Lineage-commits :
        (o o' : Options) {items items' : List VerifiedEvent} {last last' : VerifiedEvent}
        {keys keys' : LifecycleKeys} {ended ended' : Bool}
        → Lineage suite o items last keys ended
        → Lineage suite o' items' last' keys' ended'
        → All IsRead items
        → All IsRead items'
        → signed_of last ≡ signed_of last'
        → (map signed_of items ≡ map signed_of items') ⊎ Collides suite.digest
    Lineage-commits o o' (founded item numbered f t) (founded item' numbered' f' t') p p' same =
        inl (rw same refl)
    Lineage-commits o o' (founded item numbered f t) (extended item' before' linked' e' t') p p'
          same =
        let chains =
          same_chain o o' (founded item numbered f t) (extended item' before' linked' e' t')
            (last-IsRead o (founded item numbered f t) p)
            (last-IsRead o' (extended item' before' linked' e' t') p') same in
        absurd (zero_or_suc (sym numbered ∙ ap (λ c. c.seq) chains ∙ linked'.numbered))
    Lineage-commits o o' (extended item before linked e t) (founded item' numbered' f' t') p p'
          same =
        let chains =
          same_chain o o' (extended item before linked e t) (founded item' numbered' f' t')
            (last-IsRead o (extended item before linked e t) p)
            (last-IsRead o' (founded item' numbered' f' t') p') same in
        absurd (zero_or_suc (sym numbered' ∙ ap (λ c. c.seq) (sym chains) ∙ linked.numbered))
    Lineage-commits o o' (extended {items} {prev} item before linked e t)
          (extended {items = items'} {prev = prev'} item' before' linked' e' t') p p' same =
        let chains =
          same_chain o o' (extended item before linked e t) (extended item' before' linked' e' t')
            (last-IsRead o (extended item before linked e t) p)
            (last-IsRead o' (extended item' before' linked' e' t') p') same in
        let ids : c2sp_event_id suite linked.prev_signed ≡ c2sp_event_id suite linked'.prev_signed =
          text_injective
            (sym linked.names_prev ∙ ap (λ c. c.prev_event_id) chains ∙ linked'.names_prev) in
        elim (c2sp_event_id_injective_or linked.prev_signed linked'.prev_signed ids) [
          | inr collision ↦ inr collision
          | inl one ↦
              let prevs : signed_of prev ≡ signed_of prev' =
                linked.prev_entry ∙ ap some one ∙ sym linked'.prev_entry in
              elim (Lineage-commits o o' before before' (All-split IsRead items (item ∷ []) p).0
                (All-split IsRead items' (item' ∷ []) p').0 prevs) [
                  | inr collision ↦ inr collision
                  | inl earlier ↦ inl (map_snoc items items' item item' earlier same)
                ]
        ]

member-without :
    (gone name : String) (e : Envelope)
    → str_eq gone name ≡ false
    → member name (without gone e) ≡ member name e
unfolding member without
member-without gone name [] apart = refl
member-without gone name ((other, value) ∷ rest) apart =
    ground (arith, eq_iff other gone, member-without gone name rest apart)

signed_c2sp_entry_bytes-eq-some :
    (codec : Codec) (bytes : Bytes) {signed : Bytes}
    → signed_c2sp_entry_bytes codec bytes ≡ some signed
    → (obj : Envelope) × (codec.parse bytes ≡ some obj)
      × (codec.canonical (without "sigs" obj) ≡ signed)
unfolding signed_c2sp_entry_bytes canonicalize_unknown_c2sp_envelope
signed_c2sp_entry_bytes-eq-some codec bytes h = elim (Option-cases (codec.parse bytes)) [
  | inl failed ↦ absurd (ground (arith, failed))
  | inr (obj, parsed) ↦ (obj, parsed, ground (arith, parsed))
]

module _ (codec : Codec) where
  -- Of objects that were parsed, the canonical JSON without signatures determines the members in it.
  abbrev pub IsCanonical : Type 0
  IsCanonical =
      (x y : Bytes) (a b : Envelope)
      → codec.parse x ≡ some a
      → codec.parse y ≡ some b
      → codec.canonical (without "sigs" a) ≡ codec.canonical (without "sigs" b)
      → (name : String) → member name (without "sigs" a) ≡ member name (without "sigs" b)

  -- An item with the chain fields that parseC2spEventEntry reads in its bytes.
  abbrev pub IsRead : VerifiedEvent → Type 0
  IsRead item =
      (obj : Envelope) → codec.parse item.bytes ≡ some obj → item.chain ≡ parse_chain_fields obj

  same_fields :
      (a b : Envelope)
      → ((name : String) → member name (without "sigs" a) ≡ member name (without "sigs" b))
      → parse_chain_fields a ≡ parse_chain_fields b
  unfolding parse_chain_fields
  same_fields a b same =
      rw
        (
          kept "seq" refl,
          kept "prev_event_id" refl,
          kept "prev_state_hash" refl,
          kept "event_id" refl,
          kept "prev_index" refl,
          kept "prev_leaf_hash" refl,
        )
        refl
    where
      kept : (name : String) → str_eq "sigs" name ≡ false → member name a ≡ member name b
      kept name apart =
          sym (member-without "sigs" name a apart) ∙ same name ∙ member-without "sigs" name b apart

  IsRead-Determines : (suite : Suite) → IsCanonical → Determines (with_codec codec suite) IsRead
  IsRead-Determines suite canonical a b signed read read' h h' =
      let (obj, parsed, bytes) = signed_c2sp_entry_bytes-eq-some codec a.bytes h in
      let (obj', parsed', bytes') = signed_c2sp_entry_bytes-eq-some codec b.bytes h' in
      read obj parsed
      ∙ same_fields obj obj'
          (canonical a.bytes b.bytes obj obj' parsed parsed' (bytes ∙ sym bytes'))
      ∙ sym (read' obj' parsed')

  -- Let the canonical JSON of an envelope without signatures determine its members, and let the chain fields
  -- of every event of two streams be those that are read in its bytes. If verifyLifecycle accepts both
  -- streams, and they end with the same signed bytes, they hold the same signed bytes at every position, or
  -- two inputs of one digest are found.
  pub verify_lifecycle-commits :
      (suite : Suite) (o o' : Options) (items items' : List VerifiedEvent)
      (last last' : VerifiedEvent) {s s' : Progress}
      → IsCanonical
      → verify_lifecycle (with_codec codec suite) o (items ++ last ∷ []) ≡ ok s
      → verify_lifecycle (with_codec codec suite) o' (items' ++ last' ∷ []) ≡ ok s'
      → All IsRead (items ++ last ∷ [])
      → All IsRead (items' ++ last' ∷ [])
      → signed_c2sp_entry_bytes codec last.bytes ≡ signed_c2sp_entry_bytes codec last'.bytes
      → (map (λ i. signed_c2sp_entry_bytes codec i.bytes) (items ++ last ∷ [])
          ≡ map (λ i. signed_c2sp_entry_bytes codec i.bytes) (items' ++ last' ∷ []))
        ⊎ Collides suite.digest
  verify_lifecycle-commits suite o o' items items' last last' canonical h h' p p' same =
      let whole = with_codec codec suite in
      let determined = IsRead-Determines suite canonical in
      let (z, _, _, l) = verify_lifecycle-Lineage whole o (items ++ last ∷ []) h in
      let (z', _, _, l') = verify_lifecycle-Lineage whole o' (items' ++ last' ∷ []) h' in
      let ends : z ≡ last = Lineage-ends whole IsRead determined o items last l refl in
      let ends' : z' ≡ last' = Lineage-ends whole IsRead determined o' items' last' l' refl in
      Lineage-commits whole IsRead determined o o' l l' p p' (rw (ends, ends') same)
