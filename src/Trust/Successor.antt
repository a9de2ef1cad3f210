-- ===== src/Trust/Successor.antt =====
-- What an accepted advance shows, and that equal checkpoints are one.
use dnsid_ts.Common.{
  ℕ, ◌<◌, true, Option, none, some, List, take, take-map, ==_iff, Bytes, bytes_eq_sound, eq_iff,
  Result, ok, err, >>=-eq-ok, Option-cases, le_or_lt, ◌≡◌, refl, sym, ap, arith, inl, inr,
}
use dnsid_ts.Merkle.{merkle_root_from_entries}
use dnsid_ts.Consistency.{verify_consistency_proof}
use dnsid_ts.Trust.{TrustedCheckpoint, TrustError, root_matches, same_checkpoint, same_time}
use dnsid_ts.Trust.Advance.{
  Evidence, IndexedEntry, sort_entries, entry_bytes, verify_complete_entries_prefix, verify_growth,
  verify_scan, verify_against, verify_by_tiles, verify_by_proof, verify_checkpoint_advance,
  or_inconsistent,
}

same_time_sound : (a b : Option ℕ) → same_time a b ≡ true → a ≡ b
same_time_sound none b h = cc
same_time_sound (some a) none h = cc
same_time_sound (some a) (some b) h = ap some ((==_iff a b).0 h)

checkpoint_ext :
    (l r : TrustedCheckpoint)
    → l.origin ≡ r.origin
    → l.tree_size ≡ r.tree_size
    → l.witness_time ≡ r.witness_time
    → l.root_hash ≡ r.root_hash
    → l ≡ r
checkpoint_ext l r o s w h i = record {
  origin = o i;
  tree_size = s i;
  root_hash = h i;
  witness_time = w i;
}

pub same_checkpoint_sound : (l r : Option TrustedCheckpoint) → same_checkpoint l r ≡ true → l ≡ r
unfolding same_checkpoint
same_checkpoint_sound none none h = refl
same_checkpoint_sound none (some r) h = cc
same_checkpoint_sound (some l) none h = cc
same_checkpoint_sound (some l) (some r) h = ap some (
    checkpoint_ext l r (ground (arith, eq_iff l.origin r.origin)) (ground arith)
      (same_time_sound l.witness_time r.witness_time (ground arith))
      (bytes_eq_sound l.root_hash r.root_hash (ground arith)))

module _ (digest : Bytes → Bytes) where
  -- The evidence for a larger tree, after a tree with entries. With a scan the two trees are of two
  -- prefixes of one list.
  pub data Growth (evidence : Evidence) (previous candidate : TrustedCheckpoint) : Type 0 where
    scanned :
        (entries : List Bytes)
        → merkle_root_from_entries digest (take previous.tree_size entries)
          ≡ some previous.root_hash
        → merkle_root_from_entries digest (take candidate.tree_size entries)
          ≡ some candidate.root_hash
        → Growth evidence previous candidate
    proved :
        (source : ℕ → ℕ → Option (List Bytes)) (proof : List Bytes)
        → evidence.consistency_proof_source ≡ some source
        → source previous.tree_size candidate.tree_size ≡ some proof
        → verify_consistency_proof digest previous.root_hash candidate.root_hash previous.tree_size
            candidate.tree_size proof
          ≡ true
        → Growth evidence previous candidate
    tiled :
        (source : TrustedCheckpoint → ℕ → Option Bytes)
        → evidence.tile_prefix_root ≡ some source
        → source candidate previous.tree_size ≡ some previous.root_hash
        → Growth evidence previous candidate

  pub data Successor (evidence : Evidence)
      : Option TrustedCheckpoint → TrustedCheckpoint → Type 0 where
    first : (candidate : TrustedCheckpoint) → Successor evidence none candidate
    same :
        (previous candidate : TrustedCheckpoint)
        → previous.tree_size ≡ candidate.tree_size
        → previous.root_hash ≡ candidate.root_hash
        → Successor evidence (some previous) candidate
    from_empty :
        (previous candidate : TrustedCheckpoint)
        → previous.tree_size ≡ 0
        → 0 < candidate.tree_size
        → Successor evidence (some previous) candidate
    grown :
        (previous candidate : TrustedCheckpoint)
        → previous.tree_size < candidate.tree_size
        → Growth evidence previous candidate
        → Successor evidence (some previous) candidate

  root_matches_sound :
      (o : Option Bytes) (root : Bytes) → root_matches o root ≡ true → o ≡ some root
  unfolding root_matches
  root_matches_sound none root h = cc
  root_matches_sound (some r) root h = ap some (bytes_eq_sound r root h)

  verify_complete_entries_prefix_sound :
      (es : List IndexedEntry) (c : TrustedCheckpoint)
      → verify_complete_entries_prefix digest es c ≡ ok tt
      → merkle_root_from_entries digest (entry_bytes (take c.tree_size es)) ≡ some c.root_hash
  unfolding verify_complete_entries_prefix
  verify_complete_entries_prefix_sound es c h = root_matches_sound _ c.root_hash (ground arith)

  module _ (evidence : Evidence) (p c : TrustedCheckpoint) where
    verify_by_tiles_sound :
        verify_by_tiles evidence.tile_prefix_root p c ≡ ok tt → Growth evidence p c
    unfolding verify_by_tiles
    verify_by_tiles_sound h = elim (Option-cases evidence.tile_prefix_root) [
      | inl no_source ↦ absurd (ground (arith, no_source))
      | inr (source, found) ↦ elim (Option-cases (source c p.tree_size)) [
        | inl no_root ↦ absurd (ground (arith, found, no_root))
        | inr (root, answered) ↦
            let same_root : root ≡ p.root_hash =
              bytes_eq_sound root p.root_hash (ground (arith, found, answered)) in
            tiled source found (cc (answered, same_root))
      ]
    ]

    verify_by_proof_sound :
        (source : ℕ → ℕ → Option (List Bytes))
        → evidence.consistency_proof_source ≡ some source
        → verify_by_proof digest source p c ≡ ok tt
        → Growth evidence p c
    unfolding verify_by_proof
    verify_by_proof_sound source found h = elim (Option-cases (source p.tree_size c.tree_size)) [
      | inl no_proof ↦ absurd (ground (arith, no_proof))
      | inr (proof, answered) ↦ proved source proof found answered (ground (arith, answered))
    ]

    or_inconsistent_sound :
        (r : Result TrustError (Unit {0})) → or_inconsistent r p c ≡ ok tt → r ≡ ok tt
    or_inconsistent_sound (ok tt) h = refl
    or_inconsistent_sound (err e) h = cc

    scanned_both :
        (es : List IndexedEntry)
        → verify_complete_entries_prefix digest es p ≡ ok tt
        → verify_complete_entries_prefix digest es c ≡ ok tt
        → Growth evidence p c
    scanned_both es h k =
        scanned (entry_bytes es)
          (rw (take-map (λ e. e.bytes) p.tree_size es)
            (verify_complete_entries_prefix_sound es p h))
          (rw (take-map (λ e. e.bytes) c.tree_size es)
            (verify_complete_entries_prefix_sound es c k))

    verify_growth_sound :
        verify_scan digest evidence c ≡ ok tt
        → verify_growth digest evidence p c ≡ ok tt
        → Growth evidence p c
    unfolding verify_growth verify_scan
    verify_growth_sound g h = elim (Option-cases evidence.complete_entries) [
      | inr (es, given) ↦
          scanned_both (sort_entries es) (or_inconsistent_sound _ (ground (arith, given)))
            (ground (arith, given))
      | inl no_scan ↦ elim (Option-cases evidence.consistency_proof_source) [
        | inr (source, found) ↦ verify_by_proof_sound source found (ground (arith, no_scan, found))
        | inl no_source ↦ verify_by_tiles_sound (ground (arith, no_scan, no_source))
      ]
    ]

  -- An accepted candidate is the first one, or has the size and root of the trusted checkpoint, or follows
  -- an empty tree, or is of a larger tree with evidence: a scan whose prefixes have both roots, an
  -- accepted consistency proof, or hash tiles whose prefix root is the trusted one.
  pub verify_checkpoint_advance-Successor :
      (evidence : Evidence) (previous : Option TrustedCheckpoint) (candidate : TrustedCheckpoint)
      → verify_checkpoint_advance digest evidence previous candidate ≡ ok tt
      → Successor evidence previous candidate
  unfolding verify_checkpoint_advance verify_against
  verify_checkpoint_advance-Successor evidence none c h = first c
  verify_checkpoint_advance-Successor evidence (some p) c h =
      let (_, scan, against) = >>=-eq-ok (verify_scan digest evidence c) _ h in
      elim (le_or_lt p.tree_size c.tree_size) [
        | inr smaller ↦ absurd (ground (arith, against))
        | inl larger ↦ elim (le_or_lt c.tree_size p.tree_size) [
          | inl equal ↦
              same p c (omega arith)
                (sym (bytes_eq_sound c.root_hash p.root_hash (ground (arith, against))))
          | inr grew ↦ elim (le_or_lt p.tree_size 0) [
            | inl empty ↦ from_empty p c (omega arith) (omega arith)
            | inr nonempty ↦
                grown p c grew (verify_growth_sound evidence p c scan (ground (arith, against)))
          ]
        ]
      ]
