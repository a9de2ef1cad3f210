-- ===== src/Trust/Advance.antt =====
-- `verifyCheckpointAdvance`: whether a candidate may replace the checkpoint that was trusted before.
use dnsid_ts.Common.{
  ℕ, suc, Bool, true, not, ◌&&◌, ◌||◌, Option, none, some, List, [], ◌∷◌, map, length, take, ltb,
  leb, ◌==◌, if◌then◌else◌, Bytes, bytes_eq, Result, ok, err, ◌>>◌, throw_if,
}
use dnsid_ts.Merkle.{merkle_root_from_entries}
use dnsid_ts.Consistency.{verify_consistency_proof}
use dnsid_ts.Trust.{
  TrustedCheckpoint, TrustError, log_rollback, log_fork, log_inconsistent, bad_scan,
  proof_unavailable, tiles_unavailable, missing_evidence, contradicts, root_matches,
}

pub record IndexedEntry : Type 0 where
  pub index : ℕ
  pub bytes : Bytes

-- What a caller may bring: the entries of a complete scan, a source of consistency proofs and one of
-- prefix roots from hash tiles. A source answers `none` where it throws.
pub record Evidence : Type 0 where
  pub complete_entries : Option (List IndexedEntry)
  pub consistency_proof_source : Option (ℕ → ℕ → Option (List Bytes))
  pub tile_prefix_root : Option (TrustedCheckpoint → ℕ → Option Bytes)

-- `slice().sort((a, b) => a.index - b.index)`, which keeps the order of equal indices.
unfoldable pub insert_entry : IndexedEntry → List IndexedEntry → List IndexedEntry
insert_entry e [] = e ∷ []
insert_entry e (f ∷ fs) =
    let later = insert_entry e fs in if leb e.index f.index then e ∷ f ∷ fs else f ∷ later

unfoldable pub sort_entries : List IndexedEntry → List IndexedEntry
sort_entries [] = []
sort_entries (e ∷ es) = insert_entry e (sort_entries es)

-- No entry has another index than its position, counted from `position`.
unfoldable pub indices_from : ℕ → List IndexedEntry → Bool
indices_from position [] = true
indices_from position (e ∷ es) = e.index == position && indices_from (suc position) es

abbrev pub entry_bytes : List IndexedEntry → List Bytes
entry_bytes es = map (λ e. e.bytes) es

-- `try { ... } catch (cause) { throw new C2spCheckpointConsistencyError(...) }`
abbrev pub or_inconsistent :
    Result TrustError (Unit {0})
    → TrustedCheckpoint
    → TrustedCheckpoint
    → Result TrustError (Unit {0})
or_inconsistent (ok a) previous candidate = ok a
or_inconsistent (err e) previous candidate = err (contradicts log_inconsistent previous candidate)

unfoldable pub verify_by_tiles :
    Option (TrustedCheckpoint → ℕ → Option Bytes)
    → TrustedCheckpoint
    → TrustedCheckpoint
    → Result TrustError (Unit {0})
verify_by_tiles none previous candidate = err missing_evidence
verify_by_tiles (some source) previous candidate = elim (source candidate previous.tree_size) [
  | none ↦ err tiles_unavailable
  | some root ↦
      throw_if (not (bytes_eq root previous.root_hash))
        (contradicts log_inconsistent previous candidate)
]

module _ (digest : Bytes → Bytes) where
  unfoldable pub verify_complete_entries_prefix :
      List IndexedEntry → TrustedCheckpoint → Result TrustError (Unit {0})
  verify_complete_entries_prefix entries checkpoint = do
    throw_if
        (not (length (take checkpoint.tree_size entries) == checkpoint.tree_size)
          || not (indices_from 0 (take checkpoint.tree_size entries)))
        bad_scan
    throw_if
        (not (
          root_matches
            (merkle_root_from_entries digest (entry_bytes (take checkpoint.tree_size entries)))
            checkpoint.root_hash))
        bad_scan

  unfoldable pub verify_by_proof :
      (ℕ → ℕ → Option (List Bytes))
      → TrustedCheckpoint
      → TrustedCheckpoint
      → Result TrustError (Unit {0})
  verify_by_proof source previous candidate = elim (source previous.tree_size candidate.tree_size) [
    | none ↦ err proof_unavailable
    | some proof ↦
        throw_if
          (not (
            verify_consistency_proof digest previous.root_hash candidate.root_hash
              previous.tree_size candidate.tree_size proof))
          (contradicts log_inconsistent previous candidate)
  ]

  -- The evidence that growth from a checkpoint with entries needs, the first kind at hand.
  unfoldable pub verify_growth :
      Evidence → TrustedCheckpoint → TrustedCheckpoint → Result TrustError (Unit {0})
  verify_growth evidence previous candidate = elim evidence.complete_entries [
    | some entries ↦
        or_inconsistent (verify_complete_entries_prefix (sort_entries entries) previous) previous
          candidate
    | none ↦ elim evidence.consistency_proof_source [
      | some source ↦ verify_by_proof source previous candidate
      | none ↦ verify_by_tiles evidence.tile_prefix_root previous candidate
    ]
  ]

  unfoldable pub verify_scan : Evidence → TrustedCheckpoint → Result TrustError (Unit {0})
  verify_scan evidence candidate = elim evidence.complete_entries [
    | none ↦ ok tt
    | some entries ↦ verify_complete_entries_prefix (sort_entries entries) candidate
  ]

  unfoldable pub verify_against :
      Evidence → Option TrustedCheckpoint → TrustedCheckpoint → Result TrustError (Unit {0})
  verify_against evidence none candidate = ok tt
  verify_against evidence (some previous) candidate =
      if ltb candidate.tree_size previous.tree_size
      then err (contradicts log_rollback previous candidate)
      else if candidate.tree_size == previous.tree_size
      then throw_if (not (bytes_eq candidate.root_hash previous.root_hash))
          (contradicts log_fork previous candidate)
      else if previous.tree_size == 0
      then ok tt
      else verify_growth evidence previous candidate

  unfoldable pub verify_checkpoint_advance :
      Evidence → Option TrustedCheckpoint → TrustedCheckpoint → Result TrustError (Unit {0})
  verify_checkpoint_advance evidence previous candidate = do
    verify_scan evidence candidate
    verify_against evidence previous candidate
