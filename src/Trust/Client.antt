-- ===== src/Trust/Client.antt =====
-- `advanceC2spCheckpoint`, one call of it: its checks at the start, and the rounds of its loop. Between two
-- of its store calls other callers run, so a round is three turns.
use dnsid_ts.Common.{
  Bool, true, false, not, ◌&&◌, ◌||◌, if◌then◌else◌, Option, String, Bytes, [], ◌==◌, Result, ok,
  err, ◌>>=◌, ◌>>◌, throw_if,
}
use dnsid_ts.Merkle.{merkle_root_from_entries}
use dnsid_ts.Trust.{
  TrustedCheckpoint, TrustError, aborted_signal, canceled, store_error, empty_root, root_matches,
  validate_checkpoint,
}
use dnsid_ts.Trust.Store.{Checkpoints, load, compare_and_swap, validate_expected}
use dnsid_ts.Trust.Advance.{Evidence, verify_checkpoint_advance}

-- Where a call stands: about to load, to verify, or to swap; or at its end.
pub data Phase : Type 0 where
  loading : Phase
  verifying : Option TrustedCheckpoint → Phase
  swapping : Option TrustedCheckpoint → Phase
  returned : TrustedCheckpoint → Phase
  thrown : TrustError → Phase

pub record Client : Type 0 where
  pub reference_origin : String
  pub candidate : TrustedCheckpoint
  pub phase : Phase

abbrev pub in_phase : Client → Phase → Client
in_phase c p = record c { phase = p }

-- `storeOperation`: whatever the store throws is a store error, but its report of an aborted signal.
abbrev pub as_store_error : TrustError → TrustError
as_store_error aborted_signal = canceled
as_store_error _ = store_error

module _ {A : Type 0} where
  abbrev pub store_operation : Result TrustError A → Result TrustError A
  store_operation (ok a) = ok a
  store_operation (err e) = err (as_store_error e)

abbrev pub after_load : Result TrustError (Option TrustedCheckpoint) → Phase
after_load (ok previous) = verifying previous
after_load (err e) = thrown e

abbrev pub after_verify : Option TrustedCheckpoint → Result TrustError (Unit {0}) → Phase
after_verify previous (ok _) = swapping previous
after_verify previous (err e) = thrown e

-- A lost race starts another round.
abbrev pub after_swap :
    TrustedCheckpoint → Checkpoints → Result TrustError (Bool × Checkpoints) → Phase × Checkpoints
after_swap candidate store (ok (true, swapped)) = (returned candidate, swapped)
after_swap candidate store (ok (false, swapped)) = (loading, swapped)
after_swap candidate store (err e) = (thrown e, store)

-- `waitForVerification`: an abort before or during an operation takes the place of its result, and not of
-- what it stored.
abbrev pub unless_aborted : Bool → Phase × Checkpoints → Phase × Checkpoints
unless_aborted aborted next = (if aborted then thrown canceled else next.0, next.1)

module _ (digest : Bytes → Bytes) where
  -- The checks before the loop.
  unfoldable pub begin_advance : String → TrustedCheckpoint → Result TrustError Client
  begin_advance reference_origin input = do
    throw_if
        (input.tree_size == 0
          && not (root_matches (merkle_root_from_entries digest []) input.root_hash))
        empty_root
    validate_checkpoint digest input reference_origin
    ok (record { reference_origin = reference_origin; candidate = input; phase = loading })

  unfoldable pub load_previous :
      Bool → String → Checkpoints → Result TrustError (Option TrustedCheckpoint)
  load_previous aborted origin store =
      store_operation
        (do loaded ← load aborted origin store; validate_expected digest loaded origin; ok loaded)

  -- One turn of a call in its phase, with the evidence as it then is, and the signal before it and late,
  -- when its result comes.
  unfoldable pub turn :
      Bool
      → Bool
      → Evidence
      → String
      → TrustedCheckpoint
      → Phase
      → Checkpoints
      → Phase × Checkpoints
  turn aborted late evidence origin candidate loading store =
      unless_aborted (aborted || late) (after_load (load_previous aborted origin store), store)
  turn aborted late evidence origin candidate (verifying previous) store =
      unless_aborted (aborted || late) (
        after_verify previous (verify_checkpoint_advance digest evidence previous candidate),
        store,
      )
  turn aborted late evidence origin candidate (swapping previous) store =
      unless_aborted (aborted || late) (
        after_swap candidate store
          (store_operation (compare_and_swap digest aborted origin previous candidate store)))
  turn aborted late evidence origin candidate (returned c) store = (returned c, store)
  turn aborted late evidence origin candidate (thrown e) store = (thrown e, store)
