-- ===== src/Trust/World.antt =====
-- Any number of calls of `advanceC2spCheckpoint` on one in-memory store, their turns in any order.
use dnsid_ts.Common.{
  Bool, true, false, ◌||◌, if◌then◌else◌, Option, none, some, String, List, [], ◌∷◌, ◌++◌, All,
  Bytes, Result, ok, err, Bool-cases, ◌≡◌, refl, arith, ◌⊎◌, inl, inr,
}
use dnsid_ts.Trust.{TrustedCheckpoint, TrustError, canceled, validate_checkpoint, same_checkpoint}
use dnsid_ts.Trust.Store.{Checkpoints, set, compare_and_swap}
use dnsid_ts.Trust.Advance.{Evidence, verify_checkpoint_advance}
use dnsid_ts.Trust.Client.{
  Phase, loading, verifying, swapping, returned, thrown, Client, in_phase, begin_advance, turn,
  store_operation, after_load, after_verify, after_swap,
}
use dnsid_ts.Trust.Successor.{same_checkpoint_sound}

pub record World : Type 0 where
  pub store : Checkpoints
  pub clients : List Client

-- Nothing is stored yet, and nobody calls.
abbrev pub empty_world : World
empty_world = record { store = λ _. none; clients = [] }

module _ (digest : Bytes → Bytes) where
  abbrev pub after_turn :
      Bool → Bool → Evidence → Checkpoints → List Client → Client → List Client → World
  after_turn aborted late evidence store before c after =
      let next = turn digest aborted late evidence c.reference_origin c.candidate c.phase store in
      record { store = next.1; clients = before ++ in_phase c next.0 ∷ after }

  -- A new call whose arguments pass its checks, or a turn of a call.
  pub data Step : World → World → Type 0 where
    call :
        {store : Checkpoints} {clients : List Client} (origin : String) (input : TrustedCheckpoint)
        (c : Client)
        → begin_advance digest origin input ≡ ok c
        → Step
            (record { store = store; clients = clients })
            (record { store = store; clients = c ∷ clients })
    take_turn :
        (store : Checkpoints) (before : List Client) (c : Client) (after : List Client)
        (aborted late : Bool) (evidence : Evidence)
        → Step
            (record { store = store; clients = before ++ c ∷ after })
            (after_turn aborted late evidence store before c after)

  pub data Run (w : World) : World → Type 0 where
    stop : Run w w
    step : {v u : World} → Run w v → Step v u → Run w u

  abbrev pub IsVerified : Option TrustedCheckpoint → TrustedCheckpoint → Type 0
  IsVerified previous candidate =
      (evidence : Evidence) × (verify_checkpoint_advance digest evidence previous candidate ≡ ok tt)

  -- What was stored for an origin, one after the other: each was verified against the one before it.
  pub data Chain (origin : String) (old : Option TrustedCheckpoint)
      : Option TrustedCheckpoint → Type 0 where
    unchanged : Chain origin old old
    advanced :
        {current : Option TrustedCheckpoint} (candidate : TrustedCheckpoint)
        → Chain origin old current
        → validate_checkpoint digest candidate origin ≡ ok tt
        → IsVerified current candidate
        → Chain origin old (some candidate)

  -- A call that is about to swap has verified its candidate against what it read.
  abbrev pub IsReady : TrustedCheckpoint → Phase → Type 0
  IsReady candidate (swapping previous) = IsVerified previous candidate
  IsReady candidate _ = Unit

  abbrev pub IsSound : Client → Type 0
  IsSound c =
      (validate_checkpoint digest c.candidate c.reference_origin ≡ ok tt)
      × IsReady c.candidate c.phase

  pub begin_advance-IsSound :
      (origin : String) (input : TrustedCheckpoint) (c : Client)
      → begin_advance digest origin input ≡ ok c
      → IsSound c
  unfolding begin_advance
  begin_advance-IsSound origin input c h = ground arith

  pub All-middle :
      (before : List Client) (c : Client) (after : List Client) (d : Client)
      → All IsSound (before ++ c ∷ after)
      → IsSound c × (IsSound d → All IsSound (before ++ d ∷ after))
  All-middle [] c after d (sound, rest) = (sound, λ k. (k, rest))
  All-middle (b ∷ before) c after d (sound, rest) =
      let (mid, back) = All-middle before c after d rest in (mid, λ k. (sound, back k))

  module _ (origin : String) (candidate : TrustedCheckpoint) (store : Checkpoints) where
    abbrev pub IsSwap : Option TrustedCheckpoint → Checkpoints → Type 0
    IsSwap previous swapped =
        (swapped ≡ store) ⊎ ((swapped ≡ set origin candidate store) × (store origin ≡ previous))

    compare_and_swap_lost :
        (aborted : Bool) (previous : Option TrustedCheckpoint) (swapped : Checkpoints)
        → compare_and_swap digest aborted origin previous candidate store ≡ ok (false, swapped)
        → swapped ≡ store
    unfolding compare_and_swap
    compare_and_swap_lost aborted previous swapped h =
        elim (Bool-cases (same_checkpoint (store origin) previous)) [
          | inl eq ↦ absurd (ground (arith, eq))
          | inr neq ↦ ground (arith, neq)
        ]

    compare_and_swap_won :
        (aborted : Bool) (previous : Option TrustedCheckpoint) (swapped : Checkpoints)
        → compare_and_swap digest aborted origin previous candidate store ≡ ok (true, swapped)
        → (swapped ≡ set origin candidate store) × (store origin ≡ previous)
    unfolding compare_and_swap
    compare_and_swap_won aborted previous swapped h =
        elim (Bool-cases (same_checkpoint (store origin) previous)) [
          | inl eq ↦ (ground (arith, eq), same_checkpoint_sound (store origin) previous eq)
          | inr neq ↦ absurd (ground (arith, neq))
        ]

    -- A swap leaves the store as it was, or stores the candidate in place of what the client read.
    pub after_swap-IsSwap :
        (aborted : Bool) (previous : Option TrustedCheckpoint)
        (r : Result TrustError (Bool × Checkpoints))
        → compare_and_swap digest aborted origin previous candidate store ≡ r
        → IsSwap previous (after_swap candidate store (store_operation r)).1
    after_swap-IsSwap aborted previous (ok (true, swapped)) h =
        inr (compare_and_swap_won aborted previous swapped h)
    after_swap-IsSwap aborted previous (ok (false, swapped)) h =
        inl (compare_and_swap_lost aborted previous swapped h)
    after_swap-IsSwap aborted previous (err e) h = inl refl

  module _ (candidate : TrustedCheckpoint) where
    after_load-IsReady :
        (r : Result TrustError (Option TrustedCheckpoint)) → IsReady candidate (after_load r)
    after_load-IsReady (ok previous) = tt
    after_load-IsReady (err e) = tt

    after_verify-IsReady :
        (evidence : Evidence) (previous : Option TrustedCheckpoint) (r : Result TrustError Unit)
        → verify_checkpoint_advance digest evidence previous candidate ≡ r
        → IsReady candidate (after_verify previous r)
    after_verify-IsReady evidence previous (ok tt) h = (evidence, h)
    after_verify-IsReady evidence previous (err e) h = tt

    after_swap-IsReady :
        (store : Checkpoints) (r : Result TrustError (Bool × Checkpoints))
        → IsReady candidate (after_swap candidate store r).0
    after_swap-IsReady store (ok (true, swapped)) = tt
    after_swap-IsReady store (ok (false, swapped)) = tt
    after_swap-IsReady store (err e) = tt

    unless_aborted-IsReady :
        (aborted : Bool) (phase : Phase)
        → IsReady candidate phase
        → IsReady candidate (if aborted then thrown canceled else phase)
    unless_aborted-IsReady false phase ready = ready
    unless_aborted-IsReady true phase ready = tt

    pub turn-IsReady :
        (aborted late : Bool) (evidence : Evidence) (origin : String) (phase : Phase)
        (store : Checkpoints)
        → IsReady candidate (turn digest aborted late evidence origin candidate phase store).0
    unfolding turn
    turn-IsReady aborted late evidence origin loading store =
        unless_aborted-IsReady (aborted || late) _ (after_load-IsReady _)
    turn-IsReady aborted late evidence origin (verifying previous) store =
        unless_aborted-IsReady (aborted || late) _ (after_verify-IsReady evidence previous _ refl)
    turn-IsReady aborted late evidence origin (swapping previous) store =
        unless_aborted-IsReady (aborted || late) _ (after_swap-IsReady store _)
    turn-IsReady aborted late evidence origin (returned c) store = tt
    turn-IsReady aborted late evidence origin (thrown e) store = tt
