-- ===== src/Trust/Progress.antt =====
-- A call of `advanceC2spCheckpoint` that nobody disturbs comes to its end in three turns.
use dnsid_ts.Common.{
  ℕ, zero, suc, true, false, Option, none, some, String, eq_iff, Bytes, bytes_eq_refl, Result, ok,
  err, >>=-eq-ok, ◌≡◌, refl, arith, ==_iff,
}
use dnsid_ts.Trust.{
  TrustedCheckpoint, TrustError, validate_origin, validate_checkpoint, same_checkpoint, same_time,
  valid_time,
}
use dnsid_ts.Trust.Store.{Checkpoints, set, load, compare_and_swap, validate_expected}
use dnsid_ts.Trust.Advance.{Evidence, verify_checkpoint_advance}
use dnsid_ts.Trust.Client.{
  Phase, loading, returned, thrown, Client, begin_advance, turn, load_previous,
}
use dnsid_ts.Trust.World.{World, empty_world, Run, stop, Chain, unchanged, advanced}
use dnsid_ts.Trust.Interleaving.{advance-Chain}

abbrev pub end_of_call :
    String → TrustedCheckpoint → Checkpoints → Result TrustError (Unit {0}) → Phase × Checkpoints
end_of_call origin candidate store (ok _) = (returned candidate, set origin candidate store)
end_of_call origin candidate store (err e) = (thrown e, store)

module _ (digest : Bytes → Bytes) where
  Chain-valid :
      (origin : String) {b : Option TrustedCheckpoint}
      → Chain digest origin none b
      → validate_expected digest b origin ≡ ok tt
  Chain-valid origin unchanged = refl
  Chain-valid origin (advanced c k valid verified) = valid

  valid_origin :
      (c : TrustedCheckpoint) (origin : String)
      → validate_checkpoint digest c origin ≡ ok tt
      → validate_origin origin ≡ ok tt
  unfolding validate_checkpoint
  valid_origin c origin h = (>>=-eq-ok (validate_origin origin) _ h).1

  same_time_refl : (t : Option ℕ) → valid_time t ≡ true → same_time t t ≡ true
  same_time_refl none h = cc
  same_time_refl (some t) h = (==_iff t t).1 refl

  same_checkpoint_refl :
      (o : Option TrustedCheckpoint) (origin : String)
      → validate_expected digest o origin ≡ ok tt
      → same_checkpoint o o ≡ true
  unfolding same_checkpoint validate_checkpoint
  same_checkpoint_refl none origin h = refl
  same_checkpoint_refl (some c) origin h =
      ground
        (arith, eq_iff c.origin c.origin, bytes_eq_refl c.root_hash, same_time_refl c.witness_time)

  module _ (evidence : Evidence) (origin : String) (candidate : TrustedCheckpoint) where
    -- Turns without another caller in between, and without an abort.
    abbrev pub turns_alone : ℕ → Phase → Checkpoints → Phase × Checkpoints
    turns_alone zero phase store = (phase, store)
    turns_alone (suc n) phase store =
        let next = turn digest false false evidence origin candidate phase store in
        turns_alone n next.0 next.1

    module _ (store : Checkpoints) (valid : validate_checkpoint digest candidate origin ≡ ok tt)
        (stored : validate_expected digest (store origin) origin ≡ ok tt) where
      load_previous_alone : load_previous digest false origin store ≡ ok (store origin)
      unfolding load_previous load
      load_previous_alone = rw (valid_origin candidate origin valid, stored)

      compare_and_swap_alone :
          compare_and_swap digest false origin (store origin) candidate store
          ≡ ok (true, set origin candidate store)
      unfolding compare_and_swap
      compare_and_swap_alone = rw (
        valid_origin candidate origin valid,
        stored,
        valid,
        same_checkpoint_refl (store origin) origin stored,
      )

      turns_alone_verified :
          (r : Result TrustError (Unit {0}))
          → verify_checkpoint_advance digest evidence (store origin) candidate ≡ r
          → turns_alone 3 loading store ≡ end_of_call origin candidate store r
      unfolding turn
      turns_alone_verified (ok tt) h = rw (load_previous_alone, h, compare_and_swap_alone)
      turns_alone_verified (err e) h = rw (load_previous_alone, h)

  begin_advance_starts :
      (origin : String) (input : TrustedCheckpoint) {c : Client}
      → begin_advance digest origin input ≡ ok c
      → (c.phase ≡ loading) × (validate_checkpoint digest input origin ≡ ok tt)
  unfolding begin_advance
  begin_advance_starts origin input h = (ground arith, ground arith)

  -- In every state that calls on an empty store lead to, a call whose arguments pass the first checks and
  -- which nobody disturbs or aborts ends in three turns: where its candidate is accepted against what is
  -- stored for the origin, it stores and returns it, and where it is not, it throws that error and
  -- leaves the store as it was.
  pub advance_alone :
      (evidence : Evidence) (origin : String) (input : TrustedCheckpoint) {c : Client} {w : World}
      → Run digest empty_world w
      → begin_advance digest origin input ≡ ok c
      → turns_alone evidence origin input 3 c.phase w.store
        ≡ end_of_call origin input w.store
            (verify_checkpoint_advance digest evidence (w.store origin) input)
  advance_alone evidence origin input {w = w} before begun =
      let (at_start, valid) = begin_advance_starts origin input begun in
      rw at_start (
        turns_alone_verified evidence origin input w.store valid
          (Chain-valid origin (advance-Chain digest origin stop before)) _ refl)
