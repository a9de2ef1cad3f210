-- ===== src/Trust/Interleaving.antt =====
-- What holds of the stored checkpoints however the turns of the callers of `advanceC2spCheckpoint`
-- interleave.
use dnsid_ts.Common.{
  ◌≤◌, Bool, false, Option, some, String, str_eq, eq_iff, All, Bytes, ok, Bool-cases, ◌≡◌, refl,
  sym, ap, ◌∙◌, arith, inl, inr,
}
use dnsid_ts.Trust.{TrustedCheckpoint, validate_checkpoint}
use dnsid_ts.Trust.Store.{Checkpoints, set}
use dnsid_ts.Trust.Advance.{Evidence}
use dnsid_ts.Trust.Client.{Phase, loading, verifying, swapping, returned, thrown, Client, turn}
use dnsid_ts.Trust.Successor.{
  verify_checkpoint_advance-Successor, Successor, same, from_empty, grown,
}
use dnsid_ts.Trust.World.{
  World, empty_world, Step, call, take_turn, Run, stop, step, IsVerified, Chain, unchanged,
  advanced, IsReady, IsSound, begin_advance-IsSound, All-middle, IsSwap, turn-IsReady,
  after_swap-IsSwap,
}

set_same :
    (origin : String) (c : TrustedCheckpoint) (store : Checkpoints)
    → set origin c store origin ≡ some c
unfolding set
set_same origin c store = ground (arith, eq_iff origin origin)

set_other :
    (origin other : String) (c : TrustedCheckpoint) (store : Checkpoints)
    → str_eq other origin ≡ false
    → set origin c store other ≡ store other
unfolding set
set_other origin other c store h = ground (arith, h)

-- Later in the sense of the log: not smaller, and with one root where the size is one.
abbrev pub IsLater : TrustedCheckpoint → TrustedCheckpoint → Type 0
IsLater old new =
    (old.tree_size ≤ new.tree_size)
    × (old.tree_size ≡ new.tree_size → old.root_hash ≡ new.root_hash)

module _ (digest : Bytes → Bytes) where
  Chain-trans :
      (o : String) {a b c : Option TrustedCheckpoint}
      → Chain digest o a b
      → Chain digest o b c
      → Chain digest o a c
  Chain-trans o h unchanged = h
  Chain-trans o h (advanced c k valid verified) = advanced c (Chain-trans o h k) valid verified

  Chain-eq : (o : String) {a b : Option TrustedCheckpoint} → b ≡ a → Chain digest o a b
  Chain-eq o e = rw e unchanged

  swap-Chain :
      (origin o : String) (candidate : TrustedCheckpoint) (previous : Option TrustedCheckpoint)
      (store swapped : Checkpoints)
      → validate_checkpoint digest candidate origin ≡ ok tt
      → IsVerified digest previous candidate
      → IsSwap digest origin candidate store previous swapped
      → Chain digest o (store o) (swapped o)
  swap-Chain origin o candidate previous store swapped valid verified (inl e) =
      Chain-eq o (ap (λ f. f o) e)
  swap-Chain origin o candidate previous store swapped valid verified (inr (e, read)) =
      elim (Bool-cases (str_eq o origin)) [
        | inl here ↦
            let same_origin : o ≡ origin = (eq_iff o origin).0 here in
            rw (same_origin, ap (λ f. f origin) e ∙ set_same origin candidate store)
              (advanced candidate (Chain-eq origin (sym read)) valid verified)
        | inr elsewhere ↦
            Chain-eq o (ap (λ f. f o) e ∙ set_other origin o candidate store elsewhere)
      ]

  turn-Chain :
      (o : String) (c : Client) (aborted late : Bool) (evidence : Evidence) (phase : Phase)
      (store : Checkpoints)
      → validate_checkpoint digest c.candidate c.reference_origin ≡ ok tt
      → IsReady digest c.candidate phase
      → Chain digest o
          (store o)
          ((turn digest aborted late evidence c.reference_origin c.candidate phase store).1 o)
  unfolding turn
  turn-Chain o c aborted late evidence loading store valid ready = unchanged
  turn-Chain o c aborted late evidence (verifying previous) store valid ready = unchanged
  turn-Chain o c aborted late evidence (swapping previous) store valid ready =
      swap-Chain c.reference_origin o c.candidate previous store _ valid ready
        (after_swap-IsSwap digest c.reference_origin c.candidate store aborted previous _ refl)
  turn-Chain o c aborted late evidence (returned r) store valid ready = unchanged
  turn-Chain o c aborted late evidence (thrown e) store valid ready = unchanged

  Step-Chain :
      {w u : World}
      → Step digest w u
      → All (IsSound digest) w.clients
      → All (IsSound digest) u.clients × ((o : String) → Chain digest o (w.store o) (u.store o))
  Step-Chain (call origin input c begun) sound =
      ((begin_advance-IsSound digest origin input c begun, sound), λ o. unchanged)
  Step-Chain (take_turn store before c after aborted late evidence) sound =
      let ((valid, ready), back) = All-middle digest before c after _ sound in
      (
        back (
          valid,
          turn-IsReady digest c.candidate aborted late evidence c.reference_origin c.phase store,
        ),
        λ o. turn-Chain o c aborted late evidence c.phase store valid ready,
      )

  Run-Chain :
      {w u : World}
      → Run digest w u
      → All (IsSound digest) w.clients
      → All (IsSound digest) u.clients × ((o : String) → Chain digest o (w.store o) (u.store o))
  Run-Chain stop sound = (sound, λ o. unchanged)
  Run-Chain (step r s) sound =
      let (mid, chain) = Run-Chain r sound in
      let (end, next) = Step-Chain s mid in (end, λ o. Chain-trans o (chain o) (next o))

  -- From an empty store, whatever calls are made and in whatever order their turns run: between any two
  -- moments the checkpoint of an origin changes only by a chain of candidates that are valid for the
  -- origin, each verified against the checkpoint that it replaced.
  pub advance-Chain :
      {w u : World} (origin : String)
      → Run digest empty_world w
      → Run digest w u
      → Chain digest origin (w.store origin) (u.store origin)
  advance-Chain origin before r = (Run-Chain r (Run-Chain before tt).0).1 origin

  Successor-IsLater :
      (evidence : Evidence) (old new : TrustedCheckpoint)
      → Successor digest evidence (some old) new
      → IsLater old new
  Successor-IsLater evidence old new (same _ _ size root) = (omega arith, λ _. root)
  Successor-IsLater evidence old new (from_empty _ _ empty more) =
      (omega arith, λ q. absurd (omega arith))
  Successor-IsLater evidence old new (grown _ _ more growth) =
      (omega arith, λ q. absurd (omega arith))

  Chain-IsLater :
      (o : String) (old : TrustedCheckpoint) {b : Option TrustedCheckpoint}
      → Chain digest o (some old) b
      → (new : TrustedCheckpoint) × (b ≡ some new) × IsLater old new
  Chain-IsLater o old unchanged = (old, refl, (omega arith, λ _. refl))
  Chain-IsLater o old (advanced c k valid (evidence, verified)) =
      let (mid, e, earlier) = Chain-IsLater o old k in
      let later : IsLater mid c =
        Successor-IsLater evidence mid c (
          verify_checkpoint_advance-Successor digest evidence (some mid) c (rw (sym e) verified)) in
      (
        c,
        refl,
        (
          omega (arith, earlier.0, later.0),
          λ q.
              earlier.1 (omega (arith, earlier.0, later.0))
              ∙ later.1 (omega (arith, earlier.0, later.0)),
        ),
      )

  -- A log never goes back: once a checkpoint is stored for an origin, every later moment has one stored
  -- for it, of no smaller tree, and with the same root where the trees are of one size.
  pub advance-IsLater :
      {w u : World} (origin : String) (old : TrustedCheckpoint)
      → Run digest empty_world w
      → Run digest w u
      → w.store origin ≡ some old
      → (new : TrustedCheckpoint) × (u.store origin ≡ some new) × IsLater old new
  advance-IsLater origin old before r stored =
      Chain-IsLater origin old (rw (sym stored) (advance-Chain origin before r))
