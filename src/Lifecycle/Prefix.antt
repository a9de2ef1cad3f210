-- ===== src/Lifecycle/Prefix.antt =====
-- Which events a snapshot is made of.
use dnsid_ts.Common.{
  ℕ, ◌≤◌, ◌<◌, true, false, Option, none, some, String, eq_iff, List, [], ◌∷◌, ◌++◌, ok, err, ◌>>=◌,
  ltb, Bool-cases, >>=-eq-ok, Result-cases, ◌≡◌, refl, sym, ap, ◌∙◌, arith, inl, inr, ◌⊎◌, All,
}
use mathlib.Core.List.{append_assoc, append-nil}
use dnsid_ts.Lifecycle.Keys.{LifecycleError, terminal_state, snapshot_non_prefix}
use dnsid_ts.Lifecycle.Events.{LogEvent, Body}
use dnsid_ts.Lifecycle.Snapshot.{
  is_terminal, Snapshot, start, apply_issuance, apply_rotation, apply_body, apply_event, step,
  fold_events, snapshot_at,
}
use dnsid_ts.Lifecycle.History.{snapshot_at-fold_events}

-- An event of the domain at or before the boundary, and one after it.
abbrev pub IsBefore : String → ℕ → LogEvent → Type 0
IsBefore domain at e = (e.domain ≡ domain) × ((t : ℕ) × (e.timestamp ≡ some t) × (t ≤ at))

abbrev pub IsAfter : String → ℕ → LogEvent → Type 0
IsAfter domain at e = (e.domain ≡ domain) × ((t : ℕ) × (e.timestamp ≡ some t) × (at < t))

-- What a snapshot leaves out, and how.
pub record IsPrefix (domain : String) (at : ℕ) (events taken : List LogEvent) : Type 0 where
  pub rest : List LogEvent
  pub whole : events ≡ taken ++ rest
  pub before : All (IsBefore domain at) taken
  pub after : All (IsAfter domain at) rest

module _ (hash : List (String × String) → String) where
  -- The switch neither drops an event nor marks the boundary.
  apply_body_frame :
      (s : Snapshot) (timestamp : ℕ) (b : Body) {s' : Snapshot}
      → apply_body hash s timestamp b ≡ ok s'
      → (s'.events_up_to ≡ s.events_up_to) × (s'.past_snapshot_boundary ≡ s.past_snapshot_boundary)
  unfolding apply_body apply_issuance apply_rotation
  apply_body_frame s timestamp b h = ground arith

  -- One round takes the event up while none was past the boundary, or passes over one that is.
  module _ (domain : String) (at : ℕ) (s : Snapshot) (event : LogEvent) {s' : Snapshot} where
    step_cases :
        step hash domain at s event ≡ ok s'
        → (IsBefore domain at event
            × (s.past_snapshot_boundary ≡ false)
            × (s'.past_snapshot_boundary ≡ false)
            × (s'.events_up_to ≡ s.events_up_to ++ event ∷ []))
          ⊎ (IsAfter domain at event
              × (s'.past_snapshot_boundary ≡ true)
              × (s'.events_up_to ≡ s.events_up_to))
    unfolding step apply_event
    step_cases e = at_timestamp event.timestamp refl
      where
        at_timestamp :
            (t : Option ℕ)
            → event.timestamp ≡ t
            → (IsBefore domain at event
                × (s.past_snapshot_boundary ≡ false)
                × (s'.past_snapshot_boundary ≡ false)
                × (s'.events_up_to ≡ s.events_up_to ++ event ∷ []))
              ⊎ (IsAfter domain at event
                  × (s'.past_snapshot_boundary ≡ true)
                  × (s'.events_up_to ≡ s.events_up_to))
        at_timestamp none same = absurd (ground (arith, same))
        at_timestamp (some t) same = elim (Bool-cases (ltb at t)) [
          | inl later ↦ inr (
            (ground (arith, same, eq_iff event.domain domain), (t, same, ground arith)),
            ground (arith, same),
            ground (arith, same),
          )
          | inr applied ↦
              let pushed = record s { events_up_to = s.events_up_to ++ event ∷ [] } in
              let ran : apply_body hash pushed t event.body ≡ ok s' = ground (arith, same) in
              let (kept, unmarked) = apply_body_frame pushed t event.body ran in
              let first : s.past_snapshot_boundary ≡ false = ground (arith, same) in
              inl (
                (ground (arith, same, eq_iff event.domain domain), (t, same, ground arith)),
                first,
                unmarked ∙ first,
                kept,
              )
        ]

  fold_events-IsAfter :
      (domain : String) (at : ℕ) (s : Snapshot) (events : List LogEvent) {s' : Snapshot}
      → s.past_snapshot_boundary ≡ true
      → fold_events hash domain at s events ≡ ok s'
      → All (IsAfter domain at) events × (s'.events_up_to ≡ s.events_up_to)
  unfolding fold_events
  fold_events-IsAfter domain at s [] past e = (tt, ground arith)
  fold_events-IsAfter domain at s (event ∷ events) past e =
      let (t, stepped, rest) = >>=-eq-ok (step hash domain at s event) _ e in
      elim (step_cases domain at s event stepped) [
        | inl (before, unmarked, _, _) ↦ cc
        | inr (after, marked, kept) ↦
            let (later, same) = fold_events-IsAfter domain at t events marked rest in
            ((after, later), same ∙ kept)
      ]

  fold_events_prefix :
      (domain : String) (at : ℕ) (s : Snapshot) (events : List LogEvent) {s' : Snapshot}
      → s.past_snapshot_boundary ≡ false
      → fold_events hash domain at s events ≡ ok s'
      → (taken : List LogEvent) × (s'.events_up_to ≡ s.events_up_to ++ taken)
        × IsPrefix domain at events taken
  unfolding fold_events
  fold_events_prefix domain at s [] past e = (
    [],
    ground (arith, append-nil s.events_up_to),
    record { rest = []; whole = refl; before = tt; after = tt },
  )
  fold_events_prefix domain at s (event ∷ events) past e =
      let (t, stepped, more) = >>=-eq-ok (step hash domain at s event) _ e in
      elim (step_cases domain at s event stepped) [
        | inl (before, _, unmarked, grown) ↦
            let (taken, same, p) = fold_events_prefix domain at t events unmarked more in
            (
              event ∷ taken,
              same ∙ ap (λ es. es ++ taken) grown ∙ append_assoc s.events_up_to (event ∷ []) taken,
              record {
                rest = p.rest;
                whole = ap (λ es. event ∷ es) p.whole;
                before = (before, p.before);
                after = p.after;
              },
            )
        | inr (after, marked, kept) ↦
            let (later, same) = fold_events-IsAfter domain at t events marked more in
            (
              [],
              same ∙ kept ∙ sym (append-nil s.events_up_to),
              record { rest = event ∷ events; whole = refl; before = tt; after = (after, later) },
            )
      ]

  -- A snapshot is made of a prefix of the events: those up to the boundary, all of the domain, before
  -- the first event later than it; and every event behind that prefix is later than the boundary, too.
  pub snapshot_at-IsPrefix :
      (domain : String) (events : List LogEvent) (at : ℕ) {s : Snapshot}
      → snapshot_at hash domain events at ≡ ok s
      → IsPrefix domain at events s.events_up_to
  snapshot_at-IsPrefix domain events at e =
      let (folded, issued) = snapshot_at-fold_events hash domain events at e in
      let (taken, same, p) = fold_events_prefix domain at start events refl folded in rw same p

  pub fold_events-append :
      (domain : String) (at : ℕ) (s : Snapshot) (events more : List LogEvent)
      → fold_events hash domain at s (events ++ more)
        ≡ (fold_events hash domain at s events >>= λ t. fold_events hash domain at t more)
  unfolding fold_events
  fold_events-append domain at s [] more = refl
  fold_events-append domain at s (event ∷ events) more =
      elim (Result-cases (step hash domain at s event)) [
        | inl (t, stepped) ↦ rw stepped (fold_events-append domain at t events more)
        | inr (f, failed) ↦ rw failed
      ]

  step_terminal :
      (domain : String) (at : ℕ) (s : Snapshot) (event : LogEvent)
      → is_terminal s.state ≡ true
      → IsBefore domain at event
      → (step hash domain at s event ≡ err terminal_state)
        ⊎ (step hash domain at s event ≡ err snapshot_non_prefix)
  unfolding step apply_event
  step_terminal domain at s event ended (same, (t, dated, early)) =
      ground (arith, eq_iff event.domain domain)

  fold_events_fail :
      (domain : String) (at : ℕ) (s : Snapshot) (event : LogEvent) {f : LifecycleError}
      → step hash domain at s event ≡ err f
      → fold_events hash domain at s (event ∷ []) ≡ err f
  unfolding fold_events
  fold_events_fail domain at s event failed = rw failed

  -- Nothing may follow a terminal event: behind a history whose snapshot is revoked or retired, one
  -- more event of the domain at or before the boundary leaves no snapshot. The error says that the event
  -- follows a terminal one, or that it follows one past the boundary.
  pub snapshot_at_terminal :
      (domain : String) (events : List LogEvent) (at : ℕ) (event : LogEvent) {s : Snapshot}
      → snapshot_at hash domain events at ≡ ok s
      → is_terminal s.state ≡ true
      → IsBefore domain at event
      → (snapshot_at hash domain (events ++ event ∷ []) at ≡ err terminal_state)
        ⊎ (snapshot_at hash domain (events ++ event ∷ []) at ≡ err snapshot_non_prefix)
  unfolding snapshot_at
  snapshot_at_terminal domain [] at event e ended before = cc
  snapshot_at_terminal domain (x ∷ xs) at event {s} e ended before =
      let (folded, issued) = snapshot_at-fold_events hash domain (x ∷ xs) at e in
      let split = fold_events-append domain at start (x ∷ xs) (event ∷ []) in
      elim (step_terminal domain at s event ended before) [
        | inl failed ↦ inl (rw (split, folded, fold_events_fail domain at s event failed))
        | inr failed ↦ inr (rw (split, folded, fold_events_fail domain at s event failed))
      ]
