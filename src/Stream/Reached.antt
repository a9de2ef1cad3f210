-- ===== src/Stream/Reached.antt =====
-- What `verifyLifecycle` accepts is a lineage: by induction on the rounds of its loop.
use dnsid_ts.Common.{
  suc, false, Option, some, String, List, [], ◌∷◌, ◌++◌, length, ok, throw_if, >>=-eq-ok, ◌≡◌, ◌≢◌,
  refl, sym, ◌∙◌, ltb,
}
use mathlib.Core.Path.{subst}
use mathlib.Core.List.{append_assoc, append-nil}
use dnsid_ts.Lifecycle.Events.{Body}
use dnsid_ts.Stream.Evidence.{VerifiedEvent, LifecycleState, Options, Suite}
use dnsid_ts.Stream.Checks.{ends_lifecycle, check_place, assert_chain_fields}
use dnsid_ts.Stream.Lineage.{Founds, issued, imported, Lineage, founded, extended}
use dnsid_ts.Stream.Verifier.{
  LifecycleKeys, Progress, at_start, Outcome, is_first, apply_body, check_chain, check_event, step,
  steps, verify_lifecycle,
}
use dnsid_ts.Stream.Facts.{ok_unique}
use dnsid_ts.Stream.Accepted.{
  assert_first_chain_fields_sound, assert_chain_fields_sound, apply_body-Founds,
  apply_later-Extends, apply_body-eq-apply_later, check_event-IsChecked, IsChecked, Commits,
}

module _ (suite : Suite) where
  -- Where the loop stands after some events.
  pub data Reached (options : Options) : List VerifiedEvent → Progress → Type 0 where
    begun : Reached options [] at_start
    amid :
        {items : List VerifiedEvent} {last : VerifiedEvent} {keys : LifecycleKeys} {s : Progress}
        → Lineage suite options items last keys s.terminal
        → s.previous ≡ some last
        → s.keys ≡ some keys
        → (s.terminal ≡ false → Commits suite keys s.prev_state)
        → Reached options items s

  step-eq-ok :
      (options : Options) (s : Progress) (item : VerifiedEvent) {s' : Progress}
      → step suite options s item ≡ ok s'
      → (sig : String) × (o : Outcome) × IsChecked suite options s item sig
        × (apply_body suite options item sig item.event.body s ≡ ok o)
        × (s' ≡ record {
          position = suc s.position;
          previous = some item;
          terminal = ends_lifecycle item.event.body;
          prev_state = o.state;
          keys = some o.keys;
        })
  unfolding step
  step-eq-ok options s item h =
      let (sig, checked, h1) = >>=-eq-ok (check_event suite options s item) _ h in
      let (o, applied, h2) = >>=-eq-ok (apply_body suite options item sig item.event.body s) _ h1 in
      (
        sig,
        o,
        check_event-IsChecked suite options s item checked,
        applied,
        ok_unique (ok _) h2 refl,
      )

  pub Founds-continues :
      (options : Options) (item : VerifiedEvent) {keys : LifecycleKeys}
      → Founds suite options item keys
      → ends_lifecycle item.event.body ≡ false
  Founds-continues options item (issued e sig is _ _) = rw is refl
  Founds-continues options item (imported e sig is _ _) = rw is refl

  later-placed :
      {previous : Option VerifiedEvent} {last : VerifiedEvent} (b : Body)
      → previous ≡ some last
      → check_place (is_first previous) b ≡ ok tt
      → check_place false b ≡ ok tt
  later-placed b e h = subst (λ p. check_place (is_first p) b ≡ ok tt) e h

  later-chained :
      (s : Progress) (item : VerifiedEvent) {last : VerifiedEvent} {st : LifecycleState}
      → s.previous ≡ some last
      → s.prev_state ≡ some st
      → check_chain suite item s s.previous ≡ ok tt
      → assert_chain_fields suite item.chain last (some st) ≡ ok tt
  later-chained s item {last} {st} before state h =
      subst (λ p. assert_chain_fields suite item.chain last p ≡ ok tt) state
        (subst (λ p. check_chain suite item s p ≡ ok tt) before h)

  step-Reached :
      (options : Options) (items : List VerifiedEvent) (s : Progress) (item : VerifiedEvent)
      {s' : Progress}
      → Reached options items s
      → step suite options s item ≡ ok s'
      → Reached options (items ++ item ∷ []) s'
  step-Reached options _ _ item begun h =
      let (sig, o, checked, applied, whole) = step-eq-ok options at_start item h in
      let (founds, commits) =
        apply_body-Founds suite options at_start item sig item.event.body refl refl
          checked.sig_given checked.placed applied in
      let numbered = assert_first_chain_fields_sound suite item checked.chained in
      let first : Lineage suite options (item ∷ []) item o.keys (ends_lifecycle item.event.body) =
        rw (Founds-continues options item founds) (founded item numbered founds checked.timely) in
      rw whole (amid first refl refl (λ goes_on. commits))
  step-Reached options items s item (amid {last = last} {keys = keys} lineage before known commits)
        h =
      let (sig, o, checked, applied, whole) = step-eq-ok options s item h in
      let (st, state, active) = commits checked.continues in
      let placed : check_place false item.event.body ≡ ok tt =
        later-placed item.event.body before checked.placed in
      let chained : assert_chain_fields suite item.chain last (some st) ≡ ok tt =
        later-chained s item before state checked.chained in
      let (extends, next) =
        apply_later-Extends suite s item sig keys known (st, state, active) checked.sig_given placed
          (sym (apply_body-eq-apply_later suite options s item sig item.event.body placed)
            ∙ applied) in
      let open_before : Lineage suite options items last keys false =
        subst (Lineage suite options items last keys) checked.continues lineage in
      rw whole (
        amid
          (extended item open_before
            (assert_chain_fields_sound suite last item keys st active chained) extends
            checked.timely)
          refl refl next)

  steps-Reached :
      (options : Options) (done items : List VerifiedEvent) (s : Progress) {s' : Progress}
      → Reached options done s
      → steps suite options s items ≡ ok s'
      → Reached options (done ++ items) s'
  unfolding steps
  steps-Reached options done [] s r h = rw (append-nil done, ← ok_unique (ok s) refl h) r
  steps-Reached options done (item ∷ items) s r h =
      let (t, stepped, rest) = >>=-eq-ok (step suite options s item) _ h in
      rw (← append_assoc done (item ∷ []) items) (
        steps-Reached options (done ++ item ∷ []) items t
          (step-Reached options done s item r stepped) rest)

  Reached-Lineage :
      (options : Options) {items : List VerifiedEvent} {s : Progress}
      → Reached options items s
      → items ≢ []
      → (last : VerifiedEvent) × (keys : LifecycleKeys) × (s.keys ≡ some keys)
        × Lineage suite options items last keys s.terminal
  Reached-Lineage options begun some_event = absurd (some_event refl)
  Reached-Lineage options (amid {last = last} {keys = keys} lineage before known commits)
        some_event =
      (last, keys, known, lineage)

  -- A list of events that verifyLifecycle accepts is a lineage, whose keys are those that its loop ends
  -- with.
  pub verify_lifecycle-Lineage :
      (options : Options) (events : List VerifiedEvent) {s : Progress}
      → verify_lifecycle suite options events ≡ ok s
      → (last : VerifiedEvent) × (keys : LifecycleKeys) × (s.keys ≡ some keys)
        × Lineage suite options events last keys s.terminal
  unfolding verify_lifecycle
  verify_lifecycle-Lineage options [] h = cc
  verify_lifecycle-Lineage options (e ∷ es) h =
      let (_, _, h1) = >>=-eq-ok (throw_if (ltb 10000 (length (e ∷ es))) _) _ h in
      Reached-Lineage options (steps-Reached options [] (e ∷ es) at_start begun h1) (λ p. cc)
