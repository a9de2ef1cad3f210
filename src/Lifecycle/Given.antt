-- ===== src/Lifecycle/Given.antt =====
-- The fields of an ISSUANCE in the order in which DomainLog.snapshotAt of
-- packages/protocol/src/verified-domain.ts prefers them.
use dnsid_ts.Common.{Option, none, some, String, List, [], ◌∷◌, ◌≡◌, ◌≢◌, refl}
use dnsid_ts.Lifecycle.Keys.{Key}
use dnsid_ts.Lifecycle.Events.{KeySlot}
use dnsid_ts.Lifecycle.Snapshot.{or_else, or_empty, slot_jwk, slot_thumbprint}

-- The first of the values that are given.
pub data IsFirst {A : Type 0} : List (Option A) → A → Type 0 where
  here : (a : A) (later : List (Option A)) → IsFirst (some a ∷ later) a
  behind : {a : A} {later : List (Option A)} → IsFirst later a → IsFirst (none ∷ later) a

abbrev pub jwk_in : Option KeySlot → Option Key
jwk_in none = none
jwk_in (some slot) = some slot.jwk

abbrev pub thumbprint_in : Option KeySlot → Option String
thumbprint_in none = none
thumbprint_in (some slot) = some slot.thumbprint

pub slot_jwk-eq-jwk_in : (slot : Option KeySlot) → slot_jwk slot ≡ jwk_in slot
slot_jwk-eq-jwk_in none = refl
slot_jwk-eq-jwk_in (some s) = refl

pub slot_thumbprint-eq-thumbprint_in :
    (slot : Option KeySlot) → slot_thumbprint slot ≡ thumbprint_in slot
slot_thumbprint-eq-thumbprint_in none = refl
slot_thumbprint-eq-thumbprint_in (some s) = refl

pub or_else-IsFirst_of_two :
    {A : Type 0} (a b : Option A) {x : A} → or_else a b ≡ some x → IsFirst (a ∷ b ∷ []) x
or_else-IsFirst_of_two (some y) b {x} h = let same : y ≡ x = cc in rw same (here x _)
or_else-IsFirst_of_two none (some y) {x} h = let same : y ≡ x = cc in rw same (behind (here x _))
or_else-IsFirst_of_two none none h = cc

pub or_else-IsFirst_of_three :
    {A : Type 0} (a b c : Option A) {x : A}
    → or_else a (or_else b c) ≡ some x
    → IsFirst (a ∷ b ∷ c ∷ []) x
or_else-IsFirst_of_three (some y) b c {x} h = let same : y ≡ x = cc in rw same (here x _)
or_else-IsFirst_of_three none b c h = behind (or_else-IsFirst_of_two b c h)

pub or_empty-IsFirst_of_two :
    (a b : Option String)
    → or_empty (or_else a b) ≢ ""
    → IsFirst (a ∷ b ∷ []) (or_empty (or_else a b))
or_empty-IsFirst_of_two (some y) b h = here y _
or_empty-IsFirst_of_two none (some y) h = behind (here y _)
or_empty-IsFirst_of_two none none h = absurd (h refl)

pub or_empty-IsFirst_of_three :
    (a b c : Option String)
    → or_empty (or_else a (or_else b c)) ≢ ""
    → IsFirst (a ∷ b ∷ c ∷ []) (or_empty (or_else a (or_else b c)))
or_empty-IsFirst_of_three (some y) b c h = here y _
or_empty-IsFirst_of_three none b c h = behind (or_empty-IsFirst_of_two b c h)
