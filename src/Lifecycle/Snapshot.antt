-- ===== src/Lifecycle/Snapshot.antt =====
-- `DomainLog.snapshotAt` of packages/protocol/src/verified-domain.ts.
use dnsid_ts.Common.{
  ℕ, Bool, true, false, not, ◌&&◌, ◌||◌, Option, none, some, String, str_eq, List, [], ◌∷◌, ◌++◌,
  Result, ok, err, ◌>>=◌, ◌>>◌, throw_if, ltb, if◌then◌else◌,
}
use dnsid_ts.Lifecycle.Keys.{
  Key, LifecycleError, genesis_required, duplicate_issuance, invalid_issuance, terminal_state,
  domain_mismatch, key_continuity, invalid_revocation_reason, invalid_migration, snapshot_empty,
  snapshot_non_prefix, unsupported_event, invalid_evidence, uncategorised,
  synchronous_jwk_thumbprint, same_jwk_material,
}
use dnsid_ts.Lifecycle.Events.{
  KeySlot, Issuance, KeyRotation, Body, issuance, key_rotation, revocation, retirement, migration,
  delegation, unsupported, LogEvent,
}

-- `AgentStatusState | ''`, as far as a history assigns it; `unissued` is ''.
pub data State : Type 0 where
  unissued active revoked retired : State

-- The variables of the loop.
pub record Snapshot : Type 0 where
  pub state : State
  pub active_key : Option Key
  pub active_key_thumbprint : String
  pub key_bound_at : ℕ
  pub governance_id : String
  pub events_up_to : List LogEvent
  pub past_snapshot_boundary : Bool

abbrev pub start : Snapshot
start = record {
  state = unissued;
  active_key = none;
  active_key_thumbprint = "";
  key_bound_at = 0;
  governance_id = "";
  events_up_to = [];
  past_snapshot_boundary = false;
}

-- `a?.jwk ?? b ?? c ?? null`
abbrev pub or_else {ℓ} : {A : Type ℓ} → Option A → Option A → Option A
or_else none b = b
or_else (some a) b = some a

abbrev pub slot_jwk : Option KeySlot → Option Key
slot_jwk none = none
slot_jwk (some s) = some s.jwk

abbrev pub slot_thumbprint : Option KeySlot → Option String
slot_thumbprint none = none
slot_thumbprint (some s) = some s.thumbprint

-- `?? ''`
abbrev pub or_empty : Option String → String
or_empty none = ""
or_empty (some s) = s

-- The draft-01 slot is preferred, then the c2sp-tlog field, then the field of older events.
abbrev pub issued_entity_key : Issuance → Option Key
issued_entity_key e = or_else (slot_jwk e.entity_key) e.initial_entity_public_key

abbrev pub issued_entity_thumbprint : Issuance → String
issued_entity_thumbprint e =
    or_empty (or_else (slot_thumbprint e.entity_key) e.initial_entity_thumbprint)

abbrev pub issued_active_key : Issuance → Option Key
issued_active_key e =
    or_else (slot_jwk e.operational_key) (or_else e.initial_operational_public_key e.public_key)

abbrev pub issued_active_thumbprint : Issuance → String
issued_active_thumbprint e = or_empty (
    or_else (slot_thumbprint e.operational_key)
      (or_else e.initial_operational_thumbprint e.thumbprint))

abbrev pub is_terminal : State → Bool
is_terminal revoked = true
is_terminal retired = true
is_terminal _ = false

abbrev pub is_active : State → Bool
is_active active = true
is_active _ = false

abbrev is_unissued : State → Bool
is_unissued unissued = true
is_unissued _ = false

abbrev is_issuance : Body → Bool
is_issuance (issuance i) = true
is_issuance _ = false

unfoldable pub is_revocation_reason : String → Bool
is_revocation_reason r =
    str_eq r "keyCompromise"
    || (str_eq r "policyViolation" || (str_eq r "superseded" || str_eq r "cessationOfOperation"))

-- `activeKey && sameJwkMaterial(activeKey, key)`
abbrev same_as_active : Option Key → Key → Bool
same_as_active none key = false
same_as_active (some active_key) key = same_jwk_material active_key key

-- `if (state === '' || !activeKey) throw …`
unfoldable pub finish : Snapshot → Result LifecycleError Snapshot
finish s = elim s.active_key [
  | none ↦ err snapshot_empty
  | some key ↦ if is_unissued s.state then err snapshot_empty else ok s
]

module _ (hash : List (String × String) → String) where
  -- The condition of 'ISSUANCE key binding is invalid', and the key that passed it.
  unfoldable pub check_binding :
      Option Key → Option Key → String → String → Result LifecycleError Key
  check_binding (some entity_key) (some active_key) entity_thumbprint active_thumbprint = do
    throw_if (str_eq entity_thumbprint "" || str_eq active_thumbprint "") invalid_issuance
    entity_hash ← synchronous_jwk_thumbprint hash entity_key invalid_issuance
    throw_if (not (str_eq entity_thumbprint entity_hash)) invalid_issuance
    active_hash ← synchronous_jwk_thumbprint hash active_key invalid_issuance
    throw_if (not (str_eq active_thumbprint active_hash)) invalid_issuance
    throw_if (str_eq entity_thumbprint active_thumbprint || same_jwk_material entity_key active_key)
        invalid_issuance
    ok active_key
  check_binding _ _ entity_thumbprint active_thumbprint = err invalid_issuance

  unfoldable pub apply_issuance : Snapshot → ℕ → Issuance → Result LifecycleError Snapshot
  unfolding check_binding
  apply_issuance s timestamp e = do
    throw_if (not (is_unissued s.state)) duplicate_issuance
    key ←
        check_binding (issued_entity_key e) (issued_active_key e) (issued_entity_thumbprint e)
          (issued_active_thumbprint e)
    ok (record s {
      state = active;
      active_key = some key;
      active_key_thumbprint = issued_active_thumbprint e;
      key_bound_at = timestamp;
      governance_id = e.governance_id;
    })

  unfoldable pub check_new_key :
      Option Key → String → String → Option Key → Result LifecycleError Key
  check_new_key active_key active_thumbprint new_thumbprint none = err key_continuity
  check_new_key active_key active_thumbprint new_thumbprint (some key) = do
    throw_if (str_eq new_thumbprint "") key_continuity
    new_hash ← synchronous_jwk_thumbprint hash key key_continuity
    throw_if (not (str_eq new_thumbprint new_hash)) key_continuity
    throw_if (str_eq new_thumbprint active_thumbprint || same_as_active active_key key)
        key_continuity
    ok key

  unfoldable pub apply_rotation : Snapshot → ℕ → KeyRotation → Result LifecycleError Snapshot
  unfolding check_new_key
  apply_rotation s timestamp e = do
    throw_if (not (is_active s.state)) key_continuity
    throw_if (not (str_eq e.previous_operational_thumbprint s.active_key_thumbprint)) key_continuity
    key ←
        check_new_key s.active_key s.active_key_thumbprint e.new_operational_thumbprint
          e.new_operational_public_key
    ok (record s {
      active_key = some key;
      active_key_thumbprint = e.new_operational_thumbprint;
      key_bound_at = timestamp;
    })

  -- The `switch`.
  unfoldable pub apply_body : Snapshot → ℕ → Body → Result LifecycleError Snapshot
  apply_body s timestamp (issuance e) = apply_issuance s timestamp e
  apply_body s timestamp (key_rotation e) = apply_rotation s timestamp e
  apply_body s timestamp (revocation reason) = do
    throw_if (not (is_active s.state)) uncategorised
    throw_if (not (is_revocation_reason reason)) invalid_revocation_reason
    ok (record s { state = revoked })
  apply_body s timestamp retirement = do
    throw_if (not (is_active s.state)) uncategorised
    ok (record s { state = retired })
  apply_body s timestamp (migration e) = do
    throw_if
        (not (is_active s.state)
          || (str_eq e.previous_log ""
              || (str_eq e.new_log ""
                  || (str_eq e.previous_log e.new_log || str_eq e.final_entry_ref ""))))
        invalid_migration
    ok s
  apply_body s timestamp delegation = do throw_if (not (is_active s.state)) uncategorised; ok s
  apply_body s timestamp unsupported = err unsupported_event

  -- An event at or before the boundary.
  unfoldable pub apply_event : Snapshot → LogEvent → ℕ → Result LifecycleError Snapshot
  apply_event s event timestamp =
      let pushed = record s { events_up_to = s.events_up_to ++ event ∷ [] } in
      do
        throw_if s.past_snapshot_boundary snapshot_non_prefix
        throw_if (is_unissued s.state && not (is_issuance event.body)) genesis_required
        throw_if (is_terminal s.state) terminal_state
        apply_body pushed timestamp event.body

  -- One round of the loop.
  unfoldable pub step : String → ℕ → Snapshot → LogEvent → Result LifecycleError Snapshot
  step domain at s event = do
    throw_if (not (str_eq event.domain domain)) domain_mismatch
    elim event.timestamp [
      | none ↦ err invalid_evidence
      | some timestamp ↦
          if ltb at timestamp
          then ok (record s { past_snapshot_boundary = true })
          else apply_event s event timestamp
    ]

  unfoldable pub fold_events :
      String → ℕ → Snapshot → List LogEvent → Result LifecycleError Snapshot
  fold_events domain at s [] = ok s
  fold_events domain at s (event ∷ events) = do
    s' ← step domain at s event
    fold_events domain at s' events

  unfoldable pub snapshot_at : String → List LogEvent → ℕ → Result LifecycleError Snapshot
  unfolding finish
  snapshot_at domain [] at = err snapshot_empty
  snapshot_at domain (event ∷ events) at = do
    s ← fold_events domain at start (event ∷ events)
    finish s
