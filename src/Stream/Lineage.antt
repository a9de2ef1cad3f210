-- ===== src/Stream/Lineage.antt =====
-- The lifecycles that a stream may hold, as a grammar: a founding event, then events that are linked to
-- the one before and authorised by the keys of that moment, and none behind a terminal one.
use dnsid_ts.Common.{
  ℕ, suc, ◌^◌, ◌<◌, ◌≤◌, Bool, false, some, String, List, [], ◌∷◌, ◌++◌, Bytes, ◌≡◌, ◌≢◌,
}
use dnsid_ts.Lifecycle.Events.{
  Issuance, KeyRotation, Migration, Body, issuance, key_rotation, migration,
}
use dnsid_ts.Stream.Evidence.{
  number, text, VerifiedEvent, LifecycleState, Options, Suite, c2sp_event_id, state_hash,
}
use dnsid_ts.Stream.Checks.{ends_lifecycle}
use dnsid_ts.Stream.Verifier.{LifecycleKeys, is_bad_revocation}
use dnsid_ts.Stream.Facts.{IsSignedBy, IsRotation, IsIssuance, IsMigration}

-- Any event but an ISSUANCE, a MIGRATION and a KEY_ROTATION, unsupported types too; a REVOCATION has a
-- valid reason.
abbrev pub IsEntityEvent : Body → Type 0
IsEntityEvent (issuance e) = ⊥
IsEntityEvent (migration e) = ⊥
IsEntityEvent (key_rotation e) = ⊥
IsEntityEvent b = is_bad_revocation b ≡ false

module _ (suite : Suite) where
  -- The state that names the two keys of an active identity by their thumbprints.
  pub record IsActiveState (keys : LifecycleKeys) (st : LifecycleState) : Type 0 where
    pub entity : suite.jwk_thumbprint keys.entity_key ≡ some st.entity_thumb
    pub operational : suite.jwk_thumbprint keys.active_operational_key ≡ some st.operational_thumb
    pub status : st.status ≡ "ACTIVE"

  -- An event with the number after the last event's, its id, and the hash of the state it left.
  pub record IsLinked (prev : VerifiedEvent) (keys : LifecycleKeys) (item : VerifiedEvent)
      : Type 0 where
    pub prev_seq : ℕ
    pub prev_numbered : prev.chain.seq ≡ number prev_seq
    pub safe : prev_seq < 2 ^ 53
    pub numbered : item.chain.seq ≡ number (suc prev_seq)
    pub prev_signed : Bytes
    pub prev_entry : suite.signed_entry_bytes prev.bytes ≡ some prev_signed
    pub names_prev : item.chain.prev_event_id ≡ text (c2sp_event_id suite prev_signed)
    pub state : LifecycleState
    pub state_of_keys : IsActiveState keys state
    pub commits : item.chain.prev_state_hash ≡ text (state_hash suite (some state))

  -- A first event, and the keys it establishes.
  pub data Founds (options : Options) (item : VerifiedEvent) (keys : LifecycleKeys) : Type 0 where
    issued :
        (e : Issuance) (sig : String)
        → item.event.body ≡ issuance e
        → item.event.sig ≡ some sig
        → IsIssuance suite item sig e keys
        → Founds options item keys
    imported :
        (e : Migration) (sig : String)
        → item.event.body ≡ migration e
        → item.event.sig ≡ some sig
        → IsMigration suite options item sig keys
        → Founds options item keys

  -- A later event, and the keys before and after it.
  pub data Extends (item : VerifiedEvent) (old : LifecycleKeys) : LifecycleKeys → Type 0 where
    rotated :
        {new : LifecycleKeys} (e : KeyRotation) (sig : String)
        → item.event.body ≡ key_rotation e
        → item.event.sig ≡ some sig
        → IsRotation suite item sig e old new
        → Extends item old new
    confirmed :
        (sig : String)
        → IsEntityEvent item.event.body
        → item.event.sig ≡ some sig
        → IsSignedBy suite item sig old.entity_key
        → Extends item old old

  -- The checks of the time at which the checkpoint integrated the events.
  abbrev pub IsTimely : Options → VerifiedEvent → Type 0
  IsTimely options item =
      (t : ℕ) × (limit : ℕ) × (item.event.timestamp ≡ some t)
      × (options.checkpoint_integration_time_ms ≡ some limit)
      × (t ≤ limit)

  pub data Lineage (options : Options)
      : List VerifiedEvent → VerifiedEvent → LifecycleKeys → (ended : Bool) → Type 0 where
    founded :
        {keys : LifecycleKeys} (item : VerifiedEvent)
        → item.chain.seq ≡ number 0
        → Founds options item keys
        → IsTimely options item
        → Lineage options (item ∷ []) item keys false
    extended :
        {items : List VerifiedEvent} {prev : VerifiedEvent} {keys keys' : LifecycleKeys}
        (item : VerifiedEvent)
        → Lineage options items prev keys false
        → IsLinked prev keys item
        → Extends item keys keys'
        → IsTimely options item
        → Lineage options (items ++ item ∷ []) item keys' (ends_lifecycle item.event.body)

  pub Lineage-nonempty :
      (options : Options) {items : List VerifiedEvent} {last : VerifiedEvent} {keys : LifecycleKeys}
      {ended : Bool}
      → Lineage options items last keys ended
      → items ≢ []
  Lineage-nonempty options (founded item _ _ _) e = cc
  Lineage-nonempty options (extended {items} item _ _ _ _) e = snoc_nonempty items item e
    where
      snoc_nonempty : (xs : List VerifiedEvent) (x : VerifiedEvent) → xs ++ x ∷ [] ≢ []
      snoc_nonempty [] x e = cc
      snoc_nonempty (y ∷ ys) x e = cc
