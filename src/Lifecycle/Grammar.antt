-- ===== src/Lifecycle/Grammar.antt =====
-- The histories that a snapshot may summarise, as a grammar: one ISSUANCE, then events of an active
-- identity, and a REVOCATION or RETIREMENT at most at the end; the ISSUANCE and each KEY_ROTATION give
-- the key that becomes active, with its thumbprint, and a KEY_ROTATION names that of the key before it.
use dnsid_ts.Common.{true, Option, none, some, String, List, [], ◌∷◌, ◌++◌, ok, ◌≡◌, ◌≢◌}
use dnsid_ts.Lifecycle.Keys.{Key, synchronous_jwk_thumbprint, key_continuity}
use dnsid_ts.Lifecycle.Events.{
  Issuance, KeyRotation, Body, issuance, key_rotation, revocation, retirement, migration,
  delegation, LogEvent,
}
use dnsid_ts.Lifecycle.Snapshot.{State, unissued, active, revoked, retired, is_revocation_reason}
use dnsid_ts.Lifecycle.Given.{IsFirst, jwk_in, thumbprint_in}

-- Events after which an active identity is active with the same key.
abbrev pub KeepsKey : Body → Type 0
KeepsKey (migration e) = e.previous_log ≢ e.new_log
KeepsKey delegation = Unit
KeepsKey _ = ⊥

module _ (hash : List (String × String) → String) where
  -- A key with its thumbprint, which is no empty text.
  pub record IsBound (key : Key) (thumbprint : String) : Type 0 where
    pub hashed : synchronous_jwk_thumbprint hash key key_continuity ≡ ok thumbprint
    pub nonempty : thumbprint ≢ ""

  -- The operational key and thumbprint that an ISSUANCE gives, each in the draft-01 slot, or else in the
  -- c2sp-tlog field, or else in that of older events; and an entity key apart from it, given likewise.
  pub record IsIssuedKey (i : Issuance) (key : Key) (thumbprint : String) : Type 0 where
    pub given :
        IsFirst
          (jwk_in i.operational_key ∷ i.initial_operational_public_key ∷ i.public_key ∷ [])
          key
    pub thumbprint_given :
        IsFirst
          (thumbprint_in i.operational_key ∷ i.initial_operational_thumbprint ∷ i.thumbprint ∷ [])
          thumbprint
    pub bound : IsBound key thumbprint
    pub entity_key : Key
    pub entity_thumbprint : String
    pub entity_given : IsFirst (jwk_in i.entity_key ∷ i.initial_entity_public_key ∷ []) entity_key
    pub entity_thumbprint_given :
        IsFirst (thumbprint_in i.entity_key ∷ i.initial_entity_thumbprint ∷ []) entity_thumbprint
    pub entity_bound : IsBound entity_key entity_thumbprint
    pub apart : entity_thumbprint ≢ thumbprint

  pub data History : List LogEvent → State → Option Key → String → Type 0 where
    nothing : History [] unissued none ""
    genesis :
        (e : LogEvent) (i : Issuance) (key : Key) (thumbprint : String)
        → e.body ≡ issuance i
        → IsIssuedKey i key thumbprint
        → History (e ∷ []) active (some key) thumbprint
    rotate :
        {es : List LogEvent} {old : Option Key} {current : String} (e : LogEvent) (r : KeyRotation)
        (key : Key)
        → History es active old current
        → e.body ≡ key_rotation r
        → r.previous_operational_thumbprint ≡ current
        → r.new_operational_public_key ≡ some key
        → r.new_operational_thumbprint ≢ current
        → IsBound key r.new_operational_thumbprint
        → History (es ++ e ∷ []) active (some key) r.new_operational_thumbprint
    keep :
        {es : List LogEvent} {key : Option Key} {current : String} (e : LogEvent)
        → History es active key current
        → KeepsKey e.body
        → History (es ++ e ∷ []) active key current
    revoke :
        {es : List LogEvent} {key : Option Key} {current : String} (e : LogEvent) (reason : String)
        → History es active key current
        → e.body ≡ revocation reason
        → is_revocation_reason reason ≡ true
        → History (es ++ e ∷ []) revoked key current
    retire :
        {es : List LogEvent} {key : Option Key} {current : String} (e : LogEvent)
        → History es active key current
        → e.body ≡ retirement
        → History (es ++ e ∷ []) retired key current
