-- ===== src/Lifecycle/Events.antt =====
-- The events of packages/protocol/src/log-events.ts, with the fields that histories and streams read.
--
-- A `Date` is its number of milliseconds since 1970, or `none` for an invalid one. Texts and keys that
-- may be undefined are options; the text "" is falsy.
use dnsid_ts.Common.{ℕ, Option, String}
use dnsid_ts.Lifecycle.Keys.{Key}

pub record KeySlot : Type 0 where
  pub jwk : Key
  pub thumbprint : String

pub record Issuance : Type 0 where
  pub governance_id : String
  pub entity_key : Option KeySlot
  pub operational_key : Option KeySlot
  pub initial_entity_kid : Option String
  pub initial_entity_alg : Option String
  pub initial_entity_public_key : Option Key
  pub initial_entity_thumbprint : Option String
  pub initial_operational_kid : Option String
  pub initial_operational_alg : Option String
  pub initial_operational_public_key : Option Key
  pub initial_operational_thumbprint : Option String
  pub public_key : Option Key
  pub thumbprint : Option String

pub record KeyRotation : Type 0 where
  pub previous_operational_kid : String
  pub previous_operational_thumbprint : String
  pub new_operational_kid : String
  pub new_operational_alg : String
  pub new_operational_thumbprint : String
  pub new_operational_public_key : Option Key

pub record Migration : Type 0 where
  pub previous_log : String
  pub new_log : String
  pub final_entry_ref : String

-- `type`, with the fields of its interface; `unsupported` is any other type.
pub data Body : Type 0 where
  issuance : Issuance → Body
  key_rotation : KeyRotation → Body
  revocation : (reason : String) → Body
  retirement : Body
  migration : Migration → Body
  delegation : Body
  unsupported : Body

pub record LogEvent : Type 0 where
  pub domain : String
  pub timestamp : Option ℕ
  pub body : Body
  pub signing_kid : Option String
  pub sig : Option String
  pub operational_countersig : Option String
  pub new_operational_proof : Option String
