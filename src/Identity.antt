-- ===== src/Identity.antt =====
-- How long verified evidence of an identity may be used: `VerifiedDomain` of
-- packages/protocol/src/verified-domain.ts (assertFresh and expiry), and in the child Cache the in-memory
-- cache of packages/protocol/src/identity-cache.ts. Times are milliseconds, `none` for an invalid date.
pub mod Freshness
pub mod Cache
mod Tests
use dnsid_ts.Common.{
  ℕ, ◌+◌, Bool, true, false, not, ◌&&◌, ◌||◌, Option, none, some, ltb, leb, min, if◌then◌else◌,
  Result, ok, err,
}

-- The fields that these read. `ka` is the duration that parseKaDuration reads from a record with a `ka`.
pub record VerifiedDomain : Type 0 where
  pub ka : Option ℕ
  pub dns_ttl : ℕ
  pub dns_expires_at : Option ℕ
  pub key_bound_at : Option ℕ
  pub tls_not_after : Option ℕ
  pub record_signing_tls_not_after : Option ℕ

-- `VerificationCode`, as far as assertFresh uses it.
pub data FreshnessError : Type 0 where
  tls_error key_age_exceeded dns_resolution : FreshnessError

-- `Math.min` of two times; NaN takes over.
abbrev pub min_time : Option ℕ → Option ℕ → Option ℕ
min_time (some a) (some b) = some (min a b)
min_time _ _ = none

abbrev pub add_time : Option ℕ → ℕ → Option ℕ
add_time none ms = none
add_time (some a) ms = some (a + ms)

-- `now >= date.getTime()`, which is false of NaN.
abbrev pub at_or_after : ℕ → Option ℕ → Bool
at_or_after now none = false
at_or_after now (some t) = leb t now

abbrev pub is_valid_time : Option ℕ → Bool
is_valid_time none = false
is_valid_time (some t) = true

abbrev pub cert_expired : ℕ → Option ℕ → Bool
cert_expired now not_after = not (is_valid_time not_after) || at_or_after now not_after

abbrev pub key_expired : ℕ → VerifiedDomain → Bool
key_expired now d = elim d.ka [
  | none ↦ false
  | some duration ↦ at_or_after now (add_time d.key_bound_at duration)
]

unfoldable pub assert_fresh : VerifiedDomain → ℕ → Result FreshnessError (Unit {0})
assert_fresh d now =
    if cert_expired now d.tls_not_after || cert_expired now d.record_signing_tls_not_after
    then err tls_error
    else if key_expired now d
    then err key_age_exceeded
    else if ltb 0 d.dns_ttl && at_or_after now d.dns_expires_at
    then err dns_resolution
    else ok tt

abbrev pub with_key_age : VerifiedDomain → Option ℕ → Option ℕ
with_key_age d others = elim d.ka [
  | none ↦ others
  | some duration ↦ min_time others (add_time d.key_bound_at duration)
]

unfoldable pub expiry : VerifiedDomain → Option ℕ
expiry d =
    with_key_age d
      (min_time (min_time d.dns_expires_at d.tls_not_after) d.record_signing_tls_not_after)
