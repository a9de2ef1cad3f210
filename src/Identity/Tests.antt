-- ===== src/Identity/Tests.antt =====
-- A result that expires ten seconds after the epoch, put and asked for before and after.
use dnsid_ts.Common.{
  ℕ, ◌<◌, ◌&&◌, none, some, List, [], ◌∷◌, ltb, if◌then◌else◌, ok, err, ◌≡◌, ◌↔◌, refl, arith,
}
use dnsid_ts.Identity.{VerifiedDomain, assert_fresh, expiry, dns_resolution, key_age_exceeded}
use dnsid_ts.Identity.Freshness.{assert_fresh-ok_iff}
use dnsid_ts.Identity.Cache.{
  empty_cache, set_entry, clear_timeout, get, evict, insert, put, fire, run_timer,
}
use dnsid_ts.Identity.Cache.Sound.{
  Event, get_called, put_called, after_event, after_events, IsPut, get-IsPut, get-put,
}
use dnsid_ts.Identity.Cache.Stale.{get_stale_timer}

abbrev identity : VerifiedDomain
identity = record {
  ka = some 9000;
  dns_ttl = 10;
  dns_expires_at = some 10000;
  key_bound_at = some 2000;
  tls_not_after = some 50000;
  record_signing_tls_not_after = some 60000;
}

runs : Unit {0}
unfolding assert_fresh expiry set_entry clear_timeout get evict insert put fire run_timer
    after_event after_events
runs = tt

ends : expiry identity ≡ some 10000
unfolding runs
ends = refl

-- The same identity, verified again later.
abbrev renewed : VerifiedDomain
renewed = record identity { ka = none; dns_expires_at = some 20000 }

renewed_ends : expiry renewed ≡ some 20000
unfolding runs
renewed_ends = refl

late :
    (assert_fresh identity 10000 ≡ err dns_resolution)
    × (assert_fresh identity 11000 ≡ err key_age_exceeded)
unfolding runs
late = (refl, refl)

abbrev events : List Event
events = get_called "b.example" 4 ∷ put_called "a.example" identity 3 ∷ []

served : (get "a.example" 5000 (after_events events)).0 ≡ some identity
unfolding runs
served = refl

assert_fresh-ok_iff_example : (assert_fresh identity 9999 ≡ ok tt) ↔ (9999 < 10000)
assert_fresh-ok_iff_example = assert_fresh-ok_iff identity 9999 10000 (omega arith) ends

get-IsPut_example : (e : ℕ) × IsPut events "a.example" identity e × (5000 < e)
get-IsPut_example = get-IsPut events "a.example" 5000 identity served

get-put_example :
    (get "a.example" 5000 (put "a.example" identity 3 empty_cache)).0
    ≡ (if ltb 0 identity.dns_ttl && (ltb 3 10000 && ltb 5000 10000) then some identity else none)
get-put_example = get-put "a.example" identity 3 5000 10000 empty_cache ends

get_stale_timer_example :
    (get "a.example" 10003 (
      run_timer 0 (
        put "a.example" renewed 10002
          (get "a.example" 10001 (put "a.example" identity 3 empty_cache)).1))).0
    ≡ none
get_stale_timer_example =
    get_stale_timer "a.example" identity renewed 3 10001 10002 10003 10000 20000 ends renewed_ends
      (omega arith) (omega arith) (omega arith) (omega arith) (omega arith) (omega arith)
