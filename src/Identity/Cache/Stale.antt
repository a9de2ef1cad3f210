-- ===== src/Identity/Cache/Stale.antt =====
-- A timer that outlives its entry.
use dnsid_ts.Common.{ℕ, ◌<◌, ◌≤◌, none, some, String, eq_iff, ◌≡◌, arith}
use dnsid_ts.Identity.{VerifiedDomain, expiry}
use dnsid_ts.Identity.Cache.{
  empty_cache, set_entry, clear_timeout, get, evict, insert, put, fire, run_timer,
}

-- A `get` that finds an expired entry, before its timer ran, deletes the entry and leaves the timer. When
-- the timer then runs behind a second put for the domain, it deletes the new entry, which is not expired.
pub get_stale_timer :
    (domain : String) (old new : VerifiedDomain) (put_at seen put_again now e f : ℕ)
    → expiry old ≡ some e
    → expiry new ≡ some f
    → 0 < old.dns_ttl
    → 0 < new.dns_ttl
    → put_at < e
    → e ≤ seen
    → put_again < f
    → now < f
    → (get domain now (
        run_timer 0
          (put domain new put_again (get domain seen (put domain old put_at empty_cache)).1))).0
      ≡ none
unfolding get put evict insert fire run_timer set_entry clear_timeout
get_stale_timer domain old new put_at seen put_again now e f ends ends_new t u a b c d =
    ground (arith, ends, ends_new, eq_iff domain domain)
