-- ===== src/Identity/Freshness.antt =====
-- `assertFresh` and `expiry` agree.
use dnsid_ts.Common.{ℕ, ◌<◌, Option, none, some, ok, ◌≡◌, arith, ◌↔◌}
use dnsid_ts.Identity.{VerifiedDomain, assert_fresh, expiry}

freshness :
    (ka dns bound tls signing : Option ℕ) (ttl now e : ℕ)
    → 0 < ttl
    → expiry (record {
      ka = ka;
      dns_ttl = ttl;
      dns_expires_at = dns;
      key_bound_at = bound;
      tls_not_after = tls;
      record_signing_tls_not_after = signing;
    })
      ≡ some e
    → (assert_fresh
          (record {
            ka = ka;
            dns_ttl = ttl;
            dns_expires_at = dns;
            key_bound_at = bound;
            tls_not_after = tls;
            record_signing_tls_not_after = signing;
          })
          now
        ≡ ok tt)
      ↔ (now < e)
unfolding assert_fresh expiry
freshness none none bound tls signing ttl now e positive h = cc
freshness none (some n) bound none signing ttl now e positive h = cc
freshness none (some n) bound (some t) none ttl now e positive h = cc
freshness none (some n) bound (some t) (some s) ttl now e positive h =
    (λ f. ground arith, λ b. ground arith)
freshness (some k) none none tls signing ttl now e positive h = cc
freshness (some k) none (some b) tls signing ttl now e positive h = cc
freshness (some k) (some n) bound none signing ttl now e positive h = cc
freshness (some k) (some n) bound (some t) none ttl now e positive h = cc
freshness (some k) (some n) none (some t) (some s) ttl now e positive h = cc
freshness (some k) (some n) (some b) (some t) (some s) ttl now e positive h =
    (λ f. ground arith, λ l. ground arith)

-- Where the DNS evidence may be reused and all dates that count are valid, `assertFresh` passes exactly
-- before the time that `expiry` returns.
pub assert_fresh-ok_iff :
    (d : VerifiedDomain) (now e : ℕ)
    → 0 < d.dns_ttl
    → expiry d ≡ some e
    → (assert_fresh d now ≡ ok tt) ↔ (now < e)
assert_fresh-ok_iff d now e positive ends =
    freshness d.ka d.dns_expires_at d.key_bound_at d.tls_not_after d.record_signing_tls_not_after
      d.dns_ttl now e positive ends
