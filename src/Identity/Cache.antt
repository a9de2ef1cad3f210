-- ===== src/Identity/Cache.antt =====
-- `InMemoryIdentityCache`. The timers that `setTimeout` started and neither ran nor were cleared are a
-- part of the state; when one of them runs is up to the runtime.
pub mod Sound
pub mod Stale
use dnsid_ts.Common.{
  ℕ, suc, ◌-◌, Bool, true, false, not, ◌&&◌, ◌||◌, Option, none, some, String, str_eq, List, [],
  ◌∷◌, ltb, leb, ◌==◌, if◌then◌else◌,
}
use dnsid_ts.Identity.{VerifiedDomain, expiry}

pub record CacheEntry : Type 0 where
  pub result : VerifiedDomain
  pub expires_at : ℕ
  pub timer : ℕ

-- A timer knows the domain that it deletes.
pub record Cache : Type 0 where
  pub store : String → Option CacheEntry
  pub pending : List (ℕ × String)
  pub next_timer : ℕ

abbrev pub empty_cache : Cache
empty_cache = record { store = λ _. none; pending = []; next_timer = 0 }

unfoldable pub set_entry :
    String → Option CacheEntry → (String → Option CacheEntry) → String → Option CacheEntry
set_entry domain entry store other = if str_eq other domain then entry else store other

unfoldable pub clear_timeout : ℕ → List (ℕ × String) → List (ℕ × String)
clear_timeout id [] = []
clear_timeout id (t ∷ ts) = let rest = clear_timeout id ts in if t.0 == id then rest else t ∷ rest

unfoldable pub get : String → ℕ → Cache → Option VerifiedDomain × Cache
get domain now c = elim (c.store domain) [
  | none ↦ (none, c)
  | some entry ↦
      if leb entry.expires_at now
      then (none, record c { store = set_entry domain none c.store })
      else (some entry.result, c)
]

unfoldable pub evict : String → Cache → Cache
evict domain c = elim (c.store domain) [
  | none ↦ c
  | some entry ↦ record c {
    store = set_entry domain none c.store;
    pending = clear_timeout entry.timer c.pending;
  }
]

-- Behind the `evict` of a put.
unfoldable pub insert : String → VerifiedDomain → ℕ → ℕ → Cache → Cache
insert domain result expires_at now c =
    if leb result.dns_ttl 0 || leb expires_at now then c else record {
      store =
          set_entry domain
            (some (record { result = result; expires_at = expires_at; timer = c.next_timer }))
            c.store;
      pending = (c.next_timer, domain) ∷ c.pending;
      next_timer = suc c.next_timer;
    }

unfoldable pub put : String → VerifiedDomain → ℕ → Cache → Cache
put domain result now c = elim (expiry result) [
  | none ↦ evict domain c
  | some expires_at ↦ insert domain result expires_at now (evict domain c)
]

-- A timer of this id runs, where one is pending.
unfoldable pub fire :
    ℕ → List (ℕ × String) → (String → Option CacheEntry) → String → Option CacheEntry
fire id [] store = store
fire id (t ∷ ts) store =
    let later = fire id ts store in if t.0 == id then set_entry t.1 none store else later

unfoldable pub run_timer : ℕ → Cache → Cache
run_timer id c = record c {
  store = fire id c.pending c.store;
  pending = clear_timeout id c.pending;
}
