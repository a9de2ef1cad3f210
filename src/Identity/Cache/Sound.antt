-- ===== src/Identity/Cache/Sound.antt =====
-- What the cache serves, whatever was called before and whichever timers ran.
use dnsid_ts.Common.{
  ℕ, ◌<◌, ◌&&◌, ◌||◌, Option, none, some, String, str_eq, eq_iff, List, [], ◌∷◌, ltb, leb, ◌==◌,
  if◌then◌else◌, Bool-cases, Option-cases, ◌≡◌, refl, sym, ◌∙◌, arith, inl, inr,
}
use mathlib.Core.List.{Memᴰ}
use dnsid_ts.Identity.{VerifiedDomain, expiry}
use dnsid_ts.Identity.Cache.{
  CacheEntry, Cache, empty_cache, set_entry, get, evict, insert, put, fire, run_timer,
}

-- The calls on a cache, and the runs of its timers.
pub data Event : Type 0 where
  get_called : String → ℕ → Event
  put_called : String → VerifiedDomain → ℕ → Event
  evict_called : String → Event
  timer_ran : ℕ → Event

unfoldable pub after_event : Event → Cache → Cache
after_event (get_called domain now) c = (get domain now c).1
after_event (put_called domain result now) c = put domain result now c
after_event (evict_called domain) c = evict domain c
after_event (timer_ran id) c = run_timer id c

-- The last event first.
unfoldable pub after_events : List Event → Cache
after_events [] = empty_cache
after_events (event ∷ earlier) = after_event event (after_events earlier)

-- An entry comes from a put of its result for its domain, and ends when the result expires.
pub record IsPut (events : List Event) (domain : String) (result : VerifiedDomain) (e : ℕ)
    : Type 0 where
  pub time : ℕ
  pub called : Memᴰ (put_called domain result time) events
  pub reusable : 0 < result.dns_ttl
  pub ends : expiry result ≡ some e

abbrev IsBacked : List Event → (String → Option CacheEntry) → Type 0
IsBacked events store =
    (domain : String) (entry : CacheEntry)
    → store domain ≡ some entry
    → IsPut events domain entry.result entry.expires_at

still :
    (event : Event) (events : List Event) (domain : String) (result : VerifiedDomain) (e : ℕ)
    → IsPut events domain result e
    → IsPut (event ∷ events) domain result e
still event events domain result e p = record {
  time = p.time;
  called = Memᴰ.tail p.called;
  reusable = p.reusable;
  ends = p.ends;
}

set_entry-none :
    (events : List Event) (domain : String) (store : String → Option CacheEntry)
    → IsBacked events store
    → IsBacked events (set_entry domain none store)
unfolding set_entry
set_entry-none events domain store h other entry eq = elim (Bool-cases (str_eq other domain)) [
  | inl same ↦ absurd (ground (arith, same))
  | inr differ ↦ h other entry (ground (arith, differ))
]

set_entry-some :
    (events : List Event) (domain : String) (entry : CacheEntry)
    (store : String → Option CacheEntry)
    → IsPut events domain entry.result entry.expires_at
    → IsBacked events store
    → IsBacked events (set_entry domain (some entry) store)
unfolding set_entry
set_entry-some events domain entry store p h other found eq =
    elim (Bool-cases (str_eq other domain)) [
      | inl same ↦
          let here : other ≡ domain = (eq_iff other domain).0 same in
          let it : entry ≡ found = ground (arith, same) in rw (here, sym it) p
      | inr differ ↦ h other found (ground (arith, differ))
    ]

fire-IsBacked :
    (events : List Event) (id : ℕ) (pending : List (ℕ × String))
    (store : String → Option CacheEntry)
    → IsBacked events store
    → IsBacked events (fire id pending store)
unfolding fire
fire-IsBacked events id [] store h = h
fire-IsBacked events id (t ∷ ts) store h = elim (Bool-cases (t.0 == id)) [
  | inl this ↦ rw this (set_entry-none events t.1 store h)
  | inr other ↦ rw other (fire-IsBacked events id ts store h)
]

evict-IsBacked :
    (events : List Event) (domain : String) (c : Cache)
    → IsBacked events c.store
    → IsBacked events (evict domain c).store
unfolding evict
evict-IsBacked events domain c h = elim (Option-cases (c.store domain)) [
  | inl absent ↦ rw (evict, absent) h
  | inr (entry, found) ↦ rw (evict, found) (set_entry-none events domain c.store h)
]

get-IsBacked :
    (events : List Event) (domain : String) (now : ℕ) (c : Cache)
    → IsBacked events c.store
    → IsBacked events (get domain now c).1.store
unfolding get
get-IsBacked events domain now c h = elim (Option-cases (c.store domain)) [
  | inl absent ↦ rw (get, absent) h
  | inr (entry, found) ↦ elim (Bool-cases (leb entry.expires_at now)) [
    | inl over ↦ rw (get, found, over) (set_entry-none events domain c.store h)
    | inr lasts ↦ rw (get, found, lasts) h
  ]
]

insert-IsBacked :
    (events : List Event) (domain : String) (result : VerifiedDomain) (e now time : ℕ) (c : Cache)
    → Memᴰ (put_called domain result time) events
    → expiry result ≡ some e
    → IsBacked events c.store
    → IsBacked events (insert domain result e now c).store
unfolding insert
insert-IsBacked events domain result e now time c called ends h =
    elim (Bool-cases (leb result.dns_ttl 0 || leb e now)) [
      | inl useless ↦ rw useless h
      | inr usable ↦ rw usable (
          set_entry-some events domain
            (record { result = result; expires_at = e; timer = c.next_timer }) c.store
            (record { time = time; called = called; reusable = ground arith; ends = ends }) h)
    ]

put-IsBacked :
    (events : List Event) (domain : String) (result : VerifiedDomain) (now : ℕ) (c : Cache)
    → Memᴰ (put_called domain result now) events
    → IsBacked events c.store
    → IsBacked events (put domain result now c).store
unfolding put
put-IsBacked events domain result now c called h = elim (Option-cases (expiry result)) [
  | inl never ↦ rw (put, never) (evict-IsBacked events domain c h)
  | inr (e, ends) ↦
      rw (put, ends)
        (insert-IsBacked events domain result e now now (evict domain c) called ends
          (evict-IsBacked events domain c h))
]

after_events-IsBacked : (events : List Event) → IsBacked events (after_events events).store
unfolding after_events after_event run_timer
after_events-IsBacked [] = λ domain entry eq. absurd cc
after_events-IsBacked (event ∷ earlier) = at_event event earlier (λ d entry eq.
    still event earlier d entry.result entry.expires_at (after_events-IsBacked earlier d entry eq))
  where
    at_event :
        (event : Event) (earlier : List Event)
        → IsBacked (event ∷ earlier) (after_events earlier).store
        → IsBacked (event ∷ earlier) (after_event event (after_events earlier)).store
    at_event (get_called d now) earlier h = get-IsBacked _ d now (after_events earlier) h
    at_event (put_called d r now) earlier h =
        put-IsBacked _ d r now (after_events earlier) (Memᴰ.head refl) h
    at_event (evict_called d) earlier h = evict-IsBacked _ d (after_events earlier) h
    at_event (timer_ran id) earlier h =
        fire-IsBacked _ id (after_events earlier).pending (after_events earlier).store h

-- Whatever was called before and whichever timers ran, the cache serves a result for a domain only if it
-- was put for that domain, its DNS evidence may be reused, and its expiry lies after the time of the call.
pub get-IsPut :
    (events : List Event) (domain : String) (now : ℕ) (result : VerifiedDomain)
    → (get domain now (after_events events)).0 ≡ some result
    → (e : ℕ) × IsPut events domain result e × (now < e)
unfolding get
get-IsPut events domain now result h = elim (Option-cases ((after_events events).store domain)) [
  | inl absent ↦ absurd (ground (arith, absent))
  | inr (entry, found) ↦
      let same : entry.result ≡ result = ground (arith, found) in
      (
        entry.expires_at,
        rw (sym same) (after_events-IsBacked events domain entry found),
        ground (arith, found),
      )
]

evict-none : (domain : String) (c : Cache) → (evict domain c).store domain ≡ none
unfolding evict set_entry
evict-none domain c = elim (Option-cases (c.store domain)) [
  | inl absent ↦ rw (evict, absent) absent
  | inr (entry, found) ↦ rw (evict, found) (ground (arith, eq_iff domain domain))
]

get_absent :
    (domain : String) (now : ℕ) (c : Cache) → c.store domain ≡ none → (get domain now c).0 ≡ none
unfolding get
get_absent domain now c absent = rw (get, absent) refl

get_found :
    (domain : String) (now : ℕ) (c : Cache) (entry : CacheEntry)
    → c.store domain ≡ some entry
    → (get domain now c).0 ≡ (if leb entry.expires_at now then none else some entry.result)
unfolding get
get_found domain now c entry found = ground (arith, found)

get-insert :
    (domain : String) (result : VerifiedDomain) (put_at now e : ℕ) (c : Cache)
    → c.store domain ≡ none
    → (get domain now (insert domain result e put_at c)).0
      ≡ (if ltb 0 result.dns_ttl && (ltb put_at e && ltb now e) then some result else none)
unfolding insert set_entry
get-insert domain result put_at now e c absent =
    elim (Bool-cases (leb result.dns_ttl 0 || leb e put_at)) [
      | inl useless ↦ rw (insert, useless) (get_absent domain now c absent ∙ ground arith)
      | inr usable ↦
          rw (insert, usable)
            (get_found domain now _
                (record { result = result; expires_at = e; timer = c.next_timer })
                (ground (arith, eq_iff domain domain))
              ∙ ground arith)
    ]

-- What was just put is served, for the time until it expires, if its DNS evidence may be reused and it had
-- not expired when it was put; and otherwise nothing is served for its domain, not what was there before.
pub get-put :
    (domain : String) (result : VerifiedDomain) (put_at now e : ℕ) (c : Cache)
    → expiry result ≡ some e
    → (get domain now (put domain result put_at c)).0
      ≡ (if ltb 0 result.dns_ttl && (ltb put_at e && ltb now e) then some result else none)
unfolding put
get-put domain result put_at now e c ends =
    rw (put, ends) (get-insert domain result put_at now e (evict domain c) (evict-none domain c))
