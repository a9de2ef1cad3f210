-- ===== src/Jwks/Selection.antt =====
-- Which keys a JWK set selects.
use mathlib.Core.Path.{subst}
use dnsid_ts.Common.{
  ◌||◌, Bool, true, false, not, Option, none, some, String, str_eq, eq_iff, eq_refl, List, [], ◌∷◌,
  Result, ok, throw_if, >>=-eq-ok, Bool-cases, Option-cases, ◌≡◌, ◌≢◌, ◌⊎◌, ◌↔◌, inl, inr, refl,
  sym, ap, ◌∙◌, arith,
}
use dnsid_ts.Lifecycle.Keys.{Key, opt_eq}
use dnsid_ts.Jwks.{
  InvalidJwks, invalid, is_one_of, is_draft01_signing_alg, is_signing_use, jwk_signature_alg,
  alg_of, signing_algs, stated_signature_alg, is_alg_consistent_with_key, is_given_text, filter,
  key_by_id, has_kid, unique_kids, only, current_draft01_signing_key, or_invalid, safe_thumbprint,
  safe_thumbprints, some_shared, key_sets_share_key_material,
}

-- Membership, by recursion.
abbrev pub IsIn : {A : Type 0} → A → List A → Type 0
IsIn a [] = ⊥
IsIn a (x ∷ xs) = (x ≡ a) ⊎ IsIn a xs

has_kid-IsIn : (k : Key) (ks : List Key) → IsIn k ks → has_kid k.kid ks ≡ true
has_kid-IsIn k [] h = absurd h
has_kid-IsIn k (x ∷ xs) (inl same) = rw same (ground (arith, eq_refl k.kid))
has_kid-IsIn k (x ∷ xs) (inr later) = ground (arith, has_kid-IsIn k xs later)

-- In a set that passes assertUniqueKids, keyById finds each key that has a kid by that kid.
pub key_by_id_unique :
    (keys : List Key) (key : Key)
    → unique_kids keys ≡ true
    → IsIn key keys
    → key.kid ≢ ""
    → key_by_id key.kid keys ≡ some key
unfolding key_by_id unique_kids
key_by_id_unique [] key unique h named = absurd h
key_by_id_unique (x ∷ xs) key unique (inl same) named = rw same (ground (arith, eq_refl key.kid))
key_by_id_unique (x ∷ xs) key unique (inr later) named = elim (Bool-cases (str_eq x.kid key.kid)) [
  | inr other ↦
      let rest : unique_kids xs ≡ true = ground arith in
      ground (arith, other, key_by_id_unique xs key rest later named)
  | inl clash ↦
      let same : x.kid ≡ key.kid = (eq_iff x.kid key.kid).0 clash in
      let taken : has_kid x.kid xs ≡ true = rw same (has_kid-IsIn key xs later) in
      absurd (ground (arith, taken, same, eq_iff x.kid ""))
]

ok_unique : {A : Type 0} (m : Result InvalidJwks A) {a b : A} → m ≡ ok a → m ≡ ok b → a ≡ b
ok_unique m p q = cc

some_injective : {s t : String} → some s ≡ some t → s ≡ t
some_injective h = cc

or_invalid-eq-ok : (o : Option String) {t : String} → or_invalid o ≡ ok t → o ≡ some t
or_invalid-eq-ok none h = cc
or_invalid-eq-ok (some u) h = cc

only_member : {a b : Key} → IsIn a (b ∷ []) → a ≡ b
only_member (inl same) = sym same
only_member (inr h) = absurd h

nonempty_kid : (k : Key) {u : Unit {0}} → throw_if (str_eq k.kid "") invalid ≡ ok u → k.kid ≢ ""
nonempty_kid k h e = let same : str_eq k.kid "" ≡ true = (eq_iff k.kid "").1 e in cc (same, h)

draft01_alg :
    (alg : String) {u : Unit {0}}
    → throw_if (not (is_draft01_signing_alg alg)) invalid ≡ ok u
    → (alg ≡ "EdDSA") ⊎ (alg ≡ "ES256")
unfolding is_draft01_signing_alg
draft01_alg alg h = ground (arith, eq_iff alg "EdDSA", eq_iff alg "ES256")

filter-kept :
    (p : Key → Bool) (x : Key) (xs : List Key) → p x ≡ true → filter p (x ∷ xs) ≡ x ∷ filter p xs
filter-kept p x xs e = rw e refl

filter-dropped :
    (p : Key → Bool) (x : Key) (xs : List Key) → p x ≡ false → filter p (x ∷ xs) ≡ filter p xs
filter-dropped p x xs e = rw e refl

-- What satisfies the test is kept, and nothing else is.
filter-IsIn :
    (p : Key → Bool) (ks : List Key) (k : Key) → IsIn k ks → p k ≡ true → IsIn k (filter p ks)
filter-IsIn p [] k h holds = absurd h
filter-IsIn p (x ∷ xs) k (inl same) holds = rw (filter-kept p x xs (ap p same ∙ holds)) (inl same)
filter-IsIn p (x ∷ xs) k (inr later) holds = elim (Bool-cases (p x)) [
  | inl kept ↦ rw (filter-kept p x xs kept) (inr (filter-IsIn p xs k later holds))
  | inr dropped ↦ rw (filter-dropped p x xs dropped) (filter-IsIn p xs k later holds)
]

IsIn-filter :
    (p : Key → Bool) (ks : List Key) (k : Key) → IsIn k (filter p ks) → IsIn k ks × (p k ≡ true)
IsIn-filter p [] k h = absurd h
IsIn-filter p (x ∷ xs) k h = elim (Bool-cases (p x)) [
  | inl kept ↦ elim (subst (IsIn k) (filter-kept p x xs kept) h) [
    | inl same ↦ (inl same, rw (← same) kept)
    | inr later ↦ let (i, holds) = IsIn-filter p xs k later in (inr i, holds)
  ]
  | inr dropped ↦
      let (i, holds) = IsIn-filter p xs k (subst (IsIn k) (filter-dropped p x xs dropped) h) in
      (inr i, holds)
]

only-eq-ok : (ks : List Key) {key : Key} → only ks ≡ ok key → ks ≡ key ∷ []
only-eq-ok (k ∷ []) h = let same : k ≡ _ = cc h in ap (λ x. x ∷ []) same
only-eq-ok [] h = cc
only-eq-ok (k ∷ l ∷ ks) h = cc

-- A key that states no use, or the use for signatures.
abbrev pub IsForSigning : Key → Type 0
IsForSigning key = (key.key_use ≡ none) ⊎ (key.key_use ≡ some "sig")

-- The two algorithms of draft-01, with the type and the curve of their keys.
pub data IsDraft01 (key : Key) : Type 0 where
  ed25519 : key.alg ≡ some "EdDSA" → key.kty ≡ "OKP" → key.crv ≡ some "Ed25519" → IsDraft01 key
  p256 : key.alg ≡ some "ES256" → key.kty ≡ "EC" → key.crv ≡ some "P-256" → IsDraft01 key

opt_eq-true : (o : Option String) (t : String) → opt_eq o (some t) ≡ true → o ≡ some t
opt_eq-true none t h = cc
opt_eq-true (some s) t h = ap some ((eq_iff s t).0 h)

signing_use :
    (u : Option String)
    → (opt_eq u none || opt_eq u (some "sig")) ≡ true
    → (u ≡ none) ⊎ (u ≡ some "sig")
signing_use none h = inl refl
signing_use (some s) h = inr (opt_eq-true (some s) "sig" h)

is_signing_use-IsForSigning : (k : Key) → is_signing_use k ≡ true → IsForSigning k
is_signing_use-IsForSigning k h = signing_use k.key_use h

IsForSigning-is_signing_use : (k : Key) → IsForSigning k → is_signing_use k ≡ true
IsForSigning-is_signing_use k (inl e) = rw e refl
IsForSigning-is_signing_use k (inr e) = rw e refl

stated-eq-ok :
    (alg : String) (key : Key) {a : String}
    → stated_signature_alg alg key ≡ ok a
    → (alg ≡ a) × (is_alg_consistent_with_key alg key ≡ true)
unfolding stated_signature_alg
stated-eq-ok alg key h =
    let (_, _, h1) = >>=-eq-ok (throw_if (not (is_one_of signing_algs alg)) invalid) _ h in
    let (_, fits, h2) =
      >>=-eq-ok (throw_if (not (is_alg_consistent_with_key alg key)) invalid) _ h1 in
    (ok_unique (ok alg) refl h2, ground (arith, fits))

ed25519_key :
    (key : Key)
    → is_alg_consistent_with_key "EdDSA" key ≡ true
    → (key.kty ≡ "OKP") × (opt_eq key.crv (some "Ed25519") ≡ true)
unfolding is_alg_consistent_with_key
ed25519_key key h = ground (arith, eq_iff key.kty "OKP")

p256_key :
    (key : Key)
    → is_alg_consistent_with_key "ES256" key ≡ true
    → (key.kty ≡ "EC") × (opt_eq key.crv (some "P-256") ≡ true)
unfolding is_alg_consistent_with_key
p256_key key h = ground (arith, eq_iff key.kty "EC")

consistent-IsDraft01 :
    (key : Key) (alg : String)
    → key.alg ≡ some alg
    → is_alg_consistent_with_key alg key ≡ true
    → (alg ≡ "EdDSA") ⊎ (alg ≡ "ES256")
    → IsDraft01 key
consistent-IsDraft01 key alg stated fits (inl is) =
    let (kty, crv) =
      ed25519_key key (subst (λ a. is_alg_consistent_with_key a key ≡ true) is fits) in
    ed25519 (stated ∙ ap some is) kty (opt_eq-true key.crv "Ed25519" crv)
consistent-IsDraft01 key alg stated fits (inr is) =
    let (kty, crv) = p256_key key (subst (λ a. is_alg_consistent_with_key a key ≡ true) is fits) in
    p256 (stated ∙ ap some is) kty (opt_eq-true key.crv "P-256" crv)

jwk_signature_alg-IsDraft01 :
    (key : Key) {alg : String}
    → is_given_text key.alg ≡ true
    → jwk_signature_alg key ≡ ok alg
    → (alg ≡ "EdDSA") ⊎ (alg ≡ "ES256")
    → IsDraft01 key
unfolding jwk_signature_alg
jwk_signature_alg-IsDraft01 key {alg} given h which =
    let (_, _, h1) = >>=-eq-ok (throw_if (not (is_signing_use key)) invalid) _ h in
    elim (Option-cases key.alg) [
      | inl absent ↦ absurd (ground (arith, ap is_given_text absent))
      | inr (a, stated) ↦
          let (same, fits) = stated-eq-ok a key (subst (λ o. alg_of o key ≡ ok alg) stated h1) in
          consistent-IsDraft01 key alg (stated ∙ ap some same)
            (subst (λ b. is_alg_consistent_with_key b key ≡ true) same fits) which
    ]

-- The current signing key is the only key of the set that states no use or the use for signatures, has a
-- kid, and states the algorithm EdDSA as an Ed25519 key, or ES256 as a P-256 key.
pub current_draft01_signing_key_sound :
    (keys : List Key) {key : Key}
    → current_draft01_signing_key keys ≡ ok key
    → IsIn key keys
      × IsForSigning key
      × ((k : Key) → IsIn k keys → IsForSigning k → k ≡ key)
      × (key.kid ≢ "")
      × IsDraft01 key
unfolding current_draft01_signing_key
current_draft01_signing_key_sound keys {key} h =
    let (k, found, h1) = >>=-eq-ok (only (filter is_signing_use keys)) _ h in
    let (_, named, h2) = >>=-eq-ok (throw_if (str_eq k.kid "") invalid) _ h1 in
    let (_, stated, h3) = >>=-eq-ok (throw_if (not (is_given_text k.alg)) invalid) _ h2 in
    let (alg, valid, h4) = >>=-eq-ok (jwk_signature_alg k) _ h3 in
    let (_, allowed, h5) = >>=-eq-ok (throw_if (not (is_draft01_signing_alg alg)) invalid) _ h4 in
    let same : k ≡ key = ok_unique (ok k) refl h5 in
    let single : filter is_signing_use keys ≡ key ∷ [] =
      only-eq-ok _ found ∙ ap (λ x. x ∷ []) same in
    let (member, signs) = IsIn-filter is_signing_use keys key (rw single (inl refl)) in
    (
      member,
      is_signing_use-IsForSigning key signs,
      λ other place usable. only_member (
          subst (IsIn other) single (
            filter-IsIn is_signing_use keys other place
              (IsForSigning-is_signing_use other usable))),
      λ e. nonempty_kid k named (ap (λ x. x.kid) same ∙ e),
      subst IsDraft01 same
          (jwk_signature_alg-IsDraft01 k (ground (arith, stated)) valid (draft01_alg alg allowed)),
    )

is_one_of-IsIn : (ts : List String) (t : String) → (is_one_of ts t ≡ true) ↔ IsIn t ts
is_one_of-IsIn [] t = (λ h. cc, λ h. absurd h)
is_one_of-IsIn (u ∷ ts) t =
    let (to, from) = is_one_of-IsIn ts t in
    (
      λ h. elim (Bool-cases (str_eq t u)) [
        | inl same ↦ inl (sym ((eq_iff t u).0 same))
        | inr other ↦ inr (to (ground (arith, other)))
      ],
      λ h. elim h [
        | inl same ↦ let eq : str_eq t u ≡ true = (eq_iff t u).1 (sym same) in ground (arith, eq)
        | inr later ↦ let found : is_one_of ts t ≡ true = from later in ground (arith, found)
      ],
    )

module _ (thumbprint : Key → Option String) where
  safe_thumbprint-eq-ok :
      (k : Key) {t : String} → safe_thumbprint thumbprint k ≡ ok t → thumbprint k ≡ some t
  unfolding safe_thumbprint
  safe_thumbprint-eq-ok k h = or_invalid-eq-ok (thumbprint k) h

  -- The thumbprints of a list are those of its keys.
  safe_thumbprints-IsIn :
      (ks : List Key) {ts : List String} (t : String)
      → safe_thumbprints thumbprint ks ≡ ok ts
      → IsIn t ts ↔ ((k : Key) × IsIn k ks × (thumbprint k ≡ some t))
  unfolding safe_thumbprints
  safe_thumbprints-IsIn [] {ts} t h =
      let empty : [] ≡ ts = ok_unique (ok []) refl h in
      (λ i. absurd (subst (IsIn t) (sym empty) i), λ (k, i, p). absurd i)
  safe_thumbprints-IsIn (k ∷ ks) {ts} t h =
      let (u, given, bound) = >>=-eq-ok (safe_thumbprint thumbprint k) _ h in
      let hashed = safe_thumbprint-eq-ok k given in
      let (us, more, whole) = >>=-eq-ok (safe_thumbprints thumbprint ks) _ bound in
      let same : u ∷ us ≡ ts = ok_unique (ok (u ∷ us)) refl whole in
      let (to, from) = safe_thumbprints-IsIn ks t more in
      (
        λ i. elim (subst (IsIn t) (sym same) i) [
          | inl is ↦ (k, inl refl, hashed ∙ ap some is)
          | inr later ↦ let (l, place, p) = to later in (l, inr place, p)
        ],
        λ (l, place, p). subst (IsIn t) same (place_of k ks u us l hashed place p from),
      )
    where
      place_of :
          (k : Key) (ks : List Key) (u : String) (us : List String) (l : Key)
          → thumbprint k ≡ some u
          → IsIn l (k ∷ ks)
          → thumbprint l ≡ some t
          → ((m : Key) × IsIn m ks × (thumbprint m ≡ some t) → IsIn t us)
          → IsIn t (u ∷ us)
      place_of k ks u us l hashed (inl same) p from =
          inl (some_injective (sym hashed ∙ ap thumbprint same ∙ p))
      place_of k ks u us l hashed (inr later) p from = inr (from (l, later, p))

  some_shared-IsIn :
      (set ts : List String) → (some_shared set ts ≡ true) ↔ ((t : String) × IsIn t set × IsIn t ts)
  some_shared-IsIn set [] = (λ h. cc, λ (t, i, j). absurd j)
  some_shared-IsIn set (u ∷ ts) =
      let (to, from) = some_shared-IsIn set ts in
      (
        λ h. elim (Bool-cases (is_one_of set u)) [
          | inl found ↦ (u, (is_one_of-IsIn set u).0 found, inl refl)
          | inr missing ↦ let (t, i, j) = to (ground (arith, missing)) in (t, i, inr j)
        ],
        λ (t, i, j). elim j [
          | inl same ↦
              let found : is_one_of set u ≡ true = (is_one_of-IsIn set u).1 (rw same i) in
              ground (arith, found)
          | inr later ↦
              let found : some_shared set ts ≡ true = from (t, i, later) in ground (arith, found)
        ],
      )

  -- Where keySetsShareKeyMaterial answers for two nonempty sets, it answers true exactly when a key of the one and a key of the
  -- other have one thumbprint.
  pub key_sets_share_key_material_iff :
      (x y : Key) (a b : List Key) {shared : Bool}
      → key_sets_share_key_material thumbprint (x ∷ a) (y ∷ b) ≡ ok shared
      → (shared ≡ true) ↔ (
          (k : Key) × (l : Key) × (t : String) × IsIn k (x ∷ a)
          × IsIn l (y ∷ b)
          × (thumbprint k ≡ some t)
          × (thumbprint l ≡ some t))
  unfolding key_sets_share_key_material
  key_sets_share_key_material_iff x y a b {shared} h =
      let (ts, hashed, h1) = >>=-eq-ok (safe_thumbprints thumbprint (x ∷ a)) _ h in
      let (us, hashed', h2) = >>=-eq-ok (safe_thumbprints thumbprint (y ∷ b)) _ h1 in
      let same : some_shared ts us ≡ shared = ok_unique (ok _) refl h2 in
      let (to, from) = some_shared-IsIn ts us in
      (
        λ yes.
            let (t, i, j) = to (same ∙ yes) in
            let (k, place, p) = (safe_thumbprints-IsIn (x ∷ a) t hashed).0 i in
            let (l, place', p') = (safe_thumbprints-IsIn (y ∷ b) t hashed').0 j in
            (k, l, t, place, place', p, p'),
        λ (k, l, t, place, place', p, p').
            sym same
            ∙ from (
              t,
              (safe_thumbprints-IsIn (x ∷ a) t hashed).1 (k, place, p),
              (safe_thumbprints-IsIn (y ∷ b) t hashed').1 (l, place', p'),
            ),
      )
