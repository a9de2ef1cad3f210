-- ===== src/Stream/Thumbprints.antt =====
-- The thumbprints of supported lifecycle keys: `assertSupportedLifecycleJwk` of
-- packages/log-c2sp-tlog/src/event-codec.ts against `synchronousJwkThumbprint` and `sameJwkMaterial` of
-- packages/protocol/src/verified-domain.ts.
use dnsid_ts.Common.{
  true, false, Option, none, some, String, eq_iff, List, [], ◌∷◌, ok, Bool-cases, ◌≡◌, ◌≢◌, refl,
  ap, ◌∙◌, arith, inl, inr,
}
use dnsid_ts.Lifecycle.Keys.{
  Key, LifecycleError, opt_eq, key_continuity, thumbprint_material, complete_material,
  hash_material, hash_complete, synchronous_jwk_thumbprint, same_jwk_material,
}
use dnsid_ts.Stream.Checks.{is_supported_lifecycle_jwk, truthy}
use dnsid_ts.Stream.Evidence.{Suite}
use dnsid_ts.Lifecycle.History.{synchronous_jwk_thumbprint_category}

opt_eq_sound : (a b : Option String) → opt_eq a b ≡ true → a ≡ b
opt_eq_sound none none h = refl
opt_eq_sound (some a) (some b) h = ap some ((eq_iff a b).0 h)
opt_eq_sound none (some b) h = cc
opt_eq_sound (some a) none h = cc

truthy_sound : (o : Option String) → truthy o ≡ true → (s : String) × (o ≡ some s) × (s ≢ "")
truthy_sound none h = cc
truthy_sound (some s) h = (s, refl, ground (arith, eq_iff s ""))

-- The two shapes of a supported key.
data Shape (key : Key) : Type 0 where
  ed25519 :
      (x : String)
      → key.kty ≡ "OKP"
      → key.crv ≡ some "Ed25519"
      → key.x ≡ some x
      → x ≢ ""
      → Shape key
  p256 :
      (x y : String)
      → key.kty ≡ "EC"
      → key.crv ≡ some "P-256"
      → key.x ≡ some x
      → x ≢ ""
      → key.y ≡ some y
      → y ≢ ""
      → Shape key

is_supported_lifecycle_jwk-Shape : (key : Key) → is_supported_lifecycle_jwk key ≡ true → Shape key
unfolding is_supported_lifecycle_jwk
is_supported_lifecycle_jwk-Shape key h = elim (Bool-cases (opt_eq key.alg (some "EdDSA"))) [
  | inl eddsa ↦
      let (x, given, nonempty) = truthy_sound key.x (ground (arith, eddsa)) in
      ed25519 x ((eq_iff key.kty "OKP").0 (ground (arith, eddsa)))
        (opt_eq_sound key.crv (some "Ed25519") (ground (arith, eddsa))) given nonempty
  | inr other_alg ↦
      let (x, x_given, x_nonempty) = truthy_sound key.x (ground (arith, other_alg)) in
      let (y, y_given, y_nonempty) = truthy_sound key.y (ground (arith, other_alg)) in
      p256 x y ((eq_iff key.kty "EC").0 (ground (arith, other_alg)))
        (opt_eq_sound key.crv (some "P-256") (ground (arith, other_alg))) x_given x_nonempty y_given
        y_nonempty
]

module _ (hash : List (String × String) → String) where
  -- A supported key has a thumbprint.
  is_supported_lifecycle_jwk-hashed :
      (key : Key) (c : LifecycleError)
      → is_supported_lifecycle_jwk key ≡ true
      → (t : List (String × String)) × (synchronous_jwk_thumbprint hash key c ≡ ok (hash t))
  unfolding is_supported_lifecycle_jwk synchronous_jwk_thumbprint hash_material hash_complete
      thumbprint_material complete_material
  is_supported_lifecycle_jwk-hashed key c h = by_shape (is_supported_lifecycle_jwk-Shape key h)
    where
      by_shape :
          Shape key
          → (t : List (String × String)) × (synchronous_jwk_thumbprint hash key c ≡ ok (hash t))
      by_shape (ed25519 x kty crv given nonempty) = (
        ("crv", "Ed25519") ∷ ("kty", "OKP") ∷ ("x", x) ∷ [],
        rw (kty, crv, given) (ground (arith, nonempty, eq_iff x "")),
      )
      by_shape (p256 x y kty crv xg xn yg yn) = (
        ("crv", "P-256") ∷ ("kty", "EC") ∷ ("x", x) ∷ ("y", y) ∷ [],
        rw (kty, crv, xg, yg) (ground (arith, xn, yn, eq_iff x "", eq_iff y "")),
      )

  -- Keys of one material have one thumbprint.
  same_jwk_material_hashed :
      (a b : Key) (c : LifecycleError)
      → is_supported_lifecycle_jwk a ≡ true
      → same_jwk_material a b ≡ true
      → synchronous_jwk_thumbprint hash a c ≡ synchronous_jwk_thumbprint hash b c
  unfolding synchronous_jwk_thumbprint thumbprint_material same_jwk_material
  same_jwk_material_hashed a b c supported h =
      by_shape (is_supported_lifecycle_jwk-Shape a supported)
    where
      by_shape : Shape a → synchronous_jwk_thumbprint hash a c ≡ synchronous_jwk_thumbprint hash b c
      by_shape (ed25519 x kty crv given nonempty) =
          let same_kty : a.kty ≡ b.kty = (eq_iff a.kty b.kty).0 (ground arith) in
          let same_crv : a.crv ≡ b.crv =
            opt_eq_sound a.crv b.crv (ground (arith, eq_iff a.kty "OKP", eq_iff a.kty "EC")) in
          let same_x : a.x ≡ b.x =
            opt_eq_sound a.x b.x (ground (arith, eq_iff a.kty "OKP", eq_iff a.kty "EC")) in
          rw (← same_kty, ← same_crv, ← same_x, kty) refl
      by_shape (p256 x y kty crv xg xn yg yn) =
          let same_kty : a.kty ≡ b.kty = (eq_iff a.kty b.kty).0 (ground arith) in
          let same_crv : a.crv ≡ b.crv =
            opt_eq_sound a.crv b.crv (ground (arith, eq_iff a.kty "EC")) in
          let same_x : a.x ≡ b.x = opt_eq_sound a.x b.x (ground (arith, eq_iff a.kty "EC")) in
          let same_y : a.y ≡ b.y = opt_eq_sound a.y b.y (ground (arith, eq_iff a.kty "EC")) in
          rw (← same_kty, ← same_crv, ← same_x, ← same_y, kty) refl

-- What is relied on: jose computes the thumbprint of RFC 7638, as `hash` does of the material, and no
-- digest has an empty text.
pub record IsRfc7638 (suite : Suite) (hash : List (String × String) → String) : Type 0 where
  pub agrees :
      (key : Key) {t : String}
      → synchronous_jwk_thumbprint hash key key_continuity ≡ ok t
      → suite.jwk_thumbprint key ≡ some t
  pub nonempty : (material : List (String × String)) → hash material ≢ ""

module _ (suite : Suite) (hash : List (String × String) → String) (rfc : IsRfc7638 suite hash) where
  -- Both computations give a supported key the same thumbprint, which is no empty text.
  pub is_supported_lifecycle_jwk-agrees :
      (key : Key) (c : LifecycleError) {t : String}
      → is_supported_lifecycle_jwk key ≡ true
      → suite.jwk_thumbprint key ≡ some t
      → (synchronous_jwk_thumbprint hash key c ≡ ok t) × (t ≢ "")
  is_supported_lifecycle_jwk-agrees key c {t} supported given =
      let (material, hashed) =
        is_supported_lifecycle_jwk-hashed hash key key_continuity supported in
      let agreed : suite.jwk_thumbprint key ≡ some (hash material) = rfc.agrees key hashed in
      let same : hash material ≡ t = cc (agreed, given) in
      (
        synchronous_jwk_thumbprint_category hash key key_continuity c (hashed ∙ ap ok same),
        λ e. rfc.nonempty material (same ∙ e),
      )

  pub distinct_thumbprints :
      (a b : Key) {s t : String}
      → is_supported_lifecycle_jwk a ≡ true
      → is_supported_lifecycle_jwk b ≡ true
      → suite.jwk_thumbprint a ≡ some s
      → suite.jwk_thumbprint b ≡ some t
      → s ≢ t
      → same_jwk_material a b ≡ false
  distinct_thumbprints a b {s} {t} sa sb p q differ = elim (Bool-cases (same_jwk_material a b)) [
    | inr apart ↦ apart
    | inl same ↦
        let one = same_jwk_material_hashed hash a b key_continuity sa same in
        let first = is_supported_lifecycle_jwk-agrees a key_continuity sa p in
        let second = is_supported_lifecycle_jwk-agrees b key_continuity sb q in
        absurd (differ (cc (one, first.0, second.0)))
  ]
