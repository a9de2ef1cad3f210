-- ===== src/Jwks/Tests.antt =====
-- Two sets of keys, whose thumbprints are their `x`.
use dnsid_ts.Common.{
  true, Option, none, some, String, List, [], ◌∷◌, ok, err, ◌≡◌, ◌≢◌, ◌↔◌, inl, inr, refl,
}
use dnsid_ts.Lifecycle.Keys.{Key}
use dnsid_ts.Jwks.{
  invalid, is_draft01_signing_alg, derived_signature_alg, is_alg_consistent_with_key,
  stated_signature_alg, jwk_signature_alg, key_by_id, unique_kids, current_draft01_signing_key,
  validate_operational, validate, check_algs, signing_keys, safe_thumbprint, safe_thumbprints,
  key_sets_share_key_material,
}
use dnsid_ts.Jwks.Selection.{
  IsIn, IsForSigning, IsDraft01, key_by_id_unique, current_draft01_signing_key_sound,
  key_sets_share_key_material_iff,
}

runs : Unit {0}
unfolding is_draft01_signing_alg derived_signature_alg is_alg_consistent_with_key
    stated_signature_alg jwk_signature_alg key_by_id unique_kids current_draft01_signing_key
    validate_operational validate check_algs signing_keys safe_thumbprint safe_thumbprints
    key_sets_share_key_material
runs = tt

abbrev key : String → String → Option String → Key
key kid x key_use = record {
  kty = "OKP";
  kid = kid;
  alg = some "EdDSA";
  key_use = key_use;
  crv = some "Ed25519";
  x = some x;
  y = none;
  n = none;
  e = none;
  k = none;
  d = none;
}

abbrev signer : Key
signer = key "a" "material" none

abbrev sealer : Key
sealer = key "b" "sealed" (some "enc")

abbrev keys : List Key
keys = signer ∷ sealer ∷ []

results :
    (validate (signer ∷ []) ≡ ok tt)
    × (validate keys ≡ err invalid)
    × (validate_operational keys ≡ ok tt)
    × (validate_operational (signer ∷ signer ∷ []) ≡ err invalid)
    × (jwk_signature_alg (record signer { alg = some "ES256" }) ≡ err invalid)
unfolding runs
results = (refl, refl, refl, refl, refl)

unique : unique_kids keys ≡ true
unfolding runs
unique = refl

selected : current_draft01_signing_key keys ≡ ok signer
unfolding runs
selected = refl

sharing : key_sets_share_key_material (λ k. k.x) keys (key "c" "material" none ∷ []) ≡ ok true
unfolding runs
sharing = refl

key_by_id_unique_example : key_by_id "b" keys ≡ some sealer
key_by_id_unique_example = key_by_id_unique keys sealer unique (inr (inl refl)) (λ e. cc)

current_draft01_signing_key_sound_example :
    IsIn signer keys
    × IsForSigning signer
    × ((k : Key) → IsIn k keys → IsForSigning k → k ≡ signer)
    × (signer.kid ≢ "")
    × IsDraft01 signer
current_draft01_signing_key_sound_example = current_draft01_signing_key_sound keys selected

key_sets_share_key_material_iff_example : (true ≡ true) ↔ (
    (k : Key) × (l : Key) × (t : String) × IsIn k keys
    × IsIn l (key "c" "material" none ∷ [])
    × (k.x ≡ some t)
    × (l.x ≡ some t))
key_sets_share_key_material_iff_example =
    key_sets_share_key_material_iff (λ k. k.x) signer (key "c" "material" none) (sealer ∷ []) []
      sharing
