-- ===== src/Jwks.antt =====
-- packages/protocol/src/jwks.ts: the algorithm of a key, and the selection of keys in a JWK set.
use dnsid_ts.Common.{
  ℕ, Bool, true, false, not, ◌&&◌, ◌||◌, Option, none, some, String, str_eq, List, [], ◌∷◌, Result,
  ok, err, ◌>>=◌, ◌>>◌, throw_if, if◌then◌else◌,
}
use dnsid_ts.Lifecycle.Keys.{Key, opt_eq}
pub mod Selection
mod Tests

-- A ValidationError.
pub data InvalidJwks : Type 0 where
  invalid : InvalidJwks

abbrev pub is_one_of : List String → String → Bool
is_one_of [] s = false
is_one_of (t ∷ ts) s = str_eq s t || is_one_of ts s

abbrev pub signing_algs : List String
signing_algs =
    "EdDSA" ∷ "ES256" ∷ "ES384" ∷ "ES512" ∷ "RS256" ∷ "RS384" ∷ "RS512" ∷ "PS256" ∷ "PS384"
    ∷ "PS512" ∷ []

abbrev rsa_algs : List String
rsa_algs = "RS256" ∷ "RS384" ∷ "RS512" ∷ "PS256" ∷ "PS384" ∷ "PS512" ∷ []

-- `isDraft01SigningAlg`
unfoldable pub is_draft01_signing_alg : String → Bool
is_draft01_signing_alg alg = str_eq alg "EdDSA" || str_eq alg "ES256"

unfoldable pub derived_signature_alg : Key → Result InvalidJwks String
derived_signature_alg key =
    if str_eq key.kty "OKP" && opt_eq key.crv (some "Ed25519")
    then ok "EdDSA"
    else if str_eq key.kty "EC" && opt_eq key.crv (some "P-256")
    then ok "ES256"
    else if str_eq key.kty "EC" && opt_eq key.crv (some "P-384")
    then ok "ES384"
    else if str_eq key.kty "EC" && opt_eq key.crv (some "P-521")
    then ok "ES512"
    else err invalid

unfoldable pub is_alg_consistent_with_key : String → Key → Bool
is_alg_consistent_with_key alg key =
    if str_eq key.kty "OKP"
    then opt_eq key.crv (some "Ed25519") && str_eq alg "EdDSA"
    else if str_eq key.kty "EC"
    then (opt_eq key.crv (some "P-256") && str_eq alg "ES256")
      || ((opt_eq key.crv (some "P-384") && str_eq alg "ES384")
          || (opt_eq key.crv (some "P-521") && str_eq alg "ES512"))
    else if str_eq key.kty "RSA"
    then is_one_of rsa_algs alg
    else false

abbrev pub is_signing_use : Key → Bool
is_signing_use key = opt_eq key.key_use none || opt_eq key.key_use (some "sig")

unfoldable pub stated_signature_alg : String → Key → Result InvalidJwks String
stated_signature_alg alg key = do
  throw_if (not (is_one_of signing_algs alg)) invalid
  throw_if (not (is_alg_consistent_with_key alg key)) invalid
  ok alg

abbrev pub alg_of : Option String → Key → Result InvalidJwks String
alg_of none key = derived_signature_alg key
alg_of (some alg) key = stated_signature_alg alg key

unfoldable pub jwk_signature_alg : Key → Result InvalidJwks String
jwk_signature_alg key = do throw_if (not (is_signing_use key)) invalid; alg_of key.alg key

-- What a `try` makes of a call whose error it drops.
abbrev pub succeeds : {A : Type 0} → Result InvalidJwks A → Bool
succeeds (err e) = false
succeeds (ok a) = true

abbrev or_false : Result InvalidJwks Bool → Bool
or_false (err e) = false
or_false (ok b) = b

abbrev draft01_alg_of : Key → Result InvalidJwks Bool
draft01_alg_of key = do alg ← jwk_signature_alg key; ok (is_draft01_signing_alg alg)

abbrev pub is_given_text : Option String → Bool
is_given_text none = false
is_given_text (some s) = not (str_eq s "")

unfoldable pub is_draft01_record_signing_candidate : Key → Bool
is_draft01_record_signing_candidate key =
    if not (is_signing_use key) || not (is_given_text key.alg)
    then false
    else or_false (draft01_alg_of key)

-- `assertPublicKeyMaterial`
unfoldable pub assert_public_key_material : Key → Result InvalidJwks (Unit {0})
assert_public_key_material key =
    if str_eq key.kty "EC"
    then throw_if (not (is_given_text key.x) || not (is_given_text key.y)) invalid
    else if str_eq key.kty "OKP"
    then throw_if (not (is_given_text key.x)) invalid
    else if str_eq key.kty "RSA"
    then throw_if (not (is_given_text key.n) || not (is_given_text key.e)) invalid
    else ok tt

-- `importJWK` of jose is `imports`: whether it resolves.
unfoldable pub assert_importable_public_key :
    (imports : Key → String → Bool) → Key → Result InvalidJwks (Unit {0})
assert_importable_public_key imports key = do
  assert_public_key_material key
  alg ← jwk_signature_alg key
  throw_if (not (imports key alg)) invalid

abbrev pub filter : (Key → Bool) → List Key → List Key
filter p [] = []
filter p (k ∷ ks) = let rest = filter p ks in if p k then k ∷ rest else rest

abbrev is_nil : List Key → Bool
is_nil [] = true
is_nil _ = false

abbrev signs : Key → Bool
signs key = is_signing_use key && succeeds (jwk_signature_alg key)

unfoldable pub signing_keys : List Key → Result InvalidJwks (List Key)
signing_keys keys = do throw_if (is_nil (filter signs keys)) invalid; ok (filter signs keys)

unfoldable pub key_by_id : String → List Key → Option Key
key_by_id kid [] = none
key_by_id kid (k ∷ ks) = let rest = key_by_id kid ks in if str_eq k.kid kid then some k else rest

unfoldable pub draft01_record_signing_key_by_id : String → List Key → Option Key
draft01_record_signing_key_by_id kid [] = none
draft01_record_signing_key_by_id kid (k ∷ ks) =
    let rest = draft01_record_signing_key_by_id kid ks in
    if str_eq k.kid kid && is_draft01_record_signing_candidate k then some k else rest

abbrev pub has_kid : String → List Key → Bool
has_kid kid [] = false
has_kid kid (k ∷ ks) = str_eq kid k.kid || has_kid kid ks

-- Whether the set of the nonempty kids is as large as their list.
unfoldable pub unique_kids : List Key → Bool
unique_kids [] = true
unique_kids (k ∷ ks) =
    let rest = unique_kids ks in if str_eq k.kid "" then rest else not (has_kid k.kid ks) && rest

abbrev pub assert_unique_kids : List Key → Result InvalidJwks (Unit {0})
assert_unique_kids keys = throw_if (not (unique_kids keys)) invalid

unfoldable pub check_algs : List Key → Result InvalidJwks (Unit {0})
check_algs [] = ok tt
check_algs (k ∷ ks) = do
  throw_if (is_stated k.alg && not (succeeds (jwk_signature_alg k))) invalid
  check_algs ks
  where
    is_stated : Option String → Bool
    is_stated none = false
    is_stated (some alg) = true

abbrev some_kid : List Key → Bool
some_kid [] = false
some_kid (k ∷ ks) = not (str_eq k.kid "") || some_kid ks

unfoldable pub validate : List Key → Result InvalidJwks (Unit {0})
validate keys = do
  check_algs keys
  signing ← signing_keys keys
  throw_if (not (some_kid signing)) invalid
  assert_unique_kids keys

-- The only element of a list.
abbrev pub only : List Key → Result InvalidJwks Key
only (k ∷ []) = ok k
only _ = err invalid

unfoldable pub current_draft01_signing_key : List Key → Result InvalidJwks Key
current_draft01_signing_key keys = do
  key ← only (filter is_signing_use keys)
  throw_if (str_eq key.kid "") invalid
  throw_if (not (is_given_text key.alg)) invalid
  alg ← jwk_signature_alg key
  throw_if (not (is_draft01_signing_alg alg)) invalid
  ok key

-- `validateOperational`, and `validateRecordSigning`, which has the same body.
unfoldable pub validate_operational : List Key → Result InvalidJwks (Unit {0})
validate_operational keys = do
  assert_unique_kids keys
  key ← current_draft01_signing_key keys
  ok tt

unfoldable pub validate_record_signing_keyset :
    (imports : Key → String → Bool) → List Key → Result InvalidJwks (Unit {0})
validate_record_signing_keyset imports keys = do
  assert_unique_kids keys
  key ← current_draft01_signing_key keys
  assert_importable_public_key imports key

abbrev pub some_shared : List String → List String → Bool
some_shared set [] = false
some_shared set (t ∷ ts) = is_one_of set t || some_shared set ts

abbrev pub or_invalid : Option String → Result InvalidJwks String
or_invalid none = err invalid
or_invalid (some t) = ok t

-- `thumbprint` stands for jwkThumbprint; `none` where it rejects.
module _ (thumbprint : Key → Option String) where
  unfoldable pub safe_thumbprint : Key → Result InvalidJwks String
  safe_thumbprint key = or_invalid (thumbprint key)

  unfoldable pub safe_thumbprints : List Key → Result InvalidJwks (List String)
  safe_thumbprints [] = ok []
  safe_thumbprints (k ∷ ks) = do t ← safe_thumbprint k; ts ← safe_thumbprints ks; ok (t ∷ ts)

  abbrev pub shared_thumbprints : List Key → List Key → Result InvalidJwks Bool
  shared_thumbprints a b = do
    thumbprints_a ← safe_thumbprints a
    thumbprints_b ← safe_thumbprints b
    ok (some_shared thumbprints_a thumbprints_b)

  unfoldable pub key_sets_share_key_material : List Key → List Key → Result InvalidJwks Bool
  key_sets_share_key_material [] b = ok false
  key_sets_share_key_material (x ∷ a) [] = ok false
  key_sets_share_key_material (x ∷ a) (y ∷ b) = shared_thumbprints (x ∷ a) (y ∷ b)
