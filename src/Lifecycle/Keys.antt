-- ===== src/Lifecycle/Keys.antt =====
-- JWK material: `synchronousJwkThumbprint` and `sameJwkMaterial` of
-- packages/protocol/src/verified-domain.ts, and the errors of a lifecycle.
use dnsid_ts.Common.{
  Bool, true, false, ◌&&◌, Option, none, some, String, str_eq, List, [], ◌∷◌, Result, ok, err,
  if◌then◌else◌,
}

-- `DnsIdJWK`, as far as lifecycles read it; `key_use` is its member `use`.
pub record Key : Type 0 where
  pub kty : String
  pub kid : String
  pub alg : Option String
  pub key_use : Option String
  pub crv : Option String
  pub x : Option String
  pub y : Option String
  pub n : Option String
  pub e : Option String
  pub k : Option String
  pub d : Option String

-- `LifecycleErrorCategory`, where a history is materialised; `uncategorised` is a `LogError` with none.
pub data LifecycleError : Type 0 where
  genesis_required duplicate_issuance invalid_issuance terminal_state domain_mismatch :
      LifecycleError
  key_continuity invalid_revocation_reason invalid_migration snapshot_empty : LifecycleError
  snapshot_non_prefix unsupported_event invalid_evidence chain_continuity uncategorised :
      LifecycleError

-- `===` on values that may be undefined.
abbrev pub opt_eq : Option String → Option String → Bool
opt_eq none none = true
opt_eq (some a) (some b) = str_eq a b
opt_eq _ _ = false

-- The members that a thumbprint covers, in order; `none` for an unsupported key type.
unfoldable pub thumbprint_material : Key → Option (List (String × Option String))
thumbprint_material key =
    if str_eq key.kty "EC"
    then some (("crv", key.crv) ∷ ("kty", some key.kty) ∷ ("x", key.x) ∷ ("y", key.y) ∷ [])
    else if str_eq key.kty "OKP"
    then some (("crv", key.crv) ∷ ("kty", some key.kty) ∷ ("x", key.x) ∷ [])
    else if str_eq key.kty "RSA"
    then some (("e", key.e) ∷ ("kty", some key.kty) ∷ ("n", key.n) ∷ [])
    else none

-- `Object.values(material).some(value => typeof value !== 'string' || value.length === 0)`, and the
-- material with its values where there is none.
unfoldable pub complete_material : List (String × Option String) → Option (List (String × String))
complete_material [] = some []
complete_material ((name, none) ∷ rest) = none
complete_material ((name, some value) ∷ rest) =
    let more = complete_material rest in
    if str_eq value "" then none else elim more [ none ↦ none | some m ↦ some ((name, value) ∷ m) ]

-- `hash` stands for the base64url text of the SHA-256 digest of the material's JSON.
module _ (hash : List (String × String) → String) where
  unfoldable pub hash_complete :
      LifecycleError → Option (List (String × String)) → Result LifecycleError String
  hash_complete category none = err category
  hash_complete category (some material) = ok (hash material)

  unfoldable pub hash_material :
      LifecycleError → Option (List (String × Option String)) → Result LifecycleError String
  unfolding hash_complete
  hash_material category none = err category
  hash_material category (some material) = hash_complete category (complete_material material)

  unfoldable pub synchronous_jwk_thumbprint : Key → LifecycleError → Result LifecycleError String
  unfolding hash_material
  synchronous_jwk_thumbprint key category = hash_material category (thumbprint_material key)

-- `typeof a.k === 'string' && a.k === b.k`
abbrev same_secret : Option String → Option String → Bool
same_secret none b = false
same_secret (some a) b = opt_eq (some a) b

unfoldable pub same_jwk_material : Key → Key → Bool
same_jwk_material a b =
    str_eq a.kty b.kty
    && (if str_eq a.kty "EC"
        then opt_eq a.crv b.crv && (opt_eq a.x b.x && opt_eq a.y b.y)
        else if str_eq a.kty "OKP"
        then opt_eq a.crv b.crv && opt_eq a.x b.x
        else if str_eq a.kty "RSA"
        then opt_eq a.n b.n && opt_eq a.e b.e
        else if str_eq a.kty "oct"
        then same_secret a.k b.k
        else false)
