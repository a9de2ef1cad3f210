-- ===== src/Stream/Tests.antt =====
-- A stream of one identity: issued, rotated and revoked. A signature is the kid of its key, an entry is one
-- byte, and a digest names the last byte of its input.
use dnsid_ts.Common.{
  ℕ, suc, ◌≤◌, ◌<◌, ◌^◌, Bool, true, false, Option, none, some, String, str_eq, eq_iff, List, [],
  ◌∷◌, ◌++◌, map, All, length, get_elem?, Bytes, codes, bytes_eq, Result, ap, ok, err, ◌≡◌, ◌≢◌,
  refl, sym, ◌∙◌, inl, inr, Bool-cases, ◌⊎◌, ◌↔◌, arith, ◌==◌, if◌then◌else◌,
}
use dnsid_ts.Lifecycle.Keys.{
  Key, LifecycleError, key_continuity, chain_continuity, terminal_state, genesis_required,
  invalid_evidence, complete_material, thumbprint_material, synchronous_jwk_thumbprint,
  same_jwk_material, hash_material, hash_complete,
}
use dnsid_ts.Lifecycle.Events.{
  Body, Migration, migration, issuance, key_rotation, revocation, retirement, LogEvent,
}
use dnsid_ts.Lifecycle.Snapshot.{
  Snapshot, snapshot_at, is_revocation_reason, active, fold_events, finish, apply_event,
  check_binding, check_new_key,
}
use dnsid_ts.Lifecycle.Snapshot as S
use dnsid_ts.Stream.Evidence.{
  log_error, Field, absent, number, text, ChainFields, VerifiedEvent, Options, Suite,
  MigrationResult,
}
use dnsid_ts.Stream.Checks.{
  is_supported_lifecycle_jwk, assert_c2sp_issuance_event, check_place, check_migration_fields,
  check_time, check_prohibited, assert_first_chain_fields, assert_chain_fields,
  verify_event_signature, assert_distinct_lifecycle_keys, assert_issuance_key_metadata,
  assert_rotation_key_metadata, ends_lifecycle,
}
use dnsid_ts.Stream.Verifier.{
  LifecycleKeys, Progress, check_signer_key, issuance_state, active_state, next_state,
  apply_issuance, apply_migration, apply_rotation, apply_entity_event, apply_transition,
  apply_later, apply_body, check_event, step, steps, verify_lifecycle,
}
use dnsid_ts.Stream.Lineage.{Lineage}
use dnsid_ts.Stream.Reached.{verify_lifecycle-Lineage}
use dnsid_ts.Stream.Stitching.{
  is_same_migration, check_imported_keys, stitch_verified_migration_history,
}
use dnsid_ts.Stream.Stitched.{stitch_verified_migration_history_once}
use dnsid_ts.Stream.Order.{verify_lifecycle-ordered}
use dnsid_ts.Stream.Envelopes.{
  Codec, Envelope, member, without, parse_chain_fields, canonicalize_unknown_c2sp_envelope,
  signed_c2sp_entry_bytes, with_codec,
}
use dnsid_ts.Stream.Commitment.{Collides, IsCanonical, IsRead, verify_lifecycle-commits}
use dnsid_ts.Stream.Thumbprints.{IsRfc7638}
use dnsid_ts.Stream.Materialised.{verify_lifecycle-snapshot_at}

abbrev last_value : List (String × String) → String
last_value [] = ""
last_value ((name, value) ∷ []) = value
last_value (_ ∷ rest) = last_value rest

abbrev or_named : String → String
or_named s = if str_eq s "" then "none" else s

abbrev hash : List (String × String) → String
hash material = or_named (last_value material)

abbrev name_of_byte : ℕ → String
name_of_byte n = if n == 1 then "one" else if n == 2 then "two" else "many"

abbrev digest : Bytes → String
digest [] = "empty"
digest (b ∷ []) = name_of_byte b
digest (_ ∷ bs) = digest bs

abbrev if_ok : Result LifecycleError String → Option String
if_ok (ok t) = some t
if_ok (err e) = none

unfoldable jwk_thumbprint : Key → Option String
jwk_thumbprint key = if_ok (synchronous_jwk_thumbprint hash key key_continuity)

abbrev suite : Suite
suite = record {
  jwk_thumbprint = jwk_thumbprint;
  verify_with_key = λ signed raw key. bytes_eq raw (codes key.kid);
  from_base64_url = λ s. some (codes s);
  digest = digest;
  signed_entry_bytes = λ b. some b;
  canonical_state = λ st. [];
}

abbrev options : Options
options = record {
  aborted_at = λ n. false;
  signer_key = none;
  checkpoint_integration_time_ms = some 100;
  lr = none;
  verify_migration = none;
}

runs : Unit {0}
unfolding bytes_eq jwk_thumbprint complete_material thumbprint_material hash_material hash_complete
    synchronous_jwk_thumbprint same_jwk_material is_revocation_reason is_supported_lifecycle_jwk
    assert_c2sp_issuance_event check_place check_migration_fields check_time check_prohibited
    assert_first_chain_fields assert_chain_fields verify_event_signature
    assert_distinct_lifecycle_keys assert_issuance_key_metadata assert_rotation_key_metadata
    check_signer_key issuance_state active_state next_state apply_issuance apply_migration
    apply_rotation apply_entity_event apply_transition apply_later apply_body check_event step steps
    verify_lifecycle
runs = tt

abbrev okp : String → Key
okp x = record {
  kty = "OKP";
  kid = x;
  alg = some "EdDSA";
  key_use = none;
  crv = some "Ed25519";
  x = some x;
  y = none;
  n = none;
  e = none;
  k = none;
  d = none;
}

abbrev event : ℕ → Body → String → LogEvent
event t b signer = record {
  domain = "a.example";
  timestamp = some t;
  body = b;
  signing_kid = some signer;
  sig = some signer;
  operational_countersig = some "first";
  new_operational_proof = some "second";
}

abbrev issued : LogEvent
issued =
    event 10
      (issuance (record {
        governance_id = "example";
        entity_key = none;
        operational_key = none;
        initial_entity_kid = some "entity";
        initial_entity_alg = some "EdDSA";
        initial_operational_kid = some "first";
        initial_operational_alg = some "EdDSA";
        initial_entity_public_key = some (okp "entity");
        initial_entity_thumbprint = some "entity";
        initial_operational_public_key = some (okp "first");
        initial_operational_thumbprint = some "first";
        public_key = none;
        thumbprint = none;
      }))
      "entity"

abbrev rotated : LogEvent
rotated =
    event 20
      (key_rotation (record {
        previous_operational_kid = "first";
        previous_operational_thumbprint = "first";
        new_operational_kid = "second";
        new_operational_alg = "EdDSA";
        new_operational_thumbprint = "second";
        new_operational_public_key = some (okp "second");
      }))
      "first"

abbrev chained : Field → Field → Field → ChainFields
chained n id state = record {
  seq = n;
  prev_event_id = id;
  prev_state_hash = state;
  event_id = absent;
  prev_index = absent;
  prev_leaf_hash = absent;
}

abbrev item : ℕ → ChainFields → LogEvent → VerifiedEvent
item i c e = record { index = i; bytes = suc i ∷ []; event = e; chain = c }

abbrev first_chain : ChainFields
first_chain = chained (number 0) absent absent

abbrev second_chain : ChainFields
second_chain = chained (number 1) (text "one") (text "many")

abbrev third_chain : ChainFields
third_chain = chained (number 2) (text "two") (text "many")

abbrev genesis : VerifiedEvent
genesis = item 0 first_chain issued

abbrev rotation : VerifiedEvent
rotation = item 1 second_chain rotated

abbrev ending : VerifiedEvent
ending = item 2 third_chain (event 30 (revocation "keyCompromise") "entity")

abbrev ended : Progress
ended = record {
  position = 3;
  previous = some ending;
  terminal = true;
  prev_state = some (record {
    fqdn = "a.example";
    status = "REVOKED";
    entity_thumb = "entity";
    operational_thumb = "second";
  });
  keys = some (record { entity_key = okp "entity"; active_operational_key = okp "second" });
}

accepted : verify_lifecycle suite options (genesis ∷ rotation ∷ ending ∷ []) ≡ ok ended
unfolding runs
accepted = refl

rejected :
    (verify_lifecycle suite options [] ≡ err (log_error genesis_required))
    × (verify_lifecycle suite options (rotation ∷ []) ≡ err (log_error genesis_required))
    × (verify_lifecycle suite options (genesis ∷ ending ∷ []) ≡ err (log_error chain_continuity))
    × (verify_lifecycle suite options
          (genesis ∷ rotation ∷ ending ∷ item 3 third_chain (event 40 retirement "entity") ∷ [])
        ≡ err (log_error terminal_state))
    × (verify_lifecycle suite options
          (genesis ∷ item 1 second_chain (event 20 retirement "first") ∷ [])
        ≡ err (log_error invalid_evidence))
unfolding runs
rejected = (refl, refl, refl, refl, refl)

chosen_nonempty : (b : Bool) (s : String) → str_eq s "" ≡ b → (if b then "none" else s) ≢ ""
chosen_nonempty true s h e = let same : str_eq "none" "" ≡ true = (eq_iff "none" "").1 e in cc
chosen_nonempty false s h e = let same : str_eq s "" ≡ true = (eq_iff s "").1 e in cc (same, h)

rfc : IsRfc7638 suite hash
unfolding jwk_thumbprint
rfc = record {
  agrees = λ key {t} h. ap if_ok h;
  nonempty = λ material. chosen_nonempty _ (last_value material) refl;
}

verify_lifecycle-Lineage_example :
    (last : VerifiedEvent) × (keys : LifecycleKeys) × (ended.keys ≡ some keys)
    × Lineage suite options (genesis ∷ rotation ∷ ending ∷ []) last keys ended.terminal
verify_lifecycle-Lineage_example =
    verify_lifecycle-Lineage suite options (genesis ∷ rotation ∷ ending ∷ []) accepted

verify_lifecycle-ordered_example :
    (1 ≤ length (genesis ∷ rotation ∷ ending ∷ []))
    × (length (genesis ∷ rotation ∷ ending ∷ []) ≤ 10000)
    × ((i : ℕ) (item : VerifiedEvent)
        → get_elem? (genesis ∷ rotation ∷ ending ∷ []) i ≡ some item
        → (item.chain.seq ≡ number i)
          × (i < 2 ^ 53)
          × (ends_lifecycle item.event.body ≡ true
              → suc i ≡ length (genesis ∷ rotation ∷ ending ∷ [])))
verify_lifecycle-ordered_example =
    verify_lifecycle-ordered suite options (genesis ∷ rotation ∷ ending ∷ []) accepted

-- Three envelopes, the bytes of which are their numbers.
abbrev first_envelope : Envelope
first_envelope = ("seq", number 0) ∷ []

abbrev chained_envelope : ℕ → String → Envelope
chained_envelope n id =
    ("prev_event_id", text id) ∷ ("prev_state_hash", text "many") ∷ ("seq", number n) ∷ []

abbrev envelope_of : ℕ → Envelope
envelope_of b =
    if b == 1
    then first_envelope
    else if b == 2
    then chained_envelope 1 "one"
    else chained_envelope 2 "two"

abbrev number_of : Field → Bytes
number_of (number n) = suc n ∷ []
number_of _ = []

abbrev parse_byte : Bytes → Option Envelope
parse_byte [] = none
parse_byte (b ∷ bs) = some (envelope_of b)

abbrev codec : Codec
codec = record { parse = parse_byte; canonical = λ e. number_of (member "seq" e) }

abbrev IsKnown : Envelope → Type 0
IsKnown e = (e ≡ first_envelope) ⊎ ((e ≡ chained_envelope 1 "one") ⊎ (e ≡ chained_envelope 2 "two"))

envelope_of-IsKnown : (b : ℕ) → IsKnown (envelope_of b)
envelope_of-IsKnown b = elim (Bool-cases (b == 1)) [
  | inl one ↦ inl (rw one refl)
  | inr other ↦ elim (Bool-cases (b == 2)) [
    | inl two ↦ inr (inl (rw other (rw two refl)))
    | inr many ↦ inr (inr (rw other (rw many refl)))
  ]
]

parse_byte-IsKnown : (x : Bytes) {e : Envelope} → parse_byte x ≡ some e → IsKnown e
parse_byte-IsKnown [] h = cc
parse_byte-IsKnown (b ∷ bs) {e} h =
    let same : envelope_of b ≡ e = cc in rw (← same) (envelope_of-IsKnown b)

abbrev canonical_of : Envelope → Bytes
canonical_of e = codec.canonical (without "sigs" e)

head_injective : {m n : ℕ} → m ∷ [] ≡ n ∷ [] → m ≡ n
head_injective h = cc

-- Envelopes whose bytes are two numbers.
apart :
    (a b c d : Envelope) {m n : ℕ}
    → a ≡ c
    → b ≡ d
    → canonical_of c ≡ m ∷ []
    → canonical_of d ≡ n ∷ []
    → canonical_of a ≡ canonical_of b
    → m ≡ n
apart a b c d ac bd cm dn h =
    head_injective (sym cm ∙ sym (ap canonical_of ac) ∙ h ∙ ap canonical_of bd ∙ dn)

known_unique : (a b : Envelope) → IsKnown a → IsKnown b → canonical_of a ≡ canonical_of b → a ≡ b
unfolding member without
known_unique a b (inl e) (inl f) h = e ∙ sym f
known_unique a b (inr (inl e)) (inr (inl f)) h = e ∙ sym f
known_unique a b (inr (inr e)) (inr (inr f)) h = e ∙ sym f
known_unique a b (inl e) (inr (inl f)) h =
    absurd (omega (arith, apart a b _ _ {m = 1} {n = 2} e f refl refl h))
known_unique a b (inl e) (inr (inr f)) h =
    absurd (omega (arith, apart a b _ _ {m = 1} {n = 3} e f refl refl h))
known_unique a b (inr (inl e)) (inl f) h =
    absurd (omega (arith, apart a b _ _ {m = 2} {n = 1} e f refl refl h))
known_unique a b (inr (inl e)) (inr (inr f)) h =
    absurd (omega (arith, apart a b _ _ {m = 2} {n = 3} e f refl refl h))
known_unique a b (inr (inr e)) (inl f) h =
    absurd (omega (arith, apart a b _ _ {m = 3} {n = 1} e f refl refl h))
known_unique a b (inr (inr e)) (inr (inl f)) h =
    absurd (omega (arith, apart a b _ _ {m = 3} {n = 2} e f refl refl h))

canonical : IsCanonical codec
canonical x y a b h h' same name =
    ap (λ e. member name (without "sigs" e))
      (known_unique a b (parse_byte-IsKnown x h) (parse_byte-IsKnown y h') same)

envelope_runs : Unit {0}
unfolding member without parse_chain_fields canonicalize_unknown_c2sp_envelope
    signed_c2sp_entry_bytes
envelope_runs = tt

accepted_with_codec :
    verify_lifecycle (with_codec codec suite) options (genesis ∷ rotation ∷ ending ∷ []) ≡ ok ended
unfolding runs envelope_runs
accepted_with_codec = refl

same_envelope : {a b : Envelope} → some a ≡ some b → a ≡ b
same_envelope h = cc

read : All (IsRead codec) (genesis ∷ rotation ∷ ending ∷ [])
unfolding envelope_runs
read = (
  λ obj h. ap parse_chain_fields (same_envelope h),
  (
    λ obj h. ap parse_chain_fields (same_envelope h),
    (λ obj h. ap parse_chain_fields (same_envelope h), tt),
  ),
)

verify_lifecycle-commits_example :
    (map (λ i. signed_c2sp_entry_bytes codec i.bytes) ((genesis ∷ rotation ∷ []) ++ ending ∷ [])
      ≡ map (λ i. signed_c2sp_entry_bytes codec i.bytes) ((genesis ∷ rotation ∷ []) ++ ending ∷ []))
    ⊎ Collides digest
verify_lifecycle-commits_example =
    verify_lifecycle-commits codec suite options options (genesis ∷ rotation ∷ [])
      (genesis ∷ rotation ∷ []) ending ending canonical accepted_with_codec accepted_with_codec read
      read refl

verify_lifecycle-snapshot_at_example :
    (snapshot : Snapshot) × (keys : LifecycleKeys) × (snapshot_at hash "a.example"
        (issued ∷ rotated ∷ ending.event ∷ [])
        100
      ≡ ok snapshot)
    × (ended.keys ≡ some keys)
    × (snapshot.active_key ≡ some keys.active_operational_key)
    × (jwk_thumbprint keys.active_operational_key ≡ some snapshot.active_key_thumbprint)
    × ((snapshot.state ≡ active) ↔ (ended.terminal ≡ false))
verify_lifecycle-snapshot_at_example =
    verify_lifecycle-snapshot_at suite hash rfc "a.example" 100 100 options
      (genesis ∷ rotation ∷ ending ∷ []) refl (omega arith)
      ((refl, (refl, refl)), ((refl, tt), ((refl, tt), tt))) accepted

-- An import of that identity, before it ends, into another log.
abbrev migrated : MigrationResult
migrated = record {
  entity_key = okp "entity";
  active_operational_key = okp "second";
  prior_history = issued ∷ rotated ∷ [];
  prior_history_references = none;
}

abbrev importing : Options
importing = record options { verify_migration = some (λ e. some migrated) }

abbrev inbound_event : Migration
inbound_event = record {
  previous_log = "old:log";
  new_log = "new:log";
  final_entry_ref = "old:log@1";
}

abbrev inbound : VerifiedEvent
inbound = item 0 first_chain (event 40 (migration inbound_event) "entity")

abbrev after_import : Progress
after_import = record {
  position = 1;
  previous = some inbound;
  terminal = false;
  prev_state = some (record {
    fqdn = "a.example";
    status = "ACTIVE";
    entity_thumb = "entity";
    operational_thumb = "second";
  });
  keys = some (record { entity_key = okp "entity"; active_operational_key = okp "second" });
}

abbrev stitched_events : List LogEvent
stitched_events = issued ∷ rotated ∷ inbound.event ∷ []

imported : verify_lifecycle suite importing (inbound ∷ []) ≡ ok after_import
unfolding runs
imported = refl

stitched :
    stitch_verified_migration_history suite hash
      (λ r. none)
      "a.example"
      (inbound.event ∷ [])
      migrated
    ≡ ok stitched_events
unfolding runs stitch_verified_migration_history check_imported_keys snapshot_at fold_events S.step
    apply_event S.apply_body S.apply_issuance S.apply_rotation
stitched = refl

stitch_verified_migration_history_once_example :
    (m : Migration) × (first : LogEvent) × (stitched_events
      ≡ (issued ∷ rotated ∷ []) ++ inbound.event ∷ [])
    × (get_elem? stitched_events (length (issued ∷ rotated ∷ [])) ≡ some first)
    × (first.body ≡ migration m)
    × ((i : ℕ) (event : LogEvent)
        → get_elem? stitched_events i ≡ some event
        → is_same_migration m event.body ≡ true
        → i ≡ length (issued ∷ rotated ∷ []))
stitch_verified_migration_history_once_example =
    stitch_verified_migration_history_once suite hash (λ r. none) "a.example" importing
      (inbound ∷ []) migrated imported stitched
