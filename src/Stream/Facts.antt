-- ===== src/Stream/Facts.antt =====
-- What an event that the verification accepts has shown, branch by branch.
use dnsid_ts.Common.{
  Bool, true, false, not, ◌||◌, Option, none, some, String, str_eq, eq_iff, Bytes, Result, ok,
  throw_if, >>=-eq-ok, ◌≡◌, ◌≢◌, refl, arith,
}
use dnsid_ts.Lifecycle.Keys.{Key, LifecycleError, opt_eq, invalid_issuance, key_continuity}
use dnsid_ts.Lifecycle.Events.{Issuance, KeyRotation, Migration, Body}
use dnsid_ts.Stream.Evidence.{
  StreamError, VerifiedEvent, LifecycleState, MigrationResult, VerifyMigration, Options, Suite,
}
use dnsid_ts.Stream.Checks.{
  require_text, require, is_supported_lifecycle_jwk, assert_supported_lifecycle_jwk, C2spIssuance,
  assert_c2sp_issuance_event, thumbprint, verify_event_signature, assert_distinct_lifecycle_keys,
  assert_issuance_key_metadata, assert_rotation_key_metadata,
}
use dnsid_ts.Stream.Verifier.{
  LifecycleKeys, apply_rotation, apply_issuance, apply_migration, apply_entity_event,
  check_signer_key, Outcome, active_state, issuance_state, other_stream, is_bad_revocation,
}

pub ok_unique : {A : Type 0} (m : Result StreamError A) {a b : A} → m ≡ ok a → m ≡ ok b → a ≡ b
ok_unique m p q = cc

pub throw_if-eq-ok : (b : Bool) (e : StreamError) {u : Unit {0}} → throw_if b e ≡ ok u → b ≡ false
throw_if-eq-ok false e h = refl
throw_if-eq-ok true e h = cc

pub require-eq-ok :
    {A : Type 0} (e : StreamError) (o : Option A) {a : A} → require e o ≡ ok a → o ≡ some a
require-eq-ok e none h = cc
require-eq-ok e (some x) h = cc

pub require_text-eq-ok :
    (e : StreamError) (o : Option String) {t : String}
    → require_text e o ≡ ok t
    → (o ≡ some t) × (t ≢ "")
require_text-eq-ok e none h = cc
require_text-eq-ok e (some x) h = ground (arith, eq_iff x "")

module _ (suite : Suite) where
  -- The signature verifies over the signed bytes of the entry under the key.
  pub record IsSignedBy (item : VerifiedEvent) (signature : String) (key : Key) : Type 0 where
    pub signed : Bytes
    pub raw : Bytes
    pub entry : suite.signed_entry_bytes item.bytes ≡ some signed
    pub decoded : suite.from_base64_url signature ≡ some raw
    pub verified : suite.verify_with_key signed raw key ≡ true

  verify_event_signature-IsSignedBy :
      (item : VerifiedEvent) (signature : String) (key : Key) {u : Unit {0}}
      → verify_event_signature suite item signature key ≡ ok u
      → IsSignedBy item signature key
  unfolding verify_event_signature
  verify_event_signature-IsSignedBy item signature key h =
      let (signed, entry, h1) = >>=-eq-ok (require _ _) _ h in
      let (raw, decoded, h2) = >>=-eq-ok (require _ _) _ h1 in
      record {
        signed = signed;
        raw = raw;
        entry = require-eq-ok _ _ entry;
        decoded = require-eq-ok _ _ decoded;
        verified = ground arith;
      }

  pub record IsRotation (item : VerifiedEvent) (sig : String) (e : KeyRotation)
      (old new : LifecycleKeys) : Type 0 where
    pub given : e.new_operational_public_key ≡ some new.active_operational_key
    pub same_entity : new.entity_key ≡ old.entity_key
    pub supported : is_supported_lifecycle_jwk new.active_operational_key ≡ true
    pub previous :
        suite.jwk_thumbprint old.active_operational_key ≡ some e.previous_operational_thumbprint
    pub hashed : suite.jwk_thumbprint new.active_operational_key ≡ some e.new_operational_thumbprint
    pub differs : e.new_operational_thumbprint ≢ e.previous_operational_thumbprint
    pub signed : IsSignedBy item sig old.active_operational_key
    pub proof : String
    pub proof_given : item.event.new_operational_proof ≡ some proof
    pub possessed : IsSignedBy item proof new.active_operational_key

  assert_rotation_key_metadata_sound :
      (e : KeyRotation) (key : Key) {u : Unit {0}}
      → assert_rotation_key_metadata suite e key ≡ ok u
      → (is_supported_lifecycle_jwk key ≡ true)
        × (suite.jwk_thumbprint key ≡ some e.new_operational_thumbprint)
  unfolding assert_rotation_key_metadata
  assert_rotation_key_metadata_sound e key h =
      let (_, supported, h1) = >>=-eq-ok (assert_supported_lifecycle_jwk key) _ h in
      let (t, hashed, h2) = >>=-eq-ok (thumbprint suite key) _ h1 in
      (
        ground (arith, supported),
        ground (arith, require-eq-ok _ _ hashed, eq_iff e.new_operational_thumbprint t),
      )

  pub apply_rotation_sound :
      (item : VerifiedEvent) (sig : String) (e : KeyRotation) (old : LifecycleKeys)
      {new : LifecycleKeys}
      → apply_rotation suite item sig e old ≡ ok new
      → IsRotation item sig e old new
  unfolding apply_rotation
  apply_rotation_sound item sig e old {new} h =
      let (t, active, h1) = >>=-eq-ok (thumbprint suite old.active_operational_key) _ h in
      let (_, previous, h2) =
        >>=-eq-ok
          (throw_if
            (not (str_eq e.previous_operational_thumbprint t)
              || not (str_eq e.previous_operational_kid old.active_operational_key.kid))
            _)
          _ h1 in
      let (key, given, h3) = >>=-eq-ok (require _ e.new_operational_public_key) _ h2 in
      let (_, metadata, h4) = >>=-eq-ok (assert_rotation_key_metadata suite e key) _ h3 in
      let (_, differs, h5) = >>=-eq-ok (throw_if (str_eq e.new_operational_thumbprint t) _) _ h4 in
      let (_, _, h6) = >>=-eq-ok (assert_distinct_lifecycle_keys suite old.entity_key key _) _ h5 in
      let (_, signed, h7) =
        >>=-eq-ok (verify_event_signature suite item sig old.active_operational_key) _ h6 in
      let (proof, proof_given, h8) =
        >>=-eq-ok (require_text _ item.event.new_operational_proof) _ h7 in
      let (_, possessed, h9) = >>=-eq-ok (verify_event_signature suite item proof key) _ h8 in
      let whole : record old { active_operational_key = key } ≡ new = cc in
      let checked : (is_supported_lifecycle_jwk key ≡ true)
          × (suite.jwk_thumbprint key ≡ some e.new_operational_thumbprint) =
        assert_rotation_key_metadata_sound e key metadata in
      rw (← whole) record {
        given = require-eq-ok _ _ given;
        same_entity = refl;
        supported = checked.0;
        previous =
            ground (arith, require-eq-ok _ _ active, eq_iff e.previous_operational_thumbprint t);
        hashed = checked.1;
        differs = ground (
          arith,
          eq_iff e.previous_operational_thumbprint t,
          eq_iff e.new_operational_thumbprint t,
        );
        signed = verify_event_signature-IsSignedBy item sig _ signed;
        proof = proof;
        proof_given = (require_text-eq-ok _ _ proof_given).0;
        possessed = verify_event_signature-IsSignedBy item proof key possessed;
      }

  pub record IsIssuance (item : VerifiedEvent) (sig : String) (e : Issuance) (keys : LifecycleKeys)
      : Type 0 where
    pub entity_thumbprint : String
    pub operational_thumbprint : String
    pub entity_given : e.initial_entity_public_key ≡ some keys.entity_key
    pub operational_given : e.initial_operational_public_key ≡ some keys.active_operational_key
    pub entity_thumbprint_given : e.initial_entity_thumbprint ≡ some entity_thumbprint
    pub operational_thumbprint_given :
        e.initial_operational_thumbprint ≡ some operational_thumbprint
    pub entity_thumbprint_nonempty : entity_thumbprint ≢ ""
    pub operational_thumbprint_nonempty : operational_thumbprint ≢ ""
    pub entity_supported : is_supported_lifecycle_jwk keys.entity_key ≡ true
    pub operational_supported : is_supported_lifecycle_jwk keys.active_operational_key ≡ true
    pub entity_hashed : suite.jwk_thumbprint keys.entity_key ≡ some entity_thumbprint
    pub operational_hashed :
        suite.jwk_thumbprint keys.active_operational_key ≡ some operational_thumbprint
    pub distinct : entity_thumbprint ≢ operational_thumbprint
    pub signed : IsSignedBy item sig keys.entity_key
    pub countersig : String
    pub countersig_given : item.event.operational_countersig ≡ some countersig
    pub countersigned : IsSignedBy item countersig keys.active_operational_key

  -- What the narrower type of an ISSUANCE says.
  record IsC2sp (e : Issuance) (i : C2spIssuance) : Type 0 where
    entity_key : e.initial_entity_public_key ≡ some i.entity_public_key
    operational_key : e.initial_operational_public_key ≡ some i.operational_public_key
    entity_thumb :
        (e.initial_entity_thumbprint ≡ some i.entity_thumbprint) × (i.entity_thumbprint ≢ "")
    operational_thumb :
        (e.initial_operational_thumbprint ≡ some i.operational_thumbprint)
        × (i.operational_thumbprint ≢ "")

  assert_c2sp_issuance_event-IsC2sp :
      (e : Issuance) {i : C2spIssuance} → assert_c2sp_issuance_event e ≡ ok i → IsC2sp e i
  unfolding assert_c2sp_issuance_event
  assert_c2sp_issuance_event-IsC2sp e {i} h =
      let (okid, _, h1) = >>=-eq-ok (require_text _ e.initial_operational_kid) _ h in
      let (oalg, _, h2) = >>=-eq-ok (require_text _ e.initial_operational_alg) _ h1 in
      let (okey, op_key, h3) = >>=-eq-ok (require _ e.initial_operational_public_key) _ h2 in
      let (othumb, op_thumb, h4) =
        >>=-eq-ok (require_text _ e.initial_operational_thumbprint) _ h3 in
      let (ekid, _, h5) = >>=-eq-ok (require_text _ e.initial_entity_kid) _ h4 in
      let (ealg, _, h6) = >>=-eq-ok (require_text _ e.initial_entity_alg) _ h5 in
      let (ekey, en_key, h7) = >>=-eq-ok (require _ e.initial_entity_public_key) _ h6 in
      let (ethumb, en_thumb, h8) = >>=-eq-ok (require_text _ e.initial_entity_thumbprint) _ h7 in
      let built : C2spIssuance = record {
        entity_kid = ekid;
        entity_alg = ealg;
        entity_public_key = ekey;
        entity_thumbprint = ethumb;
        operational_kid = okid;
        operational_alg = oalg;
        operational_public_key = okey;
        operational_thumbprint = othumb;
      } in
      let whole : built ≡ i = ok_unique (ok built) refl h8 in
      rw (← whole) record {
        entity_key = require-eq-ok _ _ en_key;
        operational_key = require-eq-ok _ _ op_key;
        entity_thumb = require_text-eq-ok _ _ en_thumb;
        operational_thumb = require_text-eq-ok _ _ op_thumb;
      }

  assert_issuance_key_metadata_sound :
      (i : C2spIssuance) {u : Unit {0}}
      → assert_issuance_key_metadata suite i ≡ ok u
      → (is_supported_lifecycle_jwk i.entity_public_key ≡ true)
        × (is_supported_lifecycle_jwk i.operational_public_key ≡ true)
        × (suite.jwk_thumbprint i.entity_public_key ≡ some i.entity_thumbprint)
        × (suite.jwk_thumbprint i.operational_public_key ≡ some i.operational_thumbprint)
  unfolding assert_issuance_key_metadata
  assert_issuance_key_metadata_sound i h =
      let (_, op, h1) = >>=-eq-ok (assert_supported_lifecycle_jwk i.operational_public_key) _ h in
      let (_, en, h2) = >>=-eq-ok (assert_supported_lifecycle_jwk i.entity_public_key) _ h1 in
      let (ot, op_hash, h3) = >>=-eq-ok (thumbprint suite i.operational_public_key) _ h2 in
      let (_, op_same, h4) =
        >>=-eq-ok (throw_if (not (str_eq i.operational_thumbprint ot)) _) _ h3 in
      let (et, en_hash, h5) = >>=-eq-ok (thumbprint suite i.entity_public_key) _ h4 in
      (
        ground (arith, en),
        ground (arith, op),
        ground (arith, require-eq-ok _ _ en_hash, eq_iff i.entity_thumbprint et),
        ground (arith, require-eq-ok _ _ op_hash, eq_iff i.operational_thumbprint ot),
      )

  assert_distinct_lifecycle_keys_sound :
      (entity operational : Key) (category : LifecycleError) {s t : String} {u : Unit {0}}
      → suite.jwk_thumbprint entity ≡ some s
      → suite.jwk_thumbprint operational ≡ some t
      → assert_distinct_lifecycle_keys suite entity operational category ≡ ok u
      → s ≢ t
  unfolding assert_distinct_lifecycle_keys
  assert_distinct_lifecycle_keys_sound entity operational category {s} {t} p q h =
      ground (arith, p, q, eq_iff s t)

  pub apply_issuance_sound :
      (options : Options) (item : VerifiedEvent) (sig : String) (e : Issuance) {o : Outcome}
      → apply_issuance suite options item sig e ≡ ok o
      → (facts : IsIssuance item sig e o.keys) × (o.state
          ≡ some (record {
            fqdn = item.event.domain;
            status = "ACTIVE";
            entity_thumb = facts.entity_thumbprint;
            operational_thumb = facts.operational_thumbprint;
          }))
  unfolding apply_issuance issuance_state
  apply_issuance_sound options item sig e {o} h =
      let (i, shape, h1) = >>=-eq-ok (assert_c2sp_issuance_event e) _ h in
      let (_, metadata, h2) = >>=-eq-ok (assert_issuance_key_metadata suite i) _ h1 in
      let (_, apart, h3) =
        >>=-eq-ok
          (assert_distinct_lifecycle_keys suite i.entity_public_key i.operational_public_key
            invalid_issuance)
          _ h2 in
      let (_, _, h4) =
        >>=-eq-ok (check_signer_key suite options.signer_key i.entity_thumbprint) _ h3 in
      let (_, signed, h5) =
        >>=-eq-ok (verify_event_signature suite item sig i.entity_public_key) _ h4 in
      let (countersig, given, h6) =
        >>=-eq-ok (require_text _ item.event.operational_countersig) _ h5 in
      let (_, countersigned, h7) =
        >>=-eq-ok (verify_event_signature suite item countersig i.operational_public_key) _ h6 in
      let keys : LifecycleKeys = record {
        entity_key = i.entity_public_key;
        active_operational_key = i.operational_public_key;
      } in
      let outcome : Outcome = record {
        keys = keys;
        state = some (issuance_state suite item.event.domain i);
      } in
      let whole : outcome ≡ o = ok_unique (ok outcome) refl h7 in
      let fields = assert_c2sp_issuance_event-IsC2sp e shape in
      let (en, op, en_hash, op_hash) = assert_issuance_key_metadata_sound i metadata in
      let facts : IsIssuance item sig e keys = record {
        entity_thumbprint = i.entity_thumbprint;
        operational_thumbprint = i.operational_thumbprint;
        entity_given = fields.entity_key;
        operational_given = fields.operational_key;
        entity_thumbprint_given = fields.entity_thumb.0;
        operational_thumbprint_given = fields.operational_thumb.0;
        entity_thumbprint_nonempty = fields.entity_thumb.1;
        operational_thumbprint_nonempty = fields.operational_thumb.1;
        entity_supported = en;
        operational_supported = op;
        entity_hashed = en_hash;
        operational_hashed = op_hash;
        distinct = assert_distinct_lifecycle_keys_sound _ _ _ en_hash op_hash apart;
        signed = verify_event_signature-IsSignedBy item sig _ signed;
        countersig = countersig;
        countersig_given = (require_text-eq-ok _ _ given).0;
        countersigned = verify_event_signature-IsSignedBy item countersig _ countersigned;
      } in
      rw (← whole) (facts, refl)

  pub record IsMigration (options : Options) (item : VerifiedEvent) (sig : String)
      (keys : LifecycleKeys) : Type 0 where
    pub verify : VerifyMigration
    pub verify_given : options.verify_migration ≡ some verify
    pub migrated : MigrationResult
    pub verified : verify item.event ≡ some migrated
    pub entity_same : keys.entity_key ≡ migrated.entity_key
    pub operational_same : keys.active_operational_key ≡ migrated.active_operational_key
    pub signed : IsSignedBy item sig keys.entity_key

  pub apply_migration_sound :
      (options : Options) (item : VerifiedEvent) (sig : String) (e : Migration) {o : Outcome}
      → apply_migration suite options item sig e ≡ ok o
      → IsMigration options item sig o.keys
        × (st : LifecycleState) × (o.state ≡ some st)
        × (active_state suite item.event.domain o.keys ≡ ok st)
  unfolding apply_migration
  apply_migration_sound options item sig e {o} h =
      let (verify, given, h1) = >>=-eq-ok (require _ options.verify_migration) _ h in
      let (_, _, h2) = >>=-eq-ok (throw_if (other_stream options.lr e.new_log) _) _ h1 in
      let (m, verified, h3) = >>=-eq-ok (require _ (verify item.event)) _ h2 in
      let (_, _, h4) = >>=-eq-ok (assert_supported_lifecycle_jwk m.entity_key) _ h3 in
      let (_, _, h5) = >>=-eq-ok (assert_supported_lifecycle_jwk m.active_operational_key) _ h4 in
      let (_, _, h6) =
        >>=-eq-ok
          (assert_distinct_lifecycle_keys suite m.entity_key m.active_operational_key
            key_continuity)
          _ h5 in
      let (t, _, h7) = >>=-eq-ok (thumbprint suite m.entity_key) _ h6 in
      let (_, _, h8) = >>=-eq-ok (check_signer_key suite options.signer_key t) _ h7 in
      let (_, _, h9) =
        >>=-eq-ok (throw_if (not (opt_eq item.event.signing_kid (some m.entity_key.kid))) _) _ h8 in
      let (_, signed, h10) = >>=-eq-ok (verify_event_signature suite item sig m.entity_key) _ h9 in
      let keys : LifecycleKeys = record {
        entity_key = m.entity_key;
        active_operational_key = m.active_operational_key;
      } in
      let (state, made, h11) = >>=-eq-ok (active_state suite item.event.domain keys) _ h10 in
      let outcome : Outcome = record { keys = keys; state = some state } in
      let whole : outcome ≡ o = ok_unique (ok outcome) refl h11 in
      let facts : IsMigration options item sig keys = record {
        verify = verify;
        verify_given = require-eq-ok _ _ given;
        migrated = m;
        verified = require-eq-ok _ _ verified;
        entity_same = refl;
        operational_same = refl;
        signed = verify_event_signature-IsSignedBy item sig _ signed;
      } in
      rw (← whole) (facts, state, refl, made)

  pub apply_entity_event_sound :
      (item : VerifiedEvent) (sig : String) (b : Body) (keys : LifecycleKeys)
      {keys' : LifecycleKeys}
      → apply_entity_event suite item sig b keys ≡ ok keys'
      → (keys' ≡ keys) × (is_bad_revocation b ≡ false) × IsSignedBy item sig keys.entity_key
  unfolding apply_entity_event
  apply_entity_event_sound item sig b keys h =
      let (_, _, h1) =
        >>=-eq-ok (throw_if (not (opt_eq item.event.signing_kid (some keys.entity_key.kid))) _) _
          h in
      let (_, signed, h2) =
        >>=-eq-ok (verify_event_signature suite item sig keys.entity_key) _ h1 in
      let (_, valid, h3) = >>=-eq-ok (throw_if (is_bad_revocation b) _) _ h2 in
      (
        ok_unique (ok _) h3 refl,
        throw_if-eq-ok _ _ valid,
        verify_event_signature-IsSignedBy item sig _ signed,
      )
