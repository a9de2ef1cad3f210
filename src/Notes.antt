-- ===== src/Notes.antt =====
-- packages/log-c2sp-tlog/src/signed-note.ts: signatures and cosignatures of a checkpoint, and the parsed
-- checkpoint of checkpoint.ts. `verify` stands for `crypto.verify` with the raw Ed25519 key, false where
-- it throws. Texts are their UTF-8 bytes.
use dnsid_ts.Common.{
  ℕ, zero, suc, ◌+◌, ◌*◌, ◌/◌, ◌%◌, Bool, true, false, not, ◌&&◌, ◌||◌, Option, none, some, String,
  str_eq, List, [], ◌∷◌, ◌++◌, length, take, drop, ltb, leb, ◌==◌, if◌then◌else◌, Bytes, bytes_eq,
  codes,
}

pub record NoteSignature : Type 0 where
  pub name : String
  pub key_hash : Option Bytes
  pub signature : Bytes

-- Every key is of the kind 'ed25519'.
pub record SignedNoteKey : Type 0 where
  pub name : String
  pub key_bytes : Bytes
  pub key_id : Option Bytes
  pub signature_type : Option Bytes

pub record Checkpoint : Type 0 where
  pub origin : String
  pub tree_size : ℕ
  pub root_hash : Bytes
  pub signatures : List NoteSignature
  pub signed_text : Bytes

unfoldable pub key_id_matches : NoteSignature → SignedNoteKey → Bool
key_id_matches sig key = elim key.key_id [
  | none ↦ true
  | some id ↦ elim sig.key_hash [ none ↦ false | some hash ↦ bytes_eq hash id ]
]

-- `readBigUInt64BE` of eight bytes.
abbrev pub read_big_endian : ℕ → Bytes → ℕ
read_big_endian acc [] = acc
read_big_endian acc (b ∷ bs) = read_big_endian (acc * 256 + b) bs

-- `${n}`; a number of 64 bits has at most twenty digits.
abbrev decimal_digits : ℕ → ℕ → Bytes → Bytes
decimal_digits zero n later = later
decimal_digits (suc fuel) n later =
    let more = decimal_digits fuel (n / 10) ((48 + n % 10) ∷ later) in
    if ltb n 10 then (48 + n) ∷ later else more

abbrev pub decimal : ℕ → Bytes
decimal n = decimal_digits 20 n []

-- What a witness signs.
unfoldable pub cosignature_text : ℕ → Bytes → Bytes
cosignature_text timestamp message =
    codes "cosignature/v1" ++ 10 ∷ codes "time " ++ decimal timestamp ++ 10 ∷ message

-- `key.signatureType?.[0] ?? 0x01`, or `none` for a type of another length than one byte.
abbrev pub type_byte : Option Bytes → Option ℕ
type_byte none = some 1
type_byte (some (t ∷ [])) = some t
type_byte (some _) = none

-- `key.signatureType?.length !== 1 || key.signatureType[0] !== 0x04`, negated
abbrev pub is_cosignature_type : Option Bytes → Bool
is_cosignature_type (some (t ∷ [])) = t == 4
is_cosignature_type _ = false

module _ (verify : Bytes → Bytes → Bytes → Bool) where
  abbrev pub verify_as : ℕ → Bytes → Bytes → Bytes → Bool
  verify_as type message key_bytes signature =
      if type == 1
      then length signature == 64 && verify message key_bytes signature
      else if type == 4
      then length signature == 72
        && (leb (read_big_endian 0 (take 8 signature)) 0x7fffffffffffffff
            && verify (cosignature_text (read_big_endian 0 (take 8 signature)) message) key_bytes
                (drop 8 signature))
      else false

  unfoldable pub verify_note_signature : Bytes → NoteSignature → SignedNoteKey → Bool
  verify_note_signature message sig key =
      length key.key_bytes == 32 && elim (type_byte key.signature_type) [
        | none ↦ false
        | some type ↦ verify_as type message key.key_bytes sig.signature
      ]

  -- `signatures.some(...)`
  unfoldable pub some_signature : Bytes → List NoteSignature → SignedNoteKey → Bool
  some_signature message [] key = false
  some_signature message (sig ∷ sigs) key =
      str_eq sig.name key.name && (key_id_matches sig key && verify_note_signature message sig key)
      || some_signature message sigs key

  unfoldable pub verify_checkpoint_signature : Checkpoint → SignedNoteKey → Bool
  verify_checkpoint_signature checkpoint key =
      some_signature checkpoint.signed_text checkpoint.signatures key

  unfoldable pub cosignature_loop : Bytes → List NoteSignature → SignedNoteKey → Option ℕ
  cosignature_loop message [] key = none
  cosignature_loop message (sig ∷ sigs) key =
      let later = cosignature_loop message sigs key in
      let timestamp = read_big_endian 0 (take 8 sig.signature) in
      if not (str_eq sig.name key.name)
        || (not (key_id_matches sig key)
            || (not (verify_note_signature message sig key) || not (length sig.signature == 72)))
      then later
      else if leb timestamp 0x1fffffffffffff
      then some timestamp
      else later

  unfoldable pub verified_cosignature_timestamp : Checkpoint → SignedNoteKey → Option ℕ
  verified_cosignature_timestamp checkpoint key =
      if is_cosignature_type key.signature_type
      then cosignature_loop checkpoint.signed_text checkpoint.signatures key
      else none
