-- ===== src/Stream/Envelopes.antt =====
-- The signed bytes of an entry and the chain fields of its event: `signedC2spEntryBytes`,
-- `canonicalizeUnknownC2spEnvelope` and `parseChainFields` of packages/log-c2sp-tlog/src/event-codec.ts.
use dnsid_ts.Common.{
  Bool, false, not, ◌||◌, Option, none, some, String, str_eq, List, [], ◌∷◌, Bytes, bytes_eq,
  length, ltb, ◌==◌, if◌then◌else◌,
}
use dnsid_ts.Stream.Evidence.{Field, absent, ChainFields, Suite}

-- The members of a JSON object; no value is `absent`.
abbrev pub Envelope : Type 0
Envelope = List (String × Field)

-- `parse` stands for parseJsonNoDuplicateMembers of canonical.ts, and is `none` where it throws or the
-- value is no object, which is no event; `canonical` stands for the UTF-8 bytes of canonicalJson.
pub record Codec : Type 0 where
  pub parse : Bytes → Option Envelope
  pub canonical : Envelope → Bytes

-- `e[name]`, with `name in e`.
unfoldable pub member : String → Envelope → Field
member name [] = absent
member name ((other, value) ∷ rest) =
    let later = member name rest in if str_eq other name then value else later

-- `delete copy[name]`
unfoldable pub without : String → Envelope → Envelope
without name [] = []
without name ((other, value) ∷ rest) =
    let later = without name rest in if str_eq other name then later else (other, value) ∷ later

unfoldable pub parse_chain_fields : Envelope → ChainFields
parse_chain_fields e = record {
  seq = member "seq" e;
  prev_event_id = member "prev_event_id" e;
  prev_state_hash = member "prev_state_hash" e;
  event_id = member "event_id" e;
  prev_index = member "prev_index" e;
  prev_leaf_hash = member "prev_leaf_hash" e;
}

module _ (codec : Codec) where
  unfoldable pub canonicalize_unknown_c2sp_envelope : Envelope → (include_sigs : Bool) → Bytes
  canonicalize_unknown_c2sp_envelope obj include_sigs =
      codec.canonical (if include_sigs then obj else without "sigs" obj)

  -- `assertCanonicalJsonBytes` throws. Its decoder is strict and keeps a byte order mark, so that texts are
  -- equal exactly if their bytes are.
  abbrev is_not_canonical : Bytes → Envelope → Bool
  is_not_canonical bytes obj = not (bytes_eq bytes (codec.canonical obj))

  abbrev signed_bytes_of : Bytes → Option Envelope → Option Bytes
  signed_bytes_of bytes none = none
  signed_bytes_of bytes (some obj) =
      if is_not_canonical bytes obj
      then none
      else some (canonicalize_unknown_c2sp_envelope obj false)

  -- `none` where it throws.
  unfoldable pub signed_c2sp_entry_bytes : Bytes → Option Bytes
  signed_c2sp_entry_bytes bytes =
      if (length bytes == 0) || ltb 0xffff (length bytes)
      then none
      else signed_bytes_of bytes (codec.parse bytes)

  -- A verification that reads the signed bytes of its entries with this codec.
  abbrev pub with_codec : Suite → Suite
  with_codec suite = record suite { signed_entry_bytes = signed_c2sp_entry_bytes }
