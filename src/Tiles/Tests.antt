-- ===== src/Tiles/Tests.antt =====
-- Entry bundles at concrete bytes.
use dnsid_ts.Common.{◌≤◌, List, [], ◌∷◌, length, Bytes, ok, err, ◌≡◌, refl, ◌↔◌, ◌⊎◌, arith, All}
use dnsid_ts.Tiles.{parse_entry_bundle, encode_entry_bundle, truncated_length, truncated_entry}
use dnsid_ts.Tiles.RoundTrip.{
  parse_entry_bundle_iff, parse_entry_bundle_total, encode_entry_bundle-ok_iff,
}

abbrev two : List Bytes
two = (7 ∷ 8 ∷ 9 ∷ []) ∷ [] ∷ []

abbrev two_bytes : Bytes
two_bytes = 0 ∷ 3 ∷ 7 ∷ 8 ∷ 9 ∷ 0 ∷ 0 ∷ []

runs :
    (encode_entry_bundle two ≡ ok two_bytes)
    × (parse_entry_bundle two_bytes ≡ ok two)
    × (parse_entry_bundle (0 ∷ []) ≡ err truncated_length)
    × (parse_entry_bundle (1 ∷ 0 ∷ 5 ∷ []) ≡ err truncated_entry)
unfolding encode_entry_bundle parse_entry_bundle
runs = (refl, refl, refl, refl)

parse_entry_bundle_iff_example :
    (parse_entry_bundle two_bytes ≡ ok two) ↔ (encode_entry_bundle two ≡ ok two_bytes)
parse_entry_bundle_iff_example = parse_entry_bundle_iff two_bytes two (omega arith)

parse_entry_bundle_total_example :
    ((entries : List Bytes) × (parse_entry_bundle (0 ∷ []) ≡ ok entries))
    ⊎ ((parse_entry_bundle (0 ∷ []) ≡ err truncated_length)
        ⊎ (parse_entry_bundle (0 ∷ []) ≡ err truncated_entry))
parse_entry_bundle_total_example = parse_entry_bundle_total (0 ∷ [])

encode_entry_bundle-ok_iff_example :
    ((bytes : Bytes) × (encode_entry_bundle two ≡ ok bytes)) ↔ All (λ e. length e ≤ 0xffff) two
encode_entry_bundle-ok_iff_example = encode_entry_bundle-ok_iff two
