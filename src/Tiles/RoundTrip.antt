-- ===== src/Tiles/RoundTrip.antt =====
-- Reading and writing entry bundles are inverse to one another.
use dnsid_ts.Common.{
  ℕ, zero, suc, ◌/◌, ◌%◌, ◌≤◌, List, [], ◌∷◌, ◌++◌, length, take, drop, Bytes, ok, err, ◌≡◌, ◌≢◌,
  ◌↔◌, refl, ap, arith, All, IsByte, Result-cases, All-drop, length-append, length-drop,
  length-take, take-length_append, drop-length_append, take-append-drop, inl, inr, ◌⊎◌,
}
use dnsid_ts.Tiles.{
  truncated_length, truncated_entry, entry_too_large, out_of_fuel, parse_loop, parse_entry_bundle,
  encode_entry_bundle, big_endian,
}

-- What a successful round of each loop says.
encode_entry_bundle-cons :
    (e : Bytes) (entries : List Bytes) (bytes : Bytes)
    → encode_entry_bundle (e ∷ entries) ≡ ok bytes
    → (out : Bytes) × (length e ≤ 0xffff)
      × (encode_entry_bundle entries ≡ ok out)
      × (bytes ≡ length e / 256 ∷ length e % 256 ∷ (e ++ out))
unfolding encode_entry_bundle
encode_entry_bundle-cons e entries bytes h = elim (Result-cases (encode_entry_bundle entries)) [
  | inl (out, more) ↦ (out, ground arith, more, ground arith)
  | inr (f, more) ↦ absurd (ground arith)
]

parse_loop-cons :
    (fuel hi lo : ℕ) (rest : Bytes) (entries : List Bytes)
    → parse_loop (suc fuel) (hi ∷ lo ∷ rest) ≡ ok entries
    → (es : List Bytes) × (big_endian hi lo ≤ length rest)
      × (parse_loop fuel (drop (big_endian hi lo) rest) ≡ ok es)
      × (entries ≡ take (big_endian hi lo) rest ∷ es)
unfolding parse_loop
parse_loop-cons fuel hi lo rest entries h =
    elim (Result-cases (parse_loop fuel (drop (big_endian hi lo) rest))) [
      | inl (es, more) ↦ (es, ground arith, more, ground arith)
      | inr (f, more) ↦ absurd (ground arith)
    ]

parse_loop_step :
    (fuel hi lo : ℕ) (e out : Bytes) (es : List Bytes)
    → big_endian hi lo ≡ length e
    → parse_loop fuel out ≡ ok es
    → parse_loop (suc fuel) (hi ∷ lo ∷ (e ++ out)) ≡ ok (e ∷ es)
unfolding parse_loop
parse_loop_step fuel hi lo e out es h more =
    rw (h, drop-length_append e out, take-length_append e out, more)
      (ground (arith, length-append e out))

parse_loop-encode_entry_bundle :
    (fuel : ℕ) (entries : List Bytes) (bytes : Bytes)
    → length bytes ≤ fuel
    → encode_entry_bundle entries ≡ ok bytes
    → parse_loop fuel bytes ≡ ok entries
parse_loop-encode_entry_bundle fuel [] bytes h e =
    unfold parse_loop encode_entry_bundle in ground arith
parse_loop-encode_entry_bundle zero (x ∷ entries) bytes h e =
    let (out, fits, more, whole) = encode_entry_bundle-cons x entries bytes e in
    absurd (omega (arith, ap length whole))
parse_loop-encode_entry_bundle (suc fuel) (x ∷ entries) bytes h e =
    let (out, fits, more, whole) = encode_entry_bundle-cons x entries bytes e in
    rw whole (
      parse_loop_step fuel (length x / 256) (length x % 256) x out entries (omega arith) (
        parse_loop-encode_entry_bundle fuel entries out
          (omega (arith, ap length whole, length-append x out)) more))

encode_entry_bundle_step :
    (hi lo : ℕ) (rest out : Bytes) (es : List Bytes)
    → IsByte hi
    → IsByte lo
    → big_endian hi lo ≤ length rest
    → out ≡ drop (big_endian hi lo) rest
    → encode_entry_bundle es ≡ ok out
    → encode_entry_bundle (take (big_endian hi lo) rest ∷ es) ≡ ok (hi ∷ lo ∷ rest)
unfolding encode_entry_bundle
encode_entry_bundle_step hi lo rest out es b c h whole more =
    ground (arith, length-take (big_endian hi lo) rest, take-append-drop (big_endian hi lo) rest)

encode_entry_bundle-parse_loop :
    (fuel : ℕ) (bytes : Bytes) (entries : List Bytes)
    → All IsByte bytes
    → parse_loop fuel bytes ≡ ok entries
    → encode_entry_bundle entries ≡ ok bytes
encode_entry_bundle-parse_loop fuel [] entries b e =
    unfold parse_loop encode_entry_bundle in ground arith
encode_entry_bundle-parse_loop zero (hi ∷ rest) entries b e = unfold parse_loop in cc
encode_entry_bundle-parse_loop (suc fuel) (hi ∷ []) entries b e = unfold parse_loop in cc
encode_entry_bundle-parse_loop (suc fuel) (hi ∷ lo ∷ rest) entries (b, (c, d)) e =
    let (es, fits, more, whole) = parse_loop-cons fuel hi lo rest entries e in
    rw whole (
      encode_entry_bundle_step hi lo rest _ es b c fits refl (
        encode_entry_bundle-parse_loop fuel (drop (big_endian hi lo) rest) es
          (All-drop IsByte (big_endian hi lo) rest d) more))

-- Of bytes, `parseEntryBundle` returns some entries exactly when `encodeEntryBundle` writes them as
-- those bytes: each inverts the other, and no other bytes are accepted for the entries.
pub parse_entry_bundle_iff :
    (bytes : Bytes) (entries : List Bytes)
    → All IsByte bytes
    → (parse_entry_bundle bytes ≡ ok entries) ↔ (encode_entry_bundle entries ≡ ok bytes)
unfolding parse_entry_bundle
parse_entry_bundle_iff bytes entries b = (
  encode_entry_bundle-parse_loop (length bytes) bytes entries b,
  parse_loop-encode_entry_bundle (length bytes) entries bytes (omega arith),
)

parse_loop-ne-out_of_fuel :
    (fuel : ℕ) (bytes : Bytes) → length bytes ≤ fuel → parse_loop fuel bytes ≢ err out_of_fuel
unfolding parse_loop
parse_loop-ne-out_of_fuel fuel [] h = cc
parse_loop-ne-out_of_fuel zero (hi ∷ rest) h = absurd (omega arith)
parse_loop-ne-out_of_fuel (suc fuel) (hi ∷ []) h = cc
parse_loop-ne-out_of_fuel (suc fuel) (hi ∷ lo ∷ rest) h = ground (
  arith,
  length-drop (big_endian hi lo) rest,
  parse_loop-ne-out_of_fuel fuel (drop (big_endian hi lo) rest),
)

parse_loop-ne-entry_too_large :
    (fuel : ℕ) (bytes : Bytes) → parse_loop fuel bytes ≢ err entry_too_large
unfolding parse_loop
parse_loop-ne-entry_too_large fuel [] = cc
parse_loop-ne-entry_too_large zero (hi ∷ rest) = cc
parse_loop-ne-entry_too_large (suc fuel) (hi ∷ []) = cc
parse_loop-ne-entry_too_large (suc fuel) (hi ∷ lo ∷ rest) =
    ground (arith, parse_loop-ne-entry_too_large fuel (drop (big_endian hi lo) rest))

-- The loop of `parseEntryBundle` ends by its test on every input: entries or one of its two errors.
pub parse_entry_bundle_total :
    (bytes : Bytes)
    → ((entries : List Bytes) × (parse_entry_bundle bytes ≡ ok entries))
      ⊎ ((parse_entry_bundle bytes ≡ err truncated_length)
          ⊎ (parse_entry_bundle bytes ≡ err truncated_entry))
unfolding parse_entry_bundle
parse_entry_bundle_total bytes = elim (Result-cases (parse_entry_bundle bytes)) [
  | inl found ↦ inl found
  | inr (truncated_length, e) ↦ inr (inl e)
  | inr (truncated_entry, e) ↦ inr (inr e)
  | inr (entry_too_large, e) ↦ absurd (parse_loop-ne-entry_too_large (length bytes) bytes e)
  | inr (out_of_fuel, e) ↦ absurd (parse_loop-ne-out_of_fuel (length bytes) bytes (omega arith) e)
]

fits_of_ok :
    (entries : List Bytes) (bytes : Bytes)
    → encode_entry_bundle entries ≡ ok bytes
    → All (λ e. length e ≤ 0xffff) entries
fits_of_ok [] bytes h = tt
fits_of_ok (e ∷ entries) bytes h =
    let (out, fits, more, whole) = encode_entry_bundle-cons e entries bytes h in
    (fits, fits_of_ok entries out more)

ok_of_fits :
    (entries : List Bytes)
    → All (λ e. length e ≤ 0xffff) entries
    → (bytes : Bytes) × (encode_entry_bundle entries ≡ ok bytes)
unfolding encode_entry_bundle
ok_of_fits [] h = ([], refl)
ok_of_fits (e ∷ entries) (fits, h) =
    let (out, more) = ok_of_fits entries h in
    (length e / 256 ∷ length e % 256 ∷ (e ++ out), rw more (ground arith))

-- `encodeEntryBundle` writes a list exactly when each entry has at most 65535 bytes.
pub encode_entry_bundle-ok_iff :
    (entries : List Bytes)
    → ((bytes : Bytes) × (encode_entry_bundle entries ≡ ok bytes))
      ↔ All (λ e. length e ≤ 0xffff) entries
encode_entry_bundle-ok_iff entries = (λ h. fits_of_ok entries h.0 h.1, ok_of_fits entries)
