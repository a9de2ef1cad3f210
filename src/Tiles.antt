-- ===== src/Tiles.antt =====
-- packages/log-c2sp-tlog/src/tiles.ts: entry bundles. A byte string that is read from an offset on is
-- the list of its remaining bytes.
pub mod RoundTrip
mod Tests
use dnsid_ts.Common.{
  ℕ, zero, suc, ◌+◌, ◌*◌, ◌/◌, ◌%◌, List, [], ◌∷◌, ◌++◌, length, take, drop, ltb, if◌then◌else◌,
  Bytes, Result, ok, err, ◌>>=◌,
}

-- The messages of the `C2spTlogParseError`s; `out_of_fuel` is no error of the source.
pub data BundleError : Type 0 where
  truncated_length truncated_entry entry_too_large out_of_fuel : BundleError

-- Of two bytes, `(a << 8) | b`: the two operands have no bit in common.
abbrev pub big_endian : ℕ → ℕ → ℕ
big_endian hi lo = hi * 256 + lo

-- The `while` loop, with the entries that it pushes in front of those of the rounds to come.
unfoldable pub parse_loop : ℕ → Bytes → Result BundleError (List Bytes)
parse_loop fuel [] = ok []
parse_loop zero (hi ∷ rest) = err out_of_fuel
parse_loop (suc fuel) (hi ∷ []) = err truncated_length
parse_loop (suc fuel) (hi ∷ lo ∷ rest) =
    let len = big_endian hi lo in
    let more = parse_loop fuel (drop len rest) in
    if ltb (length rest) len
    then err truncated_entry
    else do entries ← more; ok (take len rest ∷ entries)

unfoldable pub parse_entry_bundle : Bytes → Result BundleError (List Bytes)
unfolding parse_loop
parse_entry_bundle bytes = parse_loop (length bytes) bytes

-- `out` is filled from its start, and its size is the number of bytes written.
unfoldable pub encode_entry_bundle : List Bytes → Result BundleError Bytes
encode_entry_bundle [] = ok []
encode_entry_bundle (e ∷ entries) =
    let more = encode_entry_bundle entries in
    if ltb 0xffff (length e)
    then err entry_too_large
    else do out ← more; ok (length e / 256 ∷ length e % 256 ∷ (e ++ out))
