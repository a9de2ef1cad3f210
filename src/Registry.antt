-- ===== src/Registry.antt =====
-- packages/protocol/src/log-registry.ts: LogRegistry. A text is the list of its code units, and the map of
-- factories a list of pairs in the order of insertion, with one pair for each method.
pub mod Snapshots
pub mod Selection
mod Tests
use dnsid_ts.Common.{
  ℕ, Bool, true, false, not, ◌&&◌, ◌||◌, Option, none, some, List, [], ◌∷◌, leb, ◌==◌,
  if◌then◌else◌, Result, ok, err, ◌>>=◌, Bytes, bytes_eq,
}

-- The ArgumentError of `register` and the ParseError of `newReader`.
pub data RegistryError : Type 0 where
  invalid_method malformed_reference : RegistryError

abbrev pub colon : ℕ
colon = 58

abbrev pub is_lower_letter : ℕ → Bool
is_lower_letter c = leb 97 c && leb c 122

abbrev is_digit : ℕ → Bool
is_digit c = leb 48 c && leb c 57

-- `[a-z0-9-]`
abbrev pub is_method_unit : ℕ → Bool
is_method_unit c = is_lower_letter c || (is_digit c || (c == 45))

unfoldable pub are_method_units : Bytes → Bool
are_method_units [] = true
are_method_units (c ∷ cs) = is_method_unit c && are_method_units cs

-- `METHOD_RE.test(method)`
unfoldable pub is_method : Bytes → Bool
is_method [] = false
is_method (c ∷ cs) = is_lower_letter c && are_method_units cs

-- `lr.slice(0, lr.indexOf(':'))`, absent where there is no colon.
unfoldable pub before_colon : Bytes → Option Bytes
before_colon [] = none
before_colon (c ∷ cs) =
    let rest = before_colon cs in
    if c == colon then some [] else (elim rest [ none ↦ none | some units ↦ some (c ∷ units) ])

-- `LogReaderFactory`: a reference and options to what it opens.
abbrev pub Factory : Type 0 → Type 0 → Type 0
Factory Options Opened = Bytes → Options → Opened

abbrev pub LogRegistry : Type 0 → Type 0 → Type 0
LogRegistry Options Opened = List (Bytes × Factory Options Opened)

-- What `newReader` returns: what a factory made, or a NoopLogReader of the method.
pub data Reader (Opened : Type 0) : Type 0 where
  made : (reader : Opened) → Reader Opened
  noop : (method : Bytes) → Reader Opened

module _ {Options Opened : Type 0} where
  -- `Map.set` and `Map.get`
  unfoldable pub set :
      Bytes → Factory Options Opened → LogRegistry Options Opened → LogRegistry Options Opened
  set method factory [] = (method, factory) ∷ []
  set method factory ((other, old) ∷ rest) =
      let later = set method factory rest in
      if bytes_eq other method then (other, factory) ∷ rest else (other, old) ∷ later

  unfoldable pub lookup : Bytes → LogRegistry Options Opened → Option (Factory Options Opened)
  lookup method [] = none
  lookup method ((other, factory) ∷ rest) =
      let later = lookup method rest in if bytes_eq other method then some factory else later

  unfoldable pub register :
      Bytes
      → Factory Options Opened
      → LogRegistry Options Opened
      → Result RegistryError (LogRegistry Options Opened)
  register method factory registry =
      if not (is_method method) then err invalid_method else ok (set method factory registry)

  unfoldable pub copy_into :
      LogRegistry Options Opened
      → LogRegistry Options Opened
      → Result RegistryError (LogRegistry Options Opened)
  copy_into copied [] = ok copied
  copy_into copied ((method, factory) ∷ rest) = do
    copied' ← register method factory copied
    copy_into copied' rest

  unfoldable pub snapshot :
      LogRegistry Options Opened → Result RegistryError (LogRegistry Options Opened)
  snapshot registry = copy_into [] registry

  abbrev pub open_with : Option (Factory Options Opened) → Bytes → Bytes → Options → Reader Opened
  open_with none method lr options = noop method
  open_with (some factory) method lr options = made (factory lr options)

  -- `!METHOD_RE.test(method)` holds of the empty text, too.
  abbrev pub read_method :
      Option Bytes
      → Bytes
      → Options
      → LogRegistry Options Opened
      → Result RegistryError (Reader Opened)
  read_method none lr options registry = err malformed_reference
  read_method (some method) lr options registry =
      if not (is_method method)
      then err malformed_reference
      else ok (open_with (lookup method registry) method lr options)

  unfoldable pub new_reader :
      Bytes → Options → LogRegistry Options Opened → Result RegistryError (Reader Opened)
  new_reader lr options registry = read_method (before_colon lr) lr options registry
