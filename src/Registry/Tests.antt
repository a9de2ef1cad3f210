-- ===== src/Registry/Tests.antt =====
-- Runs of a registry of two methods, whose factories return a text.
use dnsid_ts.Common.{
  Bool, true, String, [], ◌∷◌, ◌++◌, ok, err, ◌≡◌, ◌≢◌, refl, codes, Bytes, bytes_eq,
}
use dnsid_ts.Registry.{
  Factory, LogRegistry, made, noop, invalid_method, malformed_reference, colon, is_method,
  are_method_units, before_colon, set, lookup, register, copy_into, snapshot, new_reader,
}
use dnsid_ts.Registry.Snapshots.{IsReached, at_first, registered, snapshot_lem}
use dnsid_ts.Registry.Selection.{new_reader-register}

runs : Unit {0}
unfolding bytes_eq is_method are_method_units before_colon set lookup register copy_into snapshot
    new_reader
runs = tt

abbrev named : String → Factory Bool String
named name lr revalidate = name

abbrev one_method : LogRegistry Bool String
one_method = (codes "c2sp-tlog", named "first") ∷ []

abbrev two_methods : LogRegistry Bool String
two_methods = (codes "c2sp-tlog", named "first") ∷ (codes "scitt", named "second") ∷ []

abbrev reregistered : LogRegistry Bool String
reregistered = (codes "c2sp-tlog", named "third") ∷ (codes "scitt", named "second") ∷ []

first_registered : register (codes "c2sp-tlog") (named "first") [] ≡ ok one_method
unfolding runs
first_registered = refl

second_registered : register (codes "scitt") (named "second") one_method ≡ ok two_methods
unfolding runs
second_registered = refl

third_registered : register (codes "c2sp-tlog") (named "third") two_methods ≡ ok reregistered
unfolding runs
third_registered = refl

results :
    (register (codes "SCITT") (named "second") two_methods ≡ err invalid_method)
    × (new_reader (codes "c2sp-tlog:x") true two_methods ≡ ok (made "first"))
    × (new_reader (codes "algorand:x:y") true two_methods ≡ ok (noop (codes "algorand")))
    × (new_reader (codes "scitt") true two_methods ≡ err malformed_reference)
    × (new_reader (codes ":x") true two_methods ≡ err malformed_reference)
unfolding runs
results = (refl, refl, refl, refl, refl)

new_reader-register_example :
    ((rest : Bytes)
      → new_reader (codes "c2sp-tlog" ++ colon ∷ rest) true reregistered ≡ ok (made "third"))
    × ((lr : Bytes)
        → ((rest : Bytes) → lr ≢ codes "c2sp-tlog" ++ colon ∷ rest)
        → new_reader lr true reregistered ≡ new_reader lr true two_methods)
new_reader-register_example =
    new_reader-register (codes "c2sp-tlog") (named "third") true two_methods third_registered

two_methods-IsReached : IsReached two_methods
two_methods-IsReached =
    registered (codes "scitt") (named "second")
      (registered (codes "c2sp-tlog") (named "first") at_first first_registered) second_registered

snapshot_lem_example : snapshot two_methods ≡ ok two_methods
snapshot_lem_example = snapshot_lem two_methods two_methods-IsReached
