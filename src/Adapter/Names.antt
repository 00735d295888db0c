-- ===== src/Adapter/Names.antt =====
-- impl/db_admin.go: validation of a create request and the logical database name.
pub mod Class
use qubership_cassandra_oper.Base.{
  ℕ, String, Bool, true, false, Option, none, some, ◌==◌, ◌<>◌, ◌&&◌, ◌||◌, leb, eqb, if◌then◌else◌,
}
use qubership_cassandra_oper.Base.Go.{Outcome, done, panic, Result, ok, fail}
use qubership_cassandra_oper.Base.Strings.{all_chars, replace_char}
use qubership_cassandra_oper.Adapter.Outside.{Outside, Fields, get, as_text, as_object}
use qubership_cassandra_oper.Adapter.Admin.{DbCreateRequest}

-- the class `[_A-z0-9]` of the three regular expressions: `A-z` is the range of codes 65 to 122
unfoldable pub in_name_class : ℕ → Bool
in_name_class c = eqb c b'_' || leb b'A' c && leb c b'z' || leb b'0' c && leb c b'9'

-- `regexp.MatchString` with `^[_A-z0-9]*$`
unfoldable pub name_matches : String → Bool
unfolding all_chars
name_matches s = all_chars in_name_class s

abbrev pub forbidden_in : String → String
forbidden_in what = what <> " must not contain the following characters :/'\\\"%?.,@#&*()"

abbrev pub db_prefix : String
db_prefix = "dbaas"

abbrev pub db_prefix_delimiter : String
db_prefix_delimiter = "_"

-- the checks at the end, and the name
unfoldable pub checked_name : String → DbCreateRequest → Result String
checked_name name r =
    if name_matches r.db_name
    then (if name_matches r.username
        then ok (name <> r.db_name)
        else fail (forbidden_in "userName"))
    else fail (forbidden_in "dbName")

module _ (o : Outside) where
  -- a classifier with both texts gives the name; a failure to prepare it panics
  unfoldable pub classified_name : String → String → Outcome (Result String)
  classified_name namespace microservice_name =
      elim (o.prepare_database_name namespace microservice_name 48) [
        | ok shrinked_name ↦ done (ok (replace_char b'-' "_" shrinked_name))
        | fail e ↦ panic e
      ]

  -- the branch without a prefix
  unfoldable pub unprefixed_name : DbCreateRequest → Outcome (Result String)
  unprefixed_name r = elim (as_object (get r.metadata "classifier")) [
    | none ↦ done (checked_name (db_prefix <> db_prefix_delimiter) r)
    | some classifier ↦ elim (as_text (get classifier "namespace")) [
      | none ↦ done (checked_name "" r)
      | some namespace ↦ elim (as_text (get classifier "microserviceName")) [
        | none ↦ done (checked_name "" r)
        | some microservice_name ↦ classified_name namespace microservice_name
      ]
    ]
  ]

  unfoldable pub get_logical_db_name : DbCreateRequest → Outcome (Result String)
  get_logical_db_name r = elim r.name_prefix [
    | none ↦ unprefixed_name r
    | some prefix ↦
        if prefix == ""
        then done (checked_name "" r)
        else if name_matches prefix
        then done (checked_name prefix r)
        else done (fail (forbidden_in "namePrefix"))
  ]
