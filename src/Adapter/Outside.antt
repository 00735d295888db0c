-- ===== src/Adapter/Outside.antt =====
-- What the adapter's code meets outside itself: the values of Go's dynamic maps, the events of a
-- run, and the libraries and servers that it calls, which are fields of `Outside`.
use qubership_cassandra_oper.Base.{
  ℕ, String, Bool, Option, none, some, List, ◌==◌, ◌<>◌, if◌then◌else◌,
}
use qubership_cassandra_oper.Base.Go.{Result}

-- `interface{}`: a value of a decoded JSON body. `other` is a number, a Boolean or a list,
-- with the name of its Go type.
mutual
  pub data Value : Type 0 where
    null : Value
    text : String → Value
    object : Fields → Value
    other : String → Value

  -- `map[string]interface{}`
  pub data Fields : Type 0 where
    nil : Fields
    field : String → Value → Fields → Fields

-- `m[key]`, the nil interface where the key is missing
unfoldable pub get : Fields → String → Value
get nil key = null
get (field k v m) key = if k == key then v else get m key

-- `v.(string)` with its `ok`
unfoldable pub as_text : Value → Option String
as_text (text s) = some s
as_text _ = none

-- the runtime's panic of `v.(string)` on a value that is no text
abbrev pub not_string : Value → String
not_string null = "interface conversion: interface {} is nil, not string"
not_string (text s) = ""
not_string (object m) = "interface conversion: interface {} is map[string]interface {}, not string"
not_string (other type) = "interface conversion: interface {} is " <> type <> ", not string"

-- `v.(map[string]interface{})` with its `ok`
unfoldable pub as_object : Value → Option Fields
as_object (object m) = some m
as_object _ = none

pub data Event : Type 0 where
  -- `CreateSession`, with the keyspace, the consistency and the timeout in seconds
  connected refused : String → ℕ → ℕ → Event
  slept : ℕ → Event
  closed : Event
  -- a statement with its bound values
  query : String → List String → Event
  uuid_drawn : Event

-- a row as the driver scans it: each column with its text
abbrev pub Row : Type 0
Row = List (String × String)

-- Each answer may depend on all that happened before.
pub record Outside : Type 0 where
  -- gocql: the error of `CreateSession`, of `Iter().Close()`, of `Iter().RowData()`, and the rows
  pub create_session : List Event → String → ℕ → ℕ → Option String
  pub exec : List Event → String → List String → Option String
  pub row_data : List Event → String → Option String
  pub rows : List Event → String → List Row
  -- the first characters of a fresh UUID
  pub uuid : List Event → String
  -- `json.Marshal` and `json.Unmarshal` of metadata
  pub marshal : Fields → Result String
  pub unmarshal : String → Option Fields
  -- dbaas-adapter-core: `PrepareDatabaseName`, `IsTLSEnabledForMainService`, and the value with
  -- which `PanicError` panics
  pub prepare_database_name : String → String → ℕ → Result String
  pub tls_enabled : Bool
  pub panic_value : String → String → String
