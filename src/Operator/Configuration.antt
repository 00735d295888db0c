-- ===== src/Operator/Configuration.antt =====
-- pkg/impl/cassandra/configmaps_step.go: the configuration of Cassandra, renewed from the resource.
pub mod Merged
use qubership_cassandra_oper.Base.{String, Bool, true, false, Option, none, some, List, [], ◌∷◌}
use qubership_cassandra_oper.Base.Maps.{StringMap, lookup, insert_all}
use qubership_cassandra_oper.Base.Go.{
  Go, Outcome, Result, ok, fail, pure, raise, lift, ask, ◌>>=◌, ◌>>◌, case_result, panic_error,
}

pub data ConfigEvent : Type 0 where
  -- the wait for the config map
  polled : ConfigEvent
  -- a config map with its labels and its data
  created_config : String → StringMap → StringMap → ConfigEvent

-- Kubernetes, the YAML library and the core library. A document's map has texts for keys and
-- values here; `unmarshal` is the map after the call, and its error.
pub record ConfigPlatform : Type 0 where
  -- the data of the config map, or the error of `PollImmediate`
  pub poll : List ConfigEvent → Result StringMap
  pub create_config : List ConfigEvent → String → StringMap → StringMap → Option String
  pub unmarshal : String → StringMap × Option String
  pub marshal : StringMap → String × Option String
  -- `core.HandleError`
  pub handle_error : Option String → String → Outcome (Unit {0})
  pub panic_value : String → String → String

abbrev pub text_of : String → StringMap → String
text_of key m = elim (lookup key m) [ none ↦ "" | some v ↦ v ]

-- whether the loop over the specification's keys ran at all
abbrev pub is_updated : StringMap → Bool
is_updated [] = false
is_updated (_ ∷ _) = true

abbrev pub configuration_name : String
configuration_name = "cassandra-configuration"

module _ (k : ConfigPlatform) where
  -- the new document, and whether the specification has any key
  unfoldable pub parse_configuration : String → StringMap → Go ConfigEvent (String × Bool)
  unfolding insert_all
  parse_configuration config_from_spec config_map = do
    let (cloud, cloud_err) = k.unmarshal (text_of "config" config_map)
    lift (k.handle_error cloud_err "Could not unmarshal passed yaml config!")
    let (spec, spec_err) = k.unmarshal config_from_spec
    lift (k.handle_error spec_err "Could not unmarshal passed yaml config!")
    let (out, out_err) = k.marshal (insert_all spec cloud)
    lift (k.handle_error out_err "Could not marshal config yaml")
    pure (out, is_updated spec)

  -- a document to be stored, if anything was updated
  unfoldable pub store_configuration : String → String × Bool → Go ConfigEvent (Option String)
  store_configuration part_of (out, false) = pure none
  store_configuration part_of (out, true) = do
    let labels = ("app.kubernetes.io/part-of", part_of) ∷ []
    let content = ("config", out) ∷ []
    err ←
        ask (λ h. k.create_config h configuration_name labels content)
          (created_config configuration_name labels content)
    panic_error k.panic_value err "Cassandra config changing failed"
    pure none

  -- `Execute`
  unfoldable pub configuration_step : String → String → Go ConfigEvent (Option String)
  configuration_step configuration part_of = do
    found ← ask (λ h. k.poll h) polled
    case_result found (λ e. raise (k.panic_value e "Cassandra configuration listing failed"))
        λ cm. do parsed ← parse_configuration configuration cm; store_configuration part_of parsed
