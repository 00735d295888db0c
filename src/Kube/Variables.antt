-- ===== src/Kube/Variables.antt =====
-- The variables of a container, by their names.
use qubership_cassandra_oper.Base.{
  String, Option, none, some, List, [], ◌∷◌, ◌++◌, ◌≡◌, refl, ◌==◌, if◌then◌else◌,
}
use qubership_cassandra_oper.Kube.{EnvVar, plain, field_ref, resource_ref, secret_ref}

abbrev pub env_name : EnvVar → String
env_name (plain n _) = n
env_name (field_ref n _) = n
env_name (resource_ref n _) = n
env_name (secret_ref n _ _) = n

-- the variable that a container has under the name: of several with one name the last counts
unfoldable pub env_var : String → List EnvVar → Option EnvVar
env_var n [] = none
env_var n (e ∷ es) = elim (env_var n es) [
  | some later ↦ some later
  | none ↦ if env_name e == n then some e else none
]

-- variables behind that have other names change nothing
pub env_var-append :
    (n : String) (es fs : List EnvVar) → env_var n fs ≡ none → env_var n (es ++ fs) ≡ env_var n es
unfolding env_var
env_var-append n [] fs free = free
env_var-append n (e ∷ es) fs free = rw (env_var-append n es fs free) refl
