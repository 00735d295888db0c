-- ===== src/Operator/Scaling/Inactive.antt =====
-- pkg/impl/cassandra/scaling.go, api/v1alpha1/cassandra_types.go: a replica that is removed is not active.
use mathlib.Core.Option.{some-injective}
use mathlib.Core.Path.{subst}
use qubership_cassandra_oper.Base.{ℕ, ◌<◌, String, Option, some, List, ◌≡◌, ◌≢◌, sym, ap, ◌∙◌}
use qubership_cassandra_oper.Base.Decimal.{pos}
use qubership_cassandra_oper.Base.Lists.{get_elem?}
use qubership_cassandra_oper.Operator.DataCenters.{
  DataCenter, StringMap, get_active_replicas, calc_replica_index, deployed,
}
use qubership_cassandra_oper.Operator.DataCenters.Active.{
  Elem, Removed, NamedIn, active_replicas_iff,
}
use qubership_cassandra_oper.Operator.Hosts.{replica_name}
use qubership_cassandra_oper.Operator.Hosts.Names.{replica_names_distinct}

-- the stateful set of a replica of a data center
abbrev pub set_of : List DataCenter → ℕ → ℕ → String
set_of dcs i r = replica_name (calc_replica_index (deployed dcs) i (pos r))

pub removed_is_inactive :
    (dcs : List DataCenter) (i j r s : ℕ) (d d' : DataCenter) (ms : List StringMap)
    → get_elem? (deployed dcs) i ≡ some d
    → get_elem? (deployed dcs) j ≡ some d'
    → d.remove_nodes ≡ some ms
    → NamedIn r ms
    → r < d.replicas
    → Elem s (get_active_replicas d')
    → set_of dcs i r ≢ set_of dcs j s
removed_is_inactive dcs i j r s d d' ms e e' m named h active same =
    let (low, kept) = ((active_replicas_iff d' s).0).0 active in
    let (at, number) = replica_names_distinct dcs i j r s d d' e e' h low same in
    let one : d ≡ d' = some-injective d d' (sym e ∙ ap (get_elem? (deployed dcs)) at ∙ e') in
    kept (
      subst (λ (x : Option (List StringMap)). Removed s x)
        (sym m ∙ ap (λ (x : DataCenter). x.remove_nodes) one)
        (subst (λ n. NamedIn n ms) number named))
