-- ===== src/Operator/Hosts/Names.antt =====
-- pkg/impl/utils/utils.go: replicas have names of their own; the hosts of a connection do not.
use mathlib.Core.List.{append-nil}
use text.Mathlib.TextLemmas.{append_cancel_left}
use qubership_cassandra_oper.Base.{
  ℕ, ◌<◌, String, Bool, true, some, List, [], ◌∷◌, ◌++◌, ◌≡◌, if◌then◌else◌, ◌∙◌, ap, sym, ◌<>◌,
}
use qubership_cassandra_oper.Base.Decimal.{pos, show_ℤ, show_ℕ}
use qubership_cassandra_oper.Base.Decimal.RoundTrip.{show_ℕ-injective}
use qubership_cassandra_oper.Base.Lists.{get_elem?}
use qubership_cassandra_oper.Operator.DataCenters.{DataCenter, calc_replica_index, deployed}
use qubership_cassandra_oper.Operator.DataCenters.Numbering.{
  in_range, calc_replica_index-offset, offset-injective, deployed-AllDeployed,
}
use qubership_cassandra_oper.Operator.Hosts.{
  cassandra, replica_name, hosts_of, get_connection_hosts, calc_service_host_name,
  get_cluster_domain,
}

pub replica_name-injective : (m n : ℕ) → replica_name (pos m) ≡ replica_name (pos n) → m ≡ n
unfolding show_ℤ
replica_name-injective m n e =
    show_ℕ-injective m n (append_cancel_left cassandra (show_ℕ m) (show_ℕ n) e)

-- Among the data centers that are deployed here, two replicas have two stateful sets: the name of
-- one tells the data center and the index within it.
pub replica_names_distinct :
    (dcs : List DataCenter) (i j r s : ℕ) (d d' : DataCenter)
    → get_elem? (deployed dcs) i ≡ some d
    → get_elem? (deployed dcs) j ≡ some d'
    → r < d.replicas
    → s < d'.replicas
    → replica_name (calc_replica_index (deployed dcs) i (pos r))
      ≡ replica_name (calc_replica_index (deployed dcs) j (pos s))
    → (i ≡ j) × (r ≡ s)
replica_names_distinct dcs i j r s d d' e e' h h' same =
    let all = deployed-AllDeployed dcs in
    let at_i = calc_replica_index-offset (deployed dcs) i r all (in_range (deployed dcs) i d e) in
    let at_j = calc_replica_index-offset (deployed dcs) j s all (in_range (deployed dcs) j d' e') in
    offset-injective (deployed dcs) i j r s d d' e e' h h'
      (replica_name-injective _ _ (sym (ap replica_name at_i) ∙ same ∙ ap replica_name at_j))

connection_hosts-append :
    (namespace : String) (d : DataCenter) (dcs : List DataCenter)
    → get_connection_hosts namespace (d ∷ dcs)
      ≡ get_connection_hosts namespace (d ∷ []) ++ get_connection_hosts namespace dcs
unfolding get_connection_hosts
connection_hosts-append namespace d dcs = rw append-nil

abbrev local_host : String → String
local_host namespace = cassandra <> "." <> namespace <> ".svc." <> "cluster.local"

local_hosts :
    (namespace : String) (d : DataCenter)
    → d.deploy ≡ true
    → get_connection_hosts namespace (d ∷ []) ≡ hosts_of (local_host namespace) d.replicas 0
unfolding get_connection_hosts calc_service_host_name get_cluster_domain
local_hosts namespace d e =
    append-nil _
    ∙ ap
        (λ (b : Bool).
          hosts_of
            (cassandra
              <> "."
              <> namespace
              <> ".svc."
              <> (if b then "cluster.local" else d.cluster_domain))
            d.replicas 0)
        e

-- Two data centers that are deployed here and have as many replicas get the same hosts from
-- `GetConnectionHosts`.
pub connection_hosts_repeat :
    (namespace : String) (d d' : DataCenter)
    → d.deploy ≡ true
    → d'.deploy ≡ true
    → d'.replicas ≡ d.replicas
    → get_connection_hosts namespace (d ∷ d' ∷ [])
      ≡ get_connection_hosts namespace (d ∷ []) ++ get_connection_hosts namespace (d ∷ [])
connection_hosts_repeat namespace d d' e e' same =
    connection_hosts-append namespace d (d' ∷ [])
    ∙ ap (λ (l : List String). get_connection_hosts namespace (d ∷ []) ++ l)
        (local_hosts namespace d' e'
          ∙ ap (λ (n : ℕ). hosts_of (local_host namespace) n 0) same
          ∙ sym (local_hosts namespace d e))
