-- ===== src/Operator/Topology/Rebuild.antt =====
-- pkg/impl/cassandra/nodetool_rebuild.go: when the rebuild runs.
use qubership_cassandra_oper.Base.{String, Bool, not, Option, List, ◌∷◌}
use qubership_cassandra_oper.Operator.DataCenters.{DataCenter}
use qubership_cassandra_oper.Operator.Cluster.{Event, connected, counted_peers, Cluster}

-- the events of the count of the peers
abbrev pub counted : String → String → List Event → List Event
counted user password h = counted_peers ∷ connected user password ∷ h

abbrev pub is_remote : DataCenter → Bool
is_remote dc = not dc.deploy
