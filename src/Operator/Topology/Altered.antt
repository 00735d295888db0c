-- ===== src/Operator/Topology/Altered.antt =====
-- pkg/impl/cassandra/system_keyspaces.go: what a run of the step leaves behind.
use qubership_cassandra_oper.Base.{String, true, Option, List, [], ◌∷◌, ◌≡◌, inl, inr, Option-cases}
use qubership_cassandra_oper.Base.Go.{Outcome, done, ◌>>◌}
use qubership_cassandra_oper.Base.Go.Inversion.{not_done}
use qubership_cassandra_oper.Operator.Cluster.{Event, connected, ssh, query, Cluster, exec}
use qubership_cassandra_oper.Operator.Topology.{alter_keyspace_statement, get_session}

-- the statements on the keyspaces, and the commands on the pods, newest first
abbrev pub altered : String → List String → List Event → List Event
altered replication [] h = h
altered replication (keyspace ∷ rest) h =
    altered replication rest (query (alter_keyspace_statement keyspace replication) ∷ h)

abbrev pub commanded : String → List String → List Event → List Event
commanded pod [] h = h
commanded pod (command ∷ rest) h = commanded pod rest (ssh pod command ∷ h)

abbrev pub all_commanded : List String → List String → List Event → List Event
all_commanded [] commands h = h
all_commanded (pod ∷ pods) commands h = all_commanded pods commands (commanded pod commands h)

pub events_of :
    {A : Type 0} {a b : A} {h h' : List Event}
    → ◌≡◌ {A = Outcome A × List Event} (done a, h) (done b, h')
    → h' ≡ h
events_of p = cc

module _ (k : Cluster) (user password : String) where
  pub get_session-connected :
      (h h' : List Event) (u : Unit {0})
      → get_session k user password h ≡ (done u, h')
      → h' ≡ connected user password ∷ h
  unfolding get_session ◌>>◌
  get_session-connected h h' u p = elim (Option-cases (k.connect h user password)) [
    | inl fine ↦ events_of (rw fine at p)
    | inr (e, bad) ↦ absurd (not_done (rw bad at p))
  ]

  pub exec-query :
      (stmt : String) (h h' : List Event) (r : Option String)
      → exec k stmt true h ≡ (done r, h')
      → h' ≡ query stmt ∷ h
  unfolding exec ◌>>◌
  exec-query stmt h h' r p = elim (Option-cases (k.exec h stmt)) [
    | inl fine ↦ events_of (rw fine at p)
    | inr (e, bad) ↦ absurd (not_done (rw bad at p))
  ]
