-- ===== src/Operator/Scaling/Harmless.antt =====
-- pkg/impl/cassandra/scaling.go: what a run of `RemoveNodes` keeps, if the deletions for its keys do.
use qubership_cassandra_oper.Base.{
  ℕ, suc, String, Option, none, some, List, [], ◌∷◌, ◌≡◌, inl, inr, Option-cases,
}
use qubership_cassandra_oper.Base.Decimal.{ℤ, atoi}
use qubership_cassandra_oper.Base.Lists.{All}
use qubership_cassandra_oper.Base.Go.{Go, ask, raise, case_option, pure, ◌>>=◌}
use qubership_cassandra_oper.Base.Go.Keeps.{
  Keeps, Keeps-pure, Keeps-raise, Keeps-bind, Keeps-then, Keeps-panic_error, Keeps-case_result,
}
use qubership_cassandra_oper.Operator.DataCenters.{DataCenter, StringMap, calc_replica_index}
use qubership_cassandra_oper.Operator.Hosts.{replica_name}
use qubership_cassandra_oper.Operator.Cluster.{
  Event, deleted, listed_pods, ssh, Cluster, must, must_pods, get_all_cassandra_pods,
  delete_statefulset_and_pods, run_ssh_on_pod,
}
use qubership_cassandra_oper.Operator.Scaling.{
  node_number, removed_on, remove_node_id, remove_node, remove_map, remove_maps,
  remove_from_centers,
}

module _ (P : List Event → Type 0) (k : Cluster) (dcs : List DataCenter)
    (lists : (h : List Event) → P h → P (listed_pods ∷ h))
    (runs : (pod cmd : String) (h : List Event) → P h → P (ssh pod cmd ∷ h)) where
  -- the deletion for the key is harmless, if the key is a number
  abbrev pub Harmless : ℕ → String × String → Type 0
  Harmless index entry =
      (n : ℤ)
      → atoi entry.0 ≡ some n
      → (h : List Event) → P h
      → P (deleted (replica_name (calc_replica_index dcs index n)) ∷ h)

  pub Keeps-must_pods : Keeps P (must_pods k)
  unfolding must_pods get_all_cassandra_pods ask
  Keeps-must_pods =
      Keeps-bind _ _ (record { at = lists })
        λ found. Keeps-case_result found _ _ (λ e. Keeps-raise _) Keeps-pure

  pub Keeps-removed_on : (id : String) (pods : List String) → Keeps P (removed_on k dcs id pods)
  unfolding removed_on run_ssh_on_pod ask
  Keeps-removed_on id [] = Keeps-raise _
  Keeps-removed_on id (pod ∷ pods) = Keeps-then _ _ (record { at = runs pod _ }) (Keeps-pure tt)

  pub Keeps-remove_node_id : (id : String) → Keeps P (remove_node_id k dcs id)
  unfolding remove_node_id
  Keeps-remove_node_id id = Keeps-bind _ _ Keeps-must_pods (Keeps-removed_on id)

  pub Keeps-must_delete :
      (name msg : String)
      → ((h : List Event) → P h → P (deleted name ∷ h))
      → Keeps P (must k (delete_statefulset_and_pods k name) msg)
  unfolding must delete_statefulset_and_pods ask
  Keeps-must_delete name msg del =
      Keeps-bind _ _ (record { at = del }) λ err. Keeps-panic_error k.panic_value err msg

  pub Keeps-panic : (p : String) (f : ℤ → Go Event (Unit {0})) → Keeps P (raise p >>= f)
  unfolding ◌>>=◌ raise
  Keeps-panic p f = record { at = λ h q. q }

  pub Keeps-from : (n : ℤ) (f : ℤ → Go Event (Unit {0})) → Keeps P (f n) → Keeps P (pure n >>= f)
  unfolding ◌>>=◌ pure
  Keeps-from n f kept = record { at = kept.at }

  pub Keeps-remove_node :
      (index : ℕ) (key id : String)
      → Harmless index (key, id)
      → Keeps P (remove_node k dcs index key id)
  unfolding remove_node node_number case_option
  Keeps-remove_node index key id harmless = elim (Option-cases (atoi key)) [
    | inl bad ↦ rw bad (Keeps-panic _ _)
    | inr (n, number) ↦ rw number (
        Keeps-from n _
          (Keeps-then _ _ (Keeps-must_delete _ _ (harmless n number)) (Keeps-remove_node_id id)))
  ]

  pub Keeps-remove_map :
      (index : ℕ) (m : StringMap) → All (Harmless index) m → Keeps P (remove_map k dcs index m)
  unfolding remove_map
  Keeps-remove_map index [] h = Keeps-pure tt
  Keeps-remove_map index ((key, id) ∷ m) (p, h) =
      Keeps-then _ _ (Keeps-remove_node index key id p) (Keeps-remove_map index m h)

  pub Keeps-remove_maps :
      (index : ℕ) (ms : List StringMap)
      → All (All (Harmless index)) ms
      → Keeps P (remove_maps k dcs index ms)
  unfolding remove_maps
  Keeps-remove_maps index [] h = Keeps-pure tt
  Keeps-remove_maps index (m ∷ ms) (p, h) =
      Keeps-then _ _ (Keeps-remove_map index m p) (Keeps-remove_maps index ms h)

  -- the same for a data center, and for the data centers from an index on
  abbrev pub HarmlessAt : ℕ → Option (List StringMap) → Type 0
  HarmlessAt index none = Unit
  HarmlessAt index (some ms) = All (All (Harmless index)) ms

  abbrev pub HarmlessFrom : ℕ → List DataCenter → Type 0
  HarmlessFrom index [] = Unit
  HarmlessFrom index (dc ∷ rest) = HarmlessAt index dc.remove_nodes × HarmlessFrom (suc index) rest

  pub Keeps-maps_at :
      (index : ℕ) (o : Option (List StringMap))
      → HarmlessAt index o
      → Keeps P (case_option o (pure tt) (remove_maps k dcs index))
  unfolding case_option
  Keeps-maps_at index none h = Keeps-pure tt
  Keeps-maps_at index (some ms) h = Keeps-remove_maps index ms h

  pub Keeps-remove_from_centers :
      (index : ℕ) (rest : List DataCenter)
      → HarmlessFrom index rest
      → Keeps P (remove_from_centers k dcs index rest)
  unfolding remove_from_centers
  Keeps-remove_from_centers index [] h = Keeps-pure tt
  Keeps-remove_from_centers index (dc ∷ rest) (p, h) =
      Keeps-then _ _ (Keeps-maps_at index dc.remove_nodes p)
        (Keeps-remove_from_centers (suc index) rest h)
