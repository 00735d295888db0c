-- ===== src/Operator/Reaper/Exposed.antt =====
-- pkg/impl/cassandra/reaper.go: what a run of the step leaves behind.
use qubership_cassandra_oper.Base.{
  String, Bool, true, List, ◌∷◌, ◌≡◌, refl, sym, ap, ◌∙◌, ◌==◌, inl, inr, Bool-cases, Option-cases,
  if◌then◌else◌,
}
use qubership_cassandra_oper.Base.Go.{done, ◌>>◌}
use qubership_cassandra_oper.Base.Go.Inversion.{not_done, bind-done, then-done}
use qubership_cassandra_oper.Operator.Hosts.{get_replication_factor}
use qubership_cassandra_oper.Operator.Cluster.{
  Event, connected, query, exposed, Cluster, must, exec,
}
use qubership_cassandra_oper.Operator.Topology.{get_session, is_all_dcs_deployed}
use qubership_cassandra_oper.Operator.Topology.Altered.{
  events_of, get_session-connected, exec-query,
}
use qubership_cassandra_oper.Operator.Reaper.{
  ReaperSpec, create_reaper_keyspace, alter_reaper_keyspace, reaper_ingress, expose_reaper,
  reaper_step,
}

-- the ingress is among the events where the resource names a host
abbrev pub exposed_events : ReaperSpec → List Event → List Event
exposed_events spec h = if spec.ingress_host == "" then h else exposed (reaper_ingress spec) ∷ h

module _ (k : Cluster) (user password : String) (spec : ReaperSpec) where
  expose_reaper-exposed :
      (h h' : List Event) (u : Unit {0})
      → expose_reaper k user password spec h ≡ (done u, h')
      → h' ≡ exposed_events spec h
  unfolding expose_reaper must ◌>>◌
  expose_reaper-exposed h h' u p = elim (Bool-cases (spec.ingress_host == "")) [
    | inl empty ↦ events_of (rw empty at p) ∙ sym (rw empty refl)
    | inr named ↦ elim (Option-cases (k.expose h (reaper_ingress spec))) [
      | inl fine ↦ events_of (rw (named, fine) at p) ∙ sym (rw named refl)
      | inr (e, bad) ↦ absurd (not_done (rw (named, bad) at p))
    ]
  ]

  -- A run of the step that ends without a panic created the reaper's keyspace and then altered it,
  -- both with the replication that the count of the peers asks for, and exposed the reaper exactly
  -- where the resource names a host.
  pub reaper_step-exposed :
      (h h' : List Event) (u : Unit {0})
      → reaper_step k user password spec h ≡ (done u, h')
      → (all_deployed : Bool) × (h₁ : List Event) × (is_all_dcs_deployed k user password
            spec.data_centers
            (connected user password ∷ h)
          ≡ (done all_deployed, h₁))
        × (h'
            ≡ exposed_events spec (
                query
                  (alter_reaper_keyspace (get_replication_factor all_deployed spec.data_centers))
                ∷ query
                    (create_reaper_keyspace (get_replication_factor all_deployed spec.data_centers))
                ∷ h₁))
  unfolding reaper_step
  reaper_step-exposed h h' u p =
      let (v, h₀, e₀, p₀) = then-done (get_session k user password) _ h u h' p in
      let (b, h₁, e₁, p₁) =
        bind-done (is_all_dcs_deployed k user password spec.data_centers) _ h₀ u h' p₀ in
      let (r, h₂, e₂, p₂) =
        then-done
          (exec k (create_reaper_keyspace (get_replication_factor b spec.data_centers)) true) _ h₁ u
          h' p₁ in
      let (s, h₃, e₃, p₃) =
        then-done (exec k (alter_reaper_keyspace (get_replication_factor b spec.data_centers)) true)
          _ h₂ u h' p₂ in
      let second = exec-query k user password _ h₂ h₃ s e₃ in
      let first = exec-query k user password _ h₁ h₂ r e₂ in
      (
        b,
        h₁,
        ap (is_all_dcs_deployed k user password spec.data_centers)
              (sym (get_session-connected k user password h h₀ v e₀))
            ∙ e₁,
        expose_reaper-exposed h₃ h' u p₃
            ∙ ap (exposed_events spec) (
                second
                ∙ ap
                    (λ (l : List Event).
                      query (alter_reaper_keyspace (get_replication_factor b spec.data_centers))
                      ∷ l)
                    first),
      )
