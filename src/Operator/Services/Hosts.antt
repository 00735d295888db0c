-- ===== src/Operator/Services/Hosts.antt =====
-- pkg/impl/cassandra/service_step.go, pkg/impl/utils/utils.go: host names stand on services.
use mathlib.Core.Option.{some-injective}
use qubership_cassandra_oper.Base.{
  ℕ, zero, suc, String, Bool, true, false, some, List, [], ◌∷◌, ◌≡◌, ◌⊎◌, inl, inr, refl, sym, ap,
  ◌∙◌, ◌<>◌, Option-cases,
}
use qubership_cassandra_oper.Base.Lists.{get_elem?}
use qubership_cassandra_oper.Base.Go.{Outcome, done, pure, ◌>>◌}
use qubership_cassandra_oper.Base.Go.Inversion.{not_done, then-done}
use qubership_cassandra_oper.Operator.DataCenters.{DataCenter, deployed}
use qubership_cassandra_oper.Operator.Hosts.{dc_service_name, service_of, calc_service_host_name}
use qubership_cassandra_oper.Operator.Cluster.{
  Event, applied, removed, ServiceTemplate, Cluster, must,
}
use qubership_cassandra_oper.Operator.Services.{
  ServiceSpec, LabelKeys, dc_services, service_templates, replace_service, replace_services,
  services_step,
}

-- some service of the list has the name
abbrev pub Served : String → List ServiceTemplate → Type 0
Served s [] = ⊥
Served s (x ∷ xs) = (s ≡ x.name) ⊎ Served s xs

-- each service removed and then created, newest first
abbrev pub replaced_services : List ServiceTemplate → List Event → List Event
replaced_services [] h = h
replaced_services (template ∷ rest) h =
    replaced_services rest (applied template ∷ removed template.name ∷ h)

module _ (keys : LabelKeys) (spec : ServiceSpec) where
  dc_services-Served :
      (dcs : List DataCenter) (i : ℕ) (dc : DataCenter)
      → get_elem? dcs i ≡ some dc
      → Served (dc_service_name dc.name) (dc_services keys spec dcs)
  unfolding dc_services
  dc_services-Served [] i dc e = cc
  dc_services-Served (d ∷ dcs) zero dc e =
      inl (ap (λ (x : DataCenter). dc_service_name x.name) (sym (some-injective d dc e)))
  dc_services-Served (d ∷ dcs) (suc i) dc e = inr (dc_services-Served dcs i dc e)

  service_of-Served :
      (is_common : Bool) (i : ℕ) (dc : DataCenter)
      → get_elem? (deployed spec.data_centers) i ≡ some dc
      → Served (service_of is_common (some dc)) (service_templates keys spec)
  unfolding service_of service_templates
  service_of-Served true i dc e = inl refl
  service_of-Served false i dc e =
      inr (inr (dc_services-Served (deployed spec.data_centers) i dc e))

replace_service-replaced :
    (k : Cluster) (t : ServiceTemplate) (h h' : List Event) (u : Unit {0})
    → replace_service k t h ≡ (done u, h')
    → h' ≡ applied t ∷ removed t.name ∷ h
unfolding replace_service must ◌>>◌
replace_service-replaced k t h h' u p = elim (Option-cases (k.apply (removed t.name ∷ h) t)) [
  | inl fine ↦ ap (λ r. r.1) (sym (rw fine at p))
  | inr (x, bad) ↦ absurd (not_done (rw bad at p))
]

replace_services-replaced :
    (k : Cluster) (ts : List ServiceTemplate) (h h' : List Event) (u : Unit {0})
    → replace_services k ts h ≡ (done u, h')
    → h' ≡ replaced_services ts h
unfolding replace_services pure
replace_services-replaced k [] h h' u p = ap (λ (o : Outcome (Unit {0}) × List Event). o.1) (sym p)
replace_services-replaced k (t ∷ rest) h h' u p =
    let (v, h₁, e, q) = then-done (replace_service k t) (replace_services k rest) h u h' p in
    replace_services-replaced k rest h₁ h' u q
    ∙ ap (replaced_services rest) (replace_service-replaced k t h h₁ v e)

-- A run of the step that ends without a panic removed and created each service in the order of the
-- templates and did nothing else, and the service on which the host names of a deployed data
-- center stand, the common one or its own, is among them.
pub services_step-service_of :
    (k : Cluster) (keys : LabelKeys) (spec : ServiceSpec) (is_common : Bool) (i : ℕ)
    (dc : DataCenter) (namespace domain : String) (h h' : List Event) (u : Unit {0})
    → get_elem? (deployed spec.data_centers) i ≡ some dc
    → services_step k keys spec h ≡ (done u, h')
    → (h' ≡ replaced_services (service_templates keys spec) h)
      × (service : String) × Served service (service_templates keys spec)
      × (calc_service_host_name is_common (some dc) namespace domain
          ≡ service <> "." <> namespace <> ".svc." <> domain)
unfolding services_step calc_service_host_name
services_step-service_of k keys spec is_common i dc namespace domain h h' u e p = (
  replace_services-replaced k (service_templates keys spec) h h' u p,
  service_of is_common (some dc),
  service_of-Served keys spec is_common i dc e,
  refl,
)
