-- ===== src/Services/Created/Advertised.antt =====
-- pkg/dbaas: the service of the adapter, and the address under which it is registered.
use qubership_cassandra_oper.Base.{
  ℕ, String, Option, none, some, List, [], ◌∷◌, ◌<>◌, ◌≡◌, ◌∙◌, Bool-cases, inl, inr, refl, sym, ap,
  Option-cases,
}
use mathlib.Core.Option.{some-injective}
use mathlib.Core.Path.{subst}
use qubership_cassandra_oper.Base.Decimal.{show_ℕ}
use qubership_cassandra_oper.Base.Maps.{StringMap, lookup}
use qubership_cassandra_oper.Base.Go.{done, ◌>>◌}
use qubership_cassandra_oper.Base.Go.Inversion.{not_done, done-injective}
use qubership_cassandra_oper.Kube.{plain, Opaque, Workload, SimpleService, PodSpec}
use qubership_cassandra_oper.Services.Resource.{
  DbaasAggregatorCredentials, DbaasAdapterCredentials, ServicesSpec,
}
use qubership_cassandra_oper.Services.Platform.{
  Action, created_service, deleted_service, Platform, deref,
}
use qubership_cassandra_oper.Services.Labels.{fill_workload, fill_service, create_service}
use qubership_cassandra_oper.Services.Labels.Selected.{fill_workload-name}
use qubership_cassandra_oper.Services.Pods.{get_http_port, get_http_protocol}
use qubership_cassandra_oper.Kube.Variables.{env_var}
use qubership_cassandra_oper.Services.Pods.Left.{
  Leaves, IsOther, Leaves-trans, if-Leaves, tls_client_update-Leaves, tls_server_update-Leaves,
}
use qubership_cassandra_oper.Services.Dbaas.Template.{dbaas_name, dbaas_deployment_template}
use qubership_cassandra_oper.Services.Dbaas.Step.{
  adapter_labels, adapter_tls, adapter_workload, adapter_certified, certified_adapter,
  filled_adapter, dbaas_deployment_step, filled_dbaas_service, dbaas_service_step, dbaas_envs,
  http_address,
}
use qubership_cassandra_oper.Services.Created.{AllCreated}
use qubership_cassandra_oper.Services.Created.Served.{Serves}
use qubership_cassandra_oper.Services.Created.Dbaas.{Keeps-dbaas_deployment_step}

module _ (k : Platform) (spec : ServicesSpec) (namespace : String) where
  adapter_certified-Leaves :
      (aggregator : DbaasAggregatorCredentials) (pod : PodSpec)
      → Leaves pod (adapter_certified k spec namespace aggregator pod)
  unfolding adapter_certified
  adapter_certified-Leaves aggregator pod =
      let client = tls_client_update-Leaves "/usr/ssl/" spec.tls pod in
      if-Leaves (adapter_tls spec aggregator) pod _ _
        (Leaves-trans client (tls_server_update-Leaves spec.tls _ _ _)) client

  -- the adapter tells the aggregator the protocol, name and port of its service
  abbrev pub Advertises : DbaasAggregatorCredentials → SimpleService → Workload → Type 0
  Advertises aggregator s w =
      (port : ℕ) × (s.ports ≡ ("http", port) ∷ [])
      × (env_var "DBAAS_ADAPTER_ADDRESS" w.pod.container.env
          ≡ some (
              plain "DBAAS_ADAPTER_ADDRESS" (
                get_http_protocol (adapter_tls spec aggregator)
                <> "://"
                <> (s.name <> "." <> s.namespace)
                <> ":"
                <> show_ℕ port)))

  -- the service serves the workload, which advertises it
  abbrev pub IsPublished : DbaasAggregatorCredentials → Workload → Type 0
  IsPublished aggregator w =
      let s = filled_dbaas_service k spec namespace aggregator in
      Serves s w × Advertises aggregator s w

  address-IsOther : IsOther "DBAAS_ADAPTER_ADDRESS"
  unfolding env_var
  address-IsOther path tls = (refl, refl)

  -- the variable of the backup daemon behind it has another name
  dbaas_envs-address :
      (aggregator : DbaasAggregatorCredentials)
      → env_var "DBAAS_ADAPTER_ADDRESS" (dbaas_envs k spec namespace aggregator)
        ≡ some (
            plain "DBAAS_ADAPTER_ADDRESS"
              (http_address (adapter_tls spec aggregator) (dbaas_name <> "." <> namespace)))
  unfolding dbaas_envs env_var
  dbaas_envs-address aggregator = elim (Bool-cases spec.backup.install) [
    | inl on ↦ rw on refl
    | inr off ↦ rw off refl
  ]

  filled_dbaas_service-Serves :
      (aggregator : DbaasAggregatorCredentials) (adapter : DbaasAdapterCredentials)
      (resources : Opaque) (annotations : StringMap)
      → Serves
          (filled_dbaas_service k spec namespace aggregator)
          (filled_adapter k spec namespace aggregator adapter resources annotations)
        × Advertises aggregator
            (filled_dbaas_service k spec namespace aggregator)
            (filled_adapter k spec namespace aggregator adapter resources annotations)
  unfolding fill_service fill_workload adapter_workload dbaas_deployment_template dbaas_envs env_var
  filled_dbaas_service-Serves aggregator adapter resources annotations =
      let pod = (adapter_workload k spec namespace aggregator adapter resources).pod in
      let left = adapter_certified-Leaves aggregator pod in
      let port = get_http_port (adapter_tls spec aggregator) in
      (
        (
          (
            fill_workload-name spec adapter_labels
                  (certified_adapter k spec namespace aggregator adapter resources annotations)
                ∙ unfold lookup in refl,
            tt,
          ),
          refl,
          port,
          refl,
          left.ports,
          rw left.liveness refl,
          rw left.readiness refl,
        ),
        (
          port,
          refl,
          left.variables "DBAAS_ADAPTER_ADDRESS" address-IsOther ∙ dbaas_envs-address aggregator,
        ),
      )

  -- a run of the adapter's service step that ends without a panic
  dbaas_service_step-done :
      (aggregator : DbaasAggregatorCredentials) (h h' : List Action) (o : Option String)
      → spec.dbaas.aggregator ≡ some aggregator
      → dbaas_service_step k spec namespace h ≡ (done o, h')
      → (o ≡ none)
        × (h'
            ≡ created_service (filled_dbaas_service k spec namespace aggregator)
              ∷ deleted_service dbaas_name
              ∷ h)
  unfolding dbaas_service_step create_service deref ◌>>◌ fill_service get_http_port adapter_tls
  dbaas_service_step-done aggregator h h' o found p =
      let q = rw found at p in
      elim (Option-cases (
        k.create_service (deleted_service dbaas_name ∷ h)
          (filled_dbaas_service k spec namespace aggregator))) [
            | inl fine ↦
                let r = rw fine at q in
                (sym (done-injective none o (ap (λ x. x.0) r)), sym (ap (λ x. x.1) r))
            | inr (e, bad) ↦ absurd (not_done (rw bad at q))
          ]

  -- With the credentials of an aggregator, a run of the adapter's service step that ends without a
  -- panic has no error and leaves one new service, created after the old one's removal. A run of
  -- the deployment step after it keeps, of each workload created so far, that the service serves it,
  -- and that the address that it tells the aggregator has the service's name, namespace and port.
  pub dbaas_service_step-Serves :
      (aggregator : DbaasAggregatorCredentials) (h h' : List Action) (o : Option String)
      → spec.dbaas.aggregator ≡ some aggregator
      → dbaas_service_step k spec namespace h ≡ (done o, h')
      → AllCreated (IsPublished aggregator) h
      → (o ≡ none)
        × (h'
            ≡ created_service (filled_dbaas_service k spec namespace aggregator)
              ∷ deleted_service dbaas_name
              ∷ h)
        × AllCreated (IsPublished aggregator) (dbaas_deployment_step k spec namespace h').1
  dbaas_service_step-Serves aggregator h h' o found p before =
      let (fine, ends) = dbaas_service_step-done aggregator h h' o found p in
      (
        fine,
        ends,
        rw ends (
            (Keeps-dbaas_deployment_step (IsPublished aggregator) k spec namespace
                (λ other adapter resources annotations found'.
                  subst
                    (λ (a : DbaasAggregatorCredentials).
                      IsPublished aggregator
                        (filled_adapter k spec namespace a adapter resources annotations))
                    (some-injective aggregator other (sym found ∙ found'))
                    (filled_dbaas_service-Serves aggregator adapter resources annotations))).at
              _ before),
      )
