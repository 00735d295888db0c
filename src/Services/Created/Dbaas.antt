-- ===== src/Services/Created/Dbaas.antt =====
-- pkg/dbaas: what holds of the deployment of the DBaaS adapter that is created.
use qubership_cassandra_oper.Base.{String, some, ◌≡◌}
use qubership_cassandra_oper.Base.Maps.{StringMap}
use qubership_cassandra_oper.Base.Go.Keeps.{Keeps, Keeps-bind, Keeps-then, keeps_rules}
use qubership_cassandra_oper.Kube.{Opaque, Workload}
use qubership_cassandra_oper.Services.Resource.{
  DbaasAggregatorCredentials, DbaasAdapterCredentials, ServicesSpec,
}
use qubership_cassandra_oper.Services.Platform.{Platform}
use qubership_cassandra_oper.Services.Labels.{fill_workload}
use qubership_cassandra_oper.Services.Dbaas.Step.{
  adapter_labels, filled_adapter, deploy_adapter, dbaas_deployment_step,
}
use qubership_cassandra_oper.Services.Created.{
  AllCreated, Keeps-ask, Keeps-deref, Keeps-deref_bind, Keeps-demand, Keeps-create_workload,
}

module _ (P : Workload → Type 0) (k : Platform) (spec : ServicesSpec) (namespace : String) where
  Keeps-deploy_adapter :
      (aggregator : DbaasAggregatorCredentials) (dc : Workload)
      → P (fill_workload spec adapter_labels dc)
      → Keeps (AllCreated P) (deploy_adapter k spec namespace aggregator dc)
  unfolding deploy_adapter
  Keeps-deploy_adapter aggregator dc holds = Keeps-then _ _ (Keeps-demand P k _ _ _ (λ h p. p)) (
      Keeps-bind _ _ (Keeps-create_workload P k spec dc adapter_labels holds)
        λ err. search (keeps_rules, Keeps-demand P))

  -- what holds of the template with its certificates and labels holds of what the step creates
  pub Keeps-dbaas_deployment_step :
      ((aggregator : DbaasAggregatorCredentials) (adapter : DbaasAdapterCredentials)
          (resources : Opaque) (annotations : StringMap)
        → spec.dbaas.aggregator ≡ some aggregator
        → P (filled_adapter k spec namespace aggregator adapter resources annotations))
      → Keeps (AllCreated P) (dbaas_deployment_step k spec namespace)
  unfolding dbaas_deployment_step
  Keeps-dbaas_deployment_step holds = Keeps-deref_bind P spec.dbaas.aggregator _ λ aggregator found.
      search
        (
          keeps_rules,
          Keeps-ask P,
          Keeps-deref P,
          λ (adapter : DbaasAdapterCredentials) (resources : Opaque) (annotations : StringMap).
              Keeps-deploy_adapter aggregator _
                (holds aggregator adapter resources annotations found),
        )
        depth 16
