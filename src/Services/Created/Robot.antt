-- ===== src/Services/Created/Robot.antt =====
-- pkg/robotTests: what holds of the deployment of the robot tests that is created.
use qubership_cassandra_oper.Base.{String, List}
use qubership_cassandra_oper.Base.Maps.{StringMap}
use qubership_cassandra_oper.Base.Go.Keeps.{Keeps, Keeps-bind, Keeps-then, keeps_rules}
use qubership_cassandra_oper.Kube.{Opaque, Workload}
use qubership_cassandra_oper.Services.Resource.{SchemaDataCenter, ServicesSpec}
use qubership_cassandra_oper.Services.Platform.{Platform}
use qubership_cassandra_oper.Services.Labels.{fill_workload}
use qubership_cassandra_oper.Services.Robot.{
  robot_basic_labels, robot_secrets, current_data_center, filled_robot, deploy_robot,
  robot_deployment_step,
}
use qubership_cassandra_oper.Services.Created.{
  AllCreated, Keeps-ask, Keeps-deref, Keeps-demand, Keeps-create_workload,
}

module _ (P : Workload → Type 0) (k : Platform) (spec : ServicesSpec) (namespace : String) where
  Keeps-deploy_robot :
      (dc : Workload)
      → P (fill_workload spec robot_basic_labels dc)
      → Keeps (AllCreated P) (deploy_robot k spec namespace dc)
  unfolding deploy_robot
  Keeps-deploy_robot dc holds = Keeps-then _ _ (Keeps-demand P k _ _ _ (λ h p. p)) (
      Keeps-bind _ _ (Keeps-create_workload P k spec dc robot_basic_labels holds)
        λ err. search (keeps_rules, Keeps-demand P))

  Keeps-robot_secrets : Keeps (AllCreated P) (robot_secrets k spec namespace)
  unfolding robot_secrets
  Keeps-robot_secrets = search (keeps_rules, Keeps-deref P)

  Keeps-current_data_center :
      (dcs : List SchemaDataCenter)
      → Keeps (AllCreated P) (current_data_center k spec namespace dcs)
  unfolding current_data_center
  Keeps-current_data_center dcs = search keeps_rules

  -- what holds of the template with its certificate and labels holds of what the step creates
  pub Keeps-robot_deployment_step :
      ((secrets : StringMap) (current_dc : SchemaDataCenter) (resources : Opaque)
          (annotations : StringMap)
        → P (filled_robot k spec namespace secrets current_dc resources annotations))
      → Keeps (AllCreated P) (robot_deployment_step k spec namespace)
  unfolding robot_deployment_step
  Keeps-robot_deployment_step holds =
      search
        (
          keeps_rules,
          Keeps-ask P,
          Keeps-deref P,
          Keeps-robot_secrets,
          Keeps-current_data_center,
          λ (secrets : StringMap) (current_dc : SchemaDataCenter) (resources : Opaque)
                (annotations : StringMap).
              Keeps-deploy_robot _ (holds secrets current_dc resources annotations),
        )
        depth 16
