-- ===== src/Operator/Template/Certificates.antt =====
-- pkg/impl/cassandra/templates.go, statefulsets_step.go: the certificates that the environment of a
-- replica names are files that its container sees.
use mathlib.Core.Path.{subst}
use mathlib.Core.List.{append_assoc}
use qubership_cassandra_oper.Base.{
  String, true, none, some, sym, List, [], ◌∷◌, ◌++◌, ◌<>◌, ◌≡◌, ◌∙◌, inl, inr, refl, ap, ◌==◌,
  if◌then◌else◌,
}
use qubership_cassandra_oper.Base.Go.{Outcome, done, panic}
use qubership_cassandra_oper.Base.Go.Inversion.{done-injective}
use qubership_cassandra_oper.Kube.{
  EnvVar, plain, field_ref, resource_ref, VolumeMount, Volume, Workload,
}
use qubership_cassandra_oper.Kube.Files.{
  Projects, Sees, Projects-append_right, Shows-append_right, MountedAt-append_right,
}
use qubership_cassandra_oper.Kube.Variables.{env_var, env_var-append}
use qubership_cassandra_oper.Operator.DataCenters.{DataCenter}
use qubership_cassandra_oper.Operator.StatefulSets.{
  Spec, Context, Tls, configuration_path, plain_envs, tls_envs, cassandra_envs,
}
use qubership_cassandra_oper.Operator.Template.{
  TemplateSpec, ReplicaArgs, claims, tls_items, config_items, configuration_items, own_mounts,
  own_volumes, reaper_volumes, cassandra_container, replica_workload, with_claims,
  cassandra_replica_template,
}

module _ (spec : TemplateSpec) where
  -- the items of the secret are among those of the configuration's volume
  configuration_items-Projects :
      (file : String)
      → spec.tls.enabled ≡ true
      → Projects file (tls_items spec ∷ [])
      → Projects file (configuration_items spec)
  unfolding configuration_items
  configuration_items-Projects file on h =
      Projects-append_right file (config_items spec)
        (if spec.tls.enabled then tls_items spec ∷ [] else []) (rw on h)

  replica_workload-Sees :
      (find_version : String → String) (a : ReplicaArgs) (claimed : List Volume × List VolumeMount)
      (file : String)
      → Projects file (configuration_items spec)
      → Sees configuration_path file (replica_workload find_version spec a claimed).pod
  unfolding replica_workload cassandra_container own_mounts own_volumes
  replica_workload-Sees find_version a claimed file h = (
    "configuration",
    MountedAt-append_right "configuration" configuration_path claimed.1 own_mounts
        (inl (refl, refl)),
    Shows-append_right "configuration" file
        (claimed.0 ++ (if a.reaper_container.name == "" then [] else reaper_volumes spec))
        (own_volumes spec) (inr (inr (inr (inr (inl (refl, configuration_items spec, refl, h)))))),
  )

-- the variable names a file in the folder, and the container sees that file there
abbrev pub Finds : String → String → Workload → Type 0
Finds variable file w =
    (env_var variable w.pod.container.env ≡ some (plain variable (configuration_path <> file)))
    × Sees configuration_path file w.pod

-- variables that are none of the three
abbrev pub NamesOther : List EnvVar → Type 0
NamesOther es =
    (env_var "TLS_SIGNED" es ≡ none) × (env_var "TLS_KEY" es ≡ none) × (env_var "TLS_CA" es ≡ none)

abbrev pub FindsAll : Tls → Workload → Type 0
FindsAll tls w =
    Finds "TLS_SIGNED" tls.signed_crt_file_name w
    × Finds "TLS_KEY" tls.private_key_file_name w
    × Finds "TLS_CA" tls.root_ca_file_name w

module _ (find_version : String → String) (spec : TemplateSpec) (sets : Spec) (ctx : Context)
    (dc : DataCenter) where
  abbrev step_envs : List EnvVar
  step_envs =
      field_ref "NAMESPACE" "metadata.namespace"
      ∷ resource_ref "MEMORY_LIMIT" "limits.memory"
      ∷ field_ref "CQLSH_HOST" "status.podIP"
      ∷ field_ref "POD_IP" "status.podIP"
      ∷ plain "CASSANDRA_SEEDS" ctx.seeds
      ∷ plain "CASSANDRA_DC" dc.name
      ∷ plain "RUN_AS_ROOT" "false"
      ∷ plain "MEM_OVERHEAD" "128"
      ∷ []

  -- The variables of the resource, and then those of the replica, stand behind those of the step.
  -- The variable of a name that none of them has.
  shared_env :
      (name : String) (rest : List EnvVar)
      → env_var name (plain_envs sets.envs) ≡ none
      → env_var name rest ≡ none
      → env_var name (cassandra_envs sets ctx dc ++ rest)
        ≡ env_var name (step_envs ++ tls_envs sets.tls)
  unfolding cassandra_envs
  shared_env name rest own others =
      env_var-append name (cassandra_envs sets ctx dc) rest others
      ∙ ap (env_var name) (sym (append_assoc step_envs (tls_envs sets.tls) (plain_envs sets.envs)))
      ∙ env_var-append name (step_envs ++ tls_envs sets.tls) (plain_envs sets.envs) own

  -- the three variables of the step
  tls_variables :
      sets.tls.enabled ≡ true
      → (env_var "TLS_SIGNED" (step_envs ++ tls_envs sets.tls)
          ≡ some (plain "TLS_SIGNED" (configuration_path <> sets.tls.signed_crt_file_name)))
        × (env_var "TLS_KEY" (step_envs ++ tls_envs sets.tls)
            ≡ some (plain "TLS_KEY" (configuration_path <> sets.tls.private_key_file_name)))
        × (env_var "TLS_CA" (step_envs ++ tls_envs sets.tls)
            ≡ some (plain "TLS_CA" (configuration_path <> sets.tls.root_ca_file_name)))
  unfolding tls_envs env_var
  tls_variables on = (rw on refl, rw on refl, rw on refl)

  replica_workload-FindsAll :
      (a : ReplicaArgs) (rest : List EnvVar) (claimed : List Volume × List VolumeMount)
      → spec.tls ≡ sets.tls
      → sets.tls.enabled ≡ true
      → NamesOther (plain_envs sets.envs)
      → NamesOther rest
      → a.cassandra_envs ≡ cassandra_envs sets ctx dc ++ rest
      → FindsAll sets.tls (replica_workload find_version spec a claimed)
  unfolding replica_workload cassandra_container
  replica_workload-FindsAll a rest claimed same on own others shared =
      let (signed, key, ca) = tls_variables on in
      let enabled : spec.tls.enabled ≡ true = ap (λ (t : Tls). t.enabled) same ∙ on in
      let sees = λ (file : String) (h : Projects file (tls_items spec ∷ [])).
        replica_workload-Sees spec find_version a claimed file
          (configuration_items-Projects spec file enabled h) in
      (
        (
          ap (env_var "TLS_SIGNED") shared ∙ shared_env "TLS_SIGNED" rest own.0 others.0 ∙ signed,
          sees _ (inl (inr (inr (inl (ap (λ (t : Tls). t.signed_crt_file_name) same))))),
        ),
        (
          ap (env_var "TLS_KEY") shared ∙ shared_env "TLS_KEY" rest own.1 others.1 ∙ key,
          sees _ (inl (inr (inl (ap (λ (t : Tls). t.private_key_file_name) same)))),
        ),
        (
          ap (env_var "TLS_CA") shared ∙ shared_env "TLS_CA" rest own.2 others.2 ∙ ca,
          sees _ (inl (inl (ap (λ (t : Tls). t.root_ca_file_name) same))),
        ),
      )

  -- With TLS, and with the environment of the stateful sets' step at the front of a replica's, where
  -- neither the variables of the resource nor those behind them are TLS_SIGNED, TLS_KEY or TLS_CA:
  -- in the replica's container, where the last variable of a name counts, each of the three is the
  -- path of the certificate, of the key and of the authority's certificate, and the container sees
  -- a file there, whatever the claims and the reaper are.
  pub cassandra_replica_template-FindsAll :
      (a : ReplicaArgs) (rest : List EnvVar) (w : Workload)
      → spec.tls ≡ sets.tls
      → sets.tls.enabled ≡ true
      → NamesOther (plain_envs sets.envs)
      → NamesOther rest
      → a.cassandra_envs ≡ cassandra_envs sets ctx dc ++ rest
      → cassandra_replica_template find_version spec a ≡ done w
      → FindsAll sets.tls w
  unfolding cassandra_replica_template
  cassandra_replica_template-FindsAll a rest w same on own others shared e =
      returned (claims a.pvc_mounts) e
    where
      returned :
          (o : Outcome (List Volume × List VolumeMount))
          → with_claims find_version spec a o ≡ done w
          → FindsAll sets.tls w
      returned (panic p) q = cc
      returned (done claimed) q =
          subst (FindsAll sets.tls) (done-injective _ w q)
            (replica_workload-FindsAll a rest claimed same on own others shared)
