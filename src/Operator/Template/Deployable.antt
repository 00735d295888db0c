-- ===== src/Operator/Template/Deployable.antt =====
-- pkg/impl/cassandra/templates.go, service_step.go: the pods of a replica, their volumes, and the
-- services that select them.
use mathlib.Core.Path.{subst}
use qubership_cassandra_oper.Base.{
  String, Bool, true, false, Option, none, some, List, [], ◌∷◌, ◌++◌, ◌≡◌, inl, inr, refl,
  Bool-cases, Option-cases, ◌⊎◌, ◌==◌, if◌then◌else◌,
}
use qubership_cassandra_oper.Base.Lists.{All}
use qubership_cassandra_oper.Base.Maps.{lookup, Selects}
use qubership_cassandra_oper.Base.Go.{Outcome, done, panic}
use qubership_cassandra_oper.Base.Go.Inversion.{done-injective}
use qubership_cassandra_oper.Kube.{
  VolumeMount, claim, projected, writable_mount, Volume, Container, Workload, Opaque, given,
  required_anti_affinity,
}
use qubership_cassandra_oper.Kube.Mounted.{
  MountsHeld, IsMounted, MountsHeld-join, MountsHeld-append_right, MountsHeld-append,
}
use qubership_cassandra_oper.Operator.DataCenters.{DataCenter}
use qubership_cassandra_oper.Operator.Services.{
  LabelKeys, ServiceSpec, cassandra_cluster, cluster_selector, dc_template,
}
use qubership_cassandra_oper.Operator.Template.{
  TemplateSpec, ReplicaArgs, config_item, tls_items, add_claim, claims, replica_labels,
  reaper_volumes, reaper_mounts, own_mounts, own_volumes, cassandra_container, reaper_sidecars,
  replica_affinity, replica_workload, with_claims, cassandra_replica_template,
}

-- each claim has its volume and its mount
abbrev HeldClaims : Outcome (List Volume × List VolumeMount) → Type 0
HeldClaims (panic p) = Unit
HeldClaims (done (volumes, mounts)) = MountsHeld volumes mounts

add_claim-HeldClaims :
    (name : String) (m : VolumeMount) (o : Outcome (List Volume × List VolumeMount))
    → HeldClaims o
    → HeldClaims (add_claim name m o)
add_claim-HeldClaims name m (panic p) h = tt
add_claim-HeldClaims name m (done (volumes, mounts)) h =
    let volume : Volume = record { name = m.name; source = claim name } in
    (inl refl, MountsHeld-append_right (volume ∷ []) volumes mounts h)

claims-HeldClaims : (ms : List (String × Option VolumeMount)) → HeldClaims (claims ms)
unfolding claims
claims-HeldClaims [] = tt
claims-HeldClaims ((name, none) ∷ ms) = tt
claims-HeldClaims ((name, some m) ∷ ms) =
    add_claim-HeldClaims name m (claims ms) (claims-HeldClaims ms)

if-MountsHeld :
    (b : Bool) (vs : List Volume) (ms : List VolumeMount)
    → MountsHeld vs ms
    → MountsHeld (if b then vs else []) (if b then ms else [])
if-MountsHeld true vs ms h = h
if-MountsHeld false vs ms h = tt

module _ (find_version : String → String) (spec : TemplateSpec) (a : ReplicaArgs) where
  own_mounts-MountsHeld : MountsHeld (own_volumes spec) own_mounts
  unfolding own_mounts own_volumes
  own_mounts-MountsHeld = (
    inr (inr (inr (inr (inl refl)))),
    (inl refl, (inr (inr (inl refl)), (inr (inl refl), (inr (inr (inr (inl refl))), tt)))),
  )

  reaper_mounts-MountsHeld : MountsHeld (reaper_volumes spec) (reaper_mounts spec)
  unfolding reaper_mounts reaper_volumes
  reaper_mounts-MountsHeld =
      let secret : Volume = record {
        name = "reaper-tls";
        source = projected (tls_items spec ∷ []);
      } in
      let config : Volume = record {
        name = "reaper";
        source = projected (config_item "cassandra-reaper" "cassandra-reaper.yml" ∷ []);
      } in
      MountsHeld-join (config ∷ []) (if spec.tls.enabled then secret ∷ [] else [])
        (writable_mount "reaper" "/etc/cassandra-reaper-temp/" ∷ [])
        (if spec.tls.enabled then writable_mount "reaper-tls" "/usr/ssl/" ∷ [] else [])
        (inl refl, tt)
        (if-MountsHeld spec.tls.enabled (secret ∷ []) (writable_mount "reaper-tls" "/usr/ssl/" ∷ [])
          (inl refl, tt))

  -- the reaper's volumes, if it has a container
  abbrev optional_volumes : List Volume
  optional_volumes = if a.reaper_container.name == "" then [] else reaper_volumes spec

  reaper_sidecars-MountsHeld :
      (before : List Volume)
      → a.reaper_container.volume_mounts ≡ []
      → All
          (λ (c : Container).
            MountsHeld (before ++ optional_volumes ++ own_volumes spec) c.volume_mounts)
          (reaper_sidecars spec a.reaper_container)
  unfolding reaper_sidecars
  reaper_sidecars-MountsHeld before bare = elim (Bool-cases (a.reaper_container.name == "")) [
    | inl absent ↦ rw absent tt
    | inr there ↦
        rw (there, bare)
          (
            MountsHeld-append (before ++ reaper_volumes spec) (own_volumes spec)
                (reaper_mounts spec)
                (MountsHeld-append_right before (reaper_volumes spec) (reaper_mounts spec)
                  reaper_mounts-MountsHeld),
            tt,
          )
  ]

  replica_workload-IsMounted :
      (claimed : List Volume × List VolumeMount)
      → a.reaper_container.volume_mounts ≡ []
      → MountsHeld claimed.0 claimed.1
      → IsMounted (replica_workload find_version spec a claimed).pod
  unfolding replica_workload cassandra_container
  replica_workload-IsMounted claimed bare held = (
    MountsHeld-join (claimed.0 ++ optional_volumes) (own_volumes spec) claimed.1 own_mounts
        (MountsHeld-append claimed.0 optional_volumes claimed.1 held) own_mounts-MountsHeld,
    reaper_sidecars-MountsHeld claimed.0 bare,
  )

  replica_labels-Selects :
      Selects (replica_labels find_version spec a) (replica_labels find_version spec a)
  unfolding replica_labels lookup
  replica_labels-Selects =
      (refl, (refl, (refl, (refl, (refl, (refl, (refl, (refl, (refl, tt)))))))))

-- The workload's own selector, and those of the cluster's services and of the data center's, take
-- its pods; and its rule of affinity is the resource's, or is about a label that its pods carry.
abbrev pub IsPlaced : TemplateSpec → LabelKeys → ServiceSpec → DataCenter → Workload → Type 0
IsPlaced spec keys services dc w =
    Selects w.match_labels w.pod_labels
    × Selects cluster_selector w.pod_labels
    × Selects (dc_template keys services dc).selectors w.pod_labels
    × (((own : Opaque) × (spec.affinity ≡ some own) × (w.pod.affinity ≡ some (given own)))
        ⊎ (spec.affinity ≡ none)
          × (label : String) × (value : String) × (w.pod.affinity
              ≡ some (required_anti_affinity label (value ∷ []) "kubernetes.io/hostname"))
          × (lookup label w.pod_labels ≡ some value))

module _ (find_version : String → String) (spec : TemplateSpec) (a : ReplicaArgs) (keys : LabelKeys)
    (services : ServiceSpec) (dc : DataCenter) where
  replica_workload-IsPlaced :
      (claimed : List Volume × List VolumeMount)
      → dc.name ≡ a.data_center_name
      → IsPlaced spec keys services dc (replica_workload find_version spec a claimed)
  unfolding replica_workload replica_labels replica_affinity lookup
  replica_workload-IsPlaced claimed named = (
    replica_labels-Selects find_version spec a,
    (refl, tt),
    (rw named refl, tt),
    elim (Option-cases spec.affinity) [
      | inl none_given ↦ inr (none_given, "service", cassandra_cluster, rw none_given refl, refl)
      | inr (own, there) ↦ inl (own, there, rw there refl)
    ],
  )

  -- A stateful set that the template returns, for a reaper without mounts of its own: each
  -- container mounts only volumes of the pod, those of the claims included. The set's own selector,
  -- that of the services of the cluster and that of the service of the replica's data center take
  -- its pods. The pods have the resource's affinity; where it has none, they have the rule that
  -- pods with a certain label, which all of them carry, do not share a host.
  pub cassandra_replica_template-IsPlaced :
      (w : Workload)
      → a.reaper_container.volume_mounts ≡ []
      → dc.name ≡ a.data_center_name
      → cassandra_replica_template find_version spec a ≡ done w
      → IsMounted w.pod × IsPlaced spec keys services dc w
  unfolding cassandra_replica_template
  cassandra_replica_template-IsPlaced w bare named e =
      returned (claims a.pvc_mounts) (claims-HeldClaims a.pvc_mounts) e
    where
      returned :
          (o : Outcome (List Volume × List VolumeMount))
          → HeldClaims o
          → with_claims find_version spec a o ≡ done w
          → IsMounted w.pod × IsPlaced spec keys services dc w
      returned (panic p) h q = cc
      returned (done claimed) h q =
          subst (λ (v : Workload). IsMounted v.pod × IsPlaced spec keys services dc v)
            (done-injective _ w q)
            (
              replica_workload-IsMounted find_version spec a claimed bare h,
              replica_workload-IsPlaced claimed named,
            )
