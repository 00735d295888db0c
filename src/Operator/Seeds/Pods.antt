-- ===== src/Operator/Seeds/Pods.antt =====
-- pkg/impl/common/seeds_step.go, pkg/impl/cassandra/statefulsets_step.go: a seed is a replica's pod.
use mathlib.Core.Path.{ap₂}
use qubership_cassandra_oper.Base.{
  ℕ, zero, suc, ◌+◌, ◌<◌, ◌≤◌, String, true, false, not, none, some, List, [], ◌∷◌, ◌≡◌, refl, sym,
  ap, ◌∙◌, arith, ◌<>◌, leb, map, if◌then◌else◌,
}
use qubership_cassandra_oper.Base.Decimal.{pos}
use qubership_cassandra_oper.Base.Lists.{length, get_elem?, take}
use qubership_cassandra_oper.Operator.Streams.{any_match}
use qubership_cassandra_oper.Operator.DataCenters.{
  DataCenter, get_active_replicas, calc_replica_index, deployed,
}
use qubership_cassandra_oper.Operator.DataCenters.Numbering.{
  AllDeployed, offset, calc_replica_index-offset, calc_replica_index-separate, deployed-AllDeployed,
  deployed-itself, in_range,
}
use qubership_cassandra_oper.Operator.Hosts.{
  pod_name, replica_name, calc_service_host_name, get_cluster_domain, calc_replica_host_name,
}
use qubership_cassandra_oper.Operator.Seeds.{namespace_variable, or_empty, seed_hosts, dc_seed}
use qubership_cassandra_oper.Operator.StatefulSets.Rollout.{names_of}

-- the host of the pod of a stateful set
abbrev pub pod_host : DataCenter → String → String
pod_host dc name =
    pod_name name
    <> "."
    <> calc_service_host_name true (some dc) namespace_variable (get_cluster_domain dc)

replica_host :
    (dcs : List DataCenter) (i r : ℕ) (dc : DataCenter)
    → get_elem? dcs i ≡ some dc
    → or_empty (calc_replica_host_name true dcs i r namespace_variable)
      ≡ pod_host dc (replica_name (calc_replica_index dcs i (pos r)))
unfolding or_empty calc_replica_host_name
replica_host dcs i r dc e = rw (e, or_empty) refl

seed_hosts-take :
    (dcs : List DataCenter) (i : ℕ) (dc : DataCenter) (seeds ind left : ℕ) (rs : List ℕ)
    → get_elem? dcs i ≡ some dc
    → ind + left ≡ seeds
    → seed_hosts dcs i seeds ind rs ≡ map (pod_host dc) (take left (names_of dcs i rs))
unfolding seed_hosts names_of
seed_hosts-take dcs i dc seeds ind zero [] e p = refl
seed_hosts-take dcs i dc seeds ind (suc left) [] e p = refl
seed_hosts-take dcs i dc seeds ind zero (r ∷ rs) e p = rw (reached seeds ind (omega arith)) refl
  where
    reached : (seeds ind : ℕ) → seeds ≤ ind → leb seeds ind ≡ true
    reached seeds ind h = ground arith
seed_hosts-take dcs i dc seeds ind (suc left) (r ∷ rs) e p =
    ap
      (λ b.
        if b
        then []
        else or_empty (calc_replica_host_name true dcs i r namespace_variable)
          ∷ seed_hosts dcs i seeds (suc ind) rs)
      (below seeds ind (omega arith))
    ∙ ap₂ (λ (x : String) (l : List String). x ∷ l) (replica_host dcs i r dc e)
        (seed_hosts-take dcs i dc seeds (suc ind) left rs e (omega arith))
  where
    below : (seeds ind : ℕ) → ind < seeds → leb seeds ind ≡ false
    below seeds ind h = ground arith

-- Where every data center is deployed here and one lists no seeds of its own, its seeds are the
-- pods of the stateful sets that the rollout creates for its first active replicas, as many as it
-- asks for, or for all of them.
pub dc_seed-names_of :
    (dcs : List DataCenter) (i : ℕ) (dc : DataCenter)
    → AllDeployed dcs
    → get_elem? dcs i ≡ some dc
    → dc.seed_list ≡ none
    → dc_seed dcs i dc
      ≡ map (pod_host dc) (take dc.seeds (names_of (deployed dcs) i (get_active_replicas dc)))
unfolding dc_seed get_active_replicas get_cluster_domain calc_service_host_name
dc_seed-names_of dcs i dc all e no_list = rw no_list (
    seed_hosts-take dcs i dc dc.seeds 0 dc.seeds (get_active_replicas dc) e (omega arith)
    ∙ ap (λ l. map (pod_host dc) (take dc.seeds (names_of l i (get_active_replicas dc))))
        (sym (deployed-itself dcs all)))

-- the names of stateful sets, numbered from an offset
abbrev pub numbered_from : ℕ → List ℕ → List String
numbered_from n rs = map (λ r. replica_name (pos (n + r))) rs

module _ (d : DataCenter) (rest : List DataCenter)
    (remote : any_match (λ dc. not dc.deploy) (d ∷ rest) ≡ true) where
  names_of-separate : (i : ℕ) (rs : List ℕ) → names_of (d ∷ rest) i rs ≡ numbered_from 0 rs
  unfolding names_of
  names_of-separate i [] = refl
  names_of-separate i (r ∷ rs) =
      ap₂ (λ (x : String) (l : List String). x ∷ l)
        (ap replica_name (calc_replica_index-separate d rest i r remote)
          ∙ ap (λ (n : ℕ). replica_name (pos n)) (omega arith))
        (names_of-separate i rs)

  names_of-offset :
      (dcs : List DataCenter) (j : ℕ) (rs : List ℕ)
      → AllDeployed dcs
      → j < length dcs
      → names_of dcs j rs ≡ numbered_from (offset dcs j) rs
  unfolding names_of
  names_of-offset dcs j [] all h = refl
  names_of-offset dcs j (r ∷ rs) all h =
      ap₂ (λ (x : String) (l : List String). x ∷ l)
        (ap replica_name (calc_replica_index-offset dcs j r all h)) (names_of-offset dcs j rs all h)

  -- Where some data center is not deployed here, the seeds of one that is, and that lists none of
  -- its own, are pods of stateful sets numbered by its active replicas alone, while the rollout
  -- numbers its stateful sets on from the replicas of the deployed data centers before it.
  pub seed_of_another_replica :
      (i j : ℕ) (dc : DataCenter)
      → get_elem? (d ∷ rest) i ≡ some dc
      → get_elem? (deployed (d ∷ rest)) j ≡ some dc
      → dc.seed_list ≡ none
      → (dc_seed (d ∷ rest) i dc
          ≡ map (pod_host dc) (take dc.seeds (numbered_from 0 (get_active_replicas dc))))
        × (names_of (deployed (d ∷ rest)) j (get_active_replicas dc)
            ≡ numbered_from (offset (deployed (d ∷ rest)) j) (get_active_replicas dc))
  unfolding dc_seed get_active_replicas get_cluster_domain calc_service_host_name
  seed_of_another_replica i j dc e e' no_list = (
    rw no_list (
        seed_hosts-take (d ∷ rest) i dc dc.seeds 0 dc.seeds (get_active_replicas dc) e (omega arith)
        ∙ ap (λ l. map (pod_host dc) (take dc.seeds l))
            (names_of-separate i (get_active_replicas dc))),
    names_of-offset (deployed (d ∷ rest)) j (get_active_replicas dc)
        (deployed-AllDeployed (d ∷ rest)) (in_range (deployed (d ∷ rest)) j dc e'),
  )
