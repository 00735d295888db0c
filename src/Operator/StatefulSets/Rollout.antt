-- ===== src/Operator/StatefulSets/Rollout.antt =====
-- pkg/impl/cassandra/statefulsets_step.go: the order in which the step replaces the replicas.
use mathlib.Core.List.{map-append}
use mathlib.Core.Path.{subst}
use qubership_cassandra_oper.Base.{
  ℕ, suc, String, Option, List, [], ◌∷◌, ◌++◌, ◌≡◌, refl, sym, ap, ◌∙◌, map, Option-cases, inl, inr,
}
use qubership_cassandra_oper.Base.Decimal.{pos}
use qubership_cassandra_oper.Base.Go.Keeps.{Keeps, keeps_rules}
use qubership_cassandra_oper.Base.Go.Inversion.{not_done, bind-done, then-done, pure-done}
use qubership_cassandra_oper.Base.Go.{Go, Outcome, done, pure, ask, ◌>>◌}
use qubership_cassandra_oper.Operator.DataCenters.{
  DataCenter, StorageRequirements, VolumeMount, get_active_replicas, calc_replica_index, deployed,
}
use qubership_cassandra_oper.Operator.Hosts.{replica_name}
use qubership_cassandra_oper.Operator.Cluster.{
  EnvVar, StatefulSet, Event, deleted, created, waited, Cluster, must, delete_statefulset_and_pods,
  create_statefulset, wait_for_pods_ready,
}
use qubership_cassandra_oper.Operator.StatefulSets.{
  Spec, Context, address_env, pvc_mounts_from, build_statefulset, replace_statefulset,
  deploy_replicas, deploy_centers, statefulset_step, grown,
}

-- the replacement of one stateful set, newest first
abbrev pub replaced : StatefulSet → List Event → List Event
replaced ss h = waited ss.name ∷ created ss ∷ deleted ss.name ∷ h

-- the replacements of stateful sets, one after another
unfoldable pub rollout : List StatefulSet → List Event → List Event
rollout [] h = h
rollout (ss ∷ rest) h = rollout rest (replaced ss h)

rollout-append :
    (xs ys : List StatefulSet) (h : List Event) → rollout (xs ++ ys) h ≡ rollout ys (rollout xs h)
unfolding rollout
rollout-append [] ys h = refl
rollout-append (x ∷ xs) ys h = rollout-append xs ys (replaced x h)

-- the names of the stateful sets of some replicas of a data center, and of data centers
unfoldable pub names_of : List DataCenter → ℕ → List ℕ → List String
names_of dcs dc_index [] = []
names_of dcs dc_index (r ∷ rs) =
    replica_name (calc_replica_index dcs dc_index (pos r)) ∷ names_of dcs dc_index rs

unfoldable pub all_names : List DataCenter → ℕ → List DataCenter → List String
all_names dcs dc_index [] = []
all_names dcs dc_index (dc ∷ rest) =
    names_of dcs dc_index (get_active_replicas dc) ++ all_names dcs (suc dc_index) rest

abbrev pub set_name : StatefulSet → String
set_name ss = ss.name

-- a rollout of stateful sets with the given names leads from `h` to `h'`
unfoldable pub RollsOut : List String → List Event → List Event → Type 0
RollsOut names h h' = (sss : List StatefulSet) × (map set_name sss ≡ names) × (h' ≡ rollout sss h)

RollsOut-append :
    (a b : List String) (h h₁ h₂ : List Event)
    → RollsOut a h h₁
    → RollsOut b h₁ h₂
    → RollsOut (a ++ b) h h₂
unfolding RollsOut
RollsOut-append a b h h₁ h₂ (xs, px, rx) (ys, py, ry) =
    let named : map set_name xs ++ map set_name ys ≡ a ++ b = cc in
    (
      xs ++ ys,
      map-append set_name xs ys ∙ named,
      ry ∙ ap (rollout ys) rx ∙ sym (rollout-append xs ys h),
    )

module _ (k : Cluster) (spec : Spec) (ctx : Context) (dcs : List DataCenter) where
  must-event :
      (answer : List Event → Option String) (e : Event) (msg : String) (h h' : List Event)
      (u : Unit {0})
      → must k (ask answer e) msg h ≡ (done u, h')
      → h' ≡ e ∷ h
  unfolding must ◌>>◌
  must-event answer e msg h h' u p = elim (Option-cases (answer h)) [
    | inl fine ↦ ap (λ r. r.1) (sym (rw fine at p))
    | inr (x, bad) ↦ absurd (not_done (rw bad at p))
  ]

  replace_statefulset-replaced :
      (dc_index replica_index : ℕ) (ss : StatefulSet) (h h' : List Event) (u : Unit {0})
      → replace_statefulset k spec ctx dcs dc_index replica_index ss h ≡ (done u, h')
      → h' ≡ replaced ss h
  unfolding replace_statefulset delete_statefulset_and_pods create_statefulset wait_for_pods_ready
  replace_statefulset-replaced dc_index replica_index ss h h' u p =
      let (u₁, h₁, e₁, p₁) =
        then-done (must k (ask (λ h. k.delete h ss.name) (deleted ss.name)) _) _ h u h' p in
      let (u₂, h₂, e₂, p₂) =
        then-done (must k (ask (λ h. k.create h ss) (created ss)) _) _ h₁ u h' p₁ in
      must-event _ (waited ss.name) _ h₂ h' u p₂
      ∙ ap (λ (l : List Event). waited ss.name ∷ l)
          (must-event _ (created ss) _ h₁ h₂ u₂ e₂
            ∙ ap (λ (l : List Event). created ss ∷ l) (must-event _ (deleted ss.name) _ h h₁ u₁ e₁))

  address_env-quiet :
      (h₀ : List Event) (name : String) (l : List String) (r : ℕ)
      → Keeps (λ h. h ≡ h₀) (address_env name l r)
  unfolding address_env
  address_env-quiet h₀ name [] r = search keeps_rules
  address_env-quiet h₀ name (x ∷ l) r = search keeps_rules

  pvc_mounts_from-quiet :
      (h₀ : List Event) (dc i s : ℕ) (l : List StorageRequirements)
      (m : List (String × Option VolumeMount))
      → Keeps (λ h. h ≡ h₀) (pvc_mounts_from ctx dc i s l m)
  unfolding pvc_mounts_from
  pvc_mounts_from-quiet h₀ dc i s [] m = search keeps_rules
  pvc_mounts_from-quiet h₀ dc i s (x ∷ l) m = search (
    keeps_rules,
    λ (n : List (String × Option VolumeMount)). pvc_mounts_from-quiet h₀ dc i (suc s) l n,
  )

  build_statefulset-quiet :
      (h₀ : List Event) (dc_index : ℕ) (dc : DataCenter) (i r : ℕ) (env : List EnvVar)
      → Keeps (λ h. h ≡ h₀) (build_statefulset k spec ctx dcs dc_index dc i r env)
  unfolding build_statefulset
  build_statefulset-quiet h₀ dc_index dc i r env =
      search (keeps_rules, address_env-quiet h₀, pvc_mounts_from-quiet h₀) depth 12

  name_of : ℕ → ℕ → String
  name_of dc_index r = replica_name (calc_replica_index dcs dc_index (pos r))

  build_statefulset-name :
      (dc_index : ℕ) (dc : DataCenter) (i r : ℕ) (env : List EnvVar) (ss : StatefulSet)
      (h h' : List Event)
      → build_statefulset k spec ctx dcs dc_index dc i r env h ≡ (done ss, h')
      → (ss.name ≡ name_of dc_index r) × (ss.reaper_env ≡ env)
  unfolding build_statefulset name_of
  build_statefulset-name dc_index dc i r env ss h h' p =
      let (a₁, h₁, _, p₁) =
        bind-done (address_env "CASSANDRA_BROADCAST_ADDRESS" dc.broadcast_address r) _ h ss h' p in
      let (a₂, h₂, _, p₂) =
        bind-done (address_env "CASSANDRA_LISTEN_ADDRESS" dc.listen_address r) _ h₁ ss h' p₁ in
      let (a₃, h₃, _, p₃) =
        bind-done (address_env "CASSANDRA_BROADCAST_RPC_ADDRESS" dc.rpc_broadcast_address r) _ h₂ ss
          h' p₂ in
      let (a₄, h₄, _, p₄) =
        bind-done (address_env "CASSANDRA_RPC_ADDRESS" dc.rpc_listen_address r) _ h₃ ss h' p₃ in
      let (m, h₅, _, p₅) =
        bind-done (pvc_mounts_from ctx dc_index i 0 dc.storage []) _ h₄ ss h' p₄ in
      let built = sym (pure-done _ h₅ ss h' p₅) in
      (ap (λ (x : StatefulSet). x.name) built, ap (λ (x : StatefulSet). x.reaper_env) built)

  one-RollsOut :
      (ss : StatefulSet) (name : String) (h₀ h h' : List Event)
      → ss.name ≡ name
      → h ≡ h₀
      → h' ≡ replaced ss h
      → RollsOut (name ∷ []) h₀ h'
  unfolding RollsOut rollout
  one-RollsOut ss name h₀ h h' n q r =
      (ss ∷ [], ap (λ (x : String). x ∷ []) n, r ∙ ap (replaced ss) q)

  -- a run of a computation that keeps the events ends with those it began with
  quiet_run :
      (h h' : List Event) (m : Go Event StatefulSet) (ss : StatefulSet)
      → Keeps (λ x. x ≡ h) m
      → m h ≡ (done ss, h')
      → h' ≡ h
  quiet_run h h' m ss q p =
      subst (λ (o : Outcome StatefulSet × List Event). o.1 ≡ h) p (q.at h refl)

  none-RollsOut : (h h' : List Event) → h ≡ h' → RollsOut [] h h'
  unfolding RollsOut rollout
  none-RollsOut h h' p = ([], refl, sym p)

  deploy_replicas-RollsOut :
      (dc_index : ℕ) (dc : DataCenter) (i : ℕ) (rs : List ℕ) (env env' : List EnvVar)
      (h h' : List Event)
      → deploy_replicas k spec ctx dcs dc_index dc i rs env h ≡ (done env', h')
      → RollsOut (names_of dcs dc_index rs) h h'
  unfolding deploy_replicas names_of pure name_of
  deploy_replicas-RollsOut dc_index dc i [] env env' h h' p =
      none-RollsOut h h' (ap (λ (o : Outcome (List EnvVar) × List Event). o.1) p)
  deploy_replicas-RollsOut dc_index dc i (r ∷ rs) env env' h h' p =
      let (ss, h₁, e₁, p₁) =
        bind-done (build_statefulset k spec ctx dcs dc_index dc i r (grown k spec ctx dcs dc env)) _
          h env' h' p in
      let (u, h₂, e₂, p₂) =
        then-done (replace_statefulset k spec ctx dcs dc_index r ss) _ h₁ env' h' p₁ in
      RollsOut-append _ _ h h₂ h'
        (one-RollsOut ss _ h h₁ h₂ (build_statefulset-name dc_index dc i r _ ss h h₁ e₁).0
          (quiet_run h h₁ _ ss (build_statefulset-quiet h dc_index dc i r _) e₁)
          (replace_statefulset-replaced dc_index r ss h₁ h₂ u e₂))
        (deploy_replicas-RollsOut dc_index dc (suc i) rs _ env' h₂ h' p₂)

  deploy_centers-RollsOut :
      (dc_index : ℕ) (rest : List DataCenter) (env : List EnvVar) (h h' : List Event) (u : Unit {0})
      → deploy_centers k spec ctx dcs dc_index rest env h ≡ (done u, h')
      → RollsOut (all_names dcs dc_index rest) h h'
  unfolding deploy_centers all_names pure
  deploy_centers-RollsOut dc_index [] env h h' u p =
      none-RollsOut h h' (ap (λ (o : Outcome (Unit {0}) × List Event). o.1) p)
  deploy_centers-RollsOut dc_index (dc ∷ rest) env h h' u p =
      let (env', h₁, e₁, p₁) =
        bind-done (deploy_replicas k spec ctx dcs dc_index dc 0 (get_active_replicas dc) env) _ h u
          h' p in
      RollsOut-append _ _ h h₁ h' (deploy_replicas-RollsOut dc_index dc 0 _ env env' h h₁ e₁)
        (deploy_centers-RollsOut (suc dc_index) rest env' h₁ h' u p₁)

-- A run of the step that ends without a panic replaced the stateful sets of all active replicas of
-- all deployed data centers, in their order: each was deleted, then created, then its pod was
-- waited for, before the next one was touched, and nothing else happened.
pub statefulset_step-RollsOut :
    (k : Cluster) (spec : Spec) (ctx : Context) (h h' : List Event) (u : Unit {0})
    → statefulset_step k spec ctx h ≡ (done u, h')
    → RollsOut (all_names (deployed spec.data_centers) 0 (deployed spec.data_centers)) h h'
unfolding statefulset_step
statefulset_step-RollsOut k spec ctx h h' u p =
    deploy_centers-RollsOut k spec ctx (deployed spec.data_centers) 0 (deployed spec.data_centers) _
      h h' u p
