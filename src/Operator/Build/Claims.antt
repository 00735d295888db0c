-- ===== src/Operator/Build/Claims.antt =====
-- pkg/impl/cassandra/cassandra.go: the claims that the replicas mount are created before them.
use mathlib.Core.Option.{some-injective}
use mathlib.Core.List.{append_assoc}
use mathlib.Core.Path.{subst}
use qubership_cassandra_oper.Base.{
  ℕ, zero, suc, ◌+◌, some, List, [], ◌∷◌, ◌++◌, ◌≡◌, ◌⊎◌, inl, inr, refl, sym, ap, arith,
}
use qubership_cassandra_oper.Base.Lists.{get_elem?}
use qubership_cassandra_oper.Operator.DataCenters.{
  DataCenter, StorageRequirements, get_active_replicas, deployed,
}
use qubership_cassandra_oper.Operator.DataCenters.Active.{Elem}
use qubership_cassandra_oper.Operator.Build.{
  Step, statefulsets, services, load_balancer, BuildSpec, pvc_step, pvc_steps, after_claims,
  storage_steps, all_storage_steps, center_steps, build,
}

-- the step stands in the list
abbrev pub Planned : Step → List Step → Type 0
Planned s [] = ⊥
Planned s (x ∷ xs) = (s ≡ x) ⊎ Planned s xs

Planned-left : (s : Step) (xs ys : List Step) → Planned s xs → Planned s (xs ++ ys)
Planned-left s [] ys h = elim h [ ]
Planned-left s (x ∷ xs) ys (inl e) = inl e
Planned-left s (x ∷ xs) ys (inr h) = inr (Planned-left s xs ys h)

Planned-right : (s : Step) (xs ys : List Step) → Planned s ys → Planned s (xs ++ ys)
Planned-right s [] ys h = h
Planned-right s (x ∷ xs) ys h = inr (Planned-right s xs ys h)

module _ (spec : BuildSpec) where
  pvc_steps-Planned :
      (i s : ℕ) (st : StorageRequirements) (rs : List ℕ) (r : ℕ)
      → Elem r rs
      → Planned (pvc_step spec i s st r) (pvc_steps spec i s st rs)
  unfolding pvc_steps
  pvc_steps-Planned i s st [] r h = elim h [ ]
  pvc_steps-Planned i s st (x ∷ rs) r (inl e) = inl (ap (pvc_step spec i s st) e)
  pvc_steps-Planned i s st (x ∷ rs) r (inr h) = inr (pvc_steps-Planned i s st rs r h)

  storage_steps-Planned :
      (i s : ℕ) (st : StorageRequirements) (rs : List ℕ) (r : ℕ)
      → Elem r rs
      → Planned (pvc_step spec i s st r) (storage_steps spec i s st rs)
  unfolding storage_steps
  storage_steps-Planned i s st rs r h =
      Planned-left _ (pvc_steps spec i s st rs) (after_claims spec i s st)
        (pvc_steps-Planned i s st rs r h)

  all_storage_steps-Planned :
      (i from s n : ℕ) (l : List StorageRequirements) (st : StorageRequirements) (rs : List ℕ)
      (r : ℕ)
      → n ≡ from + s
      → get_elem? l s ≡ some st
      → Elem r rs
      → Planned (pvc_step spec i n st r) (all_storage_steps spec i from l rs)
  unfolding all_storage_steps
  all_storage_steps-Planned i from s n [] st rs r q e h = cc
  all_storage_steps-Planned i from zero n (x ∷ l) st rs r q e h =
      let here =
        subst
          (λ (y : StorageRequirements).
            Planned (pvc_step spec i from y r) (storage_steps spec i from x rs))
          (some-injective x st e) (storage_steps-Planned i from x rs r h) in
      Planned-left (pvc_step spec i n st r) (storage_steps spec i from x rs)
        (all_storage_steps spec i (suc from) l rs)
        (subst (λ m. Planned (pvc_step spec i m st r) (storage_steps spec i from x rs))
          (omega (arith, q)) here)
  all_storage_steps-Planned i from (suc s) n (x ∷ l) st rs r q e h =
      Planned-right (pvc_step spec i n st r) (storage_steps spec i from x rs)
        (all_storage_steps spec i (suc from) l rs)
        (all_storage_steps-Planned i (suc from) s n l st rs r (omega (arith, q)) e h)

  center_steps-Planned :
      (from i n s : ℕ) (dcs : List DataCenter) (dc : DataCenter) (st : StorageRequirements) (r : ℕ)
      → n ≡ from + i
      → get_elem? dcs i ≡ some dc
      → get_elem? dc.storage s ≡ some st
      → Elem r (get_active_replicas dc)
      → Planned (pvc_step spec n s st r) (center_steps spec from dcs)
  unfolding center_steps
  center_steps-Planned from i n s [] dc st r q e e' h = cc
  center_steps-Planned from zero n s (d ∷ dcs) dc st r q e e' h =
      let here =
        all_storage_steps-Planned n 0 s s dc.storage st (get_active_replicas dc) r (omega arith) e'
          h in
      Planned-left (pvc_step spec n s st r)
        (all_storage_steps spec from 0 d.storage (get_active_replicas d))
        (center_steps spec (suc from) dcs)
        (subst
          (λ m.
            Planned (pvc_step spec n s st r)
              (all_storage_steps spec m 0 d.storage (get_active_replicas d)))
          (omega (arith, q))
          (subst
            (λ (y : DataCenter).
              Planned (pvc_step spec n s st r)
                (all_storage_steps spec n 0 y.storage (get_active_replicas y)))
            (sym (some-injective d dc e)) here))
  center_steps-Planned from (suc i) n s (d ∷ dcs) dc st r q e e' h =
      Planned-right (pvc_step spec n s st r)
        (all_storage_steps spec from 0 d.storage (get_active_replicas d))
        (center_steps spec (suc from) dcs)
        (center_steps-Planned (suc from) i n s dcs dc st r (omega (arith, q)) e e' h)

  -- An active replica of a deployed data center has, for each of its storages, the step that creates
  -- its claim among the steps that stand before the stateful sets, in the context variable of its
  -- data center and storage, and the services stand there too.
  pub build-Planned :
      (i s r : ℕ) (dc : DataCenter) (st : StorageRequirements)
      → get_elem? (deployed spec.data_centers) i ≡ some dc
      → get_elem? dc.storage s ≡ some st
      → Elem r (get_active_replicas dc)
      → (before : List Step) × (after : List Step) × (build spec ≡ before ++ statefulsets ∷ after)
        × Planned services before
        × Planned (pvc_step spec i s st r) before
  unfolding build
  build-Planned i s r dc st e e' h =
      let claims = center_steps spec 0 (deployed spec.data_centers) in
      (
        claims ++ services ∷ load_balancer ∷ [],
        _,
        sym (append_assoc claims (services ∷ load_balancer ∷ []) _),
        Planned-right services claims _ (inl refl),
        Planned-left (pvc_step spec i s st r) claims _ (
            center_steps-Planned 0 i i s (deployed spec.data_centers) dc st r (omega arith) e e' h),
      )
