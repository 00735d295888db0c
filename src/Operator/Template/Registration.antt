-- ===== src/Operator/Template/Registration.antt =====
-- pkg/impl/cassandra/templates.go: the service that is registered in Consul.
use mathlib.Core.List.{append_assoc, append-nil}
use qubership_cassandra_oper.Base.{
  ℕ, zero, suc, sym, ap, ◌∙◌, String, Bool, true, Option, none, some, List, [], ◌∷◌, ◌++◌, ◌<>◌,
  ◌≡◌, ◌⊎◌, inl, inr, refl, Option-cases,
}
use qubership_cassandra_oper.Base.Decimal.{show_ℕ}
use qubership_cassandra_oper.Base.Lists.{length}
use qubership_cassandra_oper.Base.Maps.{StringMap, insert}
use qubership_cassandra_oper.Base.Go.{Outcome, done, panic}
use qubership_cassandra_oper.Operator.DataCenters.{DataCenter, get_active_replicas_len, deployed}
use qubership_cassandra_oper.Operator.Hosts.{
  service_of, calc_service_host_name, default_cluster_domain, cassandra,
}

-- what the operator reads and writes of Consul's check, and of its registration of a service
pub record ServiceCheck : Type 0 where
  pub name : String
  pub tcp : String
  pub interval : String

pub record ServiceRegistration : Type 0 where
  pub id : String
  pub name : String
  pub address : String
  pub port : ℕ
  pub enable_tag_override : Bool
  pub tags : List String
  pub meta : StringMap
  pub check : Option ServiceCheck
  pub checks : List ServiceCheck

unfoldable pub dc_names : List DataCenter → List String
dc_names [] = []
dc_names (dc ∷ dcs) = dc.name ∷ dc_names dcs

-- the loop over the deployed data centers
unfoldable pub dc_meta : List DataCenter → StringMap → StringMap
unfolding insert
dc_meta [] meta = meta
dc_meta (dc ∷ dcs) meta =
    dc_meta dcs (insert (dc.name <> "-active-replicas") (show_ℕ (get_active_replicas_len dc)) meta)

unfoldable pub common_meta : List DataCenter → String → StringMap
unfolding dc_meta
common_meta dcs namespace =
    dc_meta dcs
      (("deployed-data-centers-count", show_ℕ (length dcs)) ∷ ("namespace", namespace) ∷ [])

abbrev pub registered_address : String → String
registered_address namespace = calc_service_host_name true none namespace default_cluster_domain

-- the registration before its check is looked at, with `core.ConcatMaps`
abbrev pub registered :
    (StringMap → StringMap → StringMap)
    → List DataCenter
    → String
    → ServiceRegistration
    → ServiceRegistration
registered concat_maps dcs namespace sr = record sr {
  id = sr.name;
  address = registered_address namespace;
  port = 9042;
  enable_tag_override = true;
  tags = sr.tags ++ dc_names dcs;
  meta = concat_maps (common_meta dcs namespace) sr.meta;
}

-- the check under its new name, at the registered address and port
abbrev pub tcp_check : ServiceRegistration → ServiceCheck → ServiceCheck
tcp_check sr check = record check { name = "tcp-check"; tcp = sr.address <> ":" <> show_ℕ sr.port }

module _ (concat_maps : StringMap → StringMap → StringMap) (data_centers : List DataCenter)
    (namespace : String) where
  -- `CassandraConsulServiceRegistrationCast`. It writes through the pointer that it is given, and
  -- returns that pointer: the state is the registration behind it, also where the call panics.
  unfoldable pub consul_service_registration_cast :
      ServiceRegistration → Outcome (Unit {0}) × ServiceRegistration
  unfolding calc_service_host_name dc_names common_meta
  consul_service_registration_cast sr =
      let sr' = registered concat_maps (deployed data_centers) namespace sr in
      elim sr'.check [
        | none ↦ (panic "Service check for cassandra is not found", sr')
        | some check ↦ (done tt, record sr' { checks = tcp_check sr' check ∷ []; check = none })
      ]

  -- the registration after so many calls, panics included
  abbrev pub after_casts : ℕ → ServiceRegistration → ServiceRegistration
  after_casts zero sr = sr
  after_casts (suc n) sr = after_casts n (consul_service_registration_cast sr).1

abbrev pub repeated : ℕ → List String → List String
repeated zero xs = []
repeated (suc n) xs = xs ++ repeated n xs

module _ (concat_maps : StringMap → StringMap → StringMap) (data_centers : List DataCenter)
    (namespace : String) where
  abbrev cast : ServiceRegistration → Outcome (Unit {0}) × ServiceRegistration
  cast = consul_service_registration_cast concat_maps data_centers namespace

  abbrev after : ℕ → ServiceRegistration → ServiceRegistration
  after = after_casts concat_maps data_centers namespace

  cast-tags :
      (sr : ServiceRegistration) → (cast sr).1.tags ≡ sr.tags ++ dc_names (deployed data_centers)
  unfolding consul_service_registration_cast
  cast-tags sr = elim (Option-cases sr.check) [
    | inl absent ↦ rw absent refl
    | inr (check, there) ↦ rw there refl
  ]

  cast-check : (sr : ServiceRegistration) → (cast sr).1.check ≡ none
  unfolding consul_service_registration_cast
  cast-check sr = elim (Option-cases sr.check) [
    | inl absent ↦ rw absent refl
    | inr (check, there) ↦ rw there refl
  ]

  cast-none :
      (sr : ServiceRegistration)
      → sr.check ≡ none
      → ((cast sr).0 ≡ panic "Service check for cassandra is not found")
        × ((cast sr).1.checks ≡ sr.checks)
  unfolding consul_service_registration_cast
  cast-none sr absent = (rw absent refl, rw absent refl)

  cast-some :
      (sr : ServiceRegistration) (check : ServiceCheck)
      → sr.check ≡ some check
      → ((cast sr).0 ≡ done tt)
        × ((cast sr).1.checks
            ≡ record check {
              name = "tcp-check";
              tcp =
                  (cassandra <> "." <> namespace <> ".svc." <> default_cluster_domain)
                  <> ":"
                  <> show_ℕ 9042;
            }
              ∷ [])
  unfolding consul_service_registration_cast calc_service_host_name service_of
  cast-some sr check there = (rw there refl, rw there refl)

  after-tags :
      (n : ℕ) (sr : ServiceRegistration)
      → (after n sr).tags ≡ sr.tags ++ repeated n (dc_names (deployed data_centers))
  after-tags zero sr = sym (append-nil sr.tags)
  after-tags (suc n) sr =
      after-tags n (cast sr).1
      ∙ ap (λ (ts : List String). ts ++ repeated n (dc_names (deployed data_centers)))
          (cast-tags sr)
      ∙ append_assoc sr.tags (dc_names (deployed data_centers))
          (repeated n (dc_names (deployed data_centers)))

  after-check :
      (n : ℕ) (sr : ServiceRegistration)
      → sr.check ≡ none
      → ((after n sr).check ≡ none) × ((after n sr).checks ≡ sr.checks)
  after-check zero sr absent = (absent, refl)
  after-check (suc n) sr absent =
      let (none_left, same) = after-check n (cast sr).1 (cast-check sr) in
      (none_left, same ∙ (cast-none sr absent).1)

  -- what the first call does with the check, and the checks that stay
  abbrev pub Checked : ServiceRegistration → ServiceRegistration → Type 0
  Checked sr sr' =
      ((sr.check ≡ none)
        × ((cast sr).0 ≡ panic "Service check for cassandra is not found")
        × (sr'.checks ≡ sr.checks))
      ⊎ ((check : ServiceCheck) × (sr.check ≡ some check)
          × ((cast sr).0 ≡ done tt)
          × (sr'.checks
              ≡ record check {
                name = "tcp-check";
                tcp =
                    (cassandra <> "." <> namespace <> ".svc." <> default_cluster_domain)
                    <> ":"
                    <> show_ℕ 9042;
              }
                ∷ []))

  -- On one registration, the first call of the cast ends exactly where the registration has a
  -- check, and every later call panics, since the first has taken the check away. The checks stay
  -- as the first call left them: the one check, at the common service of the cluster, or those that
  -- were there. Each call, also one that panics, adds the names of the deployed data centers to the
  -- tags once more.
  pub consul_service_registration_cast-checks :
      (n : ℕ) (sr : ServiceRegistration)
      → ((after (suc n) sr).tags ≡ sr.tags ++ repeated (suc n) (dc_names (deployed data_centers)))
        × ((cast (after (suc n) sr)).0 ≡ panic "Service check for cassandra is not found")
        × Checked sr (after (suc n) sr)
  consul_service_registration_cast-checks n sr =
      let (gone, same) = after-check n (cast sr).1 (cast-check sr) in
      (
        after-tags (suc n) sr,
        (cast-none (after (suc n) sr) gone).0,
        elim (Option-cases sr.check) [
          | inl absent ↦
              let (panics, left) = cast-none sr absent in inl (absent, panics, same ∙ left)
          | inr (check, there) ↦
              let (ends, moved) = cast-some sr check there in inr (check, there, ends, same ∙ moved)
        ],
      )
