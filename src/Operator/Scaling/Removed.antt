-- ===== src/Operator/Scaling/Removed.antt =====
-- pkg/impl/cassandra/scaling.go: which stateful sets a run of `RemoveNodes` deletes.
use mathlib.Core.Option.{some-injective}
use qubership_cassandra_oper.Base.{
  ℕ, zero, suc, ◌+◌, ◌≤◌, ◌<◌, String, Option, none, some, List, [], ◌∷◌, ◌≡◌, ◌≢◌, ◌⊎◌, inl, inr,
  refl, sym, ap, ◌∙◌, arith,
}
use qubership_cassandra_oper.Base.Decimal.{ℤ, pos, show_ℕ, atoi, max_int}
use qubership_cassandra_oper.Base.Decimal.RoundTrip.{atoi-show_ℕ}
use qubership_cassandra_oper.Base.Lists.{get_elem?, All}
use qubership_cassandra_oper.Base.Go.{Go, panic, case_option, pure, ◌>>=◌, ◌>>◌}
use qubership_cassandra_oper.Base.Go.Keeps.{Keeps, Keeps-panic_error}
use qubership_cassandra_oper.Base.Go.Made.{Has, Made, Made-ask, Made-first, Made-next}
use qubership_cassandra_oper.Operator.DataCenters.{
  DataCenter, StringMap, get_active_replicas, calc_replica_index, deployed,
}
use qubership_cassandra_oper.Operator.DataCenters.Active.{Elem, HasKey, NamedIn}
use qubership_cassandra_oper.Operator.Hosts.{replica_name}
use qubership_cassandra_oper.Operator.Cluster.{
  Event, deleted, listed_pods, ssh, Cluster, must, delete_statefulset_and_pods,
}
use qubership_cassandra_oper.Operator.Scaling.{
  node_number, remove_node, remove_map, remove_maps, remove_from_centers, remove_nodes_step,
}
use qubership_cassandra_oper.Operator.Scaling.Inactive.{set_of, removed_is_inactive}
use qubership_cassandra_oper.Operator.Scaling.Harmless.{
  Harmless, Keeps-remove_node_id, Keeps-remove_map, Keeps-remove_maps, HarmlessAt, HarmlessFrom,
  Keeps-remove_from_centers,
}

-- the key is the decimal print of one of the data center's replicas
abbrev pub IsReplica : DataCenter → String × String → Type 0
IsReplica d entry = (r : ℕ) × (entry.0 ≡ show_ℕ r) × (r < d.replicas) × (r ≤ max_int)

abbrev pub Canonical : DataCenter → Option (List StringMap) → Type 0
Canonical d none = Unit
Canonical d (some ms) = All (All (IsReplica d)) ms

-- all keys of `removeNodes` are such
abbrev pub AllCanonical : List DataCenter → Type 0
AllCanonical = All (λ (d : DataCenter). Canonical d d.remove_nodes)

-- no deletion of the stateful set of an active replica of a deployed data center
abbrev pub Spared : List DataCenter → Event → Type 0
Spared dcs (deleted name) =
    (j s : ℕ) (d : DataCenter)
    → get_elem? (deployed dcs) j ≡ some d
    → Elem s (get_active_replicas d)
    → name ≢ set_of dcs j s
Spared dcs _ = Unit

abbrev pub SparesActive : List DataCenter → List Event → Type 0
SparesActive dcs = All (Spared dcs)

module _ (k : Cluster) (dcs : List DataCenter) where
  abbrev Spares : List Event → Type 0
  Spares = SparesActive dcs

  spared_entries :
      (i : ℕ) (d : DataCenter) (ms : List StringMap)
      → get_elem? (deployed dcs) i ≡ some d
      → d.remove_nodes ≡ some ms
      → (m : StringMap) → All (IsReplica d) m
      → ((r : ℕ) → HasKey (show_ℕ r) m → NamedIn r ms)
      → All (Harmless Spares k (deployed dcs) (λ h p. (tt, p)) (λ pod cmd h p. (tt, p)) i) m
  spared_entries i d ms e q [] h named = tt
  spared_entries i d ms e q ((key, id) ∷ m) ((r, print, low, bound), h) named = (
    λ n number g p. (
      λ j s d' e' active same.
          removed_is_inactive dcs i j r s d d' ms e e' q (named r (inl (sym print))) low active (
            ap (λ (x : ℤ). replica_name (calc_replica_index (deployed dcs) i x))
              (some-injective (pos r) n (sym (atoi-show_ℕ r bound) ∙ ap atoi (sym print) ∙ number))
            ∙ same),
      p,
    ),
    spared_entries i d ms e q m h (λ r' has. named r' (inr has)),
  )

  spared_maps :
      (i : ℕ) (d : DataCenter) (ms : List StringMap)
      → get_elem? (deployed dcs) i ≡ some d
      → d.remove_nodes ≡ some ms
      → (ns : List StringMap) → All (All (IsReplica d)) ns
      → ((r : ℕ) → NamedIn r ns → NamedIn r ms)
      → All (All (Harmless Spares k (deployed dcs) (λ h p. (tt, p)) (λ pod cmd h p. (tt, p)) i)) ns
  spared_maps i d ms e q [] h named = tt
  spared_maps i d ms e q (n ∷ ns) (p, h) named = (
    spared_entries i d ms e q n p (λ r has. named r (inl has)),
    spared_maps i d ms e q ns h (λ r has. named r (inr has)),
  )

  spared_at :
      (i : ℕ) (d : DataCenter) (o : Option (List StringMap))
      → get_elem? (deployed dcs) i ≡ some d
      → d.remove_nodes ≡ o
      → Canonical d o
      → HarmlessAt Spares k (deployed dcs) (λ h p. (tt, p)) (λ pod cmd h p. (tt, p)) i o
  spared_at i d none e q c = tt
  spared_at i d (some ms) e q c = spared_maps i d ms e q ms c (λ r named. named)

  spared_from :
      (index : ℕ) (rest : List DataCenter)
      → ((i : ℕ) (d : DataCenter)
          → get_elem? rest i ≡ some d
          → get_elem? (deployed dcs) (index + i) ≡ some d)
      → AllCanonical rest
      → HarmlessFrom Spares k (deployed dcs) (λ h p. (tt, p)) (λ pod cmd h p. (tt, p)) index rest
  spared_from index [] at c = tt
  spared_from index (dc ∷ rest) at (p, c) = (
    spared_at index dc dc.remove_nodes (ap (get_elem? (deployed dcs)) (omega arith) ∙ at 0 dc refl)
        refl p,
    spared_from (suc index) rest
        (λ i d e. ap (get_elem? (deployed dcs)) (omega arith) ∙ at (suc i) d e) c,
  )

  -- any deletion leaves an event where it is
  module _ (e : Event) where
    abbrev later : (h : List Event) → Has e h → Has e (listed_pods ∷ h)
    later h p = inr p

    abbrev later_run : (pod cmd : String) (h : List Event) → Has e h → Has e (ssh pod cmd ∷ h)
    later_run pod cmd h p = inr p

    kept_entries :
        (i : ℕ) (m : StringMap) → All (Harmless (Has e) k (deployed dcs) later later_run i) m
    kept_entries i [] = tt
    kept_entries i (entry ∷ m) = (λ n number h p. inr p, kept_entries i m)

    kept_maps :
        (i : ℕ) (ms : List StringMap)
        → All (All (Harmless (Has e) k (deployed dcs) later later_run i)) ms
    kept_maps i [] = tt
    kept_maps i (m ∷ ms) = (kept_entries i m, kept_maps i ms)

    kept_at :
        (i : ℕ) (o : Option (List StringMap))
        → HarmlessAt (Has e) k (deployed dcs) later later_run i o
    kept_at i none = tt
    kept_at i (some ms) = kept_maps i ms

    kept_from :
        (i : ℕ) (rest : List DataCenter)
        → HarmlessFrom (Has e) k (deployed dcs) later later_run i rest
    kept_from i [] = tt
    kept_from i (dc ∷ rest) = (kept_at i dc.remove_nodes, kept_from (suc i) rest)

  module _ (i r : ℕ) (bound : r ≤ max_int) where
    abbrev removal : Event
    removal = deleted (set_of dcs i r)

    Made-from :
        (n : ℤ) (f : ℤ → Go Event (Unit {0})) → Made removal (f n) → Made removal (pure n >>= f)
    unfolding ◌>>=◌ pure
    Made-from n f made = record { at = made.at }

    Made-then :
        {A : Type 0} (m : Go Event A) (n : Go Event (Unit {0}))
        → Made removal m
        → Keeps (Has removal) n
        → Made removal (m >> n)
    unfolding ◌>>◌
    Made-then m n made kept = Made-first m (λ _. n) made (λ _. kept)

    Made-after :
        {A : Type 0} (m : Go Event A) (n : Go Event (Unit {0}))
        → Made removal n
        → Made removal (m >> n)
    unfolding ◌>>◌
    Made-after m n made = Made-next m (λ _. n) (λ _. made)

    Made-remove_node :
        (key id : String) → show_ℕ r ≡ key → Made removal (remove_node k (deployed dcs) i key id)
    unfolding remove_node node_number case_option must delete_statefulset_and_pods
    Made-remove_node key id same = rw (ap atoi (sym same) ∙ atoi-show_ℕ r bound) (
        Made-from (pos r) _ (
          Made-then _ _
            (Made-first _ _ (Made-ask removal _) (λ err. Keeps-panic_error k.panic_value err _))
            (Keeps-remove_node_id (Has removal) k (deployed dcs) (later removal) (later_run removal)
              id)))

    Made-remove_map :
        (m : StringMap) → HasKey (show_ℕ r) m → Made removal (remove_map k (deployed dcs) i m)
    unfolding remove_map
    Made-remove_map [] h = elim h [ ]
    Made-remove_map ((key, id) ∷ m) (inl same) = Made-then _ _ (Made-remove_node key id same) (
        Keeps-remove_map (Has removal) k (deployed dcs) (later removal) (later_run removal) i m
          (kept_entries removal i m))
    Made-remove_map ((key, id) ∷ m) (inr h) = Made-after _ _ (Made-remove_map m h)

    Made-remove_maps :
        (ms : List StringMap) → NamedIn r ms → Made removal (remove_maps k (deployed dcs) i ms)
    unfolding remove_maps
    Made-remove_maps [] h = elim h [ ]
    Made-remove_maps (m ∷ ms) (inl h) = Made-then _ _ (Made-remove_map m h) (
        Keeps-remove_maps (Has removal) k (deployed dcs) (later removal) (later_run removal) i ms
          (kept_maps removal i ms))
    Made-remove_maps (m ∷ ms) (inr h) = Made-after _ _ (Made-remove_maps ms h)

    Made-remove_from_centers :
        (left index : ℕ) (rest : List DataCenter) (d : DataCenter) (ms : List StringMap)
        → index + left ≡ i
        → get_elem? rest left ≡ some d
        → d.remove_nodes ≡ some ms
        → NamedIn r ms
        → Made removal (remove_from_centers k (deployed dcs) index rest)
    unfolding remove_from_centers case_option
    Made-remove_from_centers left index [] d ms sum e q named = cc
    Made-remove_from_centers zero index (dc ∷ rest) d ms sum e q named =
        let here : dc.remove_nodes ≡ some ms =
          ap (λ (x : DataCenter). x.remove_nodes) (some-injective dc d e) ∙ q in
        let at : index ≡ i = omega (arith, sum) in
        Made-then _ _ (rw (here, at) (Made-remove_maps ms named)) (
          Keeps-remove_from_centers (Has removal) k (deployed dcs) (later removal)
            (later_run removal) (suc index) rest (kept_from removal (suc index) rest))
    Made-remove_from_centers (suc left) index (dc ∷ rest) d ms sum e q named =
        Made-after _ _
          (Made-remove_from_centers left (suc index) rest d ms (omega (arith, sum)) e q named)

  -- Where every key of `removeNodes` of a deployed data center is the decimal print of one of its
  -- replicas: a run of the step, also one that panics, deletes no stateful set of an active replica
  -- of a deployed data center. A run that does not panic deletes the stateful set of each replica
  -- that such a key names.
  pub removed_node_is_inactive :
      (i r : ℕ) (d : DataCenter) (ms : List StringMap) (h : List Event)
      → AllCanonical (deployed dcs)
      → get_elem? (deployed dcs) i ≡ some d
      → d.remove_nodes ≡ some ms
      → NamedIn r ms
      → r ≤ max_int
      → SparesActive dcs h
      → SparesActive dcs (remove_nodes_step k dcs h).1
        × (((p : String) × ((remove_nodes_step k dcs h).0 ≡ panic p))
            ⊎ Has (deleted (set_of dcs i r)) (remove_nodes_step k dcs h).1)
  unfolding remove_nodes_step
  removed_node_is_inactive i r d ms h canonical e q named bound spared = (
    (Keeps-remove_from_centers Spares k (deployed dcs) (λ h p. (tt, p)) (λ pod cmd h p. (tt, p)) 0
          (deployed dcs)
          (spared_from 0 (deployed dcs) (λ i d e. ap (get_elem? (deployed dcs)) (omega arith) ∙ e)
            canonical)).at
        h spared,
    (Made-remove_from_centers i r bound i 0 (deployed dcs) d ms (omega arith) e q named).at h,
  )
