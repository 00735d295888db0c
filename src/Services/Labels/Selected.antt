-- ===== src/Services/Labels/Selected.antt =====
-- pkg/utils/utils.go: the labels of a resource leave its selectors alone.
use qubership_cassandra_oper.Base.{
  String, Option, none, some, [], ◌∷◌, ◌≡◌, ◌∙◌, inl, inr, refl, sym, ap, Bool-cases, ◌==◌,
  if◌then◌else◌, arith, eq_iff,
}
use qubership_cassandra_oper.Base.Maps.{
  StringMap, lookup, insert, insert_all, Distinct, or_else, lookup-insert, lookup-insert_all,
  lookup-insert_all-Distinct, Distinct-insert,
}
use qubership_cassandra_oper.Kube.{Workload}
use qubership_cassandra_oper.Services.Resource.{ServicesSpec}
use qubership_cassandra_oper.Services.Labels.{
  BasicLabels, own_labels, extra_labels, add_labels, get_labels, fill_workload,
}

pub lookup-add_labels :
    (j : String) (extra m : StringMap)
    → lookup j extra ≡ none
    → lookup j (add_labels extra m) ≡ lookup j m
unfolding add_labels lookup
lookup-add_labels j [] m absent = refl
lookup-add_labels j ((k, v) ∷ extra) m absent =
    ground (
      arith,
      lookup-insert k j v m,
      lookup-add_labels j extra (if v == "" then m else insert k v m),
    )

-- the name that the selectors use is none of the labels
pub get_labels-name :
    (spec : ServicesSpec) (labels : BasicLabels) → lookup "name" (get_labels spec labels) ≡ none
unfolding get_labels lookup
get_labels-name spec labels = lookup-add_labels "name" (extra_labels labels) (own_labels spec) refl

pub fill_workload-name :
    (spec : ServicesSpec) (labels : BasicLabels) (w : Workload)
    → lookup "name" (fill_workload spec labels w).pod_labels ≡ lookup "name" w.pod_labels
unfolding fill_workload
fill_workload-name spec labels w =
    lookup-insert_all "name" (get_labels spec labels) w.pod_labels (get_labels-name spec labels)

-- a value that is not empty
abbrev pub non_empty : Option String → Option String
non_empty none = none
non_empty (some v) = if v == "" then none else some v

Distinct-add_labels : (extra m : StringMap) → Distinct m → Distinct (add_labels extra m)
unfolding add_labels
Distinct-add_labels [] m d = d
Distinct-add_labels ((k, v) ∷ extra) m d = elim (Bool-cases (v == "")) [
  | inl empty ↦ rw empty (Distinct-add_labels extra m d)
  | inr full ↦ rw full (Distinct-add_labels extra (insert k v m) (Distinct-insert k v m d))
]

lookup-add_labels-Distinct :
    (j : String) (extra m : StringMap)
    → Distinct extra
    → lookup j (add_labels extra m) ≡ or_else (non_empty (lookup j extra)) (lookup j m)
unfolding add_labels lookup
lookup-add_labels-Distinct j [] m d = refl
lookup-add_labels-Distinct j ((k, v) ∷ extra) m (fresh, d) =
    lookup-add_labels-Distinct j extra (if v == "" then m else insert k v m) d
    ∙ elim (Bool-cases (k == j)) [
      | inl same ↦
          let absent = sym (ap (λ s. lookup s extra) ((eq_iff k j).0 same)) ∙ fresh in
          elim (Bool-cases (v == "")) [
            | inl empty ↦ rw (same, empty, absent) refl
            | inr full ↦ rw (same, full, absent, lookup-insert k j v m, same) refl
          ]
      | inr other ↦ elim (Bool-cases (v == "")) [
        | inl empty ↦ rw (other, empty) refl
        | inr full ↦ rw (other, full, lookup-insert k j v m, other) refl
      ]
    ]

or_else_assoc : (a b c : Option String) → or_else (or_else a b) c ≡ or_else a (or_else b c)
or_else_assoc none b c = refl
or_else_assoc (some v) b c = refl

own_labels-Distinct : (spec : ServicesSpec) → Distinct (own_labels spec)
unfolding lookup
own_labels-Distinct spec = (refl, (refl, tt))

extra_labels-Distinct : (labels : BasicLabels) → Distinct (extra_labels labels)
unfolding lookup
extra_labels-Distinct labels = (refl, (refl, (refl, (refl, (refl, (refl, tt))))))

-- A label of a workload that is created, and of its pods: the part's own, if that is not empty;
-- else the instance or the version of the resource; else what the template had.
pub fill_workload-lookup :
    (spec : ServicesSpec) (labels : BasicLabels) (w : Workload) (key : String)
    → (lookup key (fill_workload spec labels w).labels
        ≡ or_else
            (non_empty (lookup key (extra_labels labels)))
            (or_else (lookup key (own_labels spec)) (lookup key w.labels)))
      × (lookup key (fill_workload spec labels w).pod_labels
          ≡ or_else
              (non_empty (lookup key (extra_labels labels)))
              (or_else (lookup key (own_labels spec)) (lookup key w.pod_labels)))
unfolding fill_workload get_labels
fill_workload-lookup spec labels w key = (inserted w.labels, inserted w.pod_labels)
  where
    inserted :
        (m : StringMap)
        → lookup key (insert_all (add_labels (extra_labels labels) (own_labels spec)) m)
          ≡ or_else
              (non_empty (lookup key (extra_labels labels)))
              (or_else (lookup key (own_labels spec)) (lookup key m))
    inserted m =
        lookup-insert_all-Distinct key (add_labels (extra_labels labels) (own_labels spec)) m
          (Distinct-add_labels (extra_labels labels) (own_labels spec) (own_labels-Distinct spec))
        ∙ ap (λ o. or_else o (lookup key m))
            (lookup-add_labels-Distinct key (extra_labels labels) (own_labels spec)
              (extra_labels-Distinct labels))
        ∙ or_else_assoc (non_empty (lookup key (extra_labels labels))) _ _
