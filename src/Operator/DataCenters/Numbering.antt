-- ===== src/Operator/DataCenters/Numbering.antt =====
-- pkg/impl/utils/utils.go: `CalcReplicaIndex` numbers the replicas of the cluster.
use qubership_cassandra_oper.Base.{
  ℕ, zero, suc, ◌+◌, ◌≤◌, ◌<◌, Bool, true, false, not, some, List, [], ◌∷◌, ◌++◌, ◌≡◌, inl, inr,
  refl, arith, ◌∙◌, ap, sym, lt→ltb, le→ltb_false, ltb, Bool-cases, if◌then◌else◌,
}
use mathlib.Core.List.{append_assoc, append-nil}
use mathlib.Core.Option.{some-injective}
use native.Mathlib.Decide.{dec_lt}
use qubership_cassandra_oper.Base.Decimal.{ℤ, pos, ◌+ℤ◌}
use qubership_cassandra_oper.Base.Lists.{length, get_elem?, All, All-append}
use qubership_cassandra_oper.Operator.Streams.{any_match}
use qubership_cassandra_oper.Operator.DataCenters.{
  DataCenter, calc_from, calc_replica_index, deployed, filter_dc, filter_dc_from,
}

-- how many replicas the data centers before the index have
abbrev pub offset : List DataCenter → ℕ → ℕ
offset [] k = 0
offset (dc ∷ dcs) zero = 0
offset (dc ∷ dcs) (suc k) = dc.replicas + offset dcs k

abbrev pub AllDeployed : List DataCenter → Type 0
AllDeployed = All (λ dc. dc.deploy ≡ true)

pos-injective : (m n : ℕ) → ◌≡◌ {A = ℤ} (pos m) (pos n) → m ≡ n
pos-injective m n e = cc

none_separate :
    (dcs : List DataCenter) → AllDeployed dcs → any_match (λ dc. not dc.deploy) dcs ≡ false
unfolding any_match
none_separate [] h = refl
none_separate (dc ∷ dcs) (d, h) = rw (d, none_separate dcs h)

calc_from-offset :
    (index : ℤ) (current : ℕ) (dcs : List DataCenter) (k i sum : ℕ)
    → current ≡ i + k
    → k < length dcs
    → calc_from false current index i sum dcs ≡ pos (sum + offset dcs k) +ℤ index
unfolding calc_from
calc_from-offset index current [] k i sum e h = elim h [ ]
calc_from-offset index current (dc ∷ dcs) zero i sum e h =
    rw (le→ltb_false i current (omega arith)) (ap (λ s. pos s +ℤ index) (omega arith))
calc_from-offset index current (dc ∷ dcs) (suc k) i sum e h = rw (lt→ltb i current (omega arith)) (
    calc_from-offset index current dcs k (suc i) (sum + dc.replicas) (omega arith) (omega arith)
    ∙ ap (λ s. pos s +ℤ index) (omega arith))

-- Where every data center is deployed here, a replica's number is the count of the replicas of
-- the data centers before its own, and its index.
pub calc_replica_index-offset :
    (dcs : List DataCenter) (k r : ℕ)
    → AllDeployed dcs
    → k < length dcs
    → calc_replica_index dcs k (pos r) ≡ pos (offset dcs k + r)
unfolding calc_replica_index
calc_replica_index-offset dcs k r d h =
    rw (none_separate dcs d)
      (calc_from-offset (pos r) k dcs k 0 0 (omega arith) h ∙ ap (λ s. pos (s + r)) (omega arith))

calc_from-separate :
    (dc : DataCenter) (dcs : List DataCenter) (k r : ℕ)
    → calc_from true k (pos r) 0 0 (dc ∷ dcs) ≡ pos r
unfolding calc_from
calc_from-separate dc dcs k r = elim (Bool-cases (ltb 0 k)) [
  | inl below ↦ rw below (ap pos (omega arith))
  | inr not_below ↦ rw not_below (ap pos (omega arith))
]

-- Where some data center is not deployed here, a replica's number is its index alone.
pub calc_replica_index-separate :
    (dc : DataCenter) (dcs : List DataCenter) (k r : ℕ)
    → any_match (λ d. not d.deploy) (dc ∷ dcs) ≡ true
    → calc_replica_index (dc ∷ dcs) k (pos r) ≡ pos r
unfolding calc_replica_index calc_from
calc_replica_index-separate dc dcs k r s =
    ap (λ b. calc_from b k (pos r) 0 0 (dc ∷ dcs)) s ∙ calc_from-separate dc dcs k r

pub offset_step :
    (dcs : List DataCenter) (i j : ℕ) (dc : DataCenter)
    → get_elem? dcs i ≡ some dc
    → i < j
    → offset dcs i + dc.replicas ≤ offset dcs j
offset_step [] i j dc e h = cc
offset_step (d ∷ dcs) zero zero dc e h = absurd (omega arith)
offset_step (d ∷ dcs) zero (suc j) dc e h =
    omega (arith, ap (λ (x : DataCenter). x.replicas) (some-injective d dc e))
offset_step (d ∷ dcs) (suc i) zero dc e h = absurd (omega arith)
offset_step (d ∷ dcs) (suc i) (suc j) dc e h = omega (arith, offset_step dcs i j dc e (omega arith))

pub in_range :
    (dcs : List DataCenter) (i : ℕ) (dc : DataCenter) → get_elem? dcs i ≡ some dc → i < length dcs
in_range [] i dc e = cc
in_range (d ∷ dcs) zero dc e = omega arith
in_range (d ∷ dcs) (suc i) dc e = omega (arith, in_range dcs i dc e)

pub offset-injective :
    (dcs : List DataCenter) (i j r s : ℕ) (d d' : DataCenter)
    → get_elem? dcs i ≡ some d
    → get_elem? dcs j ≡ some d'
    → r < d.replicas
    → s < d'.replicas
    → offset dcs i + r ≡ offset dcs j + s
    → (i ≡ j) × (r ≡ s)
offset-injective dcs i j r s d d' e e' h h' same =
    let before = offset_step dcs i j d e in
    let after = offset_step dcs j i d' e' in
    let one : i ≡ j = elim (dec_lt i j) [
      | yes p ↦ absurd (omega (arith, before p))
      | no p ↦ elim (dec_lt j i) [ yes q ↦ absurd (omega (arith, after q)) | no q ↦ omega arith ]
    ] in
    (one, omega (arith, ap (offset dcs) one))

-- Two replicas of data centers that are all deployed here have two numbers.
pub replica_numbers_distinct :
    (dcs : List DataCenter) (i j r s : ℕ) (d d' : DataCenter)
    → AllDeployed dcs
    → get_elem? dcs i ≡ some d
    → get_elem? dcs j ≡ some d'
    → r < d.replicas
    → s < d'.replicas
    → calc_replica_index dcs i (pos r) ≡ calc_replica_index dcs j (pos s)
    → (i ≡ j) × (r ≡ s)
replica_numbers_distinct dcs i j r s d d' all e e' h h' same =
    offset-injective dcs i j r s d d' e e' h h' (
      pos-injective _ _ (
        sym (calc_replica_index-offset dcs i r all (in_range dcs i d e))
        ∙ same
        ∙ calc_replica_index-offset dcs j s all (in_range dcs j d' e')))

keep_deployed :
    (b : Bool) (out : List DataCenter) (dc : DataCenter)
    → dc.deploy ≡ b
    → AllDeployed out
    → AllDeployed (if b then out ++ dc ∷ [] else out)
keep_deployed true out dc d h = All-append _ out (dc ∷ []) h (d, tt)
keep_deployed false out dc d h = h

filter_dc_from-AllDeployed :
    (out dcs : List DataCenter)
    → AllDeployed out
    → AllDeployed (filter_dc_from (λ dc. dc.deploy) out dcs)
unfolding filter_dc_from
filter_dc_from-AllDeployed out [] h = h
filter_dc_from-AllDeployed out (dc ∷ dcs) h =
    filter_dc_from-AllDeployed (if dc.deploy then out ++ dc ∷ [] else out) dcs
      (keep_deployed dc.deploy out dc refl h)

-- the data centers that a step works on
pub deployed-AllDeployed : (dcs : List DataCenter) → AllDeployed (deployed dcs)
unfolding deployed filter_dc
deployed-AllDeployed dcs = filter_dc_from-AllDeployed [] dcs tt

-- filtering a list whose elements all pass keeps it
kept_by_filter :
    (acc dcs : List DataCenter)
    → AllDeployed dcs
    → filter_dc_from (λ dc. dc.deploy) acc dcs ≡ acc ++ dcs
unfolding filter_dc_from
kept_by_filter acc [] h = sym (append-nil acc)
kept_by_filter acc (d ∷ dcs) (x, h) =
    ap (λ b. filter_dc_from (λ dc. dc.deploy) (if b then acc ++ d ∷ [] else acc) dcs) x
    ∙ kept_by_filter (acc ++ d ∷ []) dcs h
    ∙ append_assoc acc (d ∷ []) dcs

pub deployed-itself : (dcs : List DataCenter) → AllDeployed dcs → deployed dcs ≡ dcs
unfolding deployed filter_dc
deployed-itself dcs h = kept_by_filter [] dcs h
