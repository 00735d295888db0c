-- ===== src/Operator/DataCenters/Active.antt =====
-- api/v1alpha1/cassandra_types.go: which replicas `GetActiveReplicas` gives.
use qubership_cassandra_oper.Base.{
  ℕ, zero, suc, ◌+◌, ◌≤◌, ◌<◌, String, Bool, true, false, Option, none, some, List, [], ◌∷◌, ◌≡◌,
  ◌⊎◌, ◌↔◌, inl, inr, refl, arith, eq_iff, Bool-cases,
}
use qubership_cassandra_oper.Base.Decimal.{show_ℕ}
use qubership_cassandra_oper.Operator.DataCenters.{
  DataCenter, StringMap, key_exists, is_removed, active_from, count_up, get_active_replicas,
}

-- the number stands in the list
abbrev pub Elem : ℕ → List ℕ → Type 0
Elem r [] = ⊥
Elem r (x ∷ xs) = (r ≡ x) ⊎ Elem r xs

-- each number is above the bound and above those before it
abbrev pub IncreasingFrom : ℕ → List ℕ → Type 0
IncreasingFrom low [] = Unit
IncreasingFrom low (x ∷ xs) = (low ≤ x) × IncreasingFrom (suc x) xs

-- some key of the map is the text
abbrev pub HasKey : String → StringMap → Type 0
HasKey k [] = ⊥
HasKey k ((j, v) ∷ m) = (k ≡ j) ⊎ HasKey k m

-- some map of the list has the replica's decimal print for a key
abbrev pub NamedIn : ℕ → List StringMap → Type 0
NamedIn r [] = ⊥
NamedIn r (m ∷ ms) = HasKey (show_ℕ r) m ⊎ NamedIn r ms

abbrev pub Removed : ℕ → Option (List StringMap) → Type 0
Removed r none = ⊥
Removed r (some ms) = NamedIn r ms

key_exists-HasKey : (k : String) (m : StringMap) → (key_exists k m ≡ true) ↔ HasKey k m
unfolding key_exists
key_exists-HasKey k [] = (λ h. cc, λ h. elim h [ ])
key_exists-HasKey k ((j, v) ∷ m) =
    ground (arith, eq_iff k j, (key_exists-HasKey k m).0, (key_exists-HasKey k m).1)

is_removed-NamedIn : (r : ℕ) (ms : List StringMap) → (is_removed r ms ≡ true) ↔ NamedIn r ms
unfolding is_removed
is_removed-NamedIn r [] = (λ h. cc, λ h. elim h [ ])
is_removed-NamedIn r (m ∷ ms) = ground (
  arith,
  (key_exists-HasKey (show_ℕ r) m).0,
  (key_exists-HasKey (show_ℕ r) m).1,
  (is_removed-NamedIn r ms).0,
  (is_removed-NamedIn r ms).1,
)

Elem-count_up :
    (left start r : ℕ) → Elem r (count_up left start) ↔ ((start ≤ r) × (r < start + left))
unfolding count_up
Elem-count_up zero start r = (λ h. elim h [ ], λ h. absurd (omega arith))
Elem-count_up (suc left) start r =
    ground (arith, (Elem-count_up left (suc start) r).0, (Elem-count_up left (suc start) r).1)

Elem-active_from :
    (ms : List StringMap) (left start r : ℕ)
    → Elem r (active_from ms left start)
      ↔ ((start ≤ r) × (r < start + left) × (is_removed r ms ≡ false))
unfolding active_from
Elem-active_from ms zero start r = (λ h. elim h [ ], λ h. absurd (omega arith))
Elem-active_from ms (suc left) start r =
    let (fwd, back) = Elem-active_from ms left (suc start) r in
    elim (Bool-cases (is_removed start ms)) [
      | inl gone ↦ rw gone (λ h. ground (arith, fwd h), λ h. back (grind arith))
      | inr here ↦ rw here (λ h. ground (arith, fwd), λ h. ground (arith, back))
    ]

IncreasingFrom-weaken :
    (low low' : ℕ) (xs : List ℕ) → low ≤ low' → IncreasingFrom low' xs → IncreasingFrom low xs
IncreasingFrom-weaken low low' [] h i = tt
IncreasingFrom-weaken low low' (x ∷ xs) h (p, i) = (omega arith, i)

count_up-IncreasingFrom : (left start : ℕ) → IncreasingFrom start (count_up left start)
unfolding count_up
count_up-IncreasingFrom zero start = tt
count_up-IncreasingFrom (suc left) start = (omega arith, count_up-IncreasingFrom left (suc start))

active_from-IncreasingFrom :
    (ms : List StringMap) (left start : ℕ) → IncreasingFrom start (active_from ms left start)
unfolding active_from
active_from-IncreasingFrom ms zero start = tt
active_from-IncreasingFrom ms (suc left) start =
    let later = active_from-IncreasingFrom ms left (suc start) in
    elim (Bool-cases (is_removed start ms)) [
      | inl gone ↦ rw gone (IncreasingFrom-weaken start (suc start) _ (omega arith) later)
      | inr here ↦ rw here (omega arith, later)
    ]

clash : {b : Bool} → b ≡ true → b ≡ false → ⊥
clash p q = cc

kept : {b : Bool} → (b ≡ true → ⊥) → b ≡ false
kept {b} h = elim (Bool-cases b) [ inl t ↦ absurd (h t) | inr f ↦ f ]

replicas_of :
    (dc : DataCenter) (removes : Option (List StringMap)) (r : ℕ)
    → dc.remove_nodes ≡ removes
    → (Elem r (get_active_replicas dc) ↔ ((r < dc.replicas) × (Removed r removes → ⊥)))
      × IncreasingFrom 0 (get_active_replicas dc)
unfolding get_active_replicas
replicas_of dc none r e =
    let (fwd, back) = Elem-count_up dc.replicas 0 r in
    rw (e, get_active_replicas)
      (
        (λ h. (omega (arith, fwd h), λ z. z), λ (p, q). back (omega arith)),
        count_up-IncreasingFrom dc.replicas 0,
      )
replicas_of dc (some ms) r e =
    let (fwd, back) = Elem-active_from ms dc.replicas 0 r in
    let (named, is_named) = is_removed-NamedIn r ms in
    rw (e, get_active_replicas)
      (
        (
          λ h. (omega (arith, fwd h), λ z. absurd (clash (is_named z) (fwd h).2)),
          λ (p, q). back (omega arith, omega arith, kept (λ t. q (named t))),
        ),
        active_from-IncreasingFrom ms dc.replicas 0,
      )

-- A replica is active exactly when its number is below the count and no key of `removeNodes` is
-- its decimal print, and the active replicas come in increasing order, each once.
pub active_replicas_iff :
    (dc : DataCenter) (r : ℕ)
    → (Elem r (get_active_replicas dc) ↔ ((r < dc.replicas) × (Removed r dc.remove_nodes → ⊥)))
      × IncreasingFrom 0 (get_active_replicas dc)
active_replicas_iff dc r = replicas_of dc dc.remove_nodes r refl
