-- ===== src/Operator/Validation/Accepted.antt =====
-- pkg/impl/common/initial_validations_step.go: what a validated resource has.
use mathlib.Core.Option.{some-injective}
use qubership_cassandra_oper.Base.{
  ℕ, zero, suc, ◌+◌, ◌≤◌, String, Bool, true, false, not, Option, none, some, List, [], ◌∷◌, ◌≡◌,
  ◌≢◌, refl, sym, ap, ◌∙◌, arith, ◌==◌, ◌||◌, ◌&&◌, ltb, eqb, inl, inr, Bool-cases, Option-cases,
  str_ne, ltb_false→le,
}
use mathlib.Core.Path.{ap₂}
use qubership_cassandra_oper.Base.Lists.{length, get_elem?, All}
use qubership_cassandra_oper.Base.Go.{Outcome, done, panic}
use qubership_cassandra_oper.Base.Go.Inversion.{done-injective}
use qubership_cassandra_oper.Operator.DataCenters.{
  DataCenter, VolumeMount, StorageRequirements, get_active_replicas_len, deployed,
}
use qubership_cassandra_oper.Operator.Validation.{
  seed_number, is_data_mount, clashes, overlaps, mount_error, storage_error, first_storage_error,
  dc_error, dcs_error, validate,
}

-- two storages have mounts, and these share neither the path nor the name
abbrev pub Apart : StorageRequirements → StorageRequirements → Type 0
Apart s t =
    (m : VolumeMount) × (n : VolumeMount) × (s.mount_settings ≡ some m)
    × (t.mount_settings ≡ some n)
    × (m.mount_path ≢ n.mount_path)
    × (m.name ≢ n.name)

-- a storage has a mount with a path and a name
abbrev pub Mounted : StorageRequirements → Type 0
Mounted s = (m : VolumeMount) × (s.mount_settings ≡ some m) × (m.mount_path ≢ "") × (m.name ≢ "")

-- each storage is apart from those after it
abbrev pub PairwiseApart : List StorageRequirements → Type 0
PairwiseApart [] = Unit
PairwiseApart (s ∷ l) = All (Apart s) l × PairwiseApart l

abbrev pub SoundStorage : List StorageRequirements → Type 0
SoundStorage l =
    ((s : StorageRequirements) × (get_elem? l 0 ≡ some s) × (is_data_mount s.mount_settings ≡ true))
    × All Mounted l
    × PairwiseApart l

-- a predicate that holds at each index holds at each element
each :
    (P : StorageRequirements → Type 0) (l : List StorageRequirements)
    → ((i : ℕ) (s : StorageRequirements) → get_elem? l i ≡ some s → P s)
    → All P l
each P [] f = tt
each P (s ∷ l) f = (f 0 s refl, each P l (λ i t e. f (suc i) t e))

each_pair :
    (l : List StorageRequirements)
    → ((i j : ℕ) (s t : StorageRequirements)
        → get_elem? l i ≡ some s
        → get_elem? l j ≡ some t
        → i ≢ j
        → Apart s t)
    → PairwiseApart l
each_pair [] f = tt
each_pair (s ∷ l) f = (
  each (Apart s) l (λ j t e. f 0 (suc j) s t refl e (λ q. omega (arith, q))),
  each_pair l (λ i j a b e e' ne. f (suc i) (suc j) a b e e' (λ q. ne (omega (arith, q)))),
)

unfoldable pub SoundCenter : DataCenter → Type 0
SoundCenter dc = (1 ≤ get_active_replicas_len dc) × (1 ≤ seed_number dc) × SoundStorage dc.storage

both : {A : Type 0} {a : A} → ◌≡◌ {A = Option A} (some a) none → ⊥
both p = cc

or_false : (a b : Bool) → (a || b) ≡ false → (a ≡ false) × (b ≡ false)
or_false a b p = ground arith

overlaps-clashes :
    (m : VolumeMount) (first : ℕ) (l : List StorageRequirements) (from j : ℕ)
    (t : StorageRequirements)
    → overlaps m first from l ≡ false
    → get_elem? l j ≡ some t
    → first ≢ from + j
    → clashes m t.mount_settings ≡ false
unfolding overlaps
overlaps-clashes m first [] from j t p e ne = cc
overlaps-clashes m first (s ∷ l) from zero t p e ne =
    let (here, later) =
      or_false (not (eqb first from) && clashes m s.mount_settings) (overlaps m first (suc from) l)
        p in
    let at_s : clashes m s.mount_settings ≡ false = ground (arith, here) in
    ap (λ (x : StorageRequirements). clashes m x.mount_settings) (sym (some-injective s t e)) ∙ at_s
overlaps-clashes m first (s ∷ l) from (suc j) t p e ne =
    let (here, later) =
      or_false (not (eqb first from) && clashes m s.mount_settings) (overlaps m first (suc from) l)
        p in
    overlaps-clashes m first l (suc from) j t later e (λ q. ne (omega (arith, q)))

mount_error-Mounted :
    (dc : String) (first : ℕ) (all : List StorageRequirements) (o : Option VolumeMount)
    → mount_error dc first all o ≡ none
    → (m : VolumeMount) × (o ≡ some m)
      × (m.mount_path ≢ "")
      × (m.name ≢ "")
      × (overlaps m first 0 all ≡ false)
unfolding mount_error
mount_error-Mounted dc first all none p = cc
mount_error-Mounted dc first all (some m) p =
    elim (Bool-cases (m.mount_path == "" || m.name == "")) [
      | inl empty ↦ absurd (both (rw empty at p))
      | inr full ↦
          let (path, name) = or_false (m.mount_path == "") (m.name == "") full in
          let q = rw full at p in
          (
            m,
            refl,
            str_ne m.mount_path "" path,
            str_ne m.name "" name,
            elim (Bool-cases (overlaps m first 0 all)) [
              | inl bad ↦ absurd (both (rw bad at q))
              | inr fine ↦ fine
            ],
          )
    ]

storage_error-mount :
    (dc : String) (all rest : List StorageRequirements) (first i : ℕ) (s : StorageRequirements)
    → storage_error dc first all rest ≡ none
    → get_elem? rest i ≡ some s
    → mount_error dc (first + i) all s.mount_settings ≡ none
unfolding storage_error
storage_error-mount dc all [] first i s p e = cc
storage_error-mount dc all (x ∷ rest) first zero s p e =
    elim (Option-cases (mount_error dc first all x.mount_settings)) [
      | inl fine ↦
          ap₂ (λ (n : ℕ) (y : StorageRequirements). mount_error dc n all y.mount_settings)
            (omega arith) (sym (some-injective x s e))
          ∙ fine
      | inr (msg, bad) ↦ absurd (both (rw (bad, storage_error) at p))
    ]
storage_error-mount dc all (x ∷ rest) first (suc i) s p e =
    elim (Option-cases (mount_error dc first all x.mount_settings)) [
      | inl fine ↦
          ap (λ n. mount_error dc n all s.mount_settings) (omega arith)
          ∙ storage_error-mount dc all rest (suc first) i s (rw (fine, storage_error) at p) e
      | inr (msg, bad) ↦ absurd (both (rw (bad, storage_error) at p))
    ]

storage-Mounted :
    (dc : String) (all : List StorageRequirements) (i : ℕ) (s : StorageRequirements)
    → storage_error dc 0 all all ≡ none
    → get_elem? all i ≡ some s
    → Mounted s
storage-Mounted dc all i s p e =
    let (m, q, path, name, _) =
      mount_error-Mounted dc (0 + i) all s.mount_settings
        (storage_error-mount dc all all 0 i s p e) in
    (m, q, path, name)

storage-Apart :
    (dc : String) (all : List StorageRequirements) (i j : ℕ) (s t : StorageRequirements)
    → storage_error dc 0 all all ≡ none
    → get_elem? all i ≡ some s
    → get_elem? all j ≡ some t
    → i ≢ j
    → Apart s t
unfolding clashes
storage-Apart dc all i j s t p e e' ne =
    let (m, q, _, _, apart) =
      mount_error-Mounted dc (0 + i) all s.mount_settings
        (storage_error-mount dc all all 0 i s p e) in
    let (n, q', _, _) = storage-Mounted dc all j t p e' in
    let clear = overlaps-clashes m (0 + i) all 0 j t apart e' (λ z. ne (omega (arith, z))) in
    let (path, name) =
      or_false (m.mount_path == n.mount_path) (m.name == n.name) (rw q' at clear) in
    (m, n, q, q', str_ne m.mount_path n.mount_path path, str_ne m.name n.name name)

first_storage_error-SoundStorage :
    (dc : DataCenter) (l : List StorageRequirements)
    → first_storage_error dc l ≡ done none
    → SoundStorage l
unfolding first_storage_error
first_storage_error-SoundStorage dc [] p = cc
first_storage_error-SoundStorage dc (first ∷ rest) p =
    elim (Bool-cases (is_data_mount first.mount_settings)) [
      | inl is_data ↦
          let clear = done-injective _ _ (rw is_data at p) in
          (
            (first, refl, is_data),
            each Mounted (first ∷ rest) (λ i s. storage-Mounted dc.name (first ∷ rest) i s clear),
            each_pair (first ∷ rest)
                (λ i j s t. storage-Apart dc.name (first ∷ rest) i j s t clear),
          )
      | inr other ↦ absurd (both (done-injective _ _ (rw other at p)))
    ]

dc_error-SoundCenter : (dc : DataCenter) → dc_error dc ≡ done none → SoundCenter dc
unfolding dc_error SoundCenter
dc_error-SoundCenter dc p = elim (Bool-cases (ltb (get_active_replicas_len dc) 1)) [
  | inl few ↦ absurd (both (done-injective _ _ (rw few at p)))
  | inr enough ↦
      let q = rw enough at p in
      elim (Bool-cases (ltb (seed_number dc) 1)) [
        | inl low ↦ absurd (both (done-injective _ _ (rw low at q)))
        | inr seeded ↦ (
          ltb_false→le _ _ enough,
          ltb_false→le _ _ seeded,
          first_storage_error-SoundStorage dc dc.storage (rw seeded at q),
        )
      ]
]

dcs_error-SoundCenter : (dcs : List DataCenter) → dcs_error dcs ≡ done none → All SoundCenter dcs
unfolding dcs_error
dcs_error-SoundCenter [] p = tt
dcs_error-SoundCenter (dc ∷ dcs) p = go (dc_error dc) refl p (dcs_error-SoundCenter dcs)
  where
    go :
        (o : Outcome (Option String))
        → dc_error dc ≡ o
        → ◌≡◌ {A = Outcome (Option String)}
            (elim o [
              | panic x ↦ panic x
              | done none ↦ dcs_error dcs
              | done (some e) ↦ done (some e)
            ])
            (done none)
        → (dcs_error dcs ≡ done none → All SoundCenter dcs)
        → All SoundCenter (dc ∷ dcs)
    go (panic x) q r rest = cc
    go (done (some e)) q r rest = absurd (both (done-injective _ _ r))
    go (done none) q r rest = (dc_error-SoundCenter dc q, rest r)

-- A resource that the validation accepts deploys at least one data center, and each one that it
-- deploys has an active replica, a seed, a first storage on the data directory, and storages whose
-- mounts are complete and pairwise different in the path and in the name.
pub validate-SoundCenter :
    (dcs : List DataCenter)
    → validate dcs ≡ done none
    → (1 ≤ length (deployed dcs)) × All SoundCenter (deployed dcs)
unfolding validate
validate-SoundCenter dcs p = elim (Bool-cases (ltb (length (deployed dcs)) 1)) [
  | inl low ↦ absurd (both (done-injective _ _ (rw low at p)))
  | inr some_dc ↦ (ltb_false→le _ _ some_dc, dcs_error-SoundCenter (deployed dcs) (rw some_dc at p))
]
