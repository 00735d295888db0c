-- ===== src/Base/Maps.antt =====
-- Go's `map[string]string`, as the list of its keys and values in the order of their iteration.
use Prim.Native.String.{String}
use mathlib.Core.Path.{◌≡◌, refl, sym, ap, ◌∙◌}
use mathlib.Core.Logic.{inl, inr}
use mathlib.Core.Bool.{false}
use mathlib.Core.Option.{Option, none, some}
use mathlib.Core.List.{List, [], ◌∷◌}
use native.Mathlib.Omega.{arith}
use text.Mathlib.Text.{◌==◌}
use text.Mathlib.TextEquality.{eq_iff}
use qubership_cassandra_oper.Base.Core.{if◌then◌else◌, Bool-cases}
use qubership_cassandra_oper.Base.Lists.{All}

abbrev pub StringMap : Type 0
StringMap = List (String × String)

unfoldable pub lookup : String → StringMap → Option String
lookup key [] = none
lookup key (entry ∷ rest) = if entry.0 == key then some entry.1 else lookup key rest

-- `m[k] = v`
unfoldable pub insert : String → String → StringMap → StringMap
insert key value [] = (key, value) ∷ []
insert key value (entry ∷ rest) =
    if entry.0 == key then (key, value) ∷ rest else entry ∷ insert key value rest

-- `for k, v := range new { m[k] = v }`
unfoldable pub insert_all : StringMap → StringMap → StringMap
insert_all [] m = m
insert_all ((k, v) ∷ new) m = insert_all new (insert k v m)

-- each label of the selector is among the labels with its value
abbrev pub Selects : StringMap → StringMap → Type 0
Selects selector labels = All (λ (l : String × String). lookup l.0 labels ≡ some l.1) selector

pub lookup-insert :
    (set read value : String) (rest : StringMap)
    → lookup read (insert set value rest) ≡ (if set == read then some value else lookup read rest)
unfolding lookup insert
lookup-insert set read value [] = refl
lookup-insert set read value (entry ∷ rest) = ground (
  arith,
  lookup-insert set read value rest,
  eq_iff entry.0 set,
  eq_iff entry.0 read,
  eq_iff set read,
)

-- a key that the loop does not write keeps its value
pub lookup-insert_all :
    (j : String) (new m : StringMap)
    → lookup j new ≡ none
    → lookup j (insert_all new m) ≡ lookup j m
unfolding insert_all lookup
lookup-insert_all j [] m absent = refl
lookup-insert_all j ((k, v) ∷ new) m absent =
    ground (arith, lookup-insert k j v m, lookup-insert_all j new (insert k v m))

-- no key stands twice, as in every map of Go
abbrev pub Distinct : StringMap → Type 0
Distinct [] = Unit
Distinct ((k, v) ∷ m) = (lookup k m ≡ none) × Distinct m

-- the first value, if there is one
abbrev pub or_else : Option String → Option String → Option String
or_else none o = o
or_else (some v) o = some v

-- the loop writes each of its keys, and no other
pub lookup-insert_all-Distinct :
    (j : String) (new m : StringMap)
    → Distinct new
    → lookup j (insert_all new m) ≡ or_else (lookup j new) (lookup j m)
unfolding insert_all lookup
lookup-insert_all-Distinct j [] m d = refl
lookup-insert_all-Distinct j ((k, v) ∷ new) m (fresh, d) =
    lookup-insert_all-Distinct j new (insert k v m) d ∙ elim (Bool-cases (k == j)) [
      | inl same ↦
          rw (same, lookup-insert k j v m, same)
            (rw (sym (ap (λ s. lookup s new) ((eq_iff k j).0 same)) ∙ fresh) refl)
      | inr other ↦ rw (other, lookup-insert k j v m, other) refl
    ]

pub Distinct-insert : (k v : String) (m : StringMap) → Distinct m → Distinct (insert k v m)
unfolding insert lookup
Distinct-insert k v [] d = (refl, tt)
Distinct-insert k v ((j, w) ∷ m) (fresh, d) = elim (Bool-cases (j == k)) [
  | inl same ↦ rw same (rw (ap (λ s. lookup s m) ((eq_iff j k).0 same)) at fresh, d)
  | inr other ↦
      let apart : (k == j) ≡ false = ground (arith, eq_iff j k, eq_iff k j) in
      rw other (rw (lookup-insert k j v m, apart) fresh, Distinct-insert k v m d)
]
