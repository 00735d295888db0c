-- ===== src/Operator/Streams.antt =====
-- pkg/impl/utils/stream.go: streams over a slice.
use qubership_cassandra_oper.Base.{
  ℕ, ◌+◌, Bool, true, false, Option, none, some, List, [], ◌∷◌, ◌++◌, if◌then◌else◌,
}
use qubership_cassandra_oper.Base.Lists.{length}

module _ {A : Type 0} where
  filter_from : (A → Bool) → List A → List A → List A
  filter_from f a [] = a
  filter_from f a (d ∷ ds) = filter_from f (if f d then a ++ d ∷ [] else a) ds

  unfoldable pub filter : (A → Bool) → List A → List A
  unfolding filter_from
  filter f ds = filter_from f [] ds

  unfoldable pub any_match : (A → Bool) → List A → Bool
  any_match f [] = false
  any_match f (el ∷ els) = let rest = any_match f els in if f el then true else rest

  -- the nil interface where no element fits
  unfoldable pub find_first : (A → Bool) → List A → Option A
  find_first f [] = none
  find_first f (el ∷ els) = let rest = find_first f els in if f el then some el else rest

  unfoldable pub count : List A → ℕ
  count ds = length ds

map_from : {A B : Type 0} → (A → B) → List B → List A → List B
map_from f a [] = a
map_from f a (d ∷ ds) = map_from f (a ++ f d ∷ []) ds

unfoldable pub map : {A B : Type 0} → (A → B) → List A → List B
unfolding map_from
map f ds = map_from f [] ds

sum_from : ℕ → List ℕ → ℕ
sum_from sum [] = sum
sum_from sum (d ∷ ds) = sum_from (sum + d) ds

unfoldable pub sum : List ℕ → ℕ
unfolding sum_from
sum ds = sum_from 0 ds
