-- ===== src/Adapter/Names/Class.antt =====
-- impl/db_admin.go: which names the three regular expressions accept, and which name a request
-- with a prefix gets.
use Prim.Native.Char.{Char, code}
use qubership_cassandra_oper.Base.{
  ℕ, ◌≤◌, String, true, none, some, ◌≡◌, ◌≢◌, ◌⊎◌, ◌↔◌, refl, arith, ◌<>◌, eq_iff, eqb, Bool-cases,
  inl, inr,
}
use mathlib.Core.Path.{subst}
use qubership_cassandra_oper.Base.Strings.{replace_char}
use qubership_cassandra_oper.Base.Go.{done, ok, Result-cases}
use qubership_cassandra_oper.Adapter.Outside.{Outside, Fields, get, as_text, as_object}
use qubership_cassandra_oper.Adapter.Admin.{DbCreateRequest}
use qubership_cassandra_oper.Adapter.Names.{
  in_name_class, name_matches, checked_name, unprefixed_name, classified_name, get_logical_db_name,
}

-- a letter, a digit or the underscore
abbrev pub IsWordChar : ℕ → Type 0
IsWordChar c =
    ((b'a' ≤ c) × (c ≤ b'z')) ⊎ ((b'A' ≤ c) × (c ≤ b'Z')) ⊎ ((b'0' ≤ c) × (c ≤ b'9')) ⊎ (c ≡ b'_')

-- `[`, the backslash, `]`, `^` or the grave accent
abbrev pub IsBetweenCases : ℕ → Type 0
IsBetweenCases c = (c ≡ 91) ⊎ (c ≡ 92) ⊎ (c ≡ 93) ⊎ (c ≡ 94) ⊎ (c ≡ 96)

-- every character of the text
abbrev pub EveryChar : (ℕ → Type 0) → String → Type 0
EveryChar P String.[] = Unit
EveryChar P (String.◌∷◌ c s) = P (code c) × EveryChar P s

class_sound : (c : ℕ) → in_name_class c ≡ true → IsWordChar c ⊎ IsBetweenCases c
unfolding in_name_class
class_sound c h = ground arith

class_complete : (c : ℕ) → IsWordChar c ⊎ IsBetweenCases c → in_name_class c ≡ true
unfolding in_name_class
class_complete c h = ground arith

-- A name passes exactly when each of its characters is a letter, a digit, the underscore, or one
-- of the five characters between `Z` and `a` besides it, the backslash among them.
pub name_matches-EveryChar :
    (s : String) → (name_matches s ≡ true) ↔ EveryChar (λ c. IsWordChar c ⊎ IsBetweenCases c) s
unfolding name_matches
name_matches-EveryChar String.[] = (λ _. tt, λ _. refl)
name_matches-EveryChar (String.◌∷◌ c s) = (
  λ h. (class_sound (code c) (ground arith), (name_matches-EveryChar s).0 (ground arith)),
  λ (p, q). rw (class_complete (code c) p) ((name_matches-EveryChar s).1 q),
)

empty_matches : name_matches "" ≡ true
unfolding name_matches
empty_matches = refl

replace_char-gone :
    (old : ℕ) (new : Char) (s : String)
    → code new ≢ old
    → EveryChar (λ c. c ≢ old) (replace_char old new s)
unfolding replace_char
replace_char-gone old new String.[] h = tt
replace_char-gone old new (String.◌∷◌ c s) h = elim (Bool-cases (eqb (code c) old)) [
  | inl same ↦ rw same (h, replace_char-gone old new s h)
  | inr other ↦ rw other (ground arith, replace_char-gone old new s h)
]

module _ (o : Outside) (r : DbCreateRequest) where
  -- A request with a prefix is accepted exactly when the prefix, the database name and the user
  -- name match, and its name is then the prefix followed by the database name.
  pub prefixed_name_iff :
      (prefix name : String)
      → r.name_prefix ≡ some prefix
      → (get_logical_db_name o r ≡ done (ok name)) ↔ (
          (name_matches prefix ≡ true)
          × (name_matches r.db_name ≡ true)
          × (name_matches r.username ≡ true)
          × (name ≡ prefix <> r.db_name))
  unfolding get_logical_db_name checked_name
  prefixed_name_iff prefix name given = (
    λ e. ground (arith, eq_iff prefix "", empty_matches),
    λ e. ground (arith, eq_iff prefix "", empty_matches),
  )

  -- Where the metadata's classifier names a namespace and a microservice, the name has no dash,
  -- and the database name and the user name of the request are not looked at.
  pub classified_name_lem :
      (classifier : Fields) (namespace microservice name : String)
      → r.name_prefix ≡ none
      → as_object (get r.metadata "classifier") ≡ some classifier
      → as_text (get classifier "namespace") ≡ some namespace
      → as_text (get classifier "microserviceName") ≡ some microservice
      → get_logical_db_name o r ≡ done (ok name)
      → (shrinked : String) × (o.prepare_database_name namespace microservice 48 ≡ ok shrinked)
        × (name ≡ replace_char b'-' "_" shrinked)
        × EveryChar (λ c. c ≢ b'-') name
  unfolding get_logical_db_name unprefixed_name classified_name
  classified_name_lem classifier namespace microservice name p q s t e =
      elim (Result-cases (o.prepare_database_name namespace microservice 48)) [
        | inl (m, failed) ↦ absurd (ground arith)
        | inr (shrinked, prepared) ↦ (
          shrinked,
          prepared,
          ground arith,
          subst (EveryChar (λ c. c ≢ b'-')) (ground arith)
              (replace_char-gone b'-' "_" shrinked (omega arith)),
        )
      ]
