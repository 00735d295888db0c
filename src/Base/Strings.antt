-- ===== src/Base/Strings.antt =====
-- What the source uses of Go's `strings` and of membership in slices of texts.
use Prim.Native.Nat.{ℕ}
use Prim.Native.Char.{Char, code}
use Prim.Native.String.{String, ◌++◌ as ◌<>◌}
use mathlib.Core.Path.{◌≡◌, refl}
use mathlib.Core.Bool.{Bool, true, false, ◌&&◌, ◌||◌}
use mathlib.Core.List.{List, [], ◌∷◌}
use text.Mathlib.Text.{◌==◌}
use qubership_cassandra_oper.Base.Core.{leb, eqb, if◌then◌else◌}

-- `strings.Join`
unfoldable pub join : String → List String → String
join sep [] = ""
join sep (s ∷ []) = s
join sep (s ∷ t ∷ r) = s <> sep <> join sep (t ∷ r)

-- whether every character passes the test
unfoldable pub all_chars : (ℕ → Bool) → String → Bool
all_chars p String.[] = true
all_chars p (String.◌∷◌ c s) = p (code c) && all_chars p s

-- `strings.ReplaceAll` of a text of one character by a text of one character
unfoldable pub replace_char : ℕ → Char → String → String
replace_char old new String.[] = String.[]
replace_char old new (String.◌∷◌ c s) =
    let rest = replace_char old new s in
    if eqb (code c) old then String.◌∷◌ new rest else String.◌∷◌ c rest

-- `unicode.IsSpace`
unfoldable pub is_space : ℕ → Bool
is_space c =
    leb 9 c && leb c 13
    || eqb c 32
    || eqb c 0x85
    || eqb c 0xa0
    || eqb c 0x1680
    || leb 0x2000 c && leb c 0x200a
    || eqb c 0x2028
    || eqb c 0x2029
    || eqb c 0x202f
    || eqb c 0x205f
    || eqb c 0x3000

unfoldable pub trim_left : String → String
unfolding is_space
trim_left String.[] = String.[]
trim_left (String.◌∷◌ c s) =
    let rest = trim_left s in if is_space (code c) then rest else String.◌∷◌ c s

trim_char : Char → String → String
unfolding is_space
trim_char c String.[] = if is_space (code c) then String.[] else String.◌∷◌ c String.[]
trim_char c (String.◌∷◌ d s) = String.◌∷◌ c (String.◌∷◌ d s)

unfoldable pub trim_right : String → String
unfolding trim_char
trim_right String.[] = String.[]
trim_right (String.◌∷◌ c s) = trim_char c (trim_right s)

-- `strings.TrimSpace`
unfoldable pub trim_space : String → String
unfolding trim_left trim_right
trim_space s = trim_right (trim_left s)

-- whether a slice of texts holds the text
unfoldable pub contains : List String → String → Bool
contains [] s = false
contains (t ∷ r) s = t == s || contains r s

trim_space_test : trim_space " {'a': 1}\n" ≡ "{'a': 1}"
unfolding trim_space
trim_space_test = refl

join_test : join ", " ("a" ∷ "b" ∷ "c" ∷ []) ≡ "a, b, c"
unfolding join
join_test = refl

-- whether the text stands at the start of the other, and anywhere in it (`strings.Contains`)
has_prefix : String → String → Bool
has_prefix String.[] s = true
has_prefix (String.◌∷◌ c p) String.[] = false
has_prefix (String.◌∷◌ c p) (String.◌∷◌ d s) = eqb (code c) (code d) && has_prefix p s

unfoldable pub has_infix : String → String → Bool
unfolding has_prefix
has_infix p String.[] = has_prefix p String.[]
has_infix p (String.◌∷◌ c s) = has_prefix p (String.◌∷◌ c s) || has_infix p s

has_infix_test : has_infix "https" "see https://host" ≡ true
unfolding has_infix
has_infix_test = refl
