-- ===== src/Base/Decimal.antt =====
-- Go's decimal print of an `int` (`fmt.Sprint`, `%d`, `%v`) and `strconv.Atoi`.
pub mod RoundTrip
use Prim.Native.Nat.{ℕ, zero, suc, ◌+◌, ◌-◌, ◌*◌, ◌/◌, ◌%◌, ◌^◌, ◌<◌}
use Prim.Native.Char.{Char, code}
use Prim.Native.String.{String}
use mathlib.Core.Path.{◌≡◌, refl}
use mathlib.Core.Bool.{Bool, true, false, ◌||◌}
use mathlib.Core.Option.{Option, none, some}
use qubership_cassandra_oper.Base.Core.{ltb, leb, eqb, if◌then◌else◌}

-- `negsuc n` is -(n + 1)
pub data ℤ : Type 0 where
  pos : ℕ → ℤ
  negsuc : ℕ → ℤ

-- a - b, as an integer
abbrev pub sub_ℕ : ℕ → ℕ → ℤ
sub_ℕ a b = if leb b a then pos (a - b) else negsuc (b - a - 1)

infixl 65 ◌+ℤ◌
abbrev pub ◌+ℤ◌ : ℤ → ℤ → ℤ
pos a +ℤ pos b = pos (a + b)
pos a +ℤ negsuc b = sub_ℕ a (suc b)
negsuc a +ℤ pos b = sub_ℕ b (suc a)
negsuc a +ℤ negsuc b = negsuc (suc (a + b))

digit : ℕ → String → String
digit zero s = String.◌∷◌ "0" s
digit (suc zero) s = String.◌∷◌ "1" s
digit (suc (suc zero)) s = String.◌∷◌ "2" s
digit (suc (suc (suc zero))) s = String.◌∷◌ "3" s
digit (suc (suc (suc (suc zero)))) s = String.◌∷◌ "4" s
digit (suc (suc (suc (suc (suc zero))))) s = String.◌∷◌ "5" s
digit (suc (suc (suc (suc (suc (suc zero)))))) s = String.◌∷◌ "6" s
digit (suc (suc (suc (suc (suc (suc (suc zero))))))) s = String.◌∷◌ "7" s
digit (suc (suc (suc (suc (suc (suc (suc (suc zero)))))))) s = String.◌∷◌ "8" s
digit _ s = String.◌∷◌ "9" s

-- the digits of `n` before `s`; a round for each digit, so a fuel above `n` is enough
digits : ℕ → ℕ → String → String
unfolding digit
digits zero n s = s
digits (suc fuel) n s =
    let rest = digits fuel (n / 10) (digit (n % 10) s) in if ltb n 10 then digit n s else rest

unfoldable pub show_ℕ : ℕ → String
unfolding digits
show_ℕ n = digits (suc n) n ""

unfoldable pub show_ℤ : ℤ → String
unfolding show_ℕ
show_ℤ (pos n) = show_ℕ n
show_ℤ (negsuc n) = String.◌∷◌ "-" (show_ℕ (suc n))

scan : String → ℕ → Option ℕ
scan String.[] n = some n
scan (String.◌∷◌ c s) n =
    let d = code c - 48 in if ltb (code c) 48 || ltb 57 (code c) then none else scan s (n * 10 + d)

unsigned : String → Option ℕ
unfolding scan
unsigned String.[] = none
unsigned (String.◌∷◌ c s) = scan (String.◌∷◌ c s) 0

-- the range of a 64-bit `int`
abbrev pub max_int : ℕ
max_int = 2 ^ 63 - 1

in_range : Option ℕ → Option ℤ
in_range none = none
in_range (some n) = if ltb max_int n then none else some (pos n)

negated : Option ℕ → Option ℤ
negated none = none
negated (some zero) = some (pos 0)
negated (some (suc n)) = if ltb max_int n then none else some (negsuc n)

-- `strconv.Atoi`; `none` is its error, on bad syntax and out of range
unfoldable pub atoi : String → Option ℤ
unfolding unsigned in_range negated
atoi String.[] = none
atoi (String.◌∷◌ c s) =
    if eqb (code c) b'-'
    then negated (unsigned s)
    else if eqb (code c) b'+'
    then in_range (unsigned s)
    else in_range (unsigned (String.◌∷◌ c s))

show_test : show_ℕ 1203 ≡ "1203"
unfolding show_ℕ
show_test = refl

atoi_tests : (atoi "-12" ≡ some (negsuc 11)) × (atoi "+7" ≡ some (pos 7)) × (atoi "1x" ≡ none)
unfolding atoi
atoi_tests = (refl, refl, refl)
