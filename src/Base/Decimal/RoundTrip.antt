-- ===== src/Base/Decimal/RoundTrip.antt =====
-- `strconv.Atoi` reads back what `fmt.Sprint` prints, so two numbers have two prints.
use Prim.Native.Nat.{ℕ, zero, suc, ◌+◌, ◌*◌, ◌/◌, ◌%◌, ◌<◌, ◌≤◌}
use Prim.Native.String.{String}
use mathlib.Core.Path.{◌≡◌, refl, ap, sym, ◌∙◌}
use mathlib.Core.Option.{some, some-injective}
use native.Mathlib.Omega.{arith}
use mathlib.Core.Logic.{inl, inr}
use Prim.Native.Char.{code}
use qubership_cassandra_oper.Base.Core.{ltb, Bool-cases, ltb→lt, ltb_false→le}
use qubership_cassandra_oper.Base.Decimal.{
  pos, digit, digits, show_ℕ, scan, in_range, atoi, max_int,
}

scan-digit : (d : ℕ) (s : String) (n : ℕ) → d < 10 → scan (digit d s) n ≡ scan s (n * 10 + d)
unfolding scan digit
scan-digit zero s n h = refl
scan-digit (suc zero) s n h = refl
scan-digit (suc (suc zero)) s n h = refl
scan-digit (suc (suc (suc zero))) s n h = refl
scan-digit (suc (suc (suc (suc zero)))) s n h = refl
scan-digit (suc (suc (suc (suc (suc zero))))) s n h = refl
scan-digit (suc (suc (suc (suc (suc (suc zero)))))) s n h = refl
scan-digit (suc (suc (suc (suc (suc (suc (suc zero))))))) s n h = refl
scan-digit (suc (suc (suc (suc (suc (suc (suc (suc zero)))))))) s n h = refl
scan-digit (suc (suc (suc (suc (suc (suc (suc (suc (suc zero))))))))) s n h = refl
scan-digit (suc (suc (suc (suc (suc (suc (suc (suc (suc (suc d)))))))))) s n h =
    absurd (omega arith)

-- with enough fuel, reading the digits of `n` and then `s` is reading `s` after `n`
scan-digits : (f n : ℕ) (s : String) → n < f → scan (digits f n s) 0 ≡ scan s n
unfolding digits
scan-digits zero n s h = elim h [ ]
scan-digits (suc f) n s h = elim (Bool-cases (ltb n 10)) [
  | inl small ↦ rw small (scan-digit n s 0 (ltb→lt n 10 small) ∙ ap (scan s) (omega arith))
  | inr big ↦ rw big (
      scan-digits f (n / 10) (digit (n % 10) s) (omega (arith, ltb_false→le n 10 big))
      ∙ scan-digit (n % 10) s (n / 10) (omega arith)
      ∙ ap (scan s) (omega arith))
]

abbrev StartsDigit : String → Type 0
StartsDigit String.[] = ⊥
StartsDigit (String.◌∷◌ c s) = 48 ≤ code c

digit-StartsDigit : (d : ℕ) (s : String) → StartsDigit (digit d s)
unfolding digit
digit-StartsDigit zero s = omega arith
digit-StartsDigit (suc zero) s = omega arith
digit-StartsDigit (suc (suc zero)) s = omega arith
digit-StartsDigit (suc (suc (suc zero))) s = omega arith
digit-StartsDigit (suc (suc (suc (suc zero)))) s = omega arith
digit-StartsDigit (suc (suc (suc (suc (suc zero))))) s = omega arith
digit-StartsDigit (suc (suc (suc (suc (suc (suc zero)))))) s = omega arith
digit-StartsDigit (suc (suc (suc (suc (suc (suc (suc zero))))))) s = omega arith
digit-StartsDigit (suc (suc (suc (suc (suc (suc (suc (suc zero)))))))) s = omega arith
digit-StartsDigit (suc (suc (suc (suc (suc (suc (suc (suc (suc zero))))))))) s = omega arith
digit-StartsDigit (suc (suc (suc (suc (suc (suc (suc (suc (suc (suc d)))))))))) s = omega arith

digits-StartsDigit : (f n : ℕ) (s : String) → StartsDigit s → StartsDigit (digits f n s)
unfolding digits
digits-StartsDigit zero n s h = h
digits-StartsDigit (suc f) n s h = elim (Bool-cases (ltb n 10)) [
  | inl small ↦ rw small (digit-StartsDigit n s)
  | inr big ↦
      rw big (digits-StartsDigit f (n / 10) (digit (n % 10) s) (digit-StartsDigit (n % 10) s))
]

show_ℕ-StartsDigit : (n : ℕ) → StartsDigit (show_ℕ n)
unfolding show_ℕ
show_ℕ-StartsDigit n = elim (Bool-cases (ltb n 10)) [
  | inl small ↦ rw small (digit-StartsDigit n "")
  | inr big ↦
      rw big (digits-StartsDigit n (n / 10) (digit (n % 10) "") (digit-StartsDigit (n % 10) ""))
]

atoi-scan : (s : String) → StartsDigit s → atoi s ≡ in_range (scan s 0)
unfolding atoi
atoi-scan String.[] h = elim h [ ]
atoi-scan (String.◌∷◌ c s) h = ground arith

scan-show_ℕ : (n : ℕ) → scan (show_ℕ n) 0 ≡ some n
unfolding show_ℕ scan
scan-show_ℕ n = scan-digits (suc n) n "" (omega arith)

in_range-show : (n : ℕ) → n ≤ max_int → in_range (scan (show_ℕ n) 0) ≡ some (pos n)
unfolding in_range
in_range-show n h = rw (scan-show_ℕ n) (ground arith)

-- Every `int` that is not negative is read back from its decimal print.
pub atoi-show_ℕ : (n : ℕ) → n ≤ max_int → atoi (show_ℕ n) ≡ some (pos n)
atoi-show_ℕ n h = atoi-scan (show_ℕ n) (show_ℕ-StartsDigit n) ∙ in_range-show n h

-- two numbers have two prints
pub show_ℕ-injective : (m n : ℕ) → show_ℕ m ≡ show_ℕ n → m ≡ n
show_ℕ-injective m n e =
    some-injective m n (sym (scan-show_ℕ m) ∙ ap (λ s. scan s 0) e ∙ scan-show_ℕ n)
