-- ===== src/Base/Go/Keeps.antt =====
-- Invariants of the events: `m` keeps `P`, whether it returns or panics.
use Prim.Native.String.{String}
use mathlib.Core.Bool.{Bool, true, false}
use mathlib.Core.Option.{Option, none, some}
use mathlib.Core.List.{List}
use qubership_cassandra_oper.Base.Core.{if◌then◌else◌}
use qubership_cassandra_oper.Base.Go.{
  Go, Outcome, done, panic, pure, raise, lift, gets, try, ◌>>=◌, ◌>>◌, recovering, panic_on,
  panic_error, case_option, case_result, case_outcome, Result, ok, fail,
}

pub record Keeps {E A : Type 0} (P : List E → Type 0) (m : Go E A) : Type 0 where
  pub at : (h : List E) → P h → P (m h).1

module _ {E A : Type 0} {P : List E → Type 0} where
  pub Keeps-pure : (a : A) → Keeps P (pure a)
  unfolding pure
  Keeps-pure a = record { at = λ h p. p }

  pub Keeps-raise : (e : String) → Keeps P (raise {A = A} e)
  unfolding raise
  Keeps-raise e = record { at = λ h p. p }

  pub Keeps-lift : (o : Outcome A) → Keeps P (lift o)
  unfolding lift
  Keeps-lift o = record { at = λ h p. p }

  pub Keeps-gets : (f : List E → A) → Keeps P (gets f)
  unfolding gets
  Keeps-gets f = record { at = λ h p. p }

  pub Keeps-try : (m : Go E A) → Keeps P m → Keeps P (try m)
  unfolding try
  Keeps-try m k = record { at = λ h p. k.at h p }

  pub Keeps-if : (b : Bool) (m n : Go E A) → Keeps P m → Keeps P n → Keeps P (if b then m else n)
  Keeps-if true m n km kn = km
  Keeps-if false m n km kn = kn

  handle-Keeps :
      (o : Outcome A) (f : String → Go E A)
      → ((e : String) → Keeps P (f e))
      → Keeps P (recovering (lift o) f)
  unfolding recovering lift
  handle-Keeps (done a) f k = record { at = λ h p. p }
  handle-Keeps (panic e) f k = k e

  pub Keeps-recovering :
      (m : Go E A) (f : String → Go E A)
      → Keeps P m
      → ((e : String) → Keeps P (f e))
      → Keeps P (recovering m f)
  unfolding recovering lift
  Keeps-recovering m f km kf = record {
    at = λ h p. let (o, h') = m h in (handle-Keeps o f kf).at h' (km.at h p);
  }

module _ {E A B : Type 0} {P : List E → Type 0} where
  resume-Keeps :
      (o : Outcome A) (f : A → Go E B) → ((a : A) → Keeps P (f a)) → Keeps P (lift o >>= f)
  unfolding ◌>>=◌ lift
  resume-Keeps (done a) f k = k a
  resume-Keeps (panic e) f k = record { at = λ h p. p }

  pub Keeps-bind :
      (m : Go E A) (f : A → Go E B) → Keeps P m → ((a : A) → Keeps P (f a)) → Keeps P (m >>= f)
  unfolding ◌>>=◌ lift
  Keeps-bind m f km kf = record {
    at = λ h p. let (o, h') = m h in (resume-Keeps o f kf).at h' (km.at h p);
  }

  pub Keeps-case_option :
      (x : Option A) (m : Go E B) (f : A → Go E B)
      → Keeps P m
      → ((a : A) → Keeps P (f a))
      → Keeps P (case_option x m f)
  unfolding case_option
  Keeps-case_option none m f km kf = km
  Keeps-case_option (some a) m f km kf = kf a

  pub Keeps-case_result :
      (x : Result A) (m : String → Go E B) (f : A → Go E B)
      → ((e : String) → Keeps P (m e))
      → ((a : A) → Keeps P (f a))
      → Keeps P (case_result x m f)
  unfolding case_result
  Keeps-case_result (fail e) m f km kf = km e
  Keeps-case_result (ok a) m f km kf = kf a

  pub Keeps-case_outcome :
      (x : Outcome A) (m : String → Go E B) (f : A → Go E B)
      → ((e : String) → Keeps P (m e))
      → ((a : A) → Keeps P (f a))
      → Keeps P (case_outcome x m f)
  unfolding case_outcome
  Keeps-case_outcome (panic e) m f km kf = km e
  Keeps-case_outcome (done a) m f km kf = kf a

  pub Keeps-then : (m : Go E A) (n : Go E B) → Keeps P m → Keeps P n → Keeps P (m >> n)
  unfolding ◌>>◌
  Keeps-then m n km kn = Keeps-bind m (λ _. n) km (λ _. kn)

module _ {E : Type 0} {P : List E → Type 0} where
  pub Keeps-panic_on : (e : Option String) → Keeps P (panic_on e)
  unfolding panic_on
  Keeps-panic_on none = record { at = λ h p. p }
  Keeps-panic_on (some e) = record { at = λ h p. p }

  pub Keeps-panic_error :
      (value : String → String → String) (e : Option String) (msg : String)
      → Keeps P (panic_error value e msg)
  unfolding panic_error
  Keeps-panic_error value none msg = record { at = λ h p. p }
  Keeps-panic_error value (some e) msg = record { at = λ h p. p }

pub ruleset keeps_rules = (
  Keeps-pure, Keeps-raise, Keeps-lift, Keeps-gets, Keeps-try, Keeps-if, Keeps-recovering,
  Keeps-bind, Keeps-then, Keeps-panic_on, Keeps-panic_error, Keeps-case_option, Keeps-case_result,
  Keeps-case_outcome,
)
