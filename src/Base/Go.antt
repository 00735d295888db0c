-- ===== src/Base/Go.antt =====
-- Go code that talks to the outside and may panic: an action reads the events so far, newest
-- first, and gives an outcome and the events after it. What the outside answers is a function of
-- the events so far, so a server or a cluster of any behaviour is such a function.
pub mod Keeps
pub mod Inversion
pub mod Made
use Prim.Native.String.{String}
use mathlib.Core.Path.{◌≡◌, refl}
use mathlib.Core.Logic.{◌⊎◌, inl, inr}
use mathlib.Core.Option.{Option, none, some}
use mathlib.Core.List.{List, [], ◌∷◌}

pub data Outcome {ℓ} (A : Type ℓ) : Type ℓ where
  done : A → Outcome A
  panic : String → Outcome A

-- the pair `(T, error)` of a Go function, with the error's text
pub data Result {ℓ} (A : Type ℓ) : Type ℓ where
  ok : A → Result A
  fail : String → Result A

pub Result-cases :
    {A : Type 0} (r : Result A) → ((e : String) × (r ≡ fail e)) ⊎ ((a : A) × (r ≡ ok a))
Result-cases (fail e) = inl (e, refl)
Result-cases (ok a) = inr (a, refl)

abbrev pub Go : Type 0 → Type 0 → Type 0
Go E A = List E → Outcome A × List E

abbrev then_outcome : {A : Type 0} → Outcome (Unit {0}) → Outcome A → Outcome A
then_outcome (done _) o = o
then_outcome (panic p) o = panic p

module _ {E A : Type 0} where
  unfoldable pub pure : A → Go E A
  pure a h = (done a, h)

  unfoldable pub raise : String → Go E A
  raise p h = (panic p, h)

  unfoldable pub lift : Outcome A → Go E A
  lift o h = (o, h)

  -- the outcome as a value: what a deferred function with `recover` sees
  unfoldable pub try : Go E A → Go E (Outcome A)
  try m h = let (o, h') = m h in (done o, h')

  unfoldable pub gets : (List E → A) → Go E A
  gets f h = (done (f h), h)

  -- what the outside answers to `e`, and `e` among the events
  unfoldable pub ask : (List E → A) → E → Go E A
  ask answer e h = (done (answer h), e ∷ h)

  abbrev handle : Outcome A → (String → Go E A) → Go E A
  handle (done a) f h = (done a, h)
  handle (panic p) f h = f p h

  -- `defer func() { if r := recover(); r != nil { f(r) } }()` around `m`
  unfoldable pub recovering : Go E A → (String → Go E A) → Go E A
  recovering m f h = let (o, h') = m h in handle o f h'

  -- `defer d()` before `m`
  unfoldable pub deferring : Go E (Unit {0}) → Go E A → Go E A
  deferring d m h = let (o, h') = m h in let (o', h'') = d h' in (then_outcome o' o, h'')

module _ {E : Type 0} where
  unfoldable pub emit : E → Go E (Unit {0})
  emit e h = (done tt, e ∷ h)

  -- `if err != nil { panic(err) }`
  unfoldable pub panic_on : Option String → Go E (Unit {0})
  panic_on none h = (done tt, h)
  panic_on (some e) h = (panic e, h)

  -- The libraries' `PanicError(err, log, msg)`: nothing on a nil error, else a panic. Its value is
  -- the library's, here a function of the error and the message.
  unfoldable pub panic_error : (String → String → String) → Option String → String → Go E (Unit {0})
  panic_error value none msg h = (done tt, h)
  panic_error value (some e) msg h = (panic (value e msg), h)

module _ {E B C : Type 0} where
  -- `if err == nil`, and in general the two cases of what may be absent
  unfoldable pub case_option : Option C → Go E B → (C → Go E B) → Go E B
  case_option none m f = m
  case_option (some c) m f = f c

  -- the two cases of a value with its error
  unfoldable pub case_result : Result C → (String → Go E B) → (C → Go E B) → Go E B
  case_result (fail e) m f = m e
  case_result (ok c) m f = f c

  -- the two cases of a recovered call
  unfoldable pub case_outcome : Outcome C → (String → Go E B) → (C → Go E B) → Go E B
  case_outcome (panic e) m f = m e
  case_outcome (done c) m f = f c

module _ {E A B : Type 0} where
  abbrev pub resume : Outcome A → (A → Go E B) → Go E B
  resume (done a) f h = f a h
  resume (panic p) f h = (panic p, h)

  infixl 5 ◌>>=◌ ◌>>◌
  unfoldable pub ◌>>=◌ : Go E A → (A → Go E B) → Go E B
  ◌>>=◌ m f h = let (o, h') = m h in resume o f h'

  -- opening this opens the other actions too
  unfoldable pub ◌>>◌ : Go E A → Go E B → Go E B
  unfolding ◌>>=◌ pure raise lift try gets ask recovering deferring emit panic_on panic_error
      case_option case_result case_outcome
  m >> k = m >>= λ _. k
