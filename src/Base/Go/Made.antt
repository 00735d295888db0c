-- ===== src/Base/Go/Made.antt =====
-- What every run of an action does unless it panics: the event stands among those after it.
use Prim.Native.String.{String}
use mathlib.Core.Path.{◌≡◌, refl}
use mathlib.Core.Logic.{◌⊎◌, inl, inr}
use mathlib.Core.List.{List, [], ◌∷◌}
use qubership_cassandra_oper.Base.Go.{Go, Outcome, done, panic, ask, resume, ◌>>=◌}
use qubership_cassandra_oper.Base.Go.Keeps.{Keeps}

module _ {E : Type 0} where
  abbrev pub Has : E → List E → Type 0
  Has e [] = ⊥
  Has e (x ∷ h) = (e ≡ x) ⊎ Has e h

  pub record Made {A : Type 0} (e : E) (m : Go E A) : Type 0 where
    pub at : (h : List E) → ((p : String) × ((m h).0 ≡ panic p)) ⊎ Has e (m h).1

pub Made-ask : {E A : Type 0} (e : E) (answer : List E → A) → Made e (ask answer e)
unfolding ask
Made-ask e answer = record { at = λ h. inr (inl refl) }

module _ {E A B : Type 0} {e : E} where
  resume-Has :
      (o : Outcome A) (f : A → Go E B) (h : List E)
      → ((p : String) × (o ≡ panic p)) ⊎ Has e h
      → ((a : A) → Keeps (Has e) (f a))
      → ((p : String) × ((resume o f h).0 ≡ panic p)) ⊎ Has e (resume o f h).1
  resume-Has (panic p) f h made kept = inl (p, refl)
  resume-Has (done a) f h (inl (p, q)) kept = cc
  resume-Has (done a) f h (inr has) kept = inr ((kept a).at h has)

  resume-Made :
      (o : Outcome A) (f : A → Go E B) (h : List E)
      → ((a : A) → Made e (f a))
      → ((p : String) × ((resume o f h).0 ≡ panic p)) ⊎ Has e (resume o f h).1
  resume-Made (panic p) f h made = inl (p, refl)
  resume-Made (done a) f h made = (made a).at h

  pub Made-first :
      (m : Go E A) (f : A → Go E B) → Made e m → ((a : A) → Keeps (Has e) (f a)) → Made e (m >>= f)
  unfolding ◌>>=◌
  Made-first m f made kept = record { at = λ h. resume-Has (m h).0 f (m h).1 (made.at h) kept }

  pub Made-next : (m : Go E A) (f : A → Go E B) → ((a : A) → Made e (f a)) → Made e (m >>= f)
  unfolding ◌>>=◌
  Made-next m f made = record { at = λ h. resume-Made (m h).0 f (m h).1 made }
