-- ===== src/Base/Go/Inversion.antt =====
-- A run of two actions that returns, taken apart.
use Prim.Native.String.{String}
use mathlib.Core.Path.{◌≡◌, refl, ap}
use mathlib.Core.List.{List}
use qubership_cassandra_oper.Base.Go.{Go, Outcome, done, panic, pure, resume, ◌>>=◌, ◌>>◌}

pub done-injective : {A : Type 0} (a b : A) → ◌≡◌ {A = Outcome A} (done a) (done b) → a ≡ b
done-injective a b e = cc

-- a run that panicked did not return
pub not_done :
    {E A : Type 0} {e : String} {a : A} {h h' : List E}
    → ◌≡◌ {A = Outcome A × List E} (panic e, h) (done a, h')
    → ⊥
not_done p = cc

module _ {E A B : Type 0} where
  lift-bind-done :
      (r : Outcome A) (f : A → Go E B) (h : List E) (b : B) (h' : List E)
      → resume r f h ≡ (done b, h')
      → (a : A) × (r ≡ done a) × (f a h ≡ (done b, h'))
  lift-bind-done (done a) f h b h' e = (a, refl, e)
  lift-bind-done (panic p) f h b h' e = cc

  -- `m` returned a value, and the rest went on from it
  pub bind-done :
      (m : Go E A) (f : A → Go E B) (h : List E) (b : B) (h' : List E)
      → (m >>= f) h ≡ (done b, h')
      → (a : A) × (h₁ : List E) × (m h ≡ (done a, h₁)) × (f a h₁ ≡ (done b, h'))
  unfolding ◌>>=◌
  bind-done m f h b h' e =
      let (r, h₁) = m h in
      let (a, returned, rest) = lift-bind-done r f h₁ b h' e in
      (a, h₁, (λ i. (returned i, h₁)), rest)

  pub then-done :
      (m : Go E A) (k : Go E B) (h : List E) (b : B) (h' : List E)
      → (m >> k) h ≡ (done b, h')
      → (a : A) × (h₁ : List E) × (m h ≡ (done a, h₁)) × (k h₁ ≡ (done b, h'))
  unfolding ◌>>◌
  then-done m k h b h' e = bind-done m (λ _. k) h b h' e

-- a value that is returned at once is the result
pub pure-done :
    {E A : Type 0} (a : A) (h : List E) (b : A) (h' : List E) → pure a h ≡ (done b, h') → a ≡ b
unfolding pure
pure-done a h b h' e = done-injective a b (ap (λ p. p.0) e)
