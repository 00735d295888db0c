-- ===== src/Services/Created.antt =====
-- pkg/backup, pkg/dbaas, pkg/robotTests: what holds of each workload that the steps create.
pub mod Backup
pub mod Dbaas
pub mod Robot
pub mod Deployable
pub mod Served
pub mod Advertised
use qubership_cassandra_oper.Base.{String, Option, none, some, List, [], ◌∷◌, ◌≡◌, refl}
use qubership_cassandra_oper.Base.Go.{Go, ask, ◌>>=◌, ◌>>◌}
use qubership_cassandra_oper.Base.Go.Keeps.{Keeps, Keeps-bind, Keeps-panic_error, keeps_rules}
use qubership_cassandra_oper.Kube.{Workload}
use qubership_cassandra_oper.Services.Resource.{ServicesSpec}
use qubership_cassandra_oper.Services.Platform.{Action, created, Platform, deref, demand}
use qubership_cassandra_oper.Services.Labels.{BasicLabels, fill_workload, create_workload}

-- each workload that was created is in the predicate
abbrev pub AllCreated : (Workload → Type 0) → List Action → Type 0
AllCreated P [] = Unit
AllCreated P (created w ∷ h) = P w × AllCreated P h
AllCreated P (_ ∷ h) = AllCreated P h

module _ (P : Workload → Type 0) where
  -- an action that creates no workload
  abbrev pub Quiet : Action → Type 0
  Quiet a = (h : List Action) → AllCreated P h → AllCreated P (a ∷ h)

  pub Keeps-ask :
      {A : Type 0} (answer : List Action → A) (a : Action)
      → Quiet a
      → Keeps (AllCreated P) (ask answer a)
  unfolding ask
  Keeps-ask answer a quiet = record { at = λ h p. quiet h p }

  pub Keeps-deref : {A : Type 0} (o : Option A) → Keeps (AllCreated P) (deref o)
  unfolding deref
  Keeps-deref o = search keeps_rules

  -- what comes after a dereference knows what the pointer was
  pub Keeps-deref_bind :
      {A B : Type 0} (o : Option A) (f : A → Go Action B)
      → ((a : A) → o ≡ some a → Keeps (AllCreated P) (f a))
      → Keeps (AllCreated P) (deref o >>= f)
  unfolding deref ◌>>◌
  Keeps-deref_bind none f holds = record { at = λ h p. p }
  Keeps-deref_bind (some a) f holds = record { at = λ h p. (holds a refl).at h p }

  pub Keeps-demand :
      (k : Platform) (answer : List Action → Option String) (a : Action) (msg : String)
      → Quiet a
      → Keeps (AllCreated P) (demand k answer a msg)
  unfolding demand
  Keeps-demand k answer a msg quiet =
      Keeps-bind _ _ (Keeps-ask answer a quiet) (λ err. Keeps-panic_error k.panic_value err msg)

  pub Keeps-create_workload :
      (k : Platform) (spec : ServicesSpec) (w : Workload) (labels : BasicLabels)
      → P (fill_workload spec labels w)
      → Keeps (AllCreated P) (create_workload k spec w labels)
  unfolding create_workload ask
  Keeps-create_workload k spec w labels holds = record { at = λ h p. (holds, p) }
