-- ===== src/Adapter/Users/Answers.antt =====
-- impl/db_admin.go: which requests `CreateRoles` answers.
use mathlib.Core.List.{append_assoc, append-nil}
use qubership_cassandra_oper.Base.{
  String, Option, none, some, List, [], ◌∷◌, ◌++◌, ◌≡◌, ◌⊎◌, inl, inr, Option-cases, refl, sym, ap,
  ◌∙◌, map,
}
use qubership_cassandra_oper.Base.Go.Inversion.{bind-done, pure-done}
use qubership_cassandra_oper.Base.Go.{Outcome, done, panic, ◌>>◌, lift, case_outcome, pure}
use qubership_cassandra_oper.Adapter.Outside.{Outside, Event}
use qubership_cassandra_oper.Adapter.Admin.{DbAdministration, get_supported_roles}
use qubership_cassandra_oper.Adapter.Users.{
  AdditionalRole, Success, Failure, Roles, existing_roles, create_missing, create_additional,
  recovered, add_success, create_roles_from, create_roles,
}

abbrev pub ids : List AdditionalRole → List String
ids = map (λ a. a.id)

abbrev pub success_ids : List Success → List String
success_ids = map (λ s. s.id)

module _ (o : Outside) (c : DbAdministration) where
  -- an entry of `success` carries the id of its request
  create_additional-id :
      (a : AdditionalRole) (h h' : List Event) (entry : Success × Option Failure)
      → create_additional o c a h ≡ (done entry, h')
      → entry.0.id ≡ a.id
  unfolding create_additional
  create_additional-id a h h' entry e =
      let (existing, h₁, _, e₁) =
        bind-done (lift (existing_roles a.connection_properties)) _ h entry h' e in
      let (made, h₂, _, e₂) =
        bind-done (create_missing o c a.db_name existing (get_supported_roles c) [] []) _ h₁ entry
          h' e₁ in
      ap (λ (p : Success × Option Failure). p.0.id) (sym (pure-done _ h₂ entry h' e₂))

  -- a run from the results `s`: the entries that it adds, and the requests that it leaves
  abbrev Report : Roles → List AdditionalRole → Outcome Roles × List Event → Type 0
  Report s roles (done t, h) =
      (more : List Success) × (rest : List String) × (t.success ≡ s.success ++ more)
      × (ids roles ≡ success_ids more ++ rest)
      × (t.failure ≡ none → (s.failure ≡ none) × (rest ≡ []))
  Report s roles (panic p, h) = ⊥

  absent : (f : Failure) → ◌≡◌ {A = Option Failure} (some f) none → ⊥
  absent f e = cc

  -- one more entry in front
  extend :
      (s : Roles) (a : AdditionalRole) (rest : List AdditionalRole) (entry : Success)
      (f : Option Failure) (run : Outcome Roles × List Event)
      → entry.id ≡ a.id
      → Report (add_success s (entry, f)) rest run
      → Report s (a ∷ rest) run
  extend s a rest entry none (done t, h) same (more, left, e, covered, complete) =
      (entry ∷ more, left, e ∙ append_assoc s.success (entry ∷ []) more, cc, complete)
  extend s a rest entry (some f) (done t, h) same (more, left, e, covered, complete) = (
    entry ∷ more,
    left,
    e ∙ append_assoc s.success (entry ∷ []) more,
    cc,
    λ none_set. absurd (absent f (complete none_set).0),
  )
  extend s a rest entry f (panic p, h) same r = elim r [ ]

  round-Report :
      (s : Roles) (a : AdditionalRole) (rest : List AdditionalRole)
      (out : Outcome (Success × Option Failure)) (h : List Event)
      → ((entry : Success × Option Failure) → out ≡ done entry → entry.0.id ≡ a.id)
      → ((t : Roles) → Report t rest (create_roles_from o c t rest h))
      → Report s (a ∷ rest) (
          case_outcome out
            (λ e. pure (recovered s a.id e))
            (λ entry. create_roles_from o c (add_success s entry) rest)
            h)
  unfolding ◌>>◌
  round-Report s a rest (panic e) h same ih =
      ([], ids (a ∷ rest), sym (append-nil _), refl, λ none_set. cc)
  round-Report s a rest (done (entry, f)) h same ih =
      extend s a rest entry f _ (same (entry, f) refl) (ih (add_success s (entry, f)))

  create_roles_from-Report :
      (s : Roles) (roles : List AdditionalRole) (h : List Event)
      → Report s roles (create_roles_from o c s roles h)
  unfolding create_roles_from ◌>>◌
  create_roles_from-Report s [] h = ([], [], sym (append-nil _), refl, λ none_set. (none_set, refl))
  create_roles_from-Report s (a ∷ rest) h =
      let (out, h₁) = create_additional o c a h in
      round-Report s a rest out h₁ (λ entry e. create_additional-id a h h₁ entry (λ i. (e i, h₁)))
        (λ t. create_roles_from-Report t rest h₁)

  abbrev no_roles : Roles
  no_roles = record { success = []; failure = none }

  unpacked :
      (roles : List AdditionalRole) (run : Outcome Roles × List Event)
      → Report no_roles roles run
      → (t : Roles) × (h' : List Event) × (rest : List String) × (run ≡ (done t, h'))
        × (ids roles ≡ success_ids t.success ++ rest)
        × (t.failure ≡ none → rest ≡ [])
  unpacked roles (done t, h) (more, rest, e, covered, complete) = (
    t,
    h,
    rest,
    refl,
    covered ∙ ap (λ (m : List Success). success_ids m ++ rest) (sym e),
    λ none_set. (complete none_set).1,
  )
  unpacked roles (panic p, h) r = elim r [ ]

  -- `CreateRoles` never panics. Its successes carry the ids of the requests from the first on, in
  -- their order, and they cover all of the requests or a failure is set.
  pub create_roles-answers :
      (roles : List AdditionalRole) (h : List Event)
      → (t : Roles) × (h' : List Event) × (rest : List String) × (create_roles o c roles h
          ≡ (done t, h'))
        × (ids roles ≡ success_ids t.success ++ rest)
        × ((rest ≡ []) ⊎ ((f : Failure) × (t.failure ≡ some f)))
  unfolding create_roles
  create_roles-answers roles h =
      let (t, h', rest, run, split, covered) =
        unpacked roles _ (create_roles_from-Report no_roles roles h) in
      (
        t,
        h',
        rest,
        run,
        split,
        elim (Option-cases t.failure) [ inl clean ↦ inl (covered clean) | inr set ↦ inr set ],
      )
