-- ===== src/Adapter/Users/Changes.antt =====
-- impl/db_admin.go: how `CreateUser` changes a role or creates one.
use qubership_cassandra_oper.Base.{
  String, true, false, none, some, List, [], ◌∷◌, ◌≡◌, refl, ap, ◌==◌, Option-cases, inl, inr, ◌⊎◌,
  Bool, Option, Bool-cases, ◌∙◌, sym, if◌then◌else◌,
}
use qubership_cassandra_oper.Base.Strings.{contains}
use qubership_cassandra_oper.Base.Go.{
  done, Outcome, Result, ok, fail, pure, raise, panic_on, ◌>>=◌, ◌>>◌,
}
use qubership_cassandra_oper.Base.Go.Inversion.{
  bind-done, then-done, pure-done, done-injective, not_done,
}
use qubership_cassandra_oper.Adapter.Outside.{Outside, Event, query}
use qubership_cassandra_oper.Adapter.Session.{exec, failed}
use qubership_cassandra_oper.Adapter.Service.{
  grant_permissions, get_roles_for_keyspace, create_role, create_role_statement, execute_statement,
}
use qubership_cassandra_oper.Adapter.Admin.{
  DbAdministration, UserCreateRequest, role_to_permissions,
}
use qubership_cassandra_oper.Adapter.Users.{
  value_or_panic, update_role, create_new_role, foreign_role_message, alter_role_statement,
}
use qubership_cassandra_oper.Adapter.Users.Guards.{granted, exec_event, grant_permissions-granted}

-- An existing role may be changed: the request names no keyspace, or the role is listed among
-- those with permissions on it.
abbrev pub Listed : Outside → String → UserCreateRequest → List Event → List Event → Type 0
Listed o user r h h₁ =
    (((r.db_name == "") ≡ true) × (h₁ ≡ h))
    ⊎ ((roles : List String) × (get_roles_for_keyspace o r.db_name h ≡ (done (ok roles), h₁))
        × (contains roles user ≡ true))

raised :
    {A : Type 0} {a : A} {h' : List Event} (p : String) (h : List Event)
    → raise {E = Event} {A = A} p h ≡ (done a, h')
    → ⊥
unfolding raise
raised p h q = not_done q

pub events_of :
    {A : Type 0} {a b : A} {h h' : List Event}
    → ◌≡◌ {A = Outcome A × List Event} (done a, h) (done b, h')
    → h' ≡ h
events_of p = cc

not_none : {e : String} → ◌≡◌ {A = Option String} (some e) none → ⊥
not_none p = cc

pub unchanged :
    {A : Type 0} {b : A} (a : A) (g g' h : List Event) → g' ≡ g → pure a g' ≡ (done b, h) → g ≡ h
unfolding pure
unchanged a g g' h same q = sym same ∙ sym (events_of q)

pub value_or_panic-done :
    (v : Result (List String)) (a : List String) (h h' : List Event)
    → value_or_panic v h ≡ (done a, h')
    → (v ≡ ok a) × (h' ≡ h)
unfolding value_or_panic ◌>>◌
value_or_panic-done (fail e) a h h' p = absurd (not_done p)
value_or_panic-done (ok b) a h h' p = (ap ok (done-injective b a (ap (λ x. x.0) p)), events_of p)

module _ (o : Outside) (c : DbAdministration) (user : String) (r : UserCreateRequest) where
  exec-done :
      (stmt : String) (h h' : List Event) (e : Option String)
      → exec o stmt [] true h ≡ (done e, h')
      → h' ≡ query stmt [] ∷ h
  unfolding exec failed ◌>>◌
  exec-done stmt h h' e p = elim (Option-cases (o.exec h stmt [])) [
    | inl fine ↦ events_of (rw fine at p)
    | inr (err, bad) ↦ absurd (not_done (rw bad at p))
  ]

  panic_on-done :
      (e : Option String) (h h' : List Event) (u : Unit {0})
      → panic_on e h ≡ (done u, h')
      → (e ≡ none) × (h' ≡ h)
  unfolding panic_on
  panic_on-done none h h' u p = (refl, events_of p)
  panic_on-done (some e) h h' u p = absurd (not_done p)

  -- the guard of a role's change
  allowed-Listed :
      (h h₁ : List Event)
      → (if r.db_name == "" then pure true else (do
        listed ← get_roles_for_keyspace o r.db_name
        roles ← value_or_panic listed
        pure (contains roles user)))
          h
        ≡ (done true, h₁)
      → Listed o user r h h₁
  allowed-Listed h h₁ p = elim (Bool-cases (r.db_name == "")) [
    | inl unnamed ↦ inl (unnamed, unfold pure in events_of (rw unnamed at p))
    | inr named ↦
        let (listed, g, e, q) = bind-done _ _ h true h₁ (rw named at p) in
        let (roles, g', e', q') = bind-done (value_or_panic listed) _ g true h₁ q in
        let (found, same) = value_or_panic-done listed roles g g' e' in
        inr (
          roles,
          e ∙ (λ i. (done (found i), unchanged (contains roles user) g g' h₁ same q' i)),
          pure-done (contains roles user) g' true h₁ q',
        )
  ]

  pub update_role-Listed :
      (h h' : List Event) (u : Unit {0})
      → update_role o c user r h ≡ (done u, h')
      → (h₁ : List Event) × Listed o user r h h₁
        × (h' ≡ query (alter_role_statement user r.password) [] ∷ h₁)
  unfolding update_role
  update_role-Listed h h' u p =
      let (allowed, h₁, e, q) = bind-done _ _ h u h' p in guarded allowed h₁ e q
    where
      guarded :
          (allowed : Bool) (h₁ : List Event)
          → (if r.db_name == "" then pure true else (do
            listed ← get_roles_for_keyspace o r.db_name
            roles ← value_or_panic listed
            pure (contains roles user)))
              h
            ≡ (done allowed, h₁)
          → ((if allowed
                  then pure tt
                  else raise (
                      o.panic_value
                        (foreign_role_message user r.db_name)
                        (foreign_role_message user r.db_name)))
                >> (exec o (alter_role_statement user r.password) [] true >> pure tt))
              h₁
            ≡ (done u, h')
          → (h₂ : List Event) × Listed o user r h h₂
            × (h' ≡ query (alter_role_statement user r.password) [] ∷ h₂)
      guarded true h₁ e q =
          let (v, h₂, e₂, q₂) = then-done (pure tt) _ h₁ u h' q in
          let (err, h₃, e₃, q₃) = then-done (exec o _ [] true) _ h₂ u h' q₂ in
          (
            h₁,
            allowed-Listed h h₁ e,
            sym (unchanged tt h₃ h₃ h' refl q₃)
                ∙ exec-done _ h₂ h₃ err e₃
                ∙ ap (λ (l : List Event). query (alter_role_statement user r.password) [] ∷ l)
                    (sym (unchanged tt h₁ h₁ h₂ refl e₂)),
          )
      guarded false h₁ e q =
          let (v, h₂, e₂, q₂) = then-done _ _ h₁ u h' q in absurd (raised _ h₁ e₂)

  pub create_new_role-granted :
      (h h' : List Event) (u : Unit {0})
      → create_new_role o c user r h ≡ (done u, h')
      → (o.exec h (create_role_statement user r.password) [] ≡ none)
        × (h'
            ≡ granted r.db_name user
                (role_to_permissions c r.role)
                (query (create_role_statement user r.password) [] ∷ h))
  unfolding create_new_role create_role execute_statement
  create_new_role-granted h h' u p =
      let (err, h₁, e₁, p₁) = bind-done _ _ h u h' p in
      let (v, h₂, e₂, p₂) = then-done (panic_on err) _ h₁ u h' p₁ in
      let (err', h₃, e₃, p₃) = bind-done _ _ h₂ u h' p₂ in
      let (none_left, same) = panic_on-done err h₁ h₂ v e₂ in
      let (all, same') = panic_on-done err' h₃ h' u p₃ in
      let ran = sym (exec_event o r.db_name user _ h) ∙ e₁ in
      let made : h₂ ≡ query (create_role_statement user r.password) [] ∷ h = same ∙ events_of ran in
      (
        done-injective _ _ (ap (λ x. x.0) ran) ∙ none_left,
        same'
            ∙ all_granted err' h₂ h₃ all e₃
            ∙ ap (granted r.db_name user (role_to_permissions c r.role)) made,
      )
    where
      all_granted :
          (err' : Option String) (h₂ h₃ : List Event)
          → err' ≡ none
          → grant_permissions o r.db_name user (role_to_permissions c r.role) h₂ ≡ (done err', h₃)
          → h₃ ≡ granted r.db_name user (role_to_permissions c r.role) h₂
      all_granted err' h₂ h₃ no_error e =
          elim (grant_permissions-granted o r.db_name user (role_to_permissions c r.role) h₂) [
            | inl fine ↦ events_of (sym fine ∙ e)
            | inr (before, after, q, err, split, bad, run) ↦
                absurd (
                  not_none
                    (done-injective (some err) err' (ap (λ x. x.0) (sym run ∙ e)) ∙ no_error))
          ]
