-- ===== src/Adapter/Users/Authorized.antt =====
-- impl/db_admin.go: what `CreateUser` does to roles before it answers with a user.
use qubership_cassandra_oper.Base.{
  String, true, false, none, List, [], ◌∷◌, ◌≡◌, refl, ap, ◌==◌, inl, inr, ◌⊎◌, Bool-cases, ◌∙◌,
  sym, if◌then◌else◌,
}
use qubership_cassandra_oper.Base.Strings.{contains}
use qubership_cassandra_oper.Base.Go.{done, Result, ok, pure, Go, deferring, emit}
use qubership_cassandra_oper.Base.Go.Inversion.{bind-done, then-done, pure-done}
use qubership_cassandra_oper.Adapter.Outside.{Outside, Event, query, closed}
use qubership_cassandra_oper.Adapter.Session.{
  SessionService, new_session_to_keyspace, new_auto_close_session,
  new_auto_close_session_to_keyspace,
}
use qubership_cassandra_oper.Adapter.Service.{get_all_roles, create_role_statement}
use qubership_cassandra_oper.Adapter.Admin.{
  DbAdministration, UserCreateRequest, CreatedUser, generate_user_name, generate_uuid,
  role_to_permissions, new_resource, user_resource_kind, get_keyspace_connection_properties,
}
use qubership_cassandra_oper.Adapter.Names.{name_matches}
use qubership_cassandra_oper.Adapter.Users.{
  value_or_panic, create_user_body, create_user, alter_role_statement,
}
use qubership_cassandra_oper.Adapter.Users.Guards.{granted}
use qubership_cassandra_oper.Adapter.Users.Changes.{
  Listed, unchanged, value_or_panic-done, update_role-Listed, create_new_role-granted,
}

-- what a request for this user, role and password does to the roles, with the statements that it runs
abbrev pub Authorized :
    Outside → DbAdministration → String → UserCreateRequest → List Event → List Event → Type 0
Authorized o c user r h h' =
    (roles : List String) × (h₁ : List Event) × (get_all_roles o h ≡ (done (ok roles), h₁))
    × ((contains roles user ≡ false)
          × (o.exec h₁ (create_role_statement user r.password) [] ≡ none)
          × (h'
              ≡ granted r.db_name user (role_to_permissions c r.role)
                  (query (create_role_statement user r.password) [] ∷ h₁))
        ⊎ (contains roles user ≡ true)
          × (h₂ : List Event) × Listed o user r h₁ h₂
          × (h' ≡ query (alter_role_statement user r.password) [] ∷ h₂))

module _ (o : Outside) (c : DbAdministration) (user : String) (r : UserCreateRequest) where
  create_user_body-Authorized :
      (made : CreatedUser) (h h' : List Event)
      → create_user_body o c user r h ≡ (done made, h')
      → Authorized o c user r h h'
        × (made ≡ record {
          connection_properties =
              get_keyspace_connection_properties o c r.db_name user r.password r.role;
          resources = new_resource user_resource_kind user ∷ [];
          name = r.db_name;
        })
  unfolding create_user_body
  create_user_body-Authorized made h h' p =
      let (listed, g, e, q) = bind-done _ _ h made h' p in
      let (roles, g', e', q') = bind-done (value_or_panic listed) _ g made h' q in
      let (v, h₂, e₂, q₂) = then-done _ _ g' made h' q' in
      let (found, same) = value_or_panic-done listed roles g g' e' in
      let ends : h₂ ≡ h' = unchanged _ h₂ h₂ h' refl q₂ in
      (
        (
          roles,
          g',
          e ∙ (λ i. (done (found i), sym same i)),
          elim (Bool-cases (contains roles user)) [
            | inl there ↦
                let (h₁, listed_for, after) =
                  update_role-Listed o c user r g' h₂ v (rw there at e₂) in
                inr (there, h₁, listed_for, sym ends ∙ after)
            | inr new ↦
                let (created, after) = create_new_role-granted o c user r g' h₂ v (rw new at e₂) in
                inl (new, created, sym ends ∙ after)
          ],
        ),
        sym (pure-done _ h₂ made h' q₂),
      )

answered :
    (u made : CreatedUser) (g h' : List Event)
    → pure (Result.ok u) g ≡ (done (ok made), h')
    → u ≡ made
unfolding pure
answered u made g h' q = cc

refused :
    (e : String) (made : CreatedUser) (g h' : List Event)
    → pure (Result.fail e) g ≡ (done (ok made), h')
    → ⊥
unfolding pure
refused e made g h' q = cc

-- a session that was opened and closed around what returned
session_taken :
    {A : Type 0} (o : Outside) (s : SessionService) (m : Go Event A) (h h' : List Event) (a : A)
    → new_auto_close_session o s m h ≡ (done a, h')
    → (h₁ h₂ : List Event) × (new_session_to_keyspace o s "" none h ≡ (done tt, h₁))
      × (m h₁ ≡ (done a, h₂))
      × (h' ≡ closed ∷ h₂)
unfolding new_auto_close_session new_auto_close_session_to_keyspace deferring emit
session_taken o s m h h' a p =
    let (u, h₁, e, q) = then-done (new_session_to_keyspace o s "" none) _ h a h' p in
    (h₁, (m h₁).1, e, (λ i. (ap (λ x. x.0) q i, (m h₁).1)), sym (ap (λ x. x.1) q))

-- the user's name of a request: the given one, or a generated one
abbrev pub named_by : Outside → String → Go Event String
named_by o user = if user == "" then generate_user_name o else pure user

abbrev pub password_by : Outside → String → Go Event String
password_by o password = if password == "" then generate_uuid o else pure password

-- the request with its default role and its password
abbrev pub completed : UserCreateRequest → String → UserCreateRequest
completed r password = record r {
  role = if r.role == "" then "admin" else r.role;
  password = password;
}

-- what a request that is answered with a user did
abbrev pub CarriedOut :
    Outside
    → DbAdministration
    → String
    → UserCreateRequest
    → CreatedUser
    → List Event
    → List Event
    → Type 0
CarriedOut o c user r made h h' =
    (name : String) × (password : String) × (h₁ : List Event) × (h₂ : List Event) × (h₃ : List
      Event)
    × (h₄ : List Event) × (named_by o user h ≡ (done name, h₁))
    × (password_by o r.password h₁ ≡ (done password, h₂))
    × (name_matches name ≡ true)
    × (new_session_to_keyspace o c.session_service "" none h₂ ≡ (done tt, h₃))
    × Authorized o c name (completed r password) h₃ h₄
    × (h' ≡ closed ∷ h₄)
    × (made.resources ≡ new_resource user_resource_kind name ∷ [])
    × (made.name ≡ r.db_name)

-- A request for a user that is answered with a user has a valid name for it, given or generated,
-- and runs in a session that is closed at the end. A role that does not exist yet is created by one
-- statement, which was accepted, and then gets exactly the permissions that the requested role is
-- known for, none for an unknown one. A role that exists keeps its permissions and gets the
-- password, and where the request names a keyspace, it is listed among those with permissions on
-- it. No other statement that changes roles is run. The answer names the user and the keyspace.
pub create_user-Authorized :
    (o : Outside) (c : DbAdministration) (user : String) (r : UserCreateRequest)
    (made : CreatedUser) (h h' : List Event)
    → create_user o c user r h ≡ (done (ok made), h')
    → CarriedOut o c user r made h h'
unfolding create_user
create_user-Authorized o c user r made h h' p =
    let (name, h₁, e₁, p₁) = bind-done (named_by o user) _ h (ok made) h' p in
    let (password, h₂, e₂, p₂) = bind-done (password_by o r.password) _ h₁ (ok made) h' p₁ in
    elim (Bool-cases (name_matches name)) [
      | inl valid ↦
          let (u, g, q, q') = bind-done _ _ h₂ (ok made) h' (rw valid at p₂) in
          let same : u ≡ made = answered u made g h' q' in
          let (h₃, h₄, opened, body, ends) =
            session_taken o c.session_service (create_user_body o c name (completed r password)) h₂
              g u q in
          let (authorized, contents) =
            create_user_body-Authorized o c name (completed r password) u h₃ h₄ body in
          (
            name,
            password,
            h₁,
            h₂,
            h₃,
            h₄,
            e₁,
            e₂,
            valid,
            opened,
            authorized,
            sym (unchanged (ok u) g g h' refl q') ∙ ends,
            ap (λ (x : CreatedUser). x.resources) (sym same ∙ contents),
            ap (λ (x : CreatedUser). x.name) (sym same ∙ contents),
          )
      | inr invalid ↦ absurd (refused _ made h₂ h' (rw invalid at p₂))
    ]
