-- ===== src/Adapter/CreateDatabase/Reply.antt =====
-- impl/db_admin.go: what the reply of a finished `CreateDatabase` lists.
use mathlib.Core.List.{append_assoc, append-nil, map-append}
use qubership_cassandra_oper.Base.{
  String, false, Option, none, some, List, [], ◌∷◌, ◌++◌, ◌≡◌, sym, ap, ◌∙◌, ◌==◌, if◌then◌else◌,
  arith, map, not, ◌&&◌,
}
use qubership_cassandra_oper.Base.Go.Inversion.{bind-done, then-done, pure-done}
use qubership_cassandra_oper.Base.Go.{Outcome, done, panic, ok, ◌>>◌, panic_on}
use qubership_cassandra_oper.Adapter.Outside.{Outside, Event, get}
use qubership_cassandra_oper.Adapter.Session.{new_session_to_keyspace}
use qubership_cassandra_oper.Adapter.Service.{create_keyspace, create_table}
use qubership_cassandra_oper.Adapter.Admin.{
  DbAdministration, DbCreateRequest, DbResource, ConnectionProperties, role_to_permissions,
  get_keyspace_connection_properties, get_supported_roles, new_resource, db_resource_kind,
  user_resource_kind,
}
use qubership_cassandra_oper.Adapter.Names.{get_logical_db_name}
use qubership_cassandra_oper.Adapter.CreateDatabase.{
  Created, assert_text, create_database_body, create_database, create_role_users, create_users,
  role_credentials, add_role, marshal_metadata, write_metadata, write_replication,
  LogicalDatabaseDescribed,
}
use qubership_cassandra_oper.Adapter.CreateDatabase.Rollback.{concluded, create_database_outcomes}

-- the user of a connection, as a resource
abbrev pub user_of : ConnectionProperties → DbResource
user_of p = new_resource user_resource_kind p.username

-- the role that the reply shows for a supported role
abbrev pub shown_role : DbAdministration → String → Option String
shown_role c role = if not (role == "") && not (c.api_version == "v1") then some role else none

module _ (o : Outside) (c : DbAdministration) (r : DbCreateRequest) where
  create_role_users-reports :
      (name : String) (roles : List String) (props : List ConnectionProperties)
      (resources : List DbResource) (made : Created) (h h' : List Event)
      → create_role_users o c r name roles (props, resources) h ≡ (done made, h')
      → (map (λ p. p.role) made.0 ≡ map (λ p. p.role) props ++ map (shown_role c) roles)
        × (props' : List ConnectionProperties) × (made.0 ≡ props ++ props')
        × (made.1 ≡ resources ++ map user_of props')
  unfolding create_role_users get_keyspace_connection_properties ◌>>◌
  create_role_users-reports name [] props resources made h h' e =
      rw (← pure-done (props, resources) h made h' e)
        (sym (append-nil _), [], sym (append-nil _), sym (append-nil _))
  create_role_users-reports name (role ∷ roles) props resources made h h' e =
      let (credentials, h₁, _, e₁) = bind-done (role_credentials o c r role) _ h made h' e in
      let (_, h₂, _, e₂) =
        bind-done (add_role o c name credentials.0 credentials.1 (role_to_permissions c role)) _ h₁
          made h' e₁ in
      let ih = create_role_users-reports name roles _ _ made h₂ h' e₂ in
      let own = get_keyspace_connection_properties o c name credentials.0 credentials.1 role in
      let (roles_of, props', connections, users) = ih in
      (
        roles_of ∙ simp (map-append, append_assoc, get_keyspace_connection_properties),
        own ∷ props',
        connections ∙ append_assoc props (own ∷ []) props',
        users ∙ append_assoc resources (user_of own ∷ []) (map user_of props'),
      )

  -- the session's function ends with the creation of the users
  body-users :
      (name : String) (made : Created) (h h' : List Event)
      → create_database_body o c r name h ≡ (done made, h')
      → (h₁ : List Event) × (create_users o c r name
            ([], new_resource db_resource_kind name ∷ [])
            h₁
          ≡ (done made, h'))
  unfolding create_database_body
  body-users name made h h' e₀ =
      let (replication, h₁, _, e₁) =
        bind-done (assert_text (get r.settings "replication")) _ h made h' e₀ in
      let (err, h₂, _, e₂) = bind-done (create_keyspace o name replication) _ h₁ made h' e₁ in
      let (_, h₃, _, e₃) = then-done (panic_on err) _ h₂ made h' e₂ in
      let (err', h₄, _, e₄) = bind-done (create_table o name "metadata") _ h₃ made h' e₃ in
      let (_, h₅, _, e₅) = then-done (panic_on err') _ h₄ made h' e₄ in
      let (marshaled, h₆, _, e₆) = bind-done (marshal_metadata o c r) _ h₅ made h' e₅ in
      let (_, h₇, _, e₇) = then-done (write_metadata o c name marshaled) _ h₆ made h' e₆ in
      let (_, h₈, _, e₈) = then-done (write_replication o c r name) _ h₇ made h' e₇ in (h₈, e₈)

  concluded-ok :
      (name : String) (b : Outcome Created) (h h' : List Event) (d : LogicalDatabaseDescribed)
      → concluded o c r name (b, h) ≡ (done (ok (name, d)), h')
      → (b ≡ done (d.connection_properties, d.resources))
  concluded-ok name (done (props, resources)) h h' d e = ground arith
  concluded-ok name (panic p) h h' d e = ground arith

  module _ (other_version : (c.api_version == "v1") ≡ false) where
    create_users-roles :
        (name : String) (made : Created) (h : List Event)
        → create_users o c r name made h
          ≡ create_role_users o c r name (get_supported_roles c) made h
    unfolding create_users
    create_users-roles name (props, resources) h = rw other_version

    -- In every version but v1, a creation that goes through reports one connection for each
    -- supported role, in their order and with their roles, and as resources the keyspace and then
    -- the user of each of these connections, in the same order.
    pub created_database_reports :
        (name : String) (h h₁ h' : List Event) (d : LogicalDatabaseDescribed)
        → get_logical_db_name o r ≡ done (ok name)
        → new_session_to_keyspace o c.session_service "" none h ≡ (done tt, h₁)
        → create_database o c r h ≡ (done (ok (name, d)), h')
        → (map (λ p. p.role) d.connection_properties ≡ map (shown_role c) (get_supported_roles c))
          × (d.resources ≡ new_resource db_resource_kind name ∷ map user_of d.connection_properties)
    created_database_reports name h h₁ h' d valid opened e =
        let (b, h₂) = create_database_body o c r name h₁ in
        let finished =
          concluded-ok name b h₂ h' d
            (rw (create_database_outcomes o c r name h h₁ valid opened) at e) in
        let (h₃, users) =
          body-users name (d.connection_properties, d.resources) h₁ h₂ (λ i. (finished i, h₂)) in
        let (roles_of, props, connections, resources) =
          create_role_users-reports name (get_supported_roles c) []
            (new_resource db_resource_kind name ∷ []) (d.connection_properties, d.resources) h₃ h₂
            (sym (create_users-roles name _ h₃) ∙ users) in
        (
          roles_of,
          resources
              ∙ ap (λ ps. new_resource db_resource_kind name ∷ map user_of ps) (sym connections),
        )
