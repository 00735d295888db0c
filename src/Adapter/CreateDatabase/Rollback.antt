-- ===== src/Adapter/CreateDatabase/Rollback.antt =====
-- impl/db_admin.go: what a failed `CreateDatabase` has dropped, and what a finished one reports.
use qubership_cassandra_oper.Base.{String, none, some, List, [], ◌∷◌, ◌≡◌, refl, ◌<>◌, arith}
use qubership_cassandra_oper.Base.Go.{
  Outcome, done, panic, Result, ok, ◌>>=◌, ◌>>◌, recovering, deferring, emit, pure, case_option,
}
use qubership_cassandra_oper.Adapter.Outside.{Outside, Event, closed, query, get, as_text}
use qubership_cassandra_oper.Adapter.Session.{
  new_session_to_keyspace, new_auto_close_session, new_auto_close_session_to_keyspace, exec, failed,
}
use qubership_cassandra_oper.Adapter.Service.{
  drop_statement, drop_resource, execute_statement, create_keyspace, create_keyspace_statement,
}
use qubership_cassandra_oper.Adapter.Admin.{DbAdministration, DbCreateRequest}
use qubership_cassandra_oper.Adapter.Names.{get_logical_db_name}
use qubership_cassandra_oper.Adapter.CreateDatabase.{
  Created, assert_text, create_database_body, and_error, rollback, create_database,
  LogicalDatabaseDescribed,
}

module _ (o : Outside) (c : DbAdministration) (r : DbCreateRequest) where
  -- a statement whose error is handed back is one event, and never panics
  drop_resource-event :
      (kind name : String) (h : List Event)
      → drop_resource o kind name h
        ≡ (done (o.exec h (drop_statement kind name) []), query (drop_statement kind name) [] ∷ h)
  unfolding drop_resource execute_statement exec ◌>>◌
  drop_resource-event kind name h = ground arith

  -- the events of a rollback
  abbrev pub rolled_back : String → List Event → List Event
  rolled_back name h =
      query (drop_statement "role" r.username) [] ∷ query (drop_statement "keyspace" name) [] ∷ h

  -- the message of the second panic
  abbrev pub rollback_message : String → String → List Event → String
  rollback_message name e h =
      let dropped = query (drop_statement "keyspace" name) [] ∷ h in
      and_error
        (and_error ("Recovered with " <> e <> "\n") "Rollback failed to drop keyspace with "
          (o.exec h (drop_statement "keyspace" name) []))
        "Rollback failed to drop role with " (o.exec dropped (drop_statement "role" r.username) [])

  rollback-panics :
      (name e : String) (h : List Event)
      → rollback o c r name e h ≡ (panic (rollback_message name e h), rolled_back name h)
  unfolding rollback ◌>>◌
  rollback-panics name e h = simp drop_resource-event

  -- the reply of a creation that went through
  abbrev pub described : String → Created → Result (String × LogicalDatabaseDescribed)
  described name (props, resources) =
      ok (name, record { connection_properties = props; resources = resources })

  -- what `CreateDatabase` makes of a run of its session's function
  abbrev pub concluded :
      String
      → Outcome Created × List Event
      → Outcome (Result (String × LogicalDatabaseDescribed)) × List Event
  concluded name (done made, h) = (done (described name made), closed ∷ h)
  concluded name (panic e, h) = (panic (rollback_message name e h), closed ∷ rolled_back name h)

  conclude :
      (name : String) (b : Outcome Created) (h : List Event)
      → (deferring (emit closed) (recovering (λ _. (b, h)) (rollback o c r name))
            >>= λ (props, resources).
                pure (ok (name, record { connection_properties = props; resources = resources })))
          h
        ≡ concluded name (b, h)
  unfolding ◌>>◌
  conclude name (done made) h = refl
  conclude name (panic e) h = rw rollback-panics

  -- Once the request is valid and the session is open, a run of the session's function that
  -- returns is reported and closes the session. One that panics is followed by the drop of the
  -- keyspace and of the requested role, by the close, and by a panic with the collected message.
  pub create_database_outcomes :
      (name : String) (h h₁ : List Event)
      → get_logical_db_name o r ≡ done (ok name)
      → new_session_to_keyspace o c.session_service "" none h ≡ (done tt, h₁)
      → create_database o c r h ≡ concluded name (create_database_body o c r name h₁)
  unfolding create_database new_auto_close_session new_auto_close_session_to_keyspace ◌>>◌
  create_database_outcomes name h h₁ valid opened =
      rw (valid, opened) (let (b, h₂) = create_database_body o c r name h₁ in conclude name b h₂)

  body-refused :
      (name replication e : String) (h : List Event)
      → as_text (get r.settings "replication") ≡ some replication
      → o.exec h (create_keyspace_statement name replication) [] ≡ some e
      → create_database_body o c r name h
        ≡ (panic e, query (create_keyspace_statement name replication) [] ∷ h)
  unfolding create_database_body create_keyspace execute_statement exec failed assert_text ◌>>◌
  body-refused name replication e h given refused =
      rw (given, case_option) (rw (refused, case_option))

  -- A refused `create KEYSPACE`, as for a keyspace that exists already, is followed by the drop of
  -- that keyspace.
  pub refused_keyspace_is_dropped :
      (name replication e : String) (h h₁ : List Event)
      → get_logical_db_name o r ≡ done (ok name)
      → new_session_to_keyspace o c.session_service "" none h ≡ (done tt, h₁)
      → as_text (get r.settings "replication") ≡ some replication
      → o.exec h₁ (create_keyspace_statement name replication) [] ≡ some e
      → (create_database o c r h).1
        ≡ closed ∷ rolled_back name (query (create_keyspace_statement name replication) [] ∷ h₁)
  refused_keyspace_is_dropped name replication e h h₁ valid opened given refused =
      rw (create_database_outcomes name h h₁ valid opened)
        (rw (body-refused name replication e h₁ given refused))
