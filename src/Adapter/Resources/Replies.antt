-- ===== src/Adapter/Resources/Replies.antt =====
-- impl/db_admin.go: what the handlers for resources, metadata and settings reply.
use qubership_cassandra_oper.Base.{
  String, true, Option, none, some, List, [], ◌∷◌, ◌++◌, ◌≡◌, ◌∙◌, ◌<>◌, Option-cases, inl, inr,
}
use mathlib.Core.List.{append_assoc, append-nil}
use qubership_cassandra_oper.Base.Go.{done, ok, ◌>>◌}
use qubership_cassandra_oper.Adapter.Outside.{
  Outside, Event, query, closed, Row, Fields, get, as_text,
}
use qubership_cassandra_oper.Adapter.Session.{
  new_session_to_keyspace, new_auto_close_session, new_auto_close_session_to_keyspace, exec, failed,
}
use qubership_cassandra_oper.Adapter.Service.{
  drop_statement, drop_resource, execute_statement, ensure_metadata_table,
}
use qubership_cassandra_oper.Adapter.Admin.{DbAdministration, DbResource, deleted, delete_failed}
use qubership_cassandra_oper.Adapter.Resources.{
  cassandra_entity, catch_drop_failing, drop_each, drop_resources, first_column, select_rows,
  metadata_of, get_metadata, processed, validate_db_identifier_param, update_settings_body,
  update_settings_handler,
}

module _ (o : Outside) where
  abbrev pub drop_of : DbResource → String
  drop_of r = drop_statement (cassandra_entity r.kind) r.name

  -- a resource with the outcome of its statement
  abbrev pub reported : DbResource → Option String → DbResource
  reported r none = record r { status = deleted }
  reported r (some e) = record r { status = delete_failed; error_message = e }

  -- one statement for each resource, and each resource with its own outcome
  pub drop_report : List DbResource → List Event → List DbResource × List Event
  drop_report [] h = ([], h)
  drop_report (r ∷ rest) h =
      let (reports, h') = drop_report rest (query (drop_of r) [] ∷ h) in
      (reported r (o.exec h (drop_of r) []) ∷ reports, h')

  catch_drop_failing-reported :
      (r : DbResource) (h : List Event)
      → catch_drop_failing o r h
        ≡ (done (reported r (o.exec h (drop_of r) [])), query (drop_of r) [] ∷ h)
  unfolding catch_drop_failing drop_resource execute_statement exec failed ◌>>◌
  catch_drop_failing-reported r h = elim (Option-cases (o.exec h (drop_of r) [])) [
    | inl fine ↦ rw fine
    | inr (e, bad) ↦ rw bad
  ]

  drop_each-report :
      (statuses rs : List DbResource) (h : List Event)
      → drop_each o statuses rs h ≡ (done (statuses ++ (drop_report rs h).0), (drop_report rs h).1)
  unfolding drop_each drop_report ◌>>◌
  drop_each-report statuses [] h = rw append-nil
  drop_each-report statuses (r ∷ rest) h = rw (catch_drop_failing-reported r h) (
      drop_each-report (statuses ++ reported r (o.exec h (drop_of r) []) ∷ []) rest _
      ∙ simp append_assoc)

  module _ (c : DbAdministration) (h h₁ : List Event)
      (opened : new_session_to_keyspace o c.session_service "" none h ≡ (done tt, h₁)) where
    -- Once the session is open, `DropResources` does not panic: it runs one statement for each
    -- resource in order, whatever failed before, and reports for each its own outcome.
    pub drop_resources-report :
        (rs : List DbResource)
        → drop_resources o c rs h ≡ (done (drop_report rs h₁).0, closed ∷ (drop_report rs h₁).1)
    unfolding drop_resources new_auto_close_session new_auto_close_session_to_keyspace ◌>>◌
    drop_resources-report rs = rw (opened, drop_each-report [] rs h₁)

    -- `GetMetadata` decodes the value of the first row that the table gives, whichever setting
    -- that row holds, and the rows after it are not looked at.
    pub get_metadata-first_row :
        (db : String) (row : Row) (rows : List Row)
        → o.rows h₁ ("SELECT value FROM " <> db <> ".metadata") ≡ row ∷ rows
        → (get_metadata o c db h).0 ≡ done (o.unmarshal (first_column row))
    unfolding get_metadata select_rows metadata_of new_auto_close_session
        new_auto_close_session_to_keyspace ◌>>◌
    get_metadata-first_row db row rows found = rw (opened, found)

    -- A settings update whose metadata table cannot be ensured writes no setting, and is answered
    -- as one that succeeded.
    pub failed_settings_update_is_processed :
        (db replication e : String) (settings : Fields)
        → validate_db_identifier_param db ≡ true
        → as_text (get settings "replication") ≡ some replication
        → (ensure_metadata_table o db h₁).0 ≡ done (some e)
        → update_settings_handler o c db (ok settings) h
          ≡ (done processed, closed ∷ (ensure_metadata_table o db h₁).1)
    unfolding update_settings_handler update_settings_body new_auto_close_session
        new_auto_close_session_to_keyspace ◌>>◌
    failed_settings_update_is_processed db replication e settings valid given bad =
        rw (valid, given, opened, bad)
