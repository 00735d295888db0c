-- ===== src/Adapter/Users/Guards.antt =====
-- impl/cassandra/cassandraService.go: `GrantPermissions` up to its first error.
use qubership_cassandra_oper.Base.{
  String, false, none, some, List, [], ◌∷◌, ◌++◌, ◌≡◌, refl, ap, Option-cases, inl, inr, ◌⊎◌,
}
use qubership_cassandra_oper.Base.Go.{done, ◌>>◌}
use qubership_cassandra_oper.Adapter.Outside.{Outside, Event, query}
use qubership_cassandra_oper.Adapter.Session.{exec, failed}
use qubership_cassandra_oper.Adapter.Service.{grant_permissions, grant_statement}

-- the events of granting the permissions in their order
abbrev pub granted : String → String → List String → List Event → List Event
granted db role [] h = h
granted db role (p ∷ ps) h = granted db role ps (query (grant_statement p db role) [] ∷ h)

module _ (o : Outside) (db role : String) where
  pub exec_event :
      (stmt : String) (h : List Event)
      → exec o stmt [] false h ≡ (done (o.exec h stmt []), query stmt [] ∷ h)
  unfolding exec failed ◌>>◌
  exec_event stmt h = elim (Option-cases (o.exec h stmt [])) [
    | inl fine ↦ rw fine
    | inr (e, bad) ↦ rw bad
  ]

  -- `GrantPermissions` runs a statement for each permission in order, up to the first that fails:
  -- without an error it has granted all, and with one it has run none after the failing one.
  pub grant_permissions-granted :
      (ps : List String) (h : List Event)
      → (grant_permissions o db role ps h ≡ (done none, granted db role ps h))
        ⊎ ((before after : List String) × (p e : String) × (ps ≡ before ++ p ∷ after)
            × (o.exec (granted db role before h) (grant_statement p db role) [] ≡ some e)
            × (grant_permissions o db role ps h
                ≡ (done (some e), granted db role (before ++ p ∷ []) h)))
  unfolding grant_permissions ◌>>◌
  grant_permissions-granted [] h = inl refl
  grant_permissions-granted (p ∷ ps) h =
      elim (Option-cases (o.exec h (grant_statement p db role) [])) [
        | inl fine ↦
            elim (grant_permissions-granted ps (query (grant_statement p db role) [] ∷ h)) [
              | inl all ↦ inl (rw (exec_event, fine) all)
              | inr (before, after, q, e, split, bad, run) ↦ inr (
                p ∷ before,
                after,
                q,
                e,
                ap (λ (l : List String). p ∷ l) split,
                bad,
                rw (exec_event, fine) run,
              )
            ]
        | inr (e, bad) ↦ inr ([], ps, p, e, refl, bad, rw (exec_event, bad))
      ]
