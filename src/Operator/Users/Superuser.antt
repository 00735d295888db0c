-- ===== src/Operator/Users/Superuser.antt =====
-- pkg/impl/cassandra/user_steps.go: when the super user is created.
use qubership_cassandra_oper.Base.{
  String, false, none, some, List, ◌∷◌, ◌≡◌, ◌≢◌, ◌⊎◌, refl, ◌==◌, inl, inr, Bool-cases,
  Option-cases, eq_iff,
}
use qubership_cassandra_oper.Base.Go.{done, ◌>>◌}
use qubership_cassandra_oper.Operator.Hosts.{cassandra}
use qubership_cassandra_oper.Operator.Cluster.{
  Event, connected, query, Cluster, exec_in_session, exec,
}
use qubership_cassandra_oper.Operator.Users.{
  create_superuser_statement, create_user_statement, create_user, check_login, superuser_condition,
  superuser_step,
}

-- the events of a refused login and of the default user's session with its statement
abbrev pub created_events : String → String → String → List Event → List Event
created_events user pass password h =
    query (create_superuser_statement user password)
    ∷ connected cassandra cassandra
    ∷ connected user pass
    ∷ h

other_user : (user : String) → user ≢ cassandra → (user == cassandra) ≡ false
other_user user ne = elim (Bool-cases (user == cassandra)) [
  | inl same ↦ absurd (ne ((eq_iff user cassandra).0 same))
  | inr other ↦ other
]

-- For a user other than `cassandra`, with a password in the context, the step leaves a cluster
-- alone that the user can log in to with that password. Where the login is refused, it creates the
-- user by one statement as the default user and gives that statement's error, or gives the error
-- of the default user's login.
pub superuser_step-login :
    (k : Cluster) (user pass password : String) (h : List Event)
    → user ≢ cassandra
    → ((k.connect h user pass ≡ none)
        × (superuser_step k user (some pass) password h ≡ (done none, connected user pass ∷ h)))
      ⊎ ((e : String) × (k.connect h user pass ≡ some e)
          × (k.connect (connected user pass ∷ h) cassandra cassandra ≡ none)
          × (superuser_step k user (some pass) password h ≡ (
            done (
                k.exec
                  (connected cassandra cassandra ∷ connected user pass ∷ h)
                  (create_superuser_statement user password)),
            created_events user pass password h,
          )))
      ⊎ ((e e' : String) × (k.connect h user pass ≡ some e)
          × (k.connect (connected user pass ∷ h) cassandra cassandra ≡ some e')
          × (superuser_step k user (some pass) password h
              ≡ (done (some e'), connected cassandra cassandra ∷ connected user pass ∷ h)))
unfolding superuser_step superuser_condition check_login create_user create_user_statement
    exec_in_session exec ◌>>◌
superuser_step-login k user pass password h ne = elim (Option-cases (k.connect h user pass)) [
  | inl fine ↦ inl (fine, rw fine refl)
  | inr (e, bad) ↦ elim (Option-cases (k.connect (connected user pass ∷ h) cassandra cassandra)) [
    | inl fine ↦ inr (
        inl (
          e,
          bad,
          fine,
          rw (bad, fine, other_user user ne)
              (elim (Option-cases (
                k.exec (connected cassandra cassandra ∷ connected user pass ∷ h)
                  (create_superuser_statement user password))) [
                    | inl written ↦ rw written refl
                    | inr (e', failed) ↦ rw failed refl
                  ]),
        ))
    | inr (e', refused) ↦ inr (inr (e, e', bad, refused, rw (bad, refused) refl))
  ]
]
