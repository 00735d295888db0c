-- ===== src/Operator/Smoke/Flag.antt =====
-- pkg/impl/utils/cassandra_metric.go: the result of a smoke test and the flag of the schema follow
-- what Cassandra answered.
use qubership_cassandra_oper.Base.{
  ℕ, String, true, false, Option, none, some, List, ◌∷◌, ◌≡◌, ◌∙◌, ◌⊎◌, inl, inr, refl, sym, ap,
  Bool-cases, Option-cases,
}
use qubership_cassandra_oper.Base.Go.{Outcome, done, panic, pure, ◌>>=◌, ◌>>◌, case_option}
use qubership_cassandra_oper.Base.Go.Inversion.{bind-done, done-injective, not_done}
use qubership_cassandra_oper.Operator.Smoke.{
  SmokeEvent, got_session, ran_statement, SmokeDriver, MetricCollector, prepare_schema,
  statement_after, run_statement, test_statement, perform_test,
}

-- the driver's answer to the statement after these events: on a session, or on what came with the
-- error of a session
abbrev pub Answered : SmokeDriver → String → List SmokeEvent → Option String → Type 0
Answered k stmt h failed =
    ((k.session h ≡ none) × (k.exec (got_session ∷ h) stmt ≡ failed))
    ⊎ ((e : String) × (k.session h ≡ some e) × (k.exec_failed (got_session ∷ h) stmt ≡ done failed))

-- the result and the collector that an answer asks for
abbrev pub result_of : MetricCollector → Option String → ℕ × MetricCollector
result_of m none = (1, record m { schema_created = true })
result_of m (some e) = (0, record m { schema_created = false })

-- there is a schema already, or it is made without an error
abbrev pub Prepared : SmokeDriver → MetricCollector → List SmokeEvent → List SmokeEvent → Type 0
Prepared k m h h₁ =
    ((m.schema_created ≡ true) × (h₁ ≡ h))
    ⊎ ((m.schema_created ≡ false) × (prepare_schema k m h ≡ (done none, h₁)))

abbrev pub Tested :
    SmokeDriver
    → MetricCollector
    → String
    → List SmokeEvent
    → ℕ × MetricCollector
    → List SmokeEvent
    → Type 0
Tested k m stmt h r h' =
    ((h₁ : List SmokeEvent) × (failed : Option String) × Prepared k m h h₁
      × Answered k stmt h₁ failed
      × (r ≡ result_of m failed)
      × (h' ≡ ran_statement stmt ∷ got_session ∷ h₁))
    ⊎ ((e : String) × (m.schema_created ≡ false)
        × (prepare_schema k m h ≡ (done (some e), h'))
        × (r ≡ (0, m)))

module _ (k : SmokeDriver) (m : MetricCollector) (stmt : String) where
  -- a run of the statement, with its answer
  abbrev Tried : List SmokeEvent → ℕ × MetricCollector → List SmokeEvent → Type 0
  Tried h r h' =
      (failed : Option String) × Answered k stmt h failed
      × (r ≡ result_of m failed)
      × (h' ≡ ran_statement stmt ∷ got_session ∷ h)

  -- what is left after the answer
  concluded :
      (failed : Option String) (h h' : List SmokeEvent) (r : ℕ × MetricCollector)
      → case_option failed
          (pure (1, record m { schema_created = true }))
          (λ e. pure (0, record m { schema_created = false }))
          h
        ≡ (done r, h')
      → (r ≡ result_of m failed) × (h' ≡ h)
  unfolding case_option pure
  concluded none h h' r e = (sym (done-injective _ r (ap (λ x. x.0) e)), sym (ap (λ x. x.1) e))
  concluded (some err) h h' r e =
      (sym (done-injective _ r (ap (λ x. x.0) e)), sym (ap (λ x. x.1) e))

  Outcome-cases :
      (x : Outcome (Option String))
      → ((e : String) × (x ≡ panic e)) ⊎ ((a : Option String) × (x ≡ done a))
  Outcome-cases (panic e) = inl (e, refl)
  Outcome-cases (done a) = inr (a, refl)

  test_statement-Tried :
      (h h' : List SmokeEvent) (r : ℕ × MetricCollector)
      → test_statement k m stmt h ≡ (done r, h')
      → Tried h r h'
  unfolding test_statement statement_after run_statement ◌>>◌
  test_statement-Tried h h' r e = elim (Option-cases (k.session h)) [
    | inl fine ↦
        let failed = k.exec (got_session ∷ h) stmt in
        let (result, ends) =
          concluded failed (ran_statement stmt ∷ got_session ∷ h) h' r (rw fine at e) in
        (failed, inl (fine, refl), result, ends)
    | inr (err, bad) ↦ elim (Outcome-cases (k.exec_failed (got_session ∷ h) stmt)) [
      | inl (p, panics) ↦ absurd (not_done (rw (bad, panics) at e))
      | inr (failed, answer) ↦
          let (result, ends) =
            concluded failed (ran_statement stmt ∷ got_session ∷ h) h' r (rw (bad, answer) at e) in
          (failed, inr (err, bad, answer), result, ends)
    ]
  ]

  -- after the schema, or its error
  prepared-Tested :
      (err : Option String) (h h₁ h' : List SmokeEvent) (r : ℕ × MetricCollector)
      → m.schema_created ≡ false
      → prepare_schema k m h ≡ (done err, h₁)
      → case_option err (test_statement k m stmt) (λ e. pure (0, m)) h₁ ≡ (done r, h')
      → Tested k m stmt h r h'
  unfolding case_option pure
  prepared-Tested none h h₁ h' r missing made e =
      let (failed, answer, result, ends) = test_statement-Tried h₁ h' r e in
      inl (h₁, failed, inr (missing, made), answer, result, ends)
  prepared-Tested (some err) h h₁ h' r missing made e = inr (
    err,
    missing,
    made ∙ ap (λ (l : List SmokeEvent). (done (some err), l)) (ap (λ x. x.1) e),
    sym (done-injective _ r (ap (λ x. x.0) e)),
  )

  perform_test-missing :
      (h : List SmokeEvent)
      → m.schema_created ≡ false
      → perform_test k m stmt h
        ≡ (prepare_schema k m >>= λ err.
              case_option err (test_statement k m stmt) (λ e. pure (0, m)))
            h
  unfolding perform_test
  perform_test-missing h missing = rw missing refl

  -- A smoke test that ends without a panic ran its statement last, on the schema that was there or
  -- that it made first, and then an answer without an error gives the result one and sets the flag
  -- of the schema, and one with an error gives zero and unsets it; or the flag was unset and the
  -- schema could not be made, and then the result is zero and the collector stays. Nothing else of
  -- the collector changes.
  pub perform_test-Tested :
      (h h' : List SmokeEvent) (r : ℕ × MetricCollector)
      → perform_test k m stmt h ≡ (done r, h')
      → Tested k m stmt h r h'
  unfolding perform_test
  perform_test-Tested h h' r e = elim (Bool-cases m.schema_created) [
    | inl created ↦
        let (failed, answer, result, ends) = test_statement-Tried h h' r (created_run created) in
        inl (h, failed, inl (created, refl), answer, result, ends)
    | inr missing ↦
        let (err, h₁, e₁, q₁) =
          bind-done (prepare_schema k m) _ h r h' (sym (perform_test-missing h missing) ∙ e) in
        prepared-Tested err h h₁ h' r missing e₁ q₁
  ]
    where
      created_run : m.schema_created ≡ true → test_statement k m stmt h ≡ (done r, h')
      created_run created = rw created at e
