-- ===== src/Operator/Smoke/Recovered.antt =====
-- pkg/impl/fiber/handlers.go, pkg/impl/utils/cassandra_metric.go: the smoke tests once Cassandra answers.
use mathlib.Core.Path.{subst}
use qubership_cassandra_oper.Base.{
  ℕ, String, Bool, true, false, Option, none, List, [], ◌∷◌, ◌++◌, ◌≡◌, refl, ap, if◌then◌else◌,
}
use qubership_cassandra_oper.Base.Go.{Go, done, pure, ask, ◌>>=◌, ◌>>◌, case_option}
use qubership_cassandra_oper.Operator.Smoke.{
  SmokeEvent, got_session, ran_statement, set_metric, SmokeDriver, MetricCollector, run_statement,
  create_keyspace, create_table, prepare_schema, statement_after, test_statement, perform_test,
  perform_insert_test, perform_select_test, perform_delete_test, report, metrics_round,
}

-- the values that were given to the metric, newest first
abbrev pub reported : List SmokeEvent → List (String × ℕ)
reported [] = []
reported (got_session ∷ h) = reported h
reported (ran_statement _ ∷ h) = reported h
reported (set_metric operation result ∷ h) = (operation, result) ∷ reported h

-- from these events on, each session opens and each statement is carried out
abbrev pub Answers : SmokeDriver → List SmokeEvent → Type 0
Answers k h =
    (g : List SmokeEvent)
    → (k.session (g ++ h) ≡ none) × ((stmt : String) → k.exec (g ++ h) stmt ≡ none)

append-once :
    (g : List SmokeEvent) (e : SmokeEvent) (h : List SmokeEvent) → (g ++ e ∷ []) ++ h ≡ g ++ (e ∷ h)
append-once [] e h = refl
append-once (x ∷ g) e h = ap (λ s. x ∷ s) (append-once g e h)

-- the action ends with the value, and with events of which `Q` holds
record Ends {A : Type 0} (m : Go SmokeEvent A) (x : A) (h : List SmokeEvent)
    (Q : List SmokeEvent → Type 0) : Type 0 where
  after : List SmokeEvent
  ran : m h ≡ (done x, after)
  holds : Q after

module _ {A : Type 0} {h : List SmokeEvent} {Q : List SmokeEvent → Type 0} where
  Ends-pure : {x : A} → Q h → Ends (pure x) x h Q
  unfolding pure
  Ends-pure q = record { after = h; ran = refl; holds = q }

  Ends-if :
      {x : A} (b : Bool) {m n : Go SmokeEvent A}
      → Ends m x h Q
      → Ends n x h Q
      → Ends (if b then m else n) x h Q
  Ends-if true p q = p
  Ends-if false p q = q

  Ends-bind :
      {B : Type 0} {m : Go SmokeEvent A} {x : A} {y : B} {R : List SmokeEvent → Type 0}
      (f : A → Go SmokeEvent B)
      → Ends m x h Q
      → ((h' : List SmokeEvent) → Q h' → Ends (f x) y h' R)
      → Ends (m >>= f) y h R
  unfolding ◌>>=◌
  Ends-bind f p rest =
      let next = rest p.after p.holds in
      record { after = next.after; ran = rw p.ran next.ran; holds = next.holds }

  Ends-then :
      {B : Type 0} {m : Go SmokeEvent A} {n : Go SmokeEvent B} {x : A} {y : B}
      {R : List SmokeEvent → Type 0}
      → Ends m x h Q
      → ((h' : List SmokeEvent) → Q h' → Ends n y h' R)
      → Ends (m >> n) y h R
  unfolding ◌>>◌
  Ends-then {n} p rest = Ends-bind (λ _. n) p rest

module _ (k : SmokeDriver) where
  -- Cassandra answers from now on, and these are the reported values
  abbrev Answered : List (String × ℕ) → List SmokeEvent → Type 0
  Answered values h = Answers k h × (reported h ≡ values)

  Answers-later : (e : SmokeEvent) (h : List SmokeEvent) → Answers k h → Answers k (e ∷ h)
  Answers-later e h p g =
      subst (λ s. (k.session s ≡ none) × ((stmt : String) → k.exec s stmt ≡ none))
        (append-once g e h) (p (g ++ e ∷ []))

  module _ {values : List (String × ℕ)} where
    got_session-Ends :
        (h : List SmokeEvent)
        → Answered values h
        → Ends (ask k.session got_session) none h (Answered values)
    unfolding ask
    got_session-Ends h (p, r) = record {
      after = got_session ∷ h;
      ran = ap (λ (o : Option String). (done o, got_session ∷ h)) (p []).0;
      holds = (Answers-later got_session h p, r);
    }

    run_statement-Ends :
        (stmt : String) (h : List SmokeEvent)
        → Answered values h
        → Ends (run_statement k stmt) none h (Answered values)
    unfolding run_statement ask
    run_statement-Ends stmt h (p, r) = record {
      after = ran_statement stmt ∷ h;
      ran = ap (λ (o : Option String). (done o, ran_statement stmt ∷ h)) ((p []).1 stmt);
      holds = (Answers-later (ran_statement stmt) h p, r);
    }

    report-Ends :
        (operation : String) (result : ℕ) (h : List SmokeEvent)
        → Answered values h
        → Ends (report k operation result) tt h (Answered ((operation, result) ∷ values))
    unfolding ask
    report-Ends operation result h (p, r) = record {
      after = set_metric operation result ∷ h;
      ran = refl;
      holds =
          (Answers-later (set_metric operation result) h p, ap (λ s. (operation, result) ∷ s) r);
    }

    prepare_schema-Ends :
        (m : MetricCollector) (h : List SmokeEvent)
        → Answered values h
        → Ends (prepare_schema k m) none h (Answered values)
    unfolding prepare_schema case_option
    prepare_schema-Ends m h q = Ends-bind _ (got_session-Ends h q) λ h₁ q₁.
        Ends-if m.external_cassandra (run_statement-Ends (create_table k m) h₁ q₁) (
          Ends-bind _ (run_statement-Ends (create_keyspace k m) h₁ q₁)
            (run_statement-Ends (create_table k m)))

    module _ (m : MetricCollector) (stmt : String) where
      test_statement-Ends :
          (h : List SmokeEvent)
          → Answered values h
          → Ends
              (test_statement k m stmt)
              (1, record m { schema_created = true })
              h
              (Answered values)
      unfolding test_statement statement_after case_option
      test_statement-Ends h q =
          Ends-bind _ (got_session-Ends h q)
            λ h₁ q₁. Ends-bind _ (run_statement-Ends stmt h₁ q₁) λ h₂ q₂. Ends-pure q₂

      perform_test-Ends :
          (h : List SmokeEvent)
          → Answered values h
          → Ends (perform_test k m stmt) (1, record m { schema_created = true }) h (Answered values)
      unfolding perform_test case_option
      perform_test-Ends h q =
          Ends-if m.schema_created (test_statement-Ends h q)
            (Ends-bind _ (prepare_schema-Ends m h q) test_statement-Ends)

  metrics_round-Ends :
      (m : MetricCollector) (values : List (String × ℕ)) (h : List SmokeEvent)
      → Answered values h
      → Ends
          (metrics_round k m)
          (record m { schema_created = true })
          h
          (Answered (("delete", 1) ∷ ("select", 1) ∷ ("insert", 1) ∷ values))
  unfolding metrics_round perform_insert_test perform_select_test perform_delete_test
  metrics_round-Ends m values h q =
      let m' : MetricCollector = record m { schema_created = true } in
      Ends-bind _ (perform_test-Ends m _ h q) λ h₁ q₁.
        Ends-then (report-Ends "insert" 1 h₁ q₁) λ h₂ q₂.
          Ends-bind _ (perform_test-Ends m' _ h₂ q₂) λ h₃ q₃.
            Ends-then (report-Ends "select" 1 h₃ q₃) λ h₄ q₄.
              Ends-bind _ (perform_test-Ends m' _ h₄ q₄)
                λ h₅ q₅. Ends-then (report-Ends "delete" 1 h₅ q₅) λ h₆ q₆. Ends-pure q₆

  -- Whatever failed before and whether or not the schema is there, if every session opens and
  -- every statement is carried out from now on, then the next round of the smoke tests ends, sets
  -- the metric of the insertion, of the selection and of the deletion to one, in this order, and
  -- leaves the collector as it was but for the flag of the schema, which is set.
  pub metrics_round-recovers :
      (m : MetricCollector) (h : List SmokeEvent)
      → Answers k h
      → (h' : List SmokeEvent) × (metrics_round k m h
          ≡ (done (record m { schema_created = true }), h'))
        × (reported h' ≡ ("delete", 1) ∷ ("select", 1) ∷ ("insert", 1) ∷ reported h)
  metrics_round-recovers m h p =
      let ends = metrics_round-Ends m (reported h) h (p, refl) in
      (ends.after, ends.ran, ends.holds.1)
