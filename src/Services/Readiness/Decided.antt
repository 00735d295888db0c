-- ===== src/Services/Readiness/Decided.antt =====
-- controllers/cassandraservices_controller.go: which condition decides.
use qubership_cassandra_oper.Base.{
  String, Bool, true, false, Option, none, some, List, [], ◌∷◌, ◌&&◌, ◌||◌, ◌==◌, ◌≡◌, ◌∙◌, refl,
  ap, if◌then◌else◌,
}
use qubership_cassandra_oper.Base.Go.{Result, ok, fail}
use qubership_cassandra_oper.Operator.Streams.{find_first}
use qubership_cassandra_oper.Services.Readiness.{
  Condition, PollRound, ready, pending, broken, poll_conditions, poll_round,
  wait_for_cassandra_operator_ready, requeued, handed_on, reconcile,
}

module _ (lower : String → String) where
  abbrev pub is_successful : Condition → Bool
  is_successful cond = lower cond.type == "successful"

  abbrev pub is_failed : Condition → Bool
  is_failed cond = lower cond.type == "failed"

  -- the condition says that the resource succeeded, or that it failed
  abbrev pub decides : Option Condition → Bool
  decides none = false
  decides (some cond) = elim cond.status [
    | none ↦ false
    | some s ↦ (is_successful cond || is_failed cond) && s
  ]

  -- what a deciding condition says, and that there is none
  abbrev pub verdict : Option (Option Condition) → PollRound
  verdict none = pending
  verdict (some none) = pending
  verdict (some (some cond)) =
      if is_successful cond then ready else broken true "Cassabdra CR failed"

  one_condition :
      (successful failed s : Bool) (rest other : PollRound)
      → rest ≡ other
      → (if successful && s
          then ready
          else if failed && s
          then broken true "Cassabdra CR failed"
          else rest)
        ≡ (if (successful || failed) && s
            then if successful then ready else broken true "Cassabdra CR failed"
            else other)
  one_condition true failed true rest other r = refl
  one_condition true true false rest other r = r
  one_condition true false false rest other r = r
  one_condition false true true rest other r = refl
  one_condition false true false rest other r = r
  one_condition false false true rest other r = r
  one_condition false false false rest other r = r

  verdict-if :
      (t : Bool) (cond : Condition) (other : Option (Option Condition))
      → (if t then verdict (some (some cond)) else verdict other)
        ≡ verdict (if t then some (some cond) else other)
  verdict-if true cond other = refl
  verdict-if false cond other = refl

  with_status :
      (kind : String) (status : Option Bool) (conds : List (Option Condition))
      → poll_conditions lower conds ≡ verdict (find_first decides conds)
      → poll_conditions lower (some (record { type = kind; status = status }) ∷ conds)
        ≡ verdict (find_first decides (some (record { type = kind; status = status }) ∷ conds))
  unfolding poll_conditions find_first
  with_status kind none conds r = r
  with_status kind (some s) conds r =
      one_condition (lower kind == "successful") (lower kind == "failed") s _ _ r
      ∙ verdict-if ((lower kind == "successful" || lower kind == "failed") && s)
          (record { type = kind; status = some s }) (find_first decides conds)

  poll_conditions-verdict :
      (conds : List (Option Condition))
      → poll_conditions lower conds ≡ verdict (find_first decides conds)
  unfolding poll_conditions find_first
  poll_conditions-verdict [] = refl
  poll_conditions-verdict (none ∷ conds) = poll_conditions-verdict conds
  poll_conditions-verdict (some cond ∷ conds) =
      with_status cond.type cond.status conds (poll_conditions-verdict conds)

  judged :
      {A : Type 0} (r : PollRound) (again : Option String) (common : A)
      → reconcile (elim r [ ready ↦ none | pending ↦ again | broken _ e ↦ some e ]) common
        ≡ elim r [
          | ready ↦ handed_on common
          | pending ↦ reconcile again common
          | broken _ e ↦ requeued 15
        ]
  unfolding reconcile
  judged ready again common = refl
  judged pending again common = refl
  judged (broken b e) again common = refl

  -- A resource that is found with its conditions at the first round of the poll is judged by the
  -- first condition that says true of success or failure, and by no other: of success, the
  -- reconciliation goes on to the common one; of failure, it is put off by 15 seconds, as it is if
  -- the resource is not found, has no conditions, or no round is left; where no condition decides,
  -- the later rounds decide.
  pub wait_for_cassandra_operator_ready-verdict :
      {A : Type 0} (common : A) (conds : List (Option Condition))
      (answers : List (Result (Option (List (Option Condition))))) (e : String)
      → let wait = wait_for_cassandra_operator_ready lower in
        (reconcile (wait (ok (some conds) ∷ answers)) common
          ≡ elim (verdict (find_first decides conds)) [
            | ready ↦ handed_on common
            | pending ↦ reconcile (wait answers) common
            | broken _ _ ↦ requeued 15
          ])
        × (reconcile (wait (fail e ∷ answers)) common ≡ requeued 15)
        × (reconcile (wait (ok none ∷ answers)) common ≡ requeued 15)
        × (reconcile (wait []) common ≡ requeued 15)
  unfolding wait_for_cassandra_operator_ready poll_round reconcile
  wait_for_cassandra_operator_ready-verdict common conds answers e =
      let again = wait_for_cassandra_operator_ready lower answers in
      (
        ap
              (λ (r : PollRound).
                reconcile (elim r [ ready ↦ none | pending ↦ again | broken _ x ↦ some x ]) common)
              (poll_conditions-verdict conds)
            ∙ judged (verdict (find_first decides conds)) again common,
        refl,
        refl,
        refl,
      )
