-- ===== src/Services/Readiness.antt =====
-- controllers/cassandraservices_controller.go: the wait for Cassandra, and the reconciliation.
pub mod Decided
use qubership_cassandra_oper.Base.{
  ℕ, String, Bool, true, false, not, Option, none, some, List, [], ◌∷◌, ◌++◌, ◌&&◌, ◌||◌, ◌==◌, ◌≡◌,
  ◌⊎◌, inl, inr, refl, Bool-cases, if◌then◌else◌,
}
use qubership_cassandra_oper.Base.Go.{Result, ok, fail}
use qubership_cassandra_oper.Operator.Streams.{find_first}

-- an entry of the status: its type, and its status where that is a truth value; `none` is an entry
-- that is no map
pub record Condition : Type 0 where
  pub type : String
  pub status : Option Bool

-- what a round of the poll says: done, not yet, or an error, at which the poll ends
pub data PollRound : Type 0 where
  ready pending : PollRound
  -- the error, and whether the round counts as done too
  broken : Bool → String → PollRound

module _ (lower : String → String) where
  -- the loop over the conditions
  unfoldable pub poll_conditions : List (Option Condition) → PollRound
  poll_conditions [] = pending
  poll_conditions (none ∷ conds) = poll_conditions conds
  poll_conditions (some cond ∷ conds) =
      let rest = poll_conditions conds in
      elim cond.status [
        | none ↦ rest
        | some s ↦
            if lower cond.type == "successful" && s
            then ready
            else if lower cond.type == "failed" && s
            then broken true "Cassabdra CR failed"
            else rest
      ]

  -- a round: the resource with its conditions, if it has them, or the error
  unfoldable pub poll_round : Result (Option (List (Option Condition))) → PollRound
  unfolding poll_conditions
  poll_round (fail e) = broken false e
  poll_round (ok none) = broken false "unable to find status.conditions in CassandraCluster"
  poll_round (ok (some conds)) = poll_conditions conds

  -- The poll of the wait package asks again while a round is pending, until its time is over. These
  -- are the rounds that fit into the time.
  unfoldable pub wait_for_cassandra_operator_ready :
      List (Result (Option (List (Option Condition)))) → Option String
  unfolding poll_round
  wait_for_cassandra_operator_ready [] = some "context deadline exceeded"
  wait_for_cassandra_operator_ready (answer ∷ answers) =
      let again = wait_for_cassandra_operator_ready answers in
      elim (poll_round answer) [ ready ↦ none | pending ↦ again | broken _ e ↦ some e ]

-- `ctrl.Result` of the reconciliation, or what the common reconciler does
pub data Reconciled {ℓ} (A : Type ℓ) : Type ℓ where
  -- in so many seconds
  requeued : ℕ → Reconciled A
  handed_on : A → Reconciled A

unfoldable pub reconcile : {A : Type 0} → Option String → A → Reconciled A
reconcile none common = handed_on common
reconcile (some e) common = requeued 15
