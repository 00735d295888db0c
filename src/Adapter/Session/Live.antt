-- ===== src/Adapter/Session/Live.antt =====
-- How many sessions are open, and that no operation of the adapter leaves one open.
use qubership_cassandra_oper.Base.{
  ℕ, zero, suc, ◌+◌, ◌-◌, ◌*◌, String, Bool, true, false, Option, none, some, List, [], ◌∷◌, ◌≡◌,
  arith, inl, inr, Option-cases,
}
use qubership_cassandra_oper.Base.Go.{
  Go, Outcome, done, panic, lift, emit, ask, ◌>>=◌, ◌>>◌, deferring, panic_error,
}
use qubership_cassandra_oper.Base.Go.Keeps.{Keeps, keeps_rules}
use qubership_cassandra_oper.Adapter.Outside.{
  Outside, Event, connected, refused, slept, closed, query, uuid_drawn,
}
use qubership_cassandra_oper.Adapter.Session.{
  SessionService, create_session, new_session, new_session_to_keyspace,
  new_auto_close_session_to_keyspace, new_auto_close_session, exec, failed,
}

-- the sessions opened and not yet closed
abbrev pub live : List Event → ℕ
live [] = 0
live (connected k c t ∷ h) = suc (live h)
live (closed ∷ h) = live h - 1
live (refused k c t ∷ h) = live h
live (slept n ∷ h) = live h
live (query s v ∷ h) = live h
live (uuid_drawn ∷ h) = live h

-- with `n` sessions open
abbrev pub LiveIs : ℕ → List Event → Type 0
LiveIs n h = live h ≡ n

-- the action ends with as many sessions open as it began with, whatever its outcome
abbrev pub LeavesNone : {A : Type 0} → Go Event A → Type 0
LeavesNone m = (n : ℕ) → Keeps (LiveIs n) m

-- what a run of `NewSession` leaves: one more session, or an error and none more
abbrev Opened : ℕ → Outcome (Option String) × List Event → Type 0
Opened n (done none, h) = live h ≡ suc n
Opened n (done (some e), h) = live h ≡ n
Opened n (panic p, h) = ⊥

module _ (o : Outside) where
  new_session-Opened :
      (left try : ℕ) (k : String) (con timeout : ℕ) (err : Option String) (n : ℕ) (h : List Event)
      → live h ≡ n
      → Opened n (new_session o (suc left) try k con timeout err h)
  unfolding new_session ◌>>◌
  new_session-Opened zero try k con timeout err n h l =
      elim (Option-cases (o.create_session h k con (timeout * (try + 1)))) [
        | inl granted ↦ rw (granted, create_session) (omega arith)
        | inr (e, denied) ↦ rw (denied, create_session) l
      ]
  new_session-Opened (suc left) try k con timeout err n h l =
      elim (Option-cases (o.create_session h k con (timeout * (try + 1)))) [
        | inl granted ↦ rw (granted, create_session) (omega arith)
        | inr (e, denied) ↦
            rw (denied, create_session)
              (new_session-Opened left (suc try) k con (timeout * (try + 1)) (some e) n _ l)
      ]

  -- one session more, or a panic and none more
  abbrev SessionOr : ℕ → Outcome (Unit {0}) × List Event → Type 0
  SessionOr n (done _, h) = live h ≡ suc n
  SessionOr n (panic p, h) = live h ≡ n

  Opened-SessionOr :
      (n : ℕ) (msg : String) (r : Outcome (Option String)) (h : List Event)
      → Opened n (r, h)
      → SessionOr n ((lift r >>= λ err. panic_error o.panic_value err msg) h)
  unfolding ◌>>◌
  Opened-SessionOr n msg (done none) h p = p
  Opened-SessionOr n msg (done (some e)) h p = p
  Opened-SessionOr n msg (panic e) h p = elim p [ ]

  new_session_to_keyspace-SessionOr :
      (r : SessionService) (keyspace : String) (consistency : Option ℕ) (n : ℕ) (h : List Event)
      → live h ≡ n
      → SessionOr n (new_session_to_keyspace o r keyspace consistency h)
  unfolding new_session_to_keyspace ◌>>◌
  new_session_to_keyspace-SessionOr r keyspace consistency n h l =
      Opened-SessionOr n _ _ _ (new_session-Opened 2 0 _ _ _ none n h l)

  closing :
      {A : Type 0} (m : Go Event A) (n : ℕ)
      → LeavesNone m
      → (r : Outcome (Unit {0})) (h : List Event) → SessionOr n (r, h)
      → LiveIs n ((lift r >> deferring (emit closed) m) h).1
  unfolding ◌>>◌
  closing m n k (done _) h l = let (out, h') = m h in omega (arith, (k (suc n)).at h l)
  closing m n k (panic p) h l = l

  -- A session opened for a function is closed when the function returns or panics.
  pub new_auto_close_session-LeavesNone :
      {A : Type 0} (r : SessionService) (m : Go Event A)
      → LeavesNone m
      → LeavesNone (new_auto_close_session o r m)
  unfolding new_auto_close_session new_auto_close_session_to_keyspace ◌>>◌
  new_auto_close_session-LeavesNone r m k n = record {
    at = λ h l. closing m n k _ _ (new_session_to_keyspace-SessionOr r "" none n h l);
  }

module _ (o : Outside) where
  pub query-LeavesNone :
      {A : Type 0} (answer : List Event → A) (stmt : String) (values : List String) (n : ℕ)
      → Keeps (LiveIs n) (ask answer (query stmt values))
  unfolding ask
  query-LeavesNone answer stmt values n = record { at = λ h l. l }

  failed-LeavesNone :
      (flag : Bool) (stmt e : String) (n : ℕ) → Keeps (LiveIs n) (failed o flag stmt e)
  unfolding failed
  failed-LeavesNone true stmt e n = search keeps_rules
  failed-LeavesNone false stmt e n = search keeps_rules

  pub exec-LeavesNone :
      (stmt : String) (values : List String) (flag : Bool) → LeavesNone (exec o stmt values flag)
  unfolding exec
  exec-LeavesNone stmt values flag n = search (keeps_rules, query-LeavesNone, failed-LeavesNone)
