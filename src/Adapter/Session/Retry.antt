-- ===== src/Adapter/Session/Retry.antt =====
-- impl/cassandra/cql.go: `Cluster.NewSession` tries three times, with growing timeouts.
use qubership_cassandra_oper.Base.{
  ℕ, suc, ◌+◌, ◌*◌, String, Option, none, some, List, ◌∷◌, ◌≡◌, ◌⊎◌, inl, inr, refl, arith,
  Option-cases, ◌∙◌,
}
use qubership_cassandra_oper.Base.Go.{done, pure, ◌>>◌}
use qubership_cassandra_oper.Adapter.Outside.{Outside, Event, connected, refused, slept}
use qubership_cassandra_oper.Adapter.Session.{create_session, new_session}

module _ (o : Outside) (k : String) (con : ℕ) where
  -- the events of a refused try
  abbrev pub refusal : ℕ → ℕ → List Event → List Event
  refusal timeout pause h = slept pause ∷ refused k con timeout ∷ h

  -- one try
  new_session_step :
      (left try timeout t : ℕ) (err : Option String) (h : List Event)
      → t ≡ timeout * (try + 1)
      → ((o.create_session h k con t ≡ none)
          × (new_session o (suc left) try k con timeout err h ≡ (done none, connected k con t ∷ h)))
        ⊎ ((e : String) × (o.create_session h k con t ≡ some e)
            × (new_session o (suc left) try k con timeout err h
                ≡ new_session o left (suc try) k con t (some e) (refusal t (2 * (try + 1)) h)))
  unfolding new_session create_session ◌>>◌
  new_session_step left try timeout t err h same =
      rw same (elim (Option-cases (o.create_session h k con (timeout * (try + 1)))) [
        | inl granted ↦ inl (granted, rw (granted, create_session))
        | inr (e, denied) ↦ inr (e, denied, rw (denied, create_session))
      ])

  new_session_out :
      (e : String) (try timeout : ℕ) (h : List Event)
      → new_session o 0 try k con timeout (some e) h ≡ (done (some e), h)
  unfolding new_session pure
  new_session_out e try timeout h = refl

  -- `NewSession` gives a session on the first try with timeout t, on the second with 2 t after a
  -- pause of 2 seconds, or on the third with 6 t after a further pause of 4. It fails exactly after
  -- three refusals, with the third error and a last pause of 6.
  pub new_session_tries :
      (t : ℕ) (h : List Event)
      → (new_session o 3 0 k con t none h ≡ (done none, connected k con t ∷ h))
        ⊎ (new_session o 3 0 k con t none h ≡ (done none, connected k con (t * 2) ∷ refusal t 2 h))
        ⊎ (new_session o 3 0 k con t none h
            ≡ (done none, connected k con (t * 6) ∷ refusal (t * 2) 4 (refusal t 2 h)))
        ⊎ ((e : String) × (o.create_session (refusal (t * 2) 4 (refusal t 2 h)) k con (t * 6)
              ≡ some e)
            × (new_session o 3 0 k con t none h
                ≡ (done (some e), refusal (t * 6) 6 (refusal (t * 2) 4 (refusal t 2 h)))))
  new_session_tries t h = elim (new_session_step 2 0 t t none h (omega arith)) [
    | inl (_, e) ↦ inl e
    | inr (x, _, e) ↦ elim (new_session_step 1 1 t (t * 2) (some x) (refusal t 2 h) (omega arith)) [
      | inl (_, e') ↦ inr (inl (e ∙ e'))
      | inr (x', _, e') ↦
          elim (new_session_step 0 2 (t * 2) (t * 6) (some x') (refusal (t * 2) 4 (refusal t 2 h))
            (omega arith)) [
              | inl (_, e'') ↦ inr (inr (inl (e ∙ e' ∙ e'')))
              | inr (x'', denied, e'') ↦
                  inr (inr (inr (x'', denied, e ∙ e' ∙ e'' ∙ new_session_out x'' 3 (t * 6) _)))
            ]
    ]
  ]
