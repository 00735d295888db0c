-- ===== src/Services/SshKeys/Attempts.antt =====
-- pkg/backup/ssh_key_step.go: how often the commands are tried on a pod.
use qubership_cassandra_oper.Base.{
  ℕ, zero, suc, ◌+◌, ◌<◌, String, true, false, none, some, List, [], ◌∷◌, ◌≡◌, ◌⊎◌, inl, inr, refl,
  arith, eqb, Bool-cases, Option-cases,
}
use qubership_cassandra_oper.Base.Go.{done, panic, ◌>>◌}
use qubership_cassandra_oper.Services.Platform.{Pod, Action, ran, Platform}
use qubership_cassandra_oper.Services.SshKeys.{run_commands, command_message, try_pod}

module _ (k : Platform) (pod : Pod) where
  -- the events after all the commands
  abbrev pub after_all : List String → List Action → List Action
  after_all [] h = h
  after_all (c ∷ cs) h = after_all cs (ran pod c ∷ h)

  -- the pod answers each of the commands without an error
  abbrev pub Succeeds : List String → List Action → Type 0
  Succeeds [] h = Unit
  Succeeds (c ∷ cs) h = (k.exec_remote h pod c ≡ none) × Succeeds cs (ran pod c ∷ h)

  -- some command fails, after those before it succeeded, and ends the round
  abbrev pub Fails : List String → List Action → List Action → Type 0
  Fails [] h h' = ⊥
  Fails (c ∷ cs) h h' =
      ((e : String) × (k.exec_remote h pod c ≡ some e) × (h' ≡ ran pod c ∷ h))
      ⊎ (k.exec_remote h pod c ≡ none) × Fails cs (ran pod c ∷ h) h'

  -- failed rounds, one after another
  abbrev pub FailedRounds : List String → ℕ → List Action → List Action → Type 0
  FailedRounds cs zero h h' = h' ≡ h
  FailedRounds cs (suc n) h h' = (h₁ : List Action) × Fails cs h h₁ × FailedRounds cs n h₁ h'

  -- one round: all succeed, or one fails
  run_commands-cases :
      (cs : List String) (h : List Action)
      → (Succeeds cs h × (run_commands k pod cs h ≡ (done none, after_all cs h)))
        ⊎ ((f : String × String) × (h' : List Action) × Fails cs h h'
            × (run_commands k pod cs h ≡ (done (some f), h')))
  unfolding run_commands ◌>>◌
  run_commands-cases [] h = inl (tt, refl)
  run_commands-cases (c ∷ cs) h = elim (Option-cases (k.exec_remote h pod c)) [
    | inl fine ↦ elim (run_commands-cases cs (ran pod c ∷ h)) [
      | inl (rest, e) ↦ inl ((fine, rest), rw fine e)
      | inr (f, h', bad, e) ↦ inr (f, h', inr (fine, bad), rw fine e)
    ]
    | inr (err, bad) ↦ inr ((err, c), ran pod c ∷ h, inl (err, bad, refl), rw bad refl)
  ]

  -- a pod is done after at most so many failed rounds less one, or gives up after as many
  abbrev pub TriedPod : ℕ → List String → ℕ → ℕ → List Action → Type 0
  TriedPod tries cs left tried h =
      ((n : ℕ) × (h₁ : List Action) × (n < left)
        × FailedRounds cs n h h₁
        × Succeeds cs h₁
        × (try_pod k tries cs pod left tried h ≡ (done tt, after_all cs h₁)))
      ⊎ ((p : String) × (h' : List Action) × FailedRounds cs left h h'
          × (try_pod k tries cs pod left tried h ≡ (panic p, h')))

  try_pod-last : (l d tries : ℕ) → suc l + d ≡ tries → eqb (suc d) tries ≡ true → l ≡ zero
  try_pod-last l d tries e last = ground arith

  try_pod-more : (l d tries : ℕ) → suc l + d ≡ tries → eqb (suc d) tries ≡ false → 0 < l
  try_pod-more l d tries e more = ground arith

  pub try_pod-TriedPod :
      (tries : ℕ) (cs : List String) (left tried : ℕ) (h : List Action)
      → left + tried ≡ tries
      → 0 < left
      → TriedPod tries cs left tried h
  unfolding try_pod ◌>>◌
  try_pod-TriedPod tries cs zero tried h sum some_left = absurd (omega arith)
  try_pod-TriedPod tries cs (suc left) tried h sum some_left = elim (run_commands-cases cs h) [
    | inl (fine, e) ↦ inl (zero, h, omega arith, refl, fine, rw e refl)
    | inr (f, h', bad, e) ↦ elim (Bool-cases (eqb (suc tried) tries)) [
      | inl last ↦ inr (
        k.panic_value f.0 (command_message k pod f.1),
        h',
        (h', bad, rw (try_pod-last left tried tries sum last) refl),
        rw (e, last) refl,
      )
      | inr more ↦
          elim (try_pod-TriedPod tries cs left (suc tried) h' (omega (arith, sum))
            (try_pod-more left tried tries sum more)) [
              | inl (n, h₁, less, rounds, fine, q) ↦
                  inl (suc n, h₁, omega (arith, less), (h', bad, rounds), fine, rw (e, more) q)
              | inr (p, h₁, rounds, q) ↦ inr (p, h₁, (h', bad, rounds), rw (e, more) q)
            ]
    ]
  ]
