-- ===== src/Services/SshKeys/Spread.antt =====
-- pkg/backup/ssh_key_step.go: the public key on every pod.
use qubership_cassandra_oper.Base.{
  ℕ, ◌<◌, String, none, some, List, [], ◌∷◌, ◌≡◌, ◌⊎◌, inl, inr, refl, arith,
}
use qubership_cassandra_oper.Base.Go.{done, panic, ◌>>◌}
use qubership_cassandra_oper.Services.Platform.{
  Pod, Action, stored_secret, listed_pods, Platform, demand,
}
use qubership_cassandra_oper.Services.SshKeys.{key_commands, try_pods, spread_keys}
use qubership_cassandra_oper.Services.SshKeys.Attempts.{
  after_all, Succeeds, FailedRounds, try_pod-TriedPod,
}

-- a pod took the commands, all of them in one round, after fewer failed rounds than tries
abbrev pub Took : Platform → ℕ → List String → Pod → List Action → List Action → Type 0
Took k tries cs pod h h' =
    (n : ℕ) × (h₁ : List Action) × (n < tries)
    × FailedRounds k pod cs n h h₁
    × Succeeds k pod cs h₁
    × (h' ≡ after_all k pod cs h₁)

-- so did all the pods, one after another
abbrev pub AllTook : Platform → ℕ → List String → List Pod → List Action → List Action → Type 0
AllTook k tries cs [] h h' = h' ≡ h
AllTook k tries cs (pod ∷ pods) h h' =
    (h₁ : List Action) × Took k tries cs pod h h₁ × AllTook k tries cs pods h₁ h'

-- some pod failed in as many rounds as there are tries, after those before it took the commands
abbrev pub SomeGaveUp : Platform → ℕ → List String → List Pod → List Action → List Action → Type 0
SomeGaveUp k tries cs [] h h' = ⊥
SomeGaveUp k tries cs (pod ∷ pods) h h' =
    FailedRounds k pod cs tries h h'
    ⊎ ((h₁ : List Action) × Took k tries cs pod h h₁ × SomeGaveUp k tries cs pods h₁ h')

module _ (k : Platform) (tries : ℕ) (cs : List String) (some_try : 0 < tries) where
  try_pods-cases :
      (pods : List Pod) (h : List Action)
      → ((h' : List Action) × AllTook k tries cs pods h h'
          × (try_pods k tries cs pods h ≡ (done tt, h')))
        ⊎ ((p : String) × (h' : List Action) × SomeGaveUp k tries cs pods h h'
            × (try_pods k tries cs pods h ≡ (panic p, h')))
  unfolding try_pods ◌>>◌
  try_pods-cases [] h = inl (h, refl, refl)
  try_pods-cases (pod ∷ pods) h =
      elim (try_pod-TriedPod k pod tries cs tries 0 h (omega arith) some_try) [
        | inl (n, h₁, less, rounds, fine, e) ↦
            let here : Took k tries cs pod h (after_all k pod cs h₁) =
              (n, h₁, less, rounds, fine, refl) in
            elim (try_pods-cases pods (after_all k pod cs h₁)) [
              | inl (h', all, q) ↦ inl (h', (_, here, all), rw e q)
              | inr (p, h', bad, q) ↦ inr (p, h', inr (_, here, bad), rw e q)
            ]
        | inr (p, h', rounds, e) ↦ inr (p, h', inl rounds, rw e refl)
      ]

-- the events once the secret is stored and the pods are listed
abbrev pub stored_keys : String × String → List Action → List Action
stored_keys keys h =
    stored_secret "ssh-keys" (("publicKey", keys.0) ∷ ("privateKey", keys.1) ∷ []) ∷ h

abbrev pub listed : String × String → List Action → List Action
listed keys h = listed_pods (("service", "cassandra-cluster") ∷ []) ∷ stored_keys keys h

-- Where the secret with the keys is stored and the pods are listed, and there is some try, the step
-- comes to an end: either every pod, in turn, took all the commands that install the public key, in
-- one round and in their order, after fewer failed rounds than tries, and there is no error; or the
-- step panics, at a pod that failed in exactly as many rounds as tries after those before it took
-- the commands.
pub spread_keys-AllTook :
    (k : Platform) (tries : ℕ) (keys : String × String) (pods : List Pod) (h : List Action)
    → 0 < tries
    → k.store_secret h "ssh-keys" (("publicKey", keys.0) ∷ ("privateKey", keys.1) ∷ []) ≡ none
    → k.list_pods (stored_keys keys h) (("service", "cassandra-cluster") ∷ []) ≡ some pods
    → ((h' : List Action) × AllTook k tries (key_commands keys.0) pods (listed keys h) h'
        × (spread_keys k tries keys h ≡ (done none, h')))
      ⊎ ((p : String) × (h' : List Action) × SomeGaveUp k tries
            (key_commands keys.0)
            pods
            (listed keys h)
            h'
          × (spread_keys k tries keys h ≡ (panic p, h')))
unfolding spread_keys demand ◌>>◌
spread_keys-AllTook k tries keys pods h some_try stored found =
    elim (try_pods-cases k tries (key_commands keys.0) some_try pods (listed keys h)) [
      | inl (h', all, e) ↦ inl (h', all, rw (stored, found, e) refl)
      | inr (p, h', bad, e) ↦ inr (p, h', bad, rw (stored, found, e) refl)
    ]
