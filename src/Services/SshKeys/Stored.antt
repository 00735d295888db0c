-- ===== src/Services/SshKeys/Stored.antt =====
-- pkg/backup/ssh_key_step.go: the keys of the database and the keys that are used.
use mathlib.Core.Path.{subst}
use qubership_cassandra_oper.Base.{
  String, Option, none, some, List, [], ◌∷◌, ◌≡◌, ◌∙◌, inl, inr, refl, sym, ap, ◌==◌, if◌then◌else◌,
  Option-cases,
}
use qubership_cassandra_oper.Base.Go.{done, pure, ◌>>◌}
use qubership_cassandra_oper.Base.Go.Inversion.{not_done, bind-done, then-done, pure-done}
use qubership_cassandra_oper.Services.Platform.{Action, selected, executed, Platform, execute}
use qubership_cassandra_oper.Services.SshKeys.{
  insert_key, with_alter, new_keys, found_keys, resolve_keys,
}

-- the key that was inserted last under the id
unfoldable pub inserted : String → List Action → Option String
inserted id [] = none
inserted id (executed stmt (row ∷ key ∷ []) ∷ h) =
    if stmt == insert_key then (if row == id then some key else inserted id h) else inserted id h
inserted id (_ ∷ h) = inserted id h

-- a table that answers a query with the row that was inserted last
abbrev pub Remembers : Platform → Type 0
Remembers k = (h : List Action) (id : String) → k.select h id ≡ inserted id h

-- the keys stand in the table
abbrev pub Holds : String × String → List Action → Type 0
Holds keys h = (inserted "public" h ≡ some keys.0) × (inserted "private" h ≡ some keys.1)

-- a statement that returned had no error, and is the newest event
execute-done :
    (k : Platform) (stmt : String) (args : List String) (h h' : List Action) (u : Unit {0})
    → execute k stmt args h ≡ (done u, h')
    → h' ≡ executed stmt args ∷ h
unfolding execute ◌>>◌
execute-done k stmt args h h' u p = elim (Option-cases (k.execute h stmt args)) [
  | inl fine ↦ sym (ap (λ r. r.1) (rw fine at p))
  | inr (e, bad) ↦ absurd (not_done (rw bad at p))
]

module _ (k : Platform) (replication : String) where
  -- new keys that were returned were inserted at last
  new_keys-done :
      (h h' : List Action) (keys : String × String)
      → new_keys k replication h ≡ (done keys, h')
      → (h₁ : List Action) × (h'
          ≡ executed insert_key ("private" ∷ keys.1 ∷ [])
            ∷ executed insert_key ("public" ∷ keys.0 ∷ [])
            ∷ h₁)
  unfolding new_keys
  new_keys-done h h' keys p =
      let (made, h₁, e₁, q₁) = bind-done _ _ h keys h' p in
      let (u₂, h₂, e₂, q₂) = then-done _ _ h₁ keys h' q₁ in
      let (u₃, h₃, e₃, q₃) = then-done _ _ h₂ keys h' q₂ in
      let (u₄, h₄, e₄, q₄) = then-done _ _ h₃ keys h' q₃ in
      let (u₅, h₅, e₅, q₅) = then-done _ _ h₄ keys h' q₄ in
      let same : made ≡ keys = pure-done made h₅ keys h' q₅ in
      let ends : h₅ ≡ h' = unfold pure in ap (λ r. r.1) q₅ in
      let at_public = execute-done k insert_key ("public" ∷ made.0 ∷ []) h₃ h₄ u₄ e₄ in
      let at_private = execute-done k insert_key ("private" ∷ made.1 ∷ []) h₄ h₅ u₅ e₅ in
      (
        h₃,
        subst
            (λ (m : String × String).
              h'
              ≡ executed insert_key ("private" ∷ m.1 ∷ [])
                ∷ executed insert_key ("public" ∷ m.0 ∷ [])
                ∷ h₃)
            same
            (sym ends
              ∙ at_private
              ∙ ap (λ (g : List Action). executed insert_key ("private" ∷ made.1 ∷ []) ∷ g)
                  at_public),
      )

  new_keys-Holds :
      (h h' : List Action) (keys : String × String)
      → new_keys k replication h ≡ (done keys, h')
      → Holds keys h'
  unfolding inserted
  new_keys-Holds h h' keys p =
      let (h₁, ends) = new_keys-done h h' keys p in (rw ends refl, rw ends refl)

  found_keys-done :
      (p q : String) (h h' : List Action) (keys : String × String)
      → found_keys k replication p q h ≡ (done keys, h')
      → ((p, q) ≡ keys) × (h' ≡ executed (with_alter replication) [] ∷ h)
  unfolding found_keys
  found_keys-done p q h h' keys r =
      let (u, h₁, e, s) = then-done _ _ h keys h' r in
      let ends : h₁ ≡ h' = unfold pure in ap (λ x. x.1) s in
      (
        pure-done (p, q) h₁ keys h' s,
        sym ends ∙ execute-done k (with_alter replication) [] h h₁ u e,
      )

  found_keys-Holds :
      (p q : String) (h h' : List Action) (keys : String × String)
      → inserted "public" h ≡ some p
      → inserted "private" h ≡ some q
      → found_keys k replication p q h ≡ (done keys, h')
      → ((p, q) ≡ keys) × Holds keys h'
  unfolding inserted
  found_keys-Holds p q h h' keys a b r =
      let (same, ends) = found_keys-done p q h h' keys r in
      (
        same,
        (
          rw ends (a ∙ ap (λ (x : String × String). some x.0) same),
          rw ends (b ∙ ap (λ (x : String × String). some x.1) same),
        ),
      )

  -- with a table that remembers, the keys that were used stand in it afterwards
  resolve_keys-Holds :
      (h h' : List Action) (keys : String × String)
      → Remembers k
      → resolve_keys k replication h ≡ (done keys, h')
      → Holds keys h'
  unfolding resolve_keys inserted ◌>>◌
  resolve_keys-Holds h h' keys remembers e =
      let start : List Action = selected "private" ∷ selected "public" ∷ h in
      let a = remembers h "public" in
      let b = remembers (selected "public" ∷ h) "private" in
      elim (Option-cases (k.select h "public")) [
        | inl absent ↦ new_keys-Holds start h' keys (rw absent at e)
        | inr (p, there) ↦
            let e' = rw there at e in
            elim (Option-cases (k.select (selected "public" ∷ h) "private")) [
              | inl absent ↦ new_keys-Holds start h' keys (rw absent at e')
              | inr (q, there') ↦
                  (found_keys-Holds p q start h' keys (sym a ∙ there) (sym b ∙ there')
                    (rw there' at e')).1
            ]
      ]

  -- where the keys stand in the table, they are used
  resolve_keys-found :
      (h h' : List Action) (keys keys' : String × String)
      → Remembers k
      → Holds keys h
      → resolve_keys k replication h ≡ (done keys', h')
      → (keys ≡ keys') × Holds keys' h'
  unfolding resolve_keys inserted ◌>>◌
  resolve_keys-found h h' keys keys' remembers (a, b) e =
      found_keys-Holds keys.0 keys.1 (selected "private" ∷ selected "public" ∷ h) h' keys' a b (
        rw (remembers (selected "public" ∷ h) "private" ∙ b) at
          (rw (remembers h "public" ∙ a) at e))

-- With a table that answers a query with the row that was inserted last under the id, keys that a
-- run resolved stand in the table afterwards, whether they were found there or generated, and any
-- later run, whatever its replication, resolves the same keys and leaves them there, as long as
-- the rows inserted last are the same when it starts.
pub resolve_keys-resolve_keys :
    (k : Platform) (replication replication' : String) (h h' h₂ h'' : List Action)
    (keys keys' : String × String)
    → Remembers k
    → resolve_keys k replication h ≡ (done keys, h')
    → inserted "public" h₂ ≡ inserted "public" h'
    → inserted "private" h₂ ≡ inserted "private" h'
    → resolve_keys k replication' h₂ ≡ (done keys', h'')
    → Holds keys h' × (keys ≡ keys') × Holds keys' h''
resolve_keys-resolve_keys k replication replication' h h' h₂ h'' keys keys' remembers e a b e' =
    let (a₁, b₁) = resolve_keys-Holds k replication h h' keys remembers e in
    let (same, still) =
      resolve_keys-found k replication' h₂ h'' keys keys' remembers (a ∙ a₁, b ∙ b₁) e' in
    ((a₁, b₁), same, still)
