-- ===== src/Operator/Configuration/Merged.antt =====
-- pkg/impl/cassandra/configmaps_step.go: what the stored configuration says.
use qubership_cassandra_oper.Base.{
  String, Bool, true, false, Option, none, List, [], ◌∷◌, ◌≡◌, ◌∙◌, ◌⊎◌, inl, inr, refl, sym, ap,
  Option-cases, if◌then◌else◌,
}
use qubership_cassandra_oper.Base.Maps.{
  StringMap, lookup, insert_all, Distinct, or_else, lookup-insert_all-Distinct,
}
use qubership_cassandra_oper.Base.Go.{Outcome, done, ok, lift, pure, ◌>>=◌, ◌>>◌}
use qubership_cassandra_oper.Base.Go.Inversion.{
  not_done, done-injective, bind-done, then-done, pure-done,
}
use qubership_cassandra_oper.Operator.Configuration.{
  ConfigEvent, polled, created_config, ConfigPlatform, text_of, is_updated, configuration_name,
  parse_configuration, store_configuration, configuration_step,
}

-- the library reads the map in the document that it wrote for it
abbrev pub ReadsBack : ConfigPlatform → StringMap → Type 0
ReadsBack k m = (k.unmarshal (k.marshal m).0).0 ≡ m

updated-cases : (m : StringMap) → ((m ≡ []) × (is_updated m ≡ false)) ⊎ (is_updated m ≡ true)
updated-cases [] = inl (refl, refl)
updated-cases (e ∷ m) = inr refl

lift-ends :
    {A : Type 0} (r : Outcome A) (h h' : List ConfigEvent) (a : A)
    → lift r h ≡ (done a, h')
    → h ≡ h'
unfolding lift
lift-ends r h h' a e = ap (λ x. x.1) e

module _ (k : ConfigPlatform) where
  parse_configuration-done :
      (doc : String) (cm : StringMap) (h h' : List ConfigEvent) (r : String × Bool)
      → parse_configuration k doc cm h ≡ (done r, h')
      → (h ≡ h')
        × (
          (k.marshal (insert_all (k.unmarshal doc).0 (k.unmarshal (text_of "config" cm)).0)).0,
          is_updated (k.unmarshal doc).0,
        )
          ≡ r
  unfolding parse_configuration
  parse_configuration-done doc cm h h' r e =
      let (u₁, h₁, e₁, q₁) = then-done _ _ h r h' e in
      let (u₂, h₂, e₂, q₂) = then-done _ _ h₁ r h' q₁ in
      let (u₃, h₃, e₃, q₃) = then-done _ _ h₂ r h' q₂ in
      let ends : h₃ ≡ h' = unfold pure in ap (λ x. x.1) q₃ in
      (
        lift-ends _ h h₁ u₁ e₁ ∙ lift-ends _ h₁ h₂ u₂ e₂ ∙ lift-ends _ h₂ h₃ u₃ e₃ ∙ ends,
        pure-done _ h₃ r h' q₃,
      )

  abbrev pub stored_config : String → String → ConfigEvent
  stored_config part_of out =
      created_config configuration_name (("app.kubernetes.io/part-of", part_of) ∷ [])
        (("config", out) ∷ [])

  store_configuration-done :
      (part_of out : String) (updated : Bool) (h h' : List ConfigEvent) (o : Option String)
      → store_configuration k part_of (out, updated) h ≡ (done o, h')
      → (none ≡ o) × (h' ≡ (if updated then stored_config part_of out ∷ h else h))
  unfolding store_configuration ◌>>◌
  store_configuration-done part_of out false h h' o e =
      (done-injective none o (ap (λ x. x.0) e), sym (ap (λ x. x.1) e))
  store_configuration-done part_of out true h h' o e =
      elim (Option-cases (
        k.create_config h configuration_name (("app.kubernetes.io/part-of", part_of) ∷ [])
          (("config", out) ∷ []))) [
            | inl fine ↦
                let q = rw fine at e in
                (done-injective none o (ap (λ x. x.0) q), sym (ap (λ x. x.1) q))
            | inr (err, bad) ↦ absurd (not_done (rw bad at e))
          ]

  configuration_step-found :
      (doc part_of : String) (cm : StringMap) (h h' : List ConfigEvent) (o : Option String)
      → k.poll h ≡ ok cm
      → configuration_step k doc part_of h ≡ (done o, h')
      → (parse_configuration k doc cm >>= store_configuration k part_of) (polled ∷ h) ≡ (done o, h')
  unfolding configuration_step ◌>>◌
  configuration_step-found doc part_of cm h h' o found e = rw found at e

-- Where the YAML library reads back the merged document that it wrote, and a config map was found,
-- a run of the step that ends without a panic has no error. If the document of the resource has no key, it
-- stores nothing. Otherwise it stores one config map, whose document gives each key the value of
-- the resource's document, or, where that has none, the value that the cluster's document had.
pub configuration_step-lookup :
    (k : ConfigPlatform) (doc part_of key : String) (cm : StringMap) (h h' : List ConfigEvent)
    (o : Option String)
    → ReadsBack k (insert_all (k.unmarshal doc).0 (k.unmarshal (text_of "config" cm)).0)
    → Distinct (k.unmarshal doc).0
    → k.poll h ≡ ok cm
    → configuration_step k doc part_of h ≡ (done o, h')
    → (none ≡ o)
      × (((k.unmarshal doc).0 ≡ []) × (h' ≡ polled ∷ h)
          ⊎ ((out : String) × (h' ≡ stored_config k part_of out ∷ polled ∷ h)
              × (lookup key (k.unmarshal out).0
                  ≡ or_else
                      (lookup key (k.unmarshal doc).0)
                      (lookup key (k.unmarshal (text_of "config" cm)).0))))
configuration_step-lookup k doc part_of key cm h h' o reads distinct found e =
    let (r, h₁, parsed, stored) =
      bind-done _ _ (polled ∷ h) o h' (configuration_step-found k doc part_of cm h h' o found e) in
    let (same, result) = parse_configuration-done k doc cm (polled ∷ h) h₁ r parsed in
    let merged = insert_all (k.unmarshal doc).0 (k.unmarshal (text_of "config" cm)).0 in
    let (fine, ends) =
      store_configuration-done k part_of (k.marshal merged).0 (is_updated (k.unmarshal doc).0) h₁ h'
        o (rw (← result) at stored) in
    let quiet : polled ∷ h ≡ h₁ = same in
    (
      fine,
      elim (updated-cases (k.unmarshal doc).0) [
        | inl (empty, off) ↦ inl (empty, rw off at ends ∙ sym quiet)
        | inr on ↦ inr (
          (k.marshal merged).0,
          rw on at ends
              ∙ ap (λ (g : List ConfigEvent). stored_config k part_of (k.marshal merged).0 ∷ g)
                  (sym quiet),
          ap (lookup key) reads
              ∙ lookup-insert_all-Distinct key (k.unmarshal doc).0
                  (k.unmarshal (text_of "config" cm)).0 distinct,
        )
      ],
    )
