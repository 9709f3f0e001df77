-- ===== src/Spine/Discovery/Features.antt =====
-- The entities after a detailed discovery, `AddEntityAndFeatures` of src/spine/device/device_remote.c.
use openeebus.Prelude.{
  ℕ, ◌≡◌, sym, ap, subst, ◌∙◌, ◌⊎◌, inl, inr, Bool, true, false, ◌||◌, Bool-cases, Option, some,
  List, [], ◌∷◌, arith,
}
use openeebus.Spine.Address.{match_ids, match_ids_≡}
use openeebus.Spine.Device.{Entity, DeviceRemote, get_entity}
use openeebus.Spine.Discovery.{
  DiscoveryData, EntityDescription, Added, add_loop, add_entity_and_features,
}
use openeebus.Spine.Discovery.Entities.{get_entity-match}
use openeebus.Spine.Discovery.Given.{Given, features_with_info-Given}
use openeebus.Spine.Discovery.Rounds.{IsDescribed, names, Round, entity_round-Opened}

-- Whether one of the descriptions is of the entity with a list.
abbrev pub is_listed : List ℕ → List (Option EntityDescription) → Bool
is_listed ids [] = false
is_listed ids (info ∷ infos) = names info ids || is_listed ids infos

module _ (d : DeviceRemote) (init : Bool) (discovery : DiscoveryData) where
  -- The entity with a list is there, and its features are those that the descriptions give.
  abbrev pub IsGiven : List Entity → List ℕ → Type 0
  IsGiven es ids =
      (e : Entity) × (get_entity es ids ≡ some e)
      × (e.ids ≡ ids)
      × Given e.device ids discovery.feature_information e.features

  -- The entities before a round that describes one with another list.
  still :
      (es es1 : List Entity) (ids0 ids : List ℕ)
      → Round d init discovery es es1 ids0
      → IsDescribed discovery.feature_information es ids
      → IsDescribed discovery.feature_information es1 ids
  still es es1 ids0 ids (isd, others) (e, g, fs) = elim (Bool-cases (match_ids ids0 ids)) [
    | inl t ↦ subst (IsDescribed discovery.feature_information es1) (match_ids_≡ ids0 ids t) isd
    | inr n ↦ (e, others ids n ∙ g, fs)
  ]

  ended :
      {es es2 : List Entity} {new new2 : List (List ℕ)}
      → ◌≡◌ {A = Added} (some (es, some new)) (some (es2, some new2))
      → es ≡ es2
  ended h = cc h

  add_loop-still :
      (es es2 : List Entity) (new new2 : List (List ℕ)) (ids : List ℕ)
      (todo : List (Option EntityDescription))
      → add_loop d init discovery es new todo ≡ some (es2, some new2)
      → IsDescribed discovery.feature_information es ids
      → IsDescribed discovery.feature_information es2 ids
  unfolding add_loop
  add_loop-still es es2 new new2 ids [] h k =
      subst (λ z. IsDescribed discovery.feature_information z ids) (ended h) k
  add_loop-still es es2 new new2 ids (info ∷ todo) h k =
      let (ids0, es1, new1, q, round, g) =
        entity_round-Opened d init discovery (λ es' new'. add_loop d init discovery es' new' todo)
          es2 new2 es new info h in
      add_loop-still es1 es2 new1 new2 ids todo g (still es es1 ids0 ids round k)

  pub add_loop-listed :
      (es es2 : List Entity) (new new2 : List (List ℕ)) (ids : List ℕ)
      (todo : List (Option EntityDescription))
      → add_loop d init discovery es new todo ≡ some (es2, some new2)
      → is_listed ids todo ≡ true
      → IsDescribed discovery.feature_information es2 ids
  unfolding add_loop
  add_loop-listed es es2 new new2 ids [] h k = absurd (cc k)
  add_loop-listed es es2 new new2 ids (info ∷ todo) h k =
      let (ids0, es1, new1, q, (isd, others), g) =
        entity_round-Opened d init discovery (λ es' new'. add_loop d init discovery es' new' todo)
          es2 new2 es new info h in
      elim (Bool-cases (match_ids ids0 ids)) [
        | inl t ↦
            add_loop-still es1 es2 new1 new2 ids todo g
              (subst (IsDescribed discovery.feature_information es1) (match_ids_≡ ids0 ids t) isd)
        | inr n ↦
            add_loop-listed es1 es2 new1 new2 ids todo g
              (subst (λ b. (b || is_listed ids todo) ≡ true) (q ids ∙ n) k)
      ]

  add_loop-others :
      (es es2 : List Entity) (new new2 : List (List ℕ)) (ids : List ℕ)
      (todo : List (Option EntityDescription))
      → add_loop d init discovery es new todo ≡ some (es2, some new2)
      → is_listed ids todo ≡ false
      → get_entity es2 ids ≡ get_entity es ids
  unfolding add_loop
  add_loop-others es es2 new new2 ids [] h k = ap (λ z. get_entity z ids) (sym (ended h))
  add_loop-others es es2 new new2 ids (info ∷ todo) h k =
      let (ids0, es1, new1, q, (isd, others), g) =
        entity_round-Opened d init discovery (λ es' new'. add_loop d init discovery es' new' todo)
          es2 new2 es new info h in
      elim (Bool-cases (names info ids)) [
        | inl t ↦ absurd (ground (arith, t, k))
        | inr n ↦
            add_loop-others es1 es2 new1 new2 ids todo g
              (subst (λ b. (b || is_listed ids todo) ≡ false) n k)
            ∙ others ids (sym (q ids) ∙ n)
      ]

  given :
      (es : List Entity) (ids : List ℕ)
      → IsDescribed discovery.feature_information es ids
      → IsGiven es ids
  given es ids (e, g, fs) =
      let m = get_entity-match es ids e g in
      let own = match_ids_≡ e.ids ids m in
      (
        e,
        g,
        own,
        subst (λ l. Given e.device l discovery.feature_information e.features) own
            (features_with_info-Given e (subst (λ l. match_ids e.ids l ≡ true) (sym own) m)
              discovery.feature_information e.features fs),
      )

  -- After a detailed discovery that succeeds, each entity that it lists is there, with one feature for
  -- each feature description that names the entity's list, an id, a type and a role, which the feature
  -- has, and with no others. What it does not list is as before.
  pub add_entity_and_features-Given :
      (es : List Entity) (new : List (List ℕ)) (ids : List ℕ)
      → add_entity_and_features d init discovery ≡ some (es, some new)
      → (is_listed ids discovery.entity_information ≡ true) × IsGiven es ids
        ⊎ (is_listed ids discovery.entity_information ≡ false)
          × (get_entity es ids ≡ get_entity d.entities ids)
  unfolding add_entity_and_features
  add_entity_and_features-Given es new ids h =
      let todo = discovery.entity_information in
      elim (Bool-cases (is_listed ids todo)) [
        | inl t ↦ inl (t, given es ids (add_loop-listed d.entities es [] new ids todo h t))
        | inr n ↦ inr (n, add_loop-others d.entities es [] new ids todo h n)
      ]
