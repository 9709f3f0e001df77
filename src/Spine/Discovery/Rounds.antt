-- ===== src/Spine/Discovery/Rounds.antt =====
-- One round of the loop over the entities, `AddEntityAndFeatures` of src/spine/device/device_remote.c.
use openeebus.Prelude.{
  ℕ, ◌≡◌, refl, ap, subst, ◌∙◌, inl, inr, if◌then◌else◌, Bool, true, false, Bool-cases,
  Option-cases, Option, none, some, some-inj, List, [], ◌∷◌, ◌++◌, arith,
}
use openeebus.Common.Error.{EebusError, is_ok}
use openeebus.Spine.Address.{match_ids}
use openeebus.Spine.Device.{Feature, Entity, DeviceRemote, get_entity}
use openeebus.Spine.Discovery.{
  DiscoveryData, EntityAddress, EntityDescription, FeatureDescription, Added, features_with_info,
  with_device_address, put_entity, put_features, described, with_added, found_or_added, new_entity,
  then_entities, checked, check_device, with_ids, with_address, entity_round,
}
use openeebus.Spine.Discovery.Entities.{
  match_ids_refl, get_entity-match, get_entity-put, get_entity-put_other, get_entity-append,
  get_entity-append_other, features_with_info-features, with_device_address-ids,
}

-- The entity with a list is there, and its features are those of the descriptions.
abbrev pub IsDescribed : List (Option FeatureDescription) → List Entity → List ℕ → Type 0
IsDescribed infos es ids =
    (e : Entity) × (get_entity es ids ≡ some e) × (features_with_info e infos ≡ some e.features)

abbrev ids_name : Option (List ℕ) → List ℕ → Bool
ids_name none ids = false
ids_name (some l) ids = match_ids l ids

abbrev address_names : Option EntityAddress → List ℕ → Bool
address_names none ids = false
address_names (some a) ids = ids_name a.entity ids

abbrev pub names : Option EntityDescription → List ℕ → Bool
names none ids = false
names (some info) ids = address_names info.entity_address ids

match_ids-empty : (ids : List ℕ) → match_ids ids [] ≡ false
match_ids-empty [] = refl
match_ids-empty (i ∷ ids) = refl

module _ (d : DeviceRemote) (init : Bool) (discovery : DiscoveryData) where
  abbrev infos : List (Option FeatureDescription)
  infos = discovery.feature_information

  -- An entity was described, and the others are as before.
  abbrev pub Round : List Entity → List Entity → List ℕ → Type 0
  Round es es' ids =
      IsDescribed infos es' ids
      × ((ids' : List ℕ) → match_ids ids ids' ≡ false → get_entity es' ids' ≡ get_entity es ids')

  put_features-Round :
      (es es' : List Entity) (ids : List ℕ) (e e' : Entity) (fs : List Feature)
      → get_entity es ids ≡ some e
      → match_ids e'.ids ids ≡ true
      → features_with_info e' infos ≡ some fs
      → put_entity es ids (record e' { features = fs }) ≡ es'
      → Round es es' ids
  put_features-Round es es' ids e e' fs g m h p =
      let new = record e' { features = fs } in
      subst (λ z. Round es z ids) p
        (
          (new, get_entity-put es ids e new g m, features_with_info-features e' fs infos ∙ h),
          λ ids' o. get_entity-put_other es ids ids' new m o,
        )

  described-Round :
      (es es' : List Entity) (ids : List ℕ) (e : Entity)
      → get_entity es ids ≡ some e
      → described d init discovery es ids e ≡ some es'
      → Round es es' ids
  described-Round es es' ids e g h =
      let e' = with_device_address e discovery.device in
      elim (Option-cases (features_with_info e' infos)) [
        | inl n ↦
            absurd (cc (subst (λ o. put_features d init discovery es ids e' o ≡ some es') n h))
        | inr (fs, y) ↦
            put_features-Round es es' ids e e' fs g
              (ap (λ x. match_ids x ids) (with_device_address-ids e discovery.device)
                ∙ get_entity-match es ids e g)
              y (some-inj (subst (λ o. put_features d init discovery es ids e' o ≡ some es') y h))
      ]

  paired :
      (o : Option (List Entity)) (a added : List (List ℕ)) (es' : List Entity)
      → with_added d init discovery a o ≡ some (es', added)
      → o ≡ some es'
  paired none a added es' h = absurd (cc h)
  paired (some es) a added es' h = cc h

  appended-Round :
      (es es' : List Entity) (ids : List ℕ) (t : ℕ)
      → get_entity es ids ≡ none
      → match_ids ids ids ≡ true
      → described d init discovery (es ++ new_entity d ids t ∷ []) ids (new_entity d ids t)
        ≡ some es'
      → Round es es' ids
  appended-Round es es' ids t n m h =
      let e = new_entity d ids t in
      let (is, others) =
        described-Round (es ++ e ∷ []) es' ids e (get_entity-append es ids e n m) h in
      (is, λ ids' o. others ids' o ∙ get_entity-append_other es ids' e o)

  added-Round :
      (es es' : List Entity) (ids : List ℕ) (added : List (List ℕ)) (t : Option ℕ)
      → get_entity es ids ≡ none
      → match_ids ids ids ≡ true
      → found_or_added d init discovery es ids t none ≡ some (es', added)
      → Round es es' ids
  added-Round es es' ids added none n m h = absurd (cc h)
  added-Round es es' [] added (some t) n m h = absurd (cc h)
  added-Round es es' (i ∷ ids) added (some t) n m h =
      appended-Round es es' (i ∷ ids) t n m (paired _ ((i ∷ ids) ∷ []) added es' h)

  get_entity-empty : (es : List Entity) → get_entity es [] ≡ none
  get_entity-empty [] = refl
  get_entity-empty (e ∷ es) = rw (match_ids-empty e.ids) (get_entity-empty es)

  added-empty :
      (es : List Entity) (t : Option ℕ) → found_or_added d init discovery es [] t none ≡ none
  added-empty es none = refl
  added-empty es (some t) = refl

  found_or_added-empty :
      (es : List Entity) (t : Option ℕ)
      → found_or_added d init discovery es [] t (get_entity es []) ≡ none
  found_or_added-empty es t = rw (get_entity-empty es) (added-empty es t)

  found_or_added-Round :
      (es es' : List Entity) (ids : List ℕ) (added : List (List ℕ)) (t : Option ℕ)
      → match_ids ids ids ≡ true
      → found_or_added d init discovery es ids t (get_entity es ids) ≡ some (es', added)
      → Round es es' ids
  found_or_added-Round es es' ids added t m h = elim (Option-cases (get_entity es ids)) [
    | inl n ↦
        added-Round es es' ids added t n m
          (subst (λ o. found_or_added d init discovery es ids t o ≡ some (es', added)) n h)
    | inr (e, g) ↦ described-Round es es' ids e g (
        paired _ [] added es'
          (subst (λ o. found_or_added d init discovery es ids t o ≡ some (es', added)) g h))
  ]

  -- The description of an entity was processed, and the loop went on.
  abbrev pub Opened :
      List Entity
      → Option EntityDescription
      → (List Entity → List (List ℕ) → Added)
      → List Entity
      → List (List ℕ)
      → Type 0
  Opened es info f es2 new2 =
      (ids : List ℕ) × (es1 : List Entity) × (new1 : List (List ℕ)) × ((ids' : List ℕ)
        → names info ids' ≡ match_ids ids ids')
      × Round es es1 ids
      × (f es1 new1 ≡ some (es2, some new2))

  module _ (f : List Entity → List (List ℕ) → Added) (es2 : List Entity)
      (new2 : List (List ℕ)) where
    then_entities-cases :
        (new : List (List ℕ)) (o : Option (List Entity × List (List ℕ)))
        → then_entities d init discovery new o f ≡ some (es2, some new2)
        → (es1 : List Entity) × (added : List (List ℕ)) × (o ≡ some (es1, added))
          × (f es1 (new ++ added) ≡ some (es2, some new2))
    then_entities-cases new none h = absurd (cc h)
    then_entities-cases new (some (es1, added)) h = (es1, added, refl, h)

    checked-Opened :
        (es : List Entity) (new : List (List ℕ)) (info : EntityDescription) (i : ℕ) (ids : List ℕ)
        (err : EebusError)
        → ((ids' : List ℕ) → names (some info) ids' ≡ match_ids (i ∷ ids) ids')
        → checked d init discovery es new info.entity_type (i ∷ ids) err f ≡ some (es2, some new2)
        → Opened es (some info) f es2 new2
    checked-Opened es new info i ids err k h = elim (Bool-cases (is_ok err)) [
      | inl t ↦
          let (es1, added, e, g) = then_entities-cases new _ (
            subst
              (λ b.
                (if b
                  then then_entities d init discovery new
                      (found_or_added d init discovery es (i ∷ ids) info.entity_type
                        (get_entity es (i ∷ ids)))
                      f
                  else some (es, none))
                ≡ some (es2, some new2))
              t h) in
          (
            i ∷ ids,
            es1,
            new ++ added,
            k,
            found_or_added-Round es es1 (i ∷ ids) added info.entity_type (match_ids_refl i ids) e,
            g,
          )
      | inr n ↦ absurd (ground (arith, n, h))
    ]

    checked-empty :
        (es : List Entity) (new : List (List ℕ)) (info : EntityDescription) (err : EebusError)
        → ¬ (checked d init discovery es new info.entity_type [] err f ≡ some (es2, some new2))
    checked-empty es new info err h = elim (Bool-cases (is_ok err)) [
      | inl t ↦ ground (arith, t, found_or_added-empty es info.entity_type, h)
      | inr e ↦ ground (arith, e, h)
    ]

    with_ids-Opened :
        (es : List Entity) (new : List (List ℕ)) (info : EntityDescription) (err : EebusError)
        (o : Option (List ℕ))
        → ((ids' : List ℕ) → names (some info) ids' ≡ ids_name o ids')
        → with_ids d init discovery es new info.entity_type err o f ≡ some (es2, some new2)
        → Opened es (some info) f es2 new2
    with_ids-Opened es new info err none k h = absurd (cc h)
    with_ids-Opened es new info err (some []) k h = absurd (checked-empty es new info err h)
    with_ids-Opened es new info err (some (i ∷ ids)) k h = checked-Opened es new info i ids err k h

    with_address-Opened :
        (es : List Entity) (new : List (List ℕ)) (info : EntityDescription)
        (o : Option EntityAddress)
        → info.entity_address ≡ o
        → with_address d init discovery es new info.entity_type o f ≡ some (es2, some new2)
        → Opened es (some info) f es2 new2
    with_address-Opened es new info none k h = absurd (cc h)
    with_address-Opened es new info (some a) k h =
        with_ids-Opened es new info (check_device d init a) a.entity
          (λ ids'. ap (λ o. address_names o ids') k) h

    pub entity_round-Opened :
        (es : List Entity) (new : List (List ℕ)) (info : Option EntityDescription)
        → entity_round d init discovery es new info f ≡ some (es2, some new2)
        → Opened es info f es2 new2
    entity_round-Opened es new none h = absurd (cc h)
    entity_round-Opened es new (some info) h =
        with_address-Opened es new info info.entity_address refl h
