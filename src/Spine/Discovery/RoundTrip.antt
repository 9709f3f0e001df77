-- ===== src/Spine/Discovery/RoundTrip.antt =====
-- The description of a local device, added by a peer: `AddInfo` of
-- src/spine/node_management/node_management_detailed_discovery.c and `AddEntityAndFeatures` of
-- src/spine/device/device_remote.c.
use openeebus.Prelude.{
  ℕ, ◌≡◌, refl, sym, subst, ◌∙◌, true, false, Bool-cases, inl, inr, Option, none, some, some-inj,
  List, [], ◌∷◌, ◌++◌, get_elem?,
}
use openeebus.Common.Error.{is_ok}
use openeebus.Spine.Address.{match_ids, match_ids_≡}
use openeebus.Spine.Device.{Feature, Entity, DeviceLocal, DeviceRemote, get_entity}
use openeebus.Spine.Discovery.{
  DiscoveryData, FeatureDescription, create_with_info, features_with_info, info_then, before,
  entity_ids_match, new_entity, with_device_address, put_entity, described, found_or_added,
  add_loop, add_entity_and_features,
}
use openeebus.Spine.Discovery.Description.{
  entity_information, add_entity_info, features_information, add_feature_info, add_info,
}
use openeebus.Spine.Discovery.Entities.{get_entity-match}
use openeebus.Spine.Discovery.Features.{add_loop-listed}
use openeebus.Spine.Discovery.Mirror
use openeebus.Spine.Discovery.Mirror.{
  WellFormed, readdressed, mirrored, elem-nonempty, elem-is_listed,
}
use openeebus.Spine.Discovery.Undescribed.{has_null}

own-has_null :
    (fs : List Feature) (rest : List (Option FeatureDescription))
    → has_null rest ≡ false
    → has_null (features_information fs ++ rest) ≡ false
own-has_null [] rest h = h
own-has_null (f ∷ fs) rest h = own-has_null fs rest h

add_feature_info-has_null : (es : List Entity) → has_null (add_feature_info es) ≡ false
add_feature_info-has_null [] = refl
add_feature_info-has_null (e ∷ es) =
    own-has_null e.features (add_feature_info es) (add_feature_info-has_null es)

before-some :
    (o : Option Feature) (fs : List Feature) → (gs : List Feature) × (before o (some fs) ≡ some gs)
before-some none fs = (fs, refl)
before-some (some f) fs = (f ∷ fs, refl)

created :
    (e : Entity) (info : FeatureDescription) (fs : List Feature)
    → (gs : List Feature) × (info_then e (some info) (some fs) ≡ some gs)
created e info fs = elim (Bool-cases (entity_ids_match e info.feature_address)) [
  | inl t ↦ rw t (before-some (create_with_info e info) fs)
  | inr f ↦ rw f (fs, refl)
]

-- With all descriptions present the features are created.
features_with_info-some :
    (e : Entity) (infos : List (Option FeatureDescription))
    → has_null infos ≡ false
    → (fs : List Feature) × (features_with_info e infos ≡ some fs)
unfolding features_with_info
features_with_info-some e [] h = ([], refl)
features_with_info-some e (none ∷ infos) h = absurd (cc h)
features_with_info-some e (some info ∷ infos) h =
    let (fs, k) = features_with_info-some e infos h in
    subst (λ o. (gs : List Feature) × (info_then e (some info) o ≡ some gs)) (sym k)
      (created e info fs)

module _ (d : DeviceRemote) (discovery : DiscoveryData)
    (h : has_null discovery.feature_information ≡ false) where
  described-some :
      (es : List Entity) (ids : List ℕ) (e : Entity)
      → (es' : List Entity) × (described d true discovery es ids e ≡ some es')
  described-some es ids e =
      let e' = with_device_address e discovery.device in
      let (fs, k) = features_with_info-some e' discovery.feature_information h in
      (put_entity es ids (record e' { features = fs }), rw k refl)

  found_or_added-some :
      (es : List Entity) (i : ℕ) (ids : List ℕ) (t : ℕ) (o : Option Entity)
      → (es' : List Entity) × (added : List (List ℕ)) × (found_or_added d true discovery es
            (i ∷ ids)
            (some t)
            o
          ≡ some (es', added))
  found_or_added-some es i ids t none =
      let e = new_entity d (i ∷ ids) t in
      let (es', k) = described-some (es ++ e ∷ []) (i ∷ ids) e in (es', (i ∷ ids) ∷ [], rw k refl)
  found_or_added-some es i ids t (some e) =
      let (es', k) = described-some es (i ∷ ids) e in (es', [], rw k refl)

  -- The loop over entities with lists that are not empty runs to its end.
  add_loop-some :
      (todo : List Entity) (es : List Entity) (new : List (List ℕ))
      → WellFormed todo
      → (es' : List Entity) × (new' : List (List ℕ)) × (add_loop d true discovery es new
            (add_entity_info todo)
          ≡ some (es', some new'))
  unfolding add_loop entity_information is_ok
  add_loop-some [] es new w = (es, new, refl)
  add_loop-some (e ∷ todo) es new (Mirror.also i ids p o q w) =
      let (es1, added, k) = found_or_added-some es i ids e.entity_type (get_entity es (i ∷ ids)) in
      let (es2, new2, g) = add_loop-some todo es1 (new ++ added) w in (es2, new2, rw (p, k) g)

-- A peer that adds what a local device tells of itself succeeds. For each local entity it then has
-- an entity with the same list and with the same features, but for the device part of their addresses,
-- which is that of the peer's entity. The local entities have different lists that are not empty, and
-- their features carry that list and an id.
pub add_info-add_entity_and_features :
    (own : DeviceLocal) (d : DeviceRemote) (k : ℕ) (x : Entity)
    → WellFormed own.entities
    → get_elem? own.entities k ≡ some x
    → (es : List Entity) × (new : List (List ℕ)) × (add_entity_and_features d true (add_info own)
        ≡ some (es, some new))
      × (e : Entity) × (get_entity es x.ids ≡ some e)
      × (e.features ≡ readdressed e.device x.features)
unfolding add_info add_entity_and_features
add_info-add_entity_and_features own d k x w g =
    let nonempty = elem-nonempty own.entities k x w g in
    let (es, new, run) =
      add_loop-some d (add_info own) (add_feature_info-has_null own.entities) own.entities
        d.entities [] w in
    let (e, found, features) =
      add_loop-listed d true (add_info own) d.entities es [] new x.ids
        (add_entity_info own.entities) run (elem-is_listed own.entities k x g nonempty) in
    let same = match_ids_≡ e.ids x.ids (get_entity-match es x.ids e found) in
    (
      es,
      new,
      run,
      e,
      found,
      some-inj (
          sym features
          ∙ mirrored e own.entities k x w g (sym same)
              (subst (λ z. match_ids z z ≡ true) (sym same) nonempty)),
    )
