-- ===== src/Spine/Discovery/Undescribed.antt =====
-- Feature information without a description, `EntityRemoteAddFeaturesWithInfo` of
-- src/spine/device/device_remote.c.
use openeebus.Prelude.{
  ℕ, ◌≡◌, refl, ap, ◌∙◌, Bool, true, false, Option, none, some, List, [], ◌∷◌, arith,
}
use openeebus.Common.Error.{is_ok}
use openeebus.Spine.Device.{Entity, DeviceRemote}
use openeebus.Spine.Discovery.{
  DiscoveryData, EntityAddress, EntityDescription, FeatureDescription, features_with_info,
  found_or_added, add_loop, add_entity_and_features,
}

-- Whether some description is NULL.
abbrev pub has_null : List (Option FeatureDescription) → Bool
has_null [] = false
has_null (none ∷ infos) = true
has_null (some info ∷ infos) = has_null infos

features_with_info-null :
    (e : Entity) (infos : List (Option FeatureDescription))
    → has_null infos ≡ true
    → features_with_info e infos ≡ none
unfolding features_with_info
features_with_info-null e [] h = absurd (cc h)
features_with_info-null e (none ∷ infos) h = refl
features_with_info-null e (some info ∷ infos) h = ground (arith, features_with_info-null e infos h)

module _ (d : DeviceRemote) (discovery : DiscoveryData) where
  found_or_added-null :
      (es : List Entity) (ids : List ℕ) (t : Option ℕ) (o : Option Entity)
      → has_null discovery.feature_information ≡ true
      → found_or_added d true discovery es ids t o ≡ none
  found_or_added-null es ids none none h = refl
  found_or_added-null es [] (some t) none h = refl
  found_or_added-null es (i ∷ ids) (some t) none h = rw (features_with_info-null _ _ h) refl
  found_or_added-null es ids t (some e) h = rw (features_with_info-null _ _ h) refl

  round-null :
      (info : EntityDescription) (a : EntityAddress) (i : ℕ) (ids : List ℕ)
      (rest : List (Option EntityDescription))
      → info.entity_address ≡ some a
      → a.entity ≡ some (i ∷ ids)
      → has_null discovery.feature_information ≡ true
      → add_loop d true discovery d.entities [] (some info ∷ rest) ≡ none
  unfolding add_loop is_ok
  round-null info a i ids rest p q h = rw (p, q, found_or_added-null _ _ _ _ h) refl

  -- A first detailed discovery whose first listed entity has a description with an address that is
  -- not empty, and in which the description of some feature is NULL, reads through a NULL pointer.
  pub add_entity_and_features-null :
      (info : EntityDescription) (a : EntityAddress) (i : ℕ) (ids : List ℕ)
      (rest : List (Option EntityDescription))
      → discovery.entity_information ≡ some info ∷ rest
      → info.entity_address ≡ some a
      → a.entity ≡ some (i ∷ ids)
      → has_null discovery.feature_information ≡ true
      → add_entity_and_features d true discovery ≡ none
  unfolding add_entity_and_features
  add_entity_and_features-null info a i ids rest e p q h =
      ap (add_loop d true discovery d.entities []) e ∙ round-null info a i ids rest p q h
