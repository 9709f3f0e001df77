-- ===== src/Spine/Discovery/Given.antt =====
-- The features that the feature descriptions of a detailed discovery give, without the code, and
-- `EntityRemoteAddFeaturesWithInfo` of src/spine/device/device_remote.c.
use openeebus.Prelude.{
  ℕ, ◌≡◌, refl, sym, subst, ◌⊎◌, inl, inr, true, Bool-cases, Option-cases, Option, none, some,
  some-inj, List, [], ◌∷◌, arith,
}
use openeebus.Spine.Address.{FeatureAddress, match_ids, match_ids_≡}
use openeebus.Spine.Device.{Feature, Entity, RoleType}
use openeebus.Spine.Discovery.{
  FeatureDescription, create_with_info, features_with_info, feature_with, info_then, before,
}

-- The features of the entity with a device and a list: of each description with the entity's list, an
-- id, a type and a role there is the feature, and there are no others.
pub data Given (device : Option (List ℕ)) (ids : List ℕ)
    : List (Option FeatureDescription) → List Feature → Type 0 where
  nothing : Given device ids [] []
  unaddressed :
      {info : FeatureDescription} {infos : List (Option FeatureDescription)} {fs : List Feature}
      → info.feature_address ≡ none
      → Given device ids infos fs
      → Given device ids (some info ∷ infos) fs
  elsewhere :
      {info : FeatureDescription} {infos : List (Option FeatureDescription)} {fs : List Feature}
      (a : FeatureAddress)
      → info.feature_address ≡ some a
      → ¬ (a.entity ≡ ids)
      → Given device ids infos fs
      → Given device ids (some info ∷ infos) fs
  incomplete :
      {info : FeatureDescription} {infos : List (Option FeatureDescription)} {fs : List Feature}
      (a : FeatureAddress)
      → info.feature_address ≡ some a
      → a.entity ≡ ids
      → (a.feature ≡ none) ⊎ (info.feature_type ≡ none) ⊎ (info.role ≡ none)
      → Given device ids infos fs
      → Given device ids (some info ∷ infos) fs
  created :
      {info : FeatureDescription} {infos : List (Option FeatureDescription)} {fs : List Feature}
      (a : FeatureAddress) (n t : ℕ) (role : RoleType)
      → info.feature_address ≡ some a
      → a.entity ≡ ids
      → a.feature ≡ some n
      → info.feature_type ≡ some t
      → info.role ≡ some role
      → Given device ids infos fs
      → Given device ids (some info ∷ infos) (
          record {
            address = record { device = device; entity = ids; feature = some n };
            role = role;
            feature_type = t;
          }
          ∷ fs)

module _ (e : Entity) (nonempty : match_ids e.ids e.ids ≡ true) where
  created-with :
      (info : FeatureDescription) (a : FeatureAddress) (oa ot : Option ℕ) (orole : Option RoleType)
      → info.feature_address ≡ some a
      → a.feature ≡ oa
      → info.feature_type ≡ ot
      → info.role ≡ orole
      → create_with_info e info ≡ feature_with e oa ot orole
  unfolding create_with_info
  created-with info a oa ot orole p ka kt kr = rw (p, ka, kt, kr) refl

  module _ (info : FeatureDescription) (infos : List (Option FeatureDescription))
      (gs : List Feature) (a : FeatureAddress) (p : info.feature_address ≡ some a)
      (g : Given e.device e.ids infos gs) where
    same :
        (fs : List Feature)
        → ◌≡◌ {A = Option (List Feature)} (some gs) (some fs)
        → Given e.device e.ids (some info ∷ infos) gs
        → Given e.device e.ids (some info ∷ infos) fs
    same fs h given = subst (Given e.device e.ids (some info ∷ infos)) (some-inj h) given

    own_list :
        (fs : List Feature) (oa ot : Option ℕ) (orole : Option RoleType)
        → a.entity ≡ e.ids
        → a.feature ≡ oa
        → info.feature_type ≡ ot
        → info.role ≡ orole
        → before (feature_with e oa ot orole) (some gs) ≡ some fs
        → Given e.device e.ids (some info ∷ infos) fs
    own_list fs none ot orole q ka kt kr h = same fs h (incomplete a p q (inl ka) g)
    own_list fs (some n) none orole q ka kt kr h = same fs h (incomplete a p q (inr (inl kt)) g)
    own_list fs (some n) (some t) none q ka kt kr h = same fs h (incomplete a p q (inr (inr kr)) g)
    own_list fs (some n) (some t) (some role) q ka kt kr h =
        subst (Given e.device e.ids (some info ∷ infos)) (some-inj h)
          (created a n t role p q ka kt kr g)

    addressed :
        (fs : List Feature)
        → info_then e (some info) (some gs) ≡ some fs
        → Given e.device e.ids (some info ∷ infos) fs
    addressed fs h = elim (Bool-cases (match_ids e.ids a.entity)) [
      | inl t ↦
          own_list fs a.feature info.feature_type info.role (sym (match_ids_≡ e.ids a.entity t))
            refl refl refl
            (subst (λ o. before o (some gs) ≡ some fs)
              (created-with info a a.feature info.feature_type info.role p refl refl refl)
              (ground (arith, p, t, h)))
      | inr o ↦ same fs (ground (arith, p, o, h)) (
          elsewhere a p
            (λ q.
              absurd
                (ground (arith, o, subst (λ ids. match_ids e.ids ids ≡ true) (sym q) nonempty)))
            g)
    ]

  addressed_or_not :
      (info : FeatureDescription) (infos : List (Option FeatureDescription)) (fs gs : List Feature)
      (o : Option FeatureAddress)
      → info.feature_address ≡ o
      → info_then e (some info) (some gs) ≡ some fs
      → Given e.device e.ids infos gs
      → Given e.device e.ids (some info ∷ infos) fs
  addressed_or_not info infos fs gs none p h g =
      subst (Given e.device e.ids (some info ∷ infos)) (some-inj (ground (arith, p, h)))
        (unaddressed p g)
  addressed_or_not info infos fs gs (some a) p h g = addressed info infos gs a p g fs h

  -- The features that the code creates are those that are given.
  pub features_with_info-Given :
      (infos : List (Option FeatureDescription)) (fs : List Feature)
      → features_with_info e infos ≡ some fs
      → Given e.device e.ids infos fs
  unfolding features_with_info
  features_with_info-Given [] fs h = subst (Given e.device e.ids []) (some-inj h) nothing
  features_with_info-Given (none ∷ infos) fs h = absurd (cc h)
  features_with_info-Given (some info ∷ infos) fs h =
      elim (Option-cases (features_with_info e infos)) [
        | inl n ↦ absurd (ground (arith, n, h))
        | inr (gs, y) ↦
            addressed_or_not info infos fs gs info.feature_address refl
              (subst (λ o. info_then e (some info) o ≡ some fs) y h)
              (features_with_info-Given infos gs y)
      ]
