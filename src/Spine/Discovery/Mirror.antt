-- ===== src/Spine/Discovery/Mirror.antt =====
-- A local device that describes itself to a peer: `AddInfo` of
-- src/spine/node_management/node_management_detailed_discovery.c and `AddEntityAndFeatures` of
-- src/spine/device/device_remote.c.
use openeebus.Prelude.{
  ℕ, zero, suc, ◌≡◌, refl, sym, ap, subst, ◌∙◌, Bool, true, false, not, ◌&&◌, Bool-cases, inl, inr,
  Option, some, some-inj, List, [], ◌∷◌, ◌++◌, get_elem?, arith,
}
use openeebus.Spine.Address.{match_ids, match_ids_≡}
use openeebus.Spine.Device.{Feature, Entity}
use openeebus.Spine.Discovery.{FeatureDescription, create_with_info, features_with_info}
use openeebus.Spine.Discovery.Description.{
  feature_information, entity_information, add_entity_info, features_information, add_feature_info,
}
use openeebus.Spine.Discovery.Entities.{match_ids_refl}
use openeebus.Spine.Discovery.Features.{is_listed}

-- The features of an entity have its list and an id.
pub data Owned (ids : List ℕ) : List Feature → Type 0 where
  nothing : Owned ids []
  also :
      {f : Feature} {fs : List Feature} (n : ℕ)
      → f.address.entity ≡ ids
      → f.address.feature ≡ some n
      → Owned ids fs
      → Owned ids (f ∷ fs)

-- No entity has a list.
abbrev pub is_apart : List ℕ → List Entity → Bool
is_apart ids [] = true
is_apart ids (e ∷ es) = not (match_ids ids e.ids) && is_apart ids es

-- The entities have different lists that are not empty, and own their features.
pub data WellFormed : List Entity → Type 0 where
  nothing : WellFormed []
  also :
      {e : Entity} {es : List Entity} (i : ℕ) (ids : List ℕ)
      → e.ids ≡ i ∷ ids
      → Owned e.ids e.features
      → is_apart e.ids es ≡ true
      → WellFormed es
      → WellFormed (e ∷ es)

-- The features with another device part.
abbrev pub readdressed : Option (List ℕ) → List Feature → List Feature
readdressed device [] = []
readdressed device (f ∷ fs) =
    record f { address = record f.address { device = device } } ∷ readdressed device fs

module _ (e : Entity) (rest : List (Option FeatureDescription)) where
  -- The descriptions of features of another entity give none.
  other-Owned :
      (ids : List ℕ) (fs : List Feature)
      → Owned ids fs
      → match_ids e.ids ids ≡ false
      → features_with_info e (features_information fs ++ rest) ≡ features_with_info e rest
  unfolding features_with_info feature_information
  other-Owned ids [] o h = refl
  other-Owned ids (f ∷ fs) (also n p q o) h = rw (p, h) (other-Owned ids fs o h)

  -- Those of its own features give all of them.
  own-Owned :
      (fs : List Feature)
      → Owned e.ids fs
      → match_ids e.ids e.ids ≡ true
      → features_with_info e rest ≡ some []
      → features_with_info e (features_information fs ++ rest) ≡ some (readdressed e.device fs)
  unfolding features_with_info feature_information create_with_info
  own-Owned [] o h z = z
  own-Owned (f ∷ fs) (also n p q o) h z = rw (p, h, own-Owned fs o h z, q) refl

match_ids-flip : (a b : List ℕ) → match_ids a b ≡ false → match_ids b a ≡ false
match_ids-flip a b h = elim (Bool-cases (match_ids b a)) [
  | inl t ↦
      let same = match_ids_≡ b a t in
      absurd (
        ground (
          arith,
          h,
          subst (λ x. match_ids x b ≡ true) same (subst (λ x. match_ids b x ≡ true) (sym same) t),
        ))
  | inr f ↦ f
]

apart-elem :
    (ids : List ℕ) (es : List Entity) (k : ℕ) (x : Entity)
    → is_apart ids es ≡ true
    → get_elem? es k ≡ some x
    → match_ids ids x.ids ≡ false
apart-elem ids [] k x a g = absurd (cc g)
apart-elem ids (e ∷ es) zero x a g =
    subst (λ y. match_ids ids y.ids ≡ false) (some-inj g) (ground (arith, a))
apart-elem ids (e ∷ es) (suc k) x a g = apart-elem ids es k x (ground (arith, a)) g

-- Entities that are all apart give no features.
apart-none :
    (e : Entity) (es : List Entity)
    → WellFormed es
    → is_apart e.ids es ≡ true
    → features_with_info e (add_feature_info es) ≡ some []
unfolding features_with_info
apart-none e [] w a = refl
apart-none e (x ∷ es) (also i ids p o q w) a =
    other-Owned e (add_feature_info es) x.ids x.features o (ground (arith, a))
    ∙ apart-none e es w (ground (arith, a))

pub mirrored :
    (e : Entity) (es : List Entity) (k : ℕ) (x : Entity)
    → WellFormed es
    → get_elem? es k ≡ some x
    → x.ids ≡ e.ids
    → match_ids e.ids e.ids ≡ true
    → features_with_info e (add_feature_info es) ≡ some (readdressed e.device x.features)
mirrored e [] k x w g s m = absurd (cc g)
mirrored e (y ∷ es) zero x (also i ids p o q w) g s m =
    let same = some-inj g in
    let ids_same : y.ids ≡ e.ids = ap (λ z. z.ids) same ∙ s in
    own-Owned e (add_feature_info es) y.features (subst (λ z. Owned z y.features) ids_same o) m
      (apart-none e es w (subst (λ z. is_apart z es ≡ true) ids_same q))
    ∙ ap (λ z. some (readdressed e.device z.features)) same
mirrored e (y ∷ es) (suc k) x (also i ids p o q w) g s m =
    other-Owned e (add_feature_info es) y.ids y.features o (
      subst (λ z. match_ids z y.ids ≡ false) s
        (match_ids-flip y.ids x.ids (apart-elem y.ids es k x q g)))
    ∙ mirrored e es k x w g s m

pub elem-nonempty :
    (es : List Entity) (k : ℕ) (x : Entity)
    → WellFormed es
    → get_elem? es k ≡ some x
    → match_ids x.ids x.ids ≡ true
elem-nonempty [] k x w g = absurd (cc g)
elem-nonempty (y ∷ es) zero x (also i ids p o q w) g =
    subst (λ z. match_ids z.ids z.ids ≡ true) (some-inj g)
      (subst (λ z. match_ids z z ≡ true) (sym p) (match_ids_refl i ids))
elem-nonempty (y ∷ es) (suc k) x (also i ids p o q w) g = elem-nonempty es k x w g

pub elem-is_listed :
    (es : List Entity) (k : ℕ) (x : Entity)
    → get_elem? es k ≡ some x
    → match_ids x.ids x.ids ≡ true
    → is_listed x.ids (add_entity_info es) ≡ true
unfolding entity_information
elem-is_listed [] k x g m = absurd (cc g)
elem-is_listed (y ∷ es) zero x g m =
    let same : match_ids y.ids x.ids ≡ true =
      subst (λ z. match_ids z.ids x.ids ≡ true) (sym (some-inj g)) m in
    rw same refl
elem-is_listed (y ∷ es) (suc k) x g m = ground (arith, elem-is_listed es k x g m)
