-- ===== src/Spine/Discovery/Entities.antt =====
-- The entities of a remote device, searched, replaced and appended: src/spine/device/device_remote.c.
use openeebus.Prelude.{
  ℕ, ◌≡◌, refl, sym, ap, subst, inl, inr, true, false, Bool-cases, Option, none, some, List, [],
  ◌∷◌, ◌++◌, arith,
}
use openeebus.Spine.Address.{match_ids, match_ids_≡, same_list_≡}
use openeebus.Spine.Device.{Feature, Entity, get_entity}
use openeebus.Spine.Discovery.{
  FeatureDescription, create_with_info, features_with_info, info_then, with_device_address,
  put_entity,
}

pub match_ids_refl : (i : ℕ) (ids : List ℕ) → match_ids (i ∷ ids) (i ∷ ids) ≡ true
match_ids_refl i ids = (same_list_≡ (i ∷ ids) (i ∷ ids)).1 refl

pub get_entity-match :
    (es : List Entity) (ids : List ℕ) (e : Entity)
    → get_entity es ids ≡ some e
    → match_ids e.ids ids ≡ true
get_entity-match [] ids e h = ground arith
get_entity-match (x ∷ es) ids e h = elim (Bool-cases (match_ids x.ids ids)) [
  | inl t ↦ ground (arith, t, h)
  | inr n ↦ get_entity-match es ids e (ground (arith, n, h))
]

pub get_entity-put :
    (es : List Entity) (ids : List ℕ) (e new : Entity)
    → get_entity es ids ≡ some e
    → match_ids new.ids ids ≡ true
    → get_entity (put_entity es ids new) ids ≡ some new
get_entity-put [] ids e new h m = ground arith
get_entity-put (x ∷ es) ids e new h m = elim (Bool-cases (match_ids x.ids ids)) [
  | inl t ↦ ground (arith, t, m)
  | inr n ↦ ground (arith, n, get_entity-put es ids e new)
]

pub match_ids-other :
    (xs ids ids' : List ℕ)
    → match_ids xs ids ≡ true
    → match_ids ids ids' ≡ false
    → match_ids xs ids' ≡ false
match_ids-other xs ids ids' t n =
    subst (λ ys. match_ids ys ids' ≡ false) (sym (match_ids_≡ xs ids t)) n

pub get_entity-put_other :
    (es : List Entity) (ids ids' : List ℕ) (new : Entity)
    → match_ids new.ids ids ≡ true
    → match_ids ids ids' ≡ false
    → get_entity (put_entity es ids new) ids' ≡ get_entity es ids'
get_entity-put_other [] ids ids' new m o = refl
get_entity-put_other (x ∷ es) ids ids' new m o = elim (Bool-cases (match_ids x.ids ids)) [
  | inl t ↦ rw (t, match_ids-other x.ids ids ids' t o, match_ids-other new.ids ids ids' m o) refl
  | inr n ↦ rw (n, get_entity-put_other es ids ids' new m o) refl
]

pub get_entity-append :
    (es : List Entity) (ids : List ℕ) (e : Entity)
    → get_entity es ids ≡ none
    → match_ids e.ids ids ≡ true
    → get_entity (es ++ e ∷ []) ids ≡ some e
get_entity-append [] ids e h m = rw m refl
get_entity-append (x ∷ es) ids e h m = elim (Bool-cases (match_ids x.ids ids)) [
  | inl t ↦ absurd (ground (arith, t, h))
  | inr n ↦ ground (arith, n, get_entity-append es ids e)
]

pub get_entity-append_other :
    (es : List Entity) (ids' : List ℕ) (e : Entity)
    → match_ids e.ids ids' ≡ false
    → get_entity (es ++ e ∷ []) ids' ≡ get_entity es ids'
get_entity-append_other [] ids' e o = rw o refl
get_entity-append_other (x ∷ es) ids' e o = elim (Bool-cases (match_ids x.ids ids')) [
  | inl t ↦ rw t refl
  | inr n ↦ rw (n, get_entity-append_other es ids' e o) refl
]

-- The created features do not depend on those that the entity had.
pub features_with_info-features :
    (e : Entity) (fs : List Feature) (infos : List (Option FeatureDescription))
    → features_with_info (record e { features = fs }) infos ≡ features_with_info e infos
unfolding features_with_info create_with_info
features_with_info-features e fs [] = refl
features_with_info-features e fs (none ∷ infos) = refl
features_with_info-features e fs (some info ∷ infos) =
    ap (info_then e (some info)) (features_with_info-features e fs infos)

pub with_device_address-ids :
    (e : Entity) (o : Option (List ℕ)) → (with_device_address e o).ids ≡ e.ids
with_device_address-ids e o = ground arith
