-- ===== src/Spine/Device/Placed.antt =====
-- A local device whose features carry the addresses at which they stand.
use openeebus.Prelude.{ℕ, true, ◌≡◌, Option, none, some, List, [], ◌∷◌, Bool-cases, inl, inr, arith}
use openeebus.Spine.Address.{FeatureAddress, match_ids, match_ids_≡, same_list, same_list_≡}
use openeebus.Spine.Device.{
  Feature, Entity, DeviceLocal, find_id, has_id, get_entity, get_feature_with_id, feature_of,
  local_feature,
}

pub data Placed (device ids : List ℕ) : List Feature → Type 0 where
  nothing : Placed device ids []
  also :
      {f : Feature} {fs : List Feature}
      → f.address.device ≡ some device
      → f.address.entity ≡ ids
      → Placed device ids fs
      → Placed device ids (f ∷ fs)

pub data AllPlaced (device : List ℕ) : List Entity → Type 0 where
  nothing : AllPlaced device []
  also :
      {e : Entity} {es : List Entity}
      → Placed device e.ids e.features
      → AllPlaced device es
      → AllPlaced device (e ∷ es)

abbrev pub at : List ℕ → List ℕ → Option ℕ → FeatureAddress
at device ids id = record { device = some device; entity = ids; feature = id }

has_id_≡ : (o : Option ℕ) (id : ℕ) → has_id o id ≡ true → o ≡ some id
has_id_≡ none id h = ground arith
has_id_≡ (some i) id h = ground arith

find_id-address :
    {device ids : List ℕ} {fs : List Feature} (id : ℕ) {f : Feature}
    → Placed device ids fs
    → find_id fs id ≡ some f
    → f.address ≡ at device ids (some id)
find_id-address id nothing h = ground arith
find_id-address {fs = g ∷ gs} id {f} (also d e p) h =
    ground (arith, has_id_≡ g.address.feature id, find_id-address id {f = f} p)

with_id-address :
    {device ids : List ℕ} {fs : List Feature} (id : Option ℕ) {f : Feature}
    → Placed device ids fs
    → get_feature_with_id fs id ≡ some f
    → f.address ≡ at device ids id
with_id-address none p h = ground arith
with_id-address (some id) p h = find_id-address id p h

entity-address :
    {device : List ℕ} {es : List Entity} (ids : List ℕ) (id : Option ℕ) {f : Feature}
    → AllPlaced device es
    → feature_of (get_entity es ids) id ≡ some f
    → f.address ≡ at device ids id
entity-address ids id nothing h = ground arith
entity-address {es = e ∷ es} ids id {f} (also p q) h = elim (Bool-cases (match_ids e.ids ids)) [
  | inl m ↦ ground (arith, match_ids_≡ e.ids ids m, with_id-address id {f = f} p)
  | inr m ↦ ground (arith, entity-address ids id {f = f} q)
]

-- In a local device whose features carry their own addresses, the feature that is found at an
-- address has that address, with the device part filled in if it was absent.
pub local_feature-address :
    (d : DeviceLocal) (a : FeatureAddress) (f : Feature)
    → AllPlaced d.device_address d.entities
    → local_feature d (some a) ≡ some f
    → f.address ≡ record a { device = some d.device_address }
unfolding local_feature
local_feature-address d a f p h = ground (arith, entity-address a.entity a.feature {f = f} p)

-- With the device part present the feature has exactly the address at which it was found.
pub local_feature-present :
    (d : DeviceLocal) (a : FeatureAddress) (f : Feature) (x : List ℕ)
    → AllPlaced d.device_address d.entities
    → a.device ≡ some x
    → local_feature d (some a) ≡ some f
    → f.address ≡ a
unfolding local_feature
local_feature-present d a f x p h l = elim (Bool-cases (same_list x d.device_address)) [
  | inl s ↦ ground (arith, local_feature-address d a f p l, (same_list_≡ x d.device_address).0 s)
  | inr n ↦ absurd (ground (arith, l, n))
]
