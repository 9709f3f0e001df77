-- ===== src/Spine/Discovery.antt =====
-- What a detailed discovery makes of a remote device, src/spine/device/device_remote.c: the entities
-- and features that the peer describes. Descriptive texts, response delays and the supported
-- functions are left out. `none` is an access through a NULL pointer or past
-- the end of a buffer.
pub mod Entities
pub mod Description
pub mod Mirror
pub mod RoundTrip
pub mod Rounds
pub mod Given
pub mod Features
pub mod Undescribed
pub mod DeviceDescription
pub mod Tests
use openeebus.Prelude.{
  ℕ, ◌==◌, if◌then◌else◌, Bool, true, false, ◌&&◌, not, Option, none, some, List, [], ◌∷◌, ◌++◌,
}
use openeebus.Common.Error.{EebusError, is_ok}
use openeebus.Spine.Address.{FeatureAddress, match_ids, same_list}
use openeebus.Spine.Device.{Feature, Entity, DeviceRemote, RoleType, get_entity}

-- `NetworkManagementFeatureDescriptionDataType`.
pub record FeatureDescription : Type 0 where
  pub feature_address : Option FeatureAddress
  pub feature_type : Option ℕ
  pub role : Option RoleType

-- `EntityAddressType`. The list of entities may be NULL.
pub record EntityAddress : Type 0 where
  pub device : Option (List ℕ)
  pub entity : Option (List ℕ)

-- `NetworkManagementEntityDescriptionDataType`.
pub record EntityDescription : Type 0 where
  pub entity_address : Option EntityAddress
  pub entity_type : Option ℕ

-- `NodeManagementDetailedDiscoveryDataType`: the address of the device, and for each entity and for
-- each feature its description, which may be NULL.
pub record DiscoveryData : Type 0 where
  pub device : Option (List ℕ)
  pub entity_information : List (Option EntityDescription)
  pub feature_information : List (Option FeatureDescription)

abbrev pub feature_with : Entity → Option ℕ → Option ℕ → Option RoleType → Option Feature
feature_with e (some id) (some t) (some role) = some (record {
  address = record { device = e.device; entity = e.ids; feature = some id };
  role = role;
  feature_type = t;
})
feature_with e _ _ _ = none

abbrev id_of : Option FeatureAddress → Option ℕ
id_of none = none
id_of (some a) = a.feature

-- `FeatureRemoteCreateWithInfo`; `none` is that no feature is created.
unfoldable pub create_with_info : Entity → FeatureDescription → Option Feature
create_with_info e info = feature_with e (id_of info.feature_address) info.feature_type info.role

-- `EntityIdsMatch`.
abbrev entity_ids_match : Entity → Option FeatureAddress → Bool
entity_ids_match e none = false
entity_ids_match e (some a) = match_ids e.ids a.entity

abbrev before : Option Feature → Option (List Feature) → Option (List Feature)
before f none = none
before none (some fs) = some fs
before (some f) (some fs) = some (f ∷ fs)

abbrev pub info_then :
    Entity → Option FeatureDescription → Option (List Feature) → Option (List Feature)
info_then e none rest = none
info_then e (some info) rest =
    if entity_ids_match e info.feature_address then before (create_with_info e info) rest else rest

-- `EntityRemoteAddFeaturesWithInfo` on an entity whose features are removed.
unfoldable pub features_with_info :
    Entity → List (Option FeatureDescription) → Option (List Feature)
features_with_info e [] = some []
features_with_info e (info ∷ infos) = info_then e info (features_with_info e infos)

abbrev is_absent : Option (List ℕ) → Bool
is_absent none = true
is_absent (some []) = true
is_absent (some (_ ∷ _)) = false

abbrev or_none : Option (List ℕ) → Option (List ℕ) → Option (List ℕ)
or_none none old = old
or_none (some new) old = some new

-- The device part of an entity that has none is set.
abbrev pub with_device_address : Entity → Option (List ℕ) → Entity
with_device_address e device =
    if is_absent e.device then record e { device = or_none device e.device } else e

-- `GetEntity` and the entities with one of them replaced.
abbrev pub put_entity : List Entity → List ℕ → Entity → List Entity
put_entity [] ids new = []
put_entity (e ∷ es) ids new = if match_ids e.ids ids then new ∷ es else e ∷ put_entity es ids new

-- The entities of the device and the new ones among them; no list is the error.
abbrev pub Added : Type 0
Added = Option (List Entity × Option (List (List ℕ)))

-- `AddEntityWithAddressAndType` for an entity that is not there yet.
abbrev new_entity : DeviceRemote → List ℕ → ℕ → Entity
new_entity d ids t = record { device = d.device_address; ids = ids; entity_type = t; features = [] }

abbrev differs : Option (List ℕ) → Option (List ℕ) → Bool
differs (some a) (some b) = not (same_list a b)
differs _ _ = false

-- `CheckEntityInformation` on an address with its list of entities.
abbrev check_device : DeviceRemote → Bool → EntityAddress → EebusError
check_device d init a =
    if not init && differs a.device d.device_address
    then EebusError.input_argument
    else EebusError.ok

module _ (d : DeviceRemote) (init : Bool) (discovery : DiscoveryData) where
  abbrev pub put_features :
      List Entity → List ℕ → Entity → Option (List Feature) → Option (List Entity)
  put_features es ids e none = none
  put_features es ids e (some fs) = some (put_entity es ids (record e { features = fs }))

  abbrev pub described : List Entity → List ℕ → Entity → Option (List Entity)
  described es ids e =
      let e' = with_device_address e discovery.device in
      put_features es ids e' (features_with_info e' discovery.feature_information)

  abbrev pub with_added :
      List (List ℕ) → Option (List Entity) → Option (List Entity × List (List ℕ))
  with_added added none = none
  with_added added (some es) = some (es, added)

  -- `AddEntityWithAddressAndType` of an entity that is not there yet, which is then described. For an
  -- empty list it reads past the end of an empty buffer, or through the NULL that the allocation
  -- returns.
  abbrev pub appended : List Entity → List ℕ → ℕ → Option (List Entity × List (List ℕ))
  appended es [] t = none
  appended es (i ∷ ids) t =
      let e = new_entity d (i ∷ ids) t in
      with_added ((i ∷ ids) ∷ []) (described (es ++ e ∷ []) (i ∷ ids) e)

  -- The entity is found or added, and then described. Its type is read if it is added.
  abbrev pub found_or_added :
      List Entity → List ℕ → Option ℕ → Option Entity → Option (List Entity × List (List ℕ))
  found_or_added es ids t (some e) = with_added [] (described es ids e)
  found_or_added es ids none none = none
  found_or_added es ids (some t) none = appended es ids t

  abbrev pub then_entities :
      List (List ℕ)
      → Option (List Entity × List (List ℕ))
      → (List Entity → List (List ℕ) → Added)
      → Added
  then_entities new none f = none
  then_entities new (some (es, added)) f = f es (new ++ added)

  abbrev pub checked :
      List Entity
      → List (List ℕ)
      → Option ℕ
      → List ℕ
      → EebusError
      → (List Entity → List (List ℕ) → Added)
      → Added
  checked es new t ids err f =
      if is_ok err
      then then_entities new (found_or_added es ids t (get_entity es ids)) f
      else some (es, none)

  abbrev pub with_ids :
      List Entity
      → List (List ℕ)
      → Option ℕ
      → EebusError
      → Option (List ℕ)
      → (List Entity → List (List ℕ) → Added)
      → Added
  with_ids es new t err none f = some (es, none)
  with_ids es new t err (some ids) f = checked es new t ids err f

  abbrev pub with_address :
      List Entity
      → List (List ℕ)
      → Option ℕ
      → Option EntityAddress
      → (List Entity → List (List ℕ) → Added)
      → Added
  with_address es new t none f = some (es, none)
  with_address es new t (some a) f = with_ids es new t (check_device d init a) a.entity f

  abbrev pub entity_round :
      List Entity
      → List (List ℕ)
      → Option EntityDescription
      → (List Entity → List (List ℕ) → Added)
      → Added
  entity_round es new none f = some (es, none)
  entity_round es new (some info) f = with_address es new info.entity_type info.entity_address f

  -- The loop of `AddEntityAndFeatures`.
  unfoldable pub add_loop : List Entity → List (List ℕ) → List (Option EntityDescription) → Added
  add_loop es new [] = some (es, some new)
  add_loop es new (info ∷ infos) = entity_round es new info (λ es' new'. add_loop es' new' infos)

  -- `AddEntityAndFeatures`.
  unfoldable pub add_entity_and_features : Added
  add_entity_and_features = add_loop d.entities [] discovery.entity_information
