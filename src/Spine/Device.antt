-- ===== src/Spine/Device.antt =====
-- The features of a device and their lookup: src/spine/device/device_local.c, device_remote.c,
-- src/spine/entity/entity_local.c, entity_remote.c and src/spine/feature/feature.c.
pub mod Placed
use openeebus.Prelude.{
  ℕ, ◌==◌, if◌then◌else◌, Bool, true, false, ◌&&◌, ◌||◌, not, ◌≡◌, ◌≢◌, refl, inl, inr, Bool-cases,
  Option, none, some, List, [], ◌∷◌, arith,
}
use openeebus.Spine.Address.{FeatureAddress, same_list, match_ids, match_ids_≡}

pub data RoleType : Type 0 where
  client server special : RoleType

-- A feature type is a number, `generic` that of `kFeatureTypeTypeGeneric`.
pub record Feature : Type 0 where
  pub address : FeatureAddress
  pub role : RoleType
  pub feature_type : ℕ

pub record Entity : Type 0 where
  pub device : Option (List ℕ)
  pub ids : List ℕ
  pub entity_type : ℕ
  pub features : List Feature

-- The address of the local device is set before a peer can send.
pub record DeviceLocal : Type 0 where
  pub device_address : List ℕ
  pub entities : List Entity

pub record DeviceRemote : Type 0 where
  pub ski : List ℕ
  pub device_address : Option (List ℕ)
  pub entities : List Entity

abbrev same_role : RoleType → RoleType → Bool
same_role client client = true
same_role server server = true
same_role special special = true
same_role _ _ = false

abbrev pub is_server : RoleType → Bool
is_server r = same_role r server

-- `FeatureParametersMatch`, on a pointer that may be NULL.
unfoldable pub parameters_match : ℕ → Option Feature → RoleType → ℕ → Bool
parameters_match generic none role feature_type = false
parameters_match generic (some f) role feature_type =
    (same_role f.role special || same_role f.role role)
    && (f.feature_type == generic || f.feature_type == feature_type)

-- `GetEntity`.
abbrev pub get_entity : List Entity → List ℕ → Option Entity
get_entity [] ids = none
get_entity (e ∷ es) ids =
    let rest = get_entity es ids in if match_ids e.ids ids then some e else rest

abbrev pub has_id : Option ℕ → ℕ → Bool
has_id none id = false
has_id (some i) id = i == id

abbrev pub find_id : List Feature → ℕ → Option Feature
find_id [] id = none
find_id (f ∷ fs) id =
    let rest = find_id fs id in if has_id f.address.feature id then some f else rest

-- `GetFeatureWithId`.
abbrev pub get_feature_with_id : List Feature → Option ℕ → Option Feature
get_feature_with_id features none = none
get_feature_with_id features (some id) = find_id features id

abbrev pub feature_of : Option Entity → Option ℕ → Option Feature
feature_of none id = none
feature_of (some e) id = get_feature_with_id e.features id

abbrev pub is_other_device : Option (List ℕ) → List ℕ → Bool
is_other_device none own = false
is_other_device (some d) own = not (same_list d own)

-- `GetFeatureWithAddress` of the local device.
unfoldable pub local_feature : DeviceLocal → Option FeatureAddress → Option Feature
local_feature d none = none
local_feature d (some a) =
    if is_other_device a.device d.device_address
    then none
    else feature_of (get_entity d.entities a.entity) a.feature

-- `GetFeatureWithAddress` of a remote device, which does not look at the device part.
unfoldable pub remote_feature : DeviceRemote → FeatureAddress → Option Feature
remote_feature d a = feature_of (get_entity d.entities a.entity) a.feature
