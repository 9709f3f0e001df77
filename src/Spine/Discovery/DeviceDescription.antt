-- ===== src/Spine/Discovery/DeviceDescription.antt =====
-- `UpdateDevice` of src/spine/device/device_remote.c with the memory that it takes and gives back.
use openeebus.Prelude.{ℕ, suc, ◌≡◌, refl, Option, none, some, List, [], ◌∷◌, ◌++◌}

-- `Device`: the address, and the places in memory of the type and the feature set, NULL being `none`.
-- `freed` are the places that were given back, in order, and `next` is the next free one: what was
-- given back is not taken again.
pub record Device : Type 0 where
  pub address : Option (List ℕ)
  pub device_type : Option ℕ
  pub feature_set : Option ℕ
  pub next : ℕ
  pub freed : List ℕ

-- `NetworkManagementDeviceDescriptionDataType`.
pub record DeviceDescription : Type 0 where
  pub device_address : Option (List ℕ)
  pub device_type : Option ℕ
  pub network_feature_set : Option ℕ

-- `Int32Delete`, which does nothing on NULL.
abbrev delete : Device → Option ℕ → Device
delete d none = d
delete d (some p) = record d { freed = d.freed ++ p ∷ [] }

abbrev or_old : Option (List ℕ) → Option (List ℕ) → Option (List ℕ)
or_old none old = old
or_old (some new) old = some new

abbrev update_address : Device → Option (List ℕ) → Device
update_address d address = record d { address = or_old address d.address }

-- The feature set is deleted here too.
abbrev update_type : Device → Option ℕ → Device
update_type d none = d
update_type d (some t) =
    let d' = delete d d.feature_set in record d' { device_type = some d'.next; next = suc d'.next }

abbrev update_feature_set : Device → Option ℕ → Device
update_feature_set d none = d
update_feature_set d (some s) =
    let d' = delete d d.feature_set in record d' { feature_set = some d'.next; next = suc d'.next }

-- `UpdateDevice`; the description may be NULL.
unfoldable pub update_device : Device → Option DeviceDescription → Device
update_device d none = d
update_device d (some description) =
    update_feature_set
      (update_type (update_address d description.device_address) description.device_type)
      description.network_feature_set

-- On a device without a feature set that gave nothing back, two descriptions that both have a type
-- and a feature set give the place of the first feature set back twice, and no other.
pub update_device-twice :
    (d : Device) (description description' : DeviceDescription) (t s t' s' : ℕ)
    → d.feature_set ≡ none
    → d.freed ≡ []
    → description.device_type ≡ some t
    → description.network_feature_set ≡ some s
    → description'.device_type ≡ some t'
    → description'.network_feature_set ≡ some s'
    → (update_device (update_device d (some description)) (some description')).freed
      ≡ suc d.next ∷ suc d.next ∷ []
unfolding update_device
update_device-twice d x y t s t' s' n f a b a' b' = rw (a, b, a', b', n, f) refl
