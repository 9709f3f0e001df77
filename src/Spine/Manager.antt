-- ===== src/Spine/Manager.antt =====
-- The subscription and the binding manager: src/spine/subscription/subscription_manager.c and
-- src/spine/binding/binding_manager.c. Both keep a number and a container of links. An operation
-- returns the events that it publishes; `none` is a read through a NULL pointer.
pub mod Request
pub mod Delete
pub mod Release
pub mod Report
pub mod Removal
pub mod Notification
pub mod Exclusive
pub mod RoundTrip
pub mod Entries
pub mod Answer
use openeebus.Prelude.{
  ℕ, zero, suc, ◌+◌, ◌%◌, ◌^◌, if◌then◌else◌, Bool, true, false, not, ◌&&◌, ◌||◌, Option, none,
  some, List, [], ◌∷◌, ◌++◌, get_elem?, length,
}
use openeebus.Common.Error.{EebusError}
use openeebus.Spine.Address.{FeatureAddress}
use openeebus.Spine.Device.{
  Feature, Entity, DeviceLocal, DeviceRemote, RoleType, is_server, parameters_match, local_feature,
  remote_feature, get_feature_with_id,
}
use openeebus.Spine.FeatureLink.{
  FeatureLink, Search, crash, missing, found, find, has_server, add, remove, remote_entity_match,
  remote_device_match, remote_device_match_num,
}

-- `SubscriptionManager`; `BindingManager` has the same fields.
pub record Manager : Type 0 where
  pub local_device : DeviceLocal
  pub num : ℕ
  pub entries : List FeatureLink

-- `SubscriptionManagementRequestCallType` and `BindingManagementRequestCallType`.
pub record RequestCall : Type 0 where
  pub client_address : Option FeatureAddress
  pub server_address : Option FeatureAddress
  pub server_feature_type : Option ℕ

-- `SubscriptionManagementDeleteCallType` and `BindingManagementDeleteCallType`.
pub record DeleteCall : Type 0 where
  pub client_address : Option FeatureAddress
  pub server_address : Option FeatureAddress

-- `SubscriptionManagementEntryDataType` and `BindingManagementEntryDataType`.
pub record LinkEntry : Type 0 where
  pub id : ℕ
  pub server_address : FeatureAddress
  pub client_address : FeatureAddress

pub data ElementChange : Type 0 where
  change_add change_remove : ElementChange

pub record EventPayload : Type 0 where
  pub ski : List ℕ
  pub change_type : ElementChange
  pub feature : Option Feature
  pub local_feature : Option Feature

-- The manager, the error code and the events of a call.
abbrev pub Call : Type 0
Call = Option (Manager × EebusError × List EventPayload)

-- `GetNextSubscriptionId` and `GetNextBindingId`, of 64 bits.
abbrev pub next_num : ℕ → ℕ
next_num n = (n + 1) % 2 ^ 64

abbrev pub unchanged : Manager → Call
unchanged m = some (m, EebusError.no_change, [])
