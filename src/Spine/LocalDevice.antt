-- ===== src/Spine/LocalDevice.antt =====
-- The local device as a whole, src/spine/device/device_local.c: its features with their state, the
-- managers and the remote devices. The operations stand in the children.
pub mod NodeManagement
pub mod Dispatch
pub mod Tests
use openeebus.Prelude.{ℕ, if◌then◌else◌, Bool, true, false, Option, none, some, List, [], ◌∷◌, ◌++◌}
use openeebus.Common.Error.{EebusError}
use openeebus.Spine.Address.{FeatureAddress, same_list, compare}
use openeebus.Spine.Device.{Feature, DeviceLocal, local_feature}
use openeebus.Spine.FeatureLocal.{FeatureLocal, World, Remote, Effect, link_changed}
use openeebus.Spine.FeatureLocal.Approval.{Outcome}
use openeebus.Spine.Manager.{Manager, Call, EventPayload}

-- `DeviceLocal`. The features stand in `node` by their addresses and in `locals` with their state.
pub record LocalDevice : Type 0 where
  pub node : DeviceLocal
  pub locals : List FeatureLocal
  pub subscriptions : Manager
  pub bindings : Manager
  pub world : World

-- The device and the error of a call; `none` is an access of memory that is not there.
abbrev pub Answer : Type 0
Answer = Option (LocalDevice × EebusError)

-- The types that the dispatch compares: those of features, then those of functions.
pub record ManagementTypes : Type 0 where
  pub generic : ℕ
  pub node_management : ℕ
  pub detailed_discovery_data : ℕ
  pub subscription_data : ℕ
  pub binding_data : ℕ
  pub use_case_data : ℕ
  pub destination_list_data : ℕ

abbrev pub find_local : List FeatureLocal → FeatureAddress → Option FeatureLocal
find_local [] a = none
find_local (fl ∷ fls) a =
    let rest = find_local fls a in if compare fl.address a then some fl else rest

abbrev put_local : List FeatureLocal → FeatureLocal → List FeatureLocal
put_local [] new = []
put_local (fl ∷ fls) new =
    if compare fl.address new.address then new ∷ fls else fl ∷ put_local fls new

abbrev pub state_of : LocalDevice → Option Feature → Option FeatureLocal
state_of d none = none
state_of d (some f) = find_local d.locals f.address

-- `GetFeatureWithAddress` with the state of the feature.
unfoldable pub feature_at : LocalDevice → Option FeatureAddress → Option FeatureLocal
feature_at d a = state_of d (local_feature d.node a)

abbrev pub kept : LocalDevice → Outcome → LocalDevice × EebusError
kept d (fl, w, err) = (record d { locals = put_local d.locals fl; world = w }, err)

abbrev pub answered : LocalDevice → Option Outcome → Answer
answered d none = none
answered d (some o) = some (kept d o)

abbrev link_changes : List EventPayload → List Effect
link_changes [] = []
link_changes (ev ∷ evs) = link_changed ev ∷ link_changes evs

abbrev pub with_events : World → List EventPayload → World
with_events w evs = record w { log = w.log ++ link_changes evs }

-- The device after a call of one of its managers.
abbrev pub after_subscriptions : LocalDevice → Call → Answer
after_subscriptions d none = none
after_subscriptions d (some (m, err, evs)) =
    some (record d { subscriptions = m; world = with_events d.world evs }, err)

abbrev pub after_bindings : LocalDevice → Call → Answer
after_bindings d none = none
after_bindings d (some (m, err, evs)) =
    some (record d { bindings = m; world = with_events d.world evs }, err)

-- The remote device with an SKI, `GetRemoteDeviceWithSki`.
abbrev find_ski : List Remote → List ℕ → Option Remote
find_ski [] ski = none
find_ski (r ∷ rs) ski =
    let rest = find_ski rs ski in if same_list r.device.ski ski then some r else rest

unfoldable pub remote_with_ski : LocalDevice → List ℕ → Option Remote
remote_with_ski d ski = find_ski d.world.remotes ski
