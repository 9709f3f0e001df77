-- ===== src/Spine/Manager/Delete.antt =====
-- `RemoveSubscription`, `RemoveBinding` and `HasBinding`.
use openeebus.Prelude.{ℕ, if◌then◌else◌, Bool, true, false, Option, none, some, List, [], ◌∷◌}
use openeebus.Common.Error.{EebusError}
use openeebus.Spine.Address.{FeatureAddress}
use openeebus.Spine.Device.{Feature, DeviceRemote, is_server, local_feature, remote_feature}
use openeebus.Spine.FeatureLink.{Search, crash, missing, found, find, remove}
use openeebus.Spine.Manager.{Manager, Call, DeleteCall, ElementChange, unchanged}

-- An absent device part is filled in.
abbrev pub or_device : Option (List ℕ) → Option (List ℕ) → Option (List ℕ)
or_device (some d) own = some d
or_device none own = own

abbrev pub with_device : FeatureAddress → Option (List ℕ) → FeatureAddress
with_device a own = record a { device = or_device a.device own }

abbrev pub drop_link : Search → Manager → DeviceRemote → Feature → Feature → Call
drop_link crash m d server client = none
drop_link missing m d server client = unchanged m
drop_link (found i) m d server client = some (
  record m { entries = remove m.entries i },
  EebusError.ok,
  record {
    ski = d.ski;
    change_type = ElementChange.change_remove;
    feature = some client;
    local_feature = some server;
  }
      ∷ [],
)

abbrev pub remove_found :
    Manager
    → DeviceRemote
    → FeatureAddress
    → FeatureAddress
    → Option Feature
    → Option Feature
    → Call
remove_found m d sa ca server none = some (m, EebusError.input_argument_null, [])
remove_found m d sa ca none (some client) = unchanged m
remove_found m d sa ca (some server) (some client) =
    drop_link (find m.entries (some sa) ca) m d server client

-- `RemoveSubscription`.
abbrev pub unsubscribe :
    Manager → DeviceRemote → Option FeatureAddress → Option FeatureAddress → Call
unsubscribe m d (some client_address) (some server_address) =
    let ca = with_device client_address d.device_address in
    let sa = with_device server_address (some m.local_device.device_address) in
    remove_found m d sa ca (local_feature m.local_device (some sa)) (remote_feature d ca)
unsubscribe m d _ _ = none

unfoldable pub remove_subscription : Manager → DeviceRemote → DeleteCall → Call
remove_subscription m d request = unsubscribe m d request.client_address request.server_address

-- `RemoveBinding`: the server feature must have the role of a server.
abbrev pub unbind_found :
    Manager
    → DeviceRemote
    → FeatureAddress
    → FeatureAddress
    → Option Feature
    → Option Feature
    → Call
unbind_found m d sa ca server none = some (m, EebusError.input_argument_null, [])
unbind_found m d sa ca none (some client) = unchanged m
unbind_found m d sa ca (some server) (some client) =
    if is_server server.role
    then drop_link (find m.entries (some sa) ca) m d server client
    else unchanged m

abbrev pub unbind : Manager → DeviceRemote → Option FeatureAddress → Option FeatureAddress → Call
unbind m d (some client_address) (some server_address) =
    let ca = with_device client_address d.device_address in
    let sa = with_device server_address (some m.local_device.device_address) in
    unbind_found m d sa ca (local_feature m.local_device (some sa)) (remote_feature d ca)
unbind m d _ _ = none

unfoldable pub remove_binding : Manager → DeviceRemote → DeleteCall → Call
remove_binding m d request = unbind m d request.client_address request.server_address

-- `HasBinding`; `none` is the crash.
unfoldable pub has_binding : Manager → FeatureAddress → FeatureAddress → Option Bool
has_binding m local_addr remote_addr = elim (find m.entries (some local_addr) remote_addr) [
  | crash ↦ none
  | missing ↦ some false
  | found _ ↦ some true
]
