-- ===== src/Spine/Manager/Request.antt =====
-- `AddSubscription` and `AddBinding`.
use openeebus.Prelude.{ℕ, if◌then◌else◌, Bool, true, false, ◌&&◌, Option, none, some, [], ◌∷◌}
use openeebus.Common.Error.{EebusError}
use openeebus.Spine.Address.{FeatureAddress}
use openeebus.Spine.Device.{
  Feature, DeviceRemote, RoleType, parameters_match, local_feature, remote_feature,
}
use openeebus.Spine.FeatureLink.{Search, crash, missing, found, find, has_server, add}
use openeebus.Spine.Manager.{Manager, Call, RequestCall, ElementChange, next_num, unchanged}

-- The link is added and the event published; the entity of a NULL client feature is read.
abbrev pub add_link : Manager → DeviceRemote → Option Feature → Option Feature → Call
add_link m d server none = none
add_link m d server (some client) = some (
  record m {
    num = next_num m.num;
    entries = add m.entries (record {
      id = m.num;
      server_feature = server;
      client_feature = client;
      client_ski = d.ski;
    });
  },
  EebusError.ok,
  record {
    ski = d.ski;
    change_type = ElementChange.change_add;
    feature = some client;
    local_feature = server;
  }
      ∷ [],
)

-- The test of the roles and types, if the request names a feature type.
abbrev pub admits : ℕ → Option Feature → Option Feature → Option ℕ → Bool
admits generic server client none = true
admits generic server client (some t) =
    parameters_match generic server RoleType.server t
    && parameters_match generic client RoleType.client t

abbrev pub unless_found : Search → Manager → Call → Call
unless_found crash m more = none
unless_found missing m more = more
unless_found (found i) m more = unchanged m

abbrev pub unless_bound : Option Bool → Manager → Call → Call
unless_bound none m more = none
unless_bound (some true) m more = unchanged m
unless_bound (some false) m more = more

module _ (generic : ℕ) where
  -- `AddSubscription`. The lookup of the client feature reads through the client address.
  abbrev subscribe : Manager → DeviceRemote → RequestCall → Option FeatureAddress → Call
  subscribe m d request none = none
  subscribe m d request (some client_address) =
      let server = local_feature m.local_device request.server_address in
      let client = remote_feature d client_address in
      let more =
        unless_found (find m.entries request.server_address client_address) m
          (add_link m d server client) in
      if admits generic server client request.server_feature_type then more else unchanged m

  unfoldable pub add_subscription : Manager → DeviceRemote → RequestCall → Call
  add_subscription m d request = subscribe m d request request.client_address

  -- `AddBinding`.
  abbrev pub bind : Manager → DeviceRemote → RequestCall → Option FeatureAddress → Call
  bind m d request none = none
  bind m d request (some client_address) =
      let server = local_feature m.local_device request.server_address in
      let client = remote_feature d client_address in
      let more =
        unless_bound (has_server m.entries request.server_address) m (add_link m d server client) in
      if admits generic server client request.server_feature_type then more else unchanged m

  unfoldable pub add_binding : Manager → DeviceRemote → RequestCall → Call
  add_binding m d request = bind m d request request.client_address
