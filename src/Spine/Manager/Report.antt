-- ===== src/Spine/Manager/Report.antt =====
-- `AddSubscriptionEntries`, `AddBindingEntries` and `Publish`.
use openeebus.Prelude.{Option, none, some, ℕ, suc, if◌then◌else◌, List, [], ◌∷◌}
use openeebus.Spine.Address.{FeatureAddress, compare}
use openeebus.Spine.Device.{Feature, DeviceRemote}
use openeebus.Spine.FeatureLink.{FeatureLink, remote_device_match, remote_device_match_num}
use openeebus.Spine.Manager.{Manager}

-- The places of the buffer to which the loop of `AddSubscriptionEntries` and `AddBindingEntries`
-- writes, each with the number of the link, from a place of the container on.
unfoldable pub entry_writes : ℕ → List FeatureLink → DeviceRemote → List (ℕ × ℕ)
entry_writes i [] d = []
entry_writes i (l ∷ ls) d =
    let rest = entry_writes (suc i) ls d in
    if remote_device_match l d then (i, l.id) ∷ rest else rest

-- `AddSubscriptionEntries` and `AddBindingEntries`: the size of the buffer, and the writes to it.
unfoldable pub add_entries : Manager → DeviceRemote → ℕ × List (ℕ × ℕ)
add_entries m d = (remote_device_match_num m.entries d, entry_writes 0 m.entries d)

abbrev pub notify :
    Option Feature
    → Feature
    → FeatureAddress
    → Option (List FeatureAddress)
    → Option (List FeatureAddress)
notify none client feature_addr rest = none
notify (some server) client feature_addr none = none
notify (some server) client feature_addr (some rest) =
    if compare server.address feature_addr then some (client.address ∷ rest) else some rest

-- `Publish`: the client addresses to which the notification is sent, in order; `none` is the crash.
unfoldable pub publish : List FeatureLink → FeatureAddress → Option (List FeatureAddress)
publish [] feature_addr = some []
publish (l ∷ ls) feature_addr =
    notify l.server_feature l.client_feature feature_addr (publish ls feature_addr)
