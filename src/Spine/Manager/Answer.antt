-- ===== src/Spine/Manager/Answer.antt =====
-- `CreateSubscriptionData` and `CreateBindingData`.
use openeebus.Prelude.{if◌then◌else◌, Option, none, some, List, [], ◌∷◌}
use openeebus.Spine.Device.{Feature, DeviceRemote}
use openeebus.Spine.FeatureLink.{FeatureLink, remote_device_match}
use openeebus.Spine.Manager.{Manager, LinkEntry}
use openeebus.Spine.Manager.Report.{add_entries}
use openeebus.Spine.Manager.Entries.{is_beyond}

-- `CreateSubscriptionEntryData` and `CreateBindingEntryData`, before the further entries.
abbrev entry_before :
    FeatureLink → Option Feature → Option (List LinkEntry) → Option (List LinkEntry)
entry_before l none rest = none
entry_before l (some server) none = none
entry_before l (some server) (some rest) = some (
    record { id = l.id; server_address = server.address; client_address = l.client_feature.address }
    ∷ rest)

unfoldable pub entries : List FeatureLink → DeviceRemote → Option (List LinkEntry)
entries [] d = some []
entries (l ∷ ls) d =
    let rest = entries ls d in
    if remote_device_match l d then entry_before l l.server_feature rest else rest

-- `none` is a write beyond the buffer or a read through a NULL server feature.
unfoldable pub create_data : Manager → DeviceRemote → Option (List LinkEntry)
create_data m d =
    if is_beyond (add_entries m d).0 (add_entries m d).1 then none else entries m.entries d
