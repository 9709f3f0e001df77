-- ===== src/Spine/Tests.antt =====
-- Calls of the subscription and the binding manager.
use openeebus.Prelude.{true, ◌≡◌, refl, none, some, [], ◌∷◌, arith}
use openeebus.Spine.Address.{FeatureAddress}
use openeebus.Spine.Device.{
  Feature, Entity, DeviceLocal, DeviceRemote, RoleType, parameters_match, local_feature,
  remote_feature,
}
use openeebus.Spine.Device.Placed
use openeebus.Spine.Device.Placed.{AllPlaced}
use openeebus.Spine.FeatureLink.{
  FeatureLink, add, find, has_server, remote_device_match, remote_device_match_num,
}
use openeebus.Spine.Manager.{Manager, RequestCall}
use openeebus.Spine.Manager.Request.{add_binding}
use openeebus.Spine.Manager.Report.{add_entries}
use openeebus.Spine.Manager.Removal
use openeebus.Spine.Manager.Removal.{without, removals, remove_entity-without}
use openeebus.Spine.Manager.Removal.{without_all, all_removals, remove_device-without_all}
use openeebus.Spine.Manager.Release.{remove_device}
use openeebus.Spine.Manager.Report.{publish}
use openeebus.Spine.Manager.Notification.{is_told, is_found, publish-is_told}
use openeebus.Spine.Manager.Exclusive
use openeebus.Spine.Manager.Exclusive.{Exclusive, after, add_binding-Exclusive, add_binding-absent}
use openeebus.Spine.Manager.Entries.{is_beyond, add_entries-overruns}

abbrev server_address : FeatureAddress
server_address = record { device = some (1 ∷ []); entity = 1 ∷ []; feature = some 7 }

-- The same without the device part.
abbrev short_address : FeatureAddress
short_address = record { device = none; entity = 1 ∷ []; feature = some 7 }

abbrev client_address : FeatureAddress
client_address = record { device = some (2 ∷ []); entity = 1 ∷ []; feature = some 4 }

abbrev load_control : Feature
load_control = record { address = server_address; role = RoleType.server; feature_type = 3 }

abbrev remote_client : Feature
remote_client = record { address = client_address; role = RoleType.client; feature_type = 3 }

abbrev hems : DeviceLocal
hems = record {
  device_address = 1 ∷ [];
  entities =
      record { device = some (1 ∷ []); ids = 1 ∷ []; entity_type = 8; features = load_control ∷ [] }
      ∷ [];
}

abbrev hems-AllPlaced : AllPlaced hems.device_address hems.entities
hems-AllPlaced = Placed.also (Placed.also refl refl Placed.nothing) Placed.nothing

abbrev remote_entity : Entity
remote_entity = record {
  device = some (2 ∷ []);
  ids = 1 ∷ [];
  entity_type = 8;
  features = remote_client ∷ [];
}

abbrev wallbox : DeviceRemote
wallbox = record { ski = 9 ∷ []; device_address = some (2 ∷ []); entities = remote_entity ∷ [] }

abbrev heat_pump : DeviceRemote
heat_pump = record { ski = 8 ∷ []; device_address = some (3 ∷ []); entities = [] }

abbrev fresh : Manager
fresh = record { local_device = hems; num = 5; entries = [] }

abbrev old_link : FeatureLink
old_link = record {
  id = 4;
  server_feature = some load_control;
  client_feature = remote_client;
  client_ski = 9 ∷ [];
}

-- A manager with a link already.
abbrev busy : Manager
busy = record { local_device = hems; num = 5; entries = old_link ∷ [] }

abbrev binding_request : RequestCall
binding_request = record {
  client_address = some client_address;
  server_address = some server_address;
  server_feature_type = some 3;
}

add_binding-Exclusive_example :
    Exclusive (after busy (add_binding 0 busy wallbox binding_request)).entries
unfolding has_server
add_binding-Exclusive_example =
    add_binding-Exclusive busy wallbox (Exclusive.also load_control refl refl Exclusive.nothing) 0
      server_address 3 (1 ∷ []) binding_request hems-AllPlaced refl refl refl

-- A second link to the same server feature.
add_binding-absent_example :
    (after busy (
      add_binding 0 busy wallbox (record {
        client_address = some client_address;
        server_address = some short_address;
        server_feature_type = some 3;
      }))).entries
    ≡ add (old_link ∷ []) (record old_link { id = 5 })
unfolding local_feature remote_feature parameters_match
add_binding-absent_example =
    add_binding-absent 0 busy wallbox short_address client_address load_control remote_client
      (some 3) (Exclusive.present_link load_control (1 ∷ []) refl refl Exclusive.no_link) refl refl
      refl refl

abbrev mixed : Manager
mixed = record busy { entries = record old_link { client_ski = 8 ∷ [] } ∷ old_link ∷ [] }

add_entries-overruns_example :
    is_beyond (add_entries mixed wallbox).0 (add_entries mixed wallbox).1 ≡ true
unfolding remote_device_match_num remote_device_match
add_entries-overruns_example =
    add_entries-overruns wallbox mixed (record old_link { client_ski = 8 ∷ [] }) (old_link ∷ [])
      refl refl (omega arith)

remove_device-without_all_example :
    remove_device busy wallbox
    ≡ some (
      record busy { entries = without_all (remote_entity ∷ []) (old_link ∷ []) },
      all_removals hems (9 ∷ []) (remote_entity ∷ []) (old_link ∷ []),
    )
remove_device-without_all_example =
    remove_device-without_all busy wallbox (Removal.also load_control refl Removal.nothing)

publish-is_told_example :
    is_told client_address (publish (old_link ∷ []) server_address)
    ≡ is_found (find (old_link ∷ []) (some server_address) client_address)
publish-is_told_example =
    publish-is_told (old_link ∷ []) server_address client_address
      (Removal.also load_control refl Removal.nothing)
