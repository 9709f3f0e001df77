-- ===== src/Spine/Discovery/Tests.antt =====
-- Detailed discoveries.
use openeebus.Prelude.{ℕ, List, ◌≡◌, refl, ◌⊎◌, true, false, none, some, [], ◌∷◌}
use openeebus.Spine.Discovery.Description.{add_info}
use openeebus.Spine.Discovery.Mirror
use openeebus.Spine.Discovery.Mirror.{readdressed}
use openeebus.Spine.Discovery.RoundTrip.{add_info-add_entity_and_features}
use openeebus.Spine.Device.{DeviceLocal, Feature, Entity, DeviceRemote, RoleType, get_entity}
use openeebus.Spine.Discovery.{
  DiscoveryData, EntityDescription, FeatureDescription, add_entity_and_features, add_loop,
  features_with_info, create_with_info,
}
use openeebus.Common.Error.{is_ok}
use openeebus.Spine.Discovery.Features.{is_listed, IsGiven, add_entity_and_features-Given}
use openeebus.Spine.Discovery.Undescribed.{add_entity_and_features-null}
use openeebus.Spine.Discovery.DeviceDescription.{
  Device, DeviceDescription, update_device, update_device-twice,
}

abbrev stale : Entity
stale = record { device = none; ids = 4 ∷ []; entity_type = 8; features = [] }

abbrev charger : DeviceRemote
charger = record { ski = 9 ∷ []; device_address = some (2 ∷ []); entities = stale ∷ [] }

abbrev control_description : FeatureDescription
control_description = record {
  feature_address = some (record { device = some (2 ∷ []); entity = 1 ∷ []; feature = some 5 });
  feature_type = some 3;
  role = some RoleType.client;
}

abbrev entity_description : EntityDescription
entity_description = record {
  entity_address = some (record { device = some (2 ∷ []); entity = some (1 ∷ []) });
  entity_type = some 8;
}

abbrev discovered : DiscoveryData
discovered = record {
  device = some (2 ∷ []);
  entity_information = some entity_description ∷ [];
  feature_information = some control_description ∷ [];
}

abbrev control : Feature
control = record {
  address = record { device = some (2 ∷ []); entity = 1 ∷ []; feature = some 5 };
  role = RoleType.client;
  feature_type = 3;
}

abbrev described_entity : Entity
described_entity = record {
  device = some (2 ∷ []);
  ids = 1 ∷ [];
  entity_type = 8;
  features = control ∷ [];
}

add_entity_and_features-Given_example :
    (is_listed (1 ∷ []) discovered.entity_information ≡ true)
      × IsGiven charger true discovered (stale ∷ described_entity ∷ []) (1 ∷ [])
    ⊎ (is_listed (1 ∷ []) discovered.entity_information ≡ false)
      × (get_entity (stale ∷ described_entity ∷ []) (1 ∷ []) ≡ get_entity charger.entities (1 ∷ []))
unfolding add_entity_and_features add_loop features_with_info create_with_info is_ok
add_entity_and_features-Given_example =
    add_entity_and_features-Given charger true discovered (stale ∷ described_entity ∷ [])
      ((1 ∷ []) ∷ []) (1 ∷ []) refl

add_entity_and_features-null_example :
    add_entity_and_features charger true (record discovered { feature_information = none ∷ [] })
    ≡ none
add_entity_and_features-null_example =
    add_entity_and_features-null charger (record discovered { feature_information = none ∷ [] })
      entity_description (record { device = some (2 ∷ []); entity = some (1 ∷ []) }) 1 [] [] refl
      refl refl refl

abbrev unknown : Device
unknown = record { address = none; device_type = none; feature_set = none; next = 10; freed = [] }

abbrev charging_station : DeviceDescription
charging_station = record {
  device_address = some (2 ∷ []);
  device_type = some 1;
  network_feature_set = some 2;
}

update_device-twice_example :
    (update_device (update_device unknown (some charging_station)) (some charging_station)).freed
    ≡ 11 ∷ 11 ∷ []
update_device-twice_example =
    update_device-twice unknown charging_station charging_station 1 2 1 2 refl refl refl refl refl
      refl

abbrev home : DeviceLocal
home = record {
  device_address = 2 ∷ [];
  entities =
      record { device = some (2 ∷ []); ids = 0 ∷ []; entity_type = 1; features = [] }
      ∷ described_entity
      ∷ [];
}

-- Besides what the device tells the peer keeps the entity that it had.
add_info-add_entity_and_features_example :
    (es : List Entity) × (new : List (List ℕ)) × (add_entity_and_features charger true
        (add_info home)
      ≡ some (es, some new))
    × (e : Entity) × (get_entity es (1 ∷ []) ≡ some e)
    × (e.features ≡ readdressed e.device (control ∷ []))
add_info-add_entity_and_features_example =
    add_info-add_entity_and_features home charger 1 described_entity
      (Mirror.also 0 [] refl Mirror.nothing refl
        (Mirror.also 1 [] refl (Mirror.also 5 refl refl Mirror.nothing) refl Mirror.nothing))
      refl
