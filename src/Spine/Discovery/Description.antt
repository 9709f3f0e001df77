-- ===== src/Spine/Discovery/Description.antt =====
-- What a local device tells of itself in a detailed discovery: `AddInfo` of
-- src/spine/node_management/node_management_detailed_discovery.c with `CreateInformation` of
-- src/spine/entity/entity_local.c and `FeatureLocalCreateInformation` of
-- src/spine/feature/feature_local.c. Memory does not run out.
use openeebus.Prelude.{Option, some, List, [], ◌∷◌, ◌++◌}
use openeebus.Spine.Device.{Feature, Entity, DeviceLocal}
use openeebus.Spine.Discovery.{DiscoveryData, EntityDescription, FeatureDescription}

-- `FeatureLocalCreateInformation`.
unfoldable pub feature_information : Feature → FeatureDescription
feature_information f = record {
  feature_address = some f.address;
  feature_type = some f.feature_type;
  role = some f.role;
}

-- `CreateInformation` of an entity.
unfoldable pub entity_information : Entity → EntityDescription
entity_information e = record {
  entity_address = some (record { device = e.device; entity = some e.ids });
  entity_type = some e.entity_type;
}

-- `AddEntityInfo`.
abbrev pub add_entity_info : List Entity → List (Option EntityDescription)
add_entity_info [] = []
add_entity_info (e ∷ es) = some (entity_information e) ∷ add_entity_info es

abbrev pub features_information : List Feature → List (Option FeatureDescription)
features_information [] = []
features_information (f ∷ fs) = some (feature_information f) ∷ features_information fs

-- `AddFeatureInfo`.
abbrev pub add_feature_info : List Entity → List (Option FeatureDescription)
add_feature_info [] = []
add_feature_info (e ∷ es) = features_information e.features ++ add_feature_info es

-- `AddInfo`.
unfoldable pub add_info : DeviceLocal → DiscoveryData
add_info d = record {
  device = some d.device_address;
  entity_information = add_entity_info d.entities;
  feature_information = add_feature_info d.entities;
}
