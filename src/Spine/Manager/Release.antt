-- ===== src/Spine/Manager/Release.antt =====
-- `RemoveEntitySubscriptions` and `RemoveEntityBindings`.
use openeebus.Prelude.{
  ◌++◌, ℕ, zero, suc, Bool, true, false, Option, none, some, List, [], ◌∷◌, get_elem?, length,
}
use openeebus.Spine.Device.{
  DeviceRemote, Feature, Entity, DeviceLocal, local_feature, get_feature_with_id,
}
use openeebus.Spine.FeatureLink.{FeatureLink, remove, remote_entity_match}
use openeebus.Spine.Manager.{Manager, EventPayload, ElementChange}

-- The event for a link of an entity that is removed.
abbrev pub entity_event : DeviceLocal → List ℕ → Entity → Feature → Feature → EventPayload
entity_event dev ski e server client = record {
  ski = ski;
  change_type = ElementChange.change_remove;
  feature = get_feature_with_id e.features client.address.feature;
  local_feature = local_feature dev (some server.address);
}

abbrev prepend :
    EventPayload
    → Option (List FeatureLink × List EventPayload)
    → Option (List FeatureLink × List EventPayload)
prepend ev none = none
prepend ev (some (ls, evs)) = some (ls, ev ∷ evs)

-- One round of the loop: the link at the place, whether it matches, and what the further rounds make
-- of the container with the link and without it.
abbrev pub entity_round :
    DeviceLocal
    → List ℕ
    → Entity
    → FeatureLink
    → Bool
    → Option Feature
    → Option (List FeatureLink × List EventPayload)
    → Option (List FeatureLink × List EventPayload)
    → Option (List FeatureLink × List EventPayload)
entity_round dev ski e l false server with_link without = with_link
entity_round dev ski e l true none with_link without = none
entity_round dev ski e l true (some server) with_link without =
    prepend (entity_event dev ski e server l.client_feature) without

-- The loop of `RemoveEntitySubscriptions` and `RemoveEntityBindings` from a place. Each round passes
-- a link or removes it.
unfoldable pub remove_entity_loop :
    ℕ
    → DeviceLocal
    → List ℕ
    → Entity
    → ℕ
    → List FeatureLink
    → Option (List FeatureLink × List EventPayload)
remove_entity_loop zero dev ski e i ls = some (ls, [])
remove_entity_loop (suc fuel) dev ski e i ls = elim (get_elem? ls i) [
  | none ↦ some (ls, [])
  | some l ↦
      entity_round dev ski e l (remote_entity_match l e) l.server_feature
        (remove_entity_loop fuel dev ski e (suc i) ls)
        (remove_entity_loop fuel dev ski e i (remove ls i))
]

-- `RemoveEntitySubscriptions` and `RemoveEntityBindings`: the manager and its events.
unfoldable pub remove_entity : Manager → List ℕ → Entity → Option (Manager × List EventPayload)
remove_entity m ski e =
    elim (remove_entity_loop (length m.entries) m.local_device ski e 0 m.entries) [
      | none ↦ none
      | some (ls, evs) ↦ some (record m { entries = ls }, evs)
    ]

abbrev events_before :
    List EventPayload → Option (Manager × List EventPayload) → Option (Manager × List EventPayload)
events_before evs none = none
events_before evs (some (m, evs')) = some (m, evs ++ evs')

-- `RemoveDeviceSubscriptions` and `RemoveDeviceBindings`, over the entities of the device.
unfoldable pub remove_entities :
    Manager → List ℕ → List Entity → Option (Manager × List EventPayload)
remove_entities m ski [] = some (m, [])
remove_entities m ski (e ∷ es) = elim (remove_entity m ski e) [
  | none ↦ none
  | some (m', evs) ↦ events_before evs (remove_entities m' ski es)
]

unfoldable pub remove_device : Manager → DeviceRemote → Option (Manager × List EventPayload)
remove_device m d = remove_entities m d.ski d.entities
