-- ===== src/Spine/FeatureLink.antt =====
-- The links between a local server feature and a remote client feature that the subscription and
-- the binding manager keep: src/spine/feature_link/feature_link.c and feature_link_container.c. The
-- server feature is a pointer that may be NULL; reading its address is then a crash. A link in a
-- container is known by its place, which stands for its address in memory. Memory does not run out.
use openeebus.Prelude.{
  ℕ, zero, suc, if◌then◌else◌, Bool, true, false, ◌&&◌, Option, none, some, List, [], ◌∷◌, ◌++◌,
}
use openeebus.Spine.Address.{FeatureAddress, compare, compare_ptr, compare_entity, same_list}
use openeebus.Spine.Device.{Feature, Entity, DeviceRemote}

-- `FeatureLink`, with the SKI of the device of the client feature.
pub record FeatureLink : Type 0 where
  pub id : ℕ
  pub server_feature : Option Feature
  pub client_feature : Feature
  pub client_ski : List ℕ

-- `FeatureLinkRemoteDeviceMatch`.
unfoldable pub remote_device_match : FeatureLink → DeviceRemote → Bool
remote_device_match l d = same_list l.client_ski d.ski

-- `FeatureLinkRemoteEntityMatch`.
unfoldable pub remote_entity_match : FeatureLink → Entity → Bool
remote_entity_match l e =
    compare_entity e.device e.ids l.client_feature.address.device l.client_feature.address.entity

-- The outcome of a search: a NULL server feature was met, nothing was found, or the place of a link.
pub data Search : Type 0 where
  crash missing : Search
  found : ℕ → Search

abbrev pub further : Search → Search
further crash = crash
further missing = missing
further (found i) = found (suc i)

abbrev pub find_at :
    Option Feature → Feature → Option FeatureAddress → FeatureAddress → Search → Search
find_at none client server_address client_address rest = crash
find_at (some server) client server_address client_address rest =
    if compare_ptr server_address server.address && compare client_address client.address
    then found 0
    else further rest

-- `FeatureLinkContainerFind`.
unfoldable pub find : List FeatureLink → Option FeatureAddress → FeatureAddress → Search
find [] server_address client_address = missing
find (l ∷ ls) server_address client_address =
    find_at l.server_feature l.client_feature server_address client_address
      (find ls server_address client_address)

abbrev pub has_server_at : Option Feature → Option FeatureAddress → Option Bool → Option Bool
has_server_at none server_address rest = none
has_server_at (some server) server_address rest =
    if compare_ptr server_address server.address then some true else rest

-- `FeatureLinkContainerHasServer`; `none` is the crash.
unfoldable pub has_server : List FeatureLink → Option FeatureAddress → Option Bool
has_server [] server_address = some false
has_server (l ∷ ls) server_address =
    has_server_at l.server_feature server_address (has_server ls server_address)

-- `FeatureLinkContainerAdd`.
unfoldable pub add : List FeatureLink → FeatureLink → List FeatureLink
add ls l = ls ++ l ∷ []

-- `FeatureLinkContainerRemove` of the link at a place, with `VectorRemove`.
abbrev pub remove : List FeatureLink → ℕ → List FeatureLink
remove [] i = []
remove (l ∷ ls) zero = ls
remove (l ∷ ls) (suc i) = l ∷ remove ls i

-- `FeatureLinkContainerGetRemoteDeviceMatchNum`.
unfoldable pub remote_device_match_num : List FeatureLink → DeviceRemote → ℕ
remote_device_match_num [] d = 0
remote_device_match_num (l ∷ ls) d =
    let n = remote_device_match_num ls d in if remote_device_match l d then suc n else n
