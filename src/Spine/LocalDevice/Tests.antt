-- ===== src/Spine/LocalDevice/Tests.antt =====
-- Datagrams for a local device with one feature and its node management.
use openeebus.Prelude.{ℕ, ◌≡◌, refl, true, none, some, List, [], ◌∷◌}
use openeebus.Common.Error.{EebusError}
use openeebus.Spine.Address.{FeatureAddress, compare}
use openeebus.Spine.Device.{
  Feature, DeviceLocal, DeviceRemote, RoleType, local_feature, remote_feature, parameters_match,
}
use openeebus.Spine.FeatureLink.{find, has_server}
use openeebus.Spine.Manager.{Manager}
use openeebus.Spine.Manager.Delete.{has_binding}
use openeebus.Spine.Message.{CommandClassifier, Header, Content, Cmd, Message}
use openeebus.Spine.Sender.{plain}
use openeebus.Spine.FeatureLocal.{FeatureLocal, Remote, Environment, Decision}
use openeebus.Spine.LocalDevice.{LocalDevice, ManagementTypes, feature_at, remote_with_ski}
use openeebus.Spine.LocalDevice.NodeManagement.{Discovery, handle_binding_request}
use openeebus.Spine.LocalDevice.Dispatch.{
  process_cmd, process_datagram, handle_feature, message_for,
}
use openeebus.Spine.LocalDevice.Dispatch.Unbound.{process_datagram-unbound}
use openeebus.Spine.LocalDevice.Dispatch.Bound.{with_binding, binding_request-write}

abbrev limit_address : FeatureAddress
limit_address = record { device = some (1 ∷ []); entity = 1 ∷ []; feature = some 7 }

abbrev peer_address : FeatureAddress
peer_address = record { device = some (2 ∷ []); entity = 1 ∷ []; feature = some 4 }

abbrev limit_feature : Feature
limit_feature = record { address = limit_address; role = RoleType.server; feature_type = 3 }

abbrev peer_feature : Feature
peer_feature = record { address = peer_address; role = RoleType.client; feature_type = 3 }

abbrev own_node : DeviceLocal
own_node = record {
  device_address = 1 ∷ [];
  entities =
      record {
        device = some (1 ∷ []);
        ids = 1 ∷ [];
        entity_type = 8;
        features = limit_feature ∷ [];
      }
      ∷ [];
}

-- A device with an SKI that has the peer's feature.
abbrev peer : List ℕ → DeviceRemote
peer ski = record {
  ski = ski;
  device_address = some (2 ∷ []);
  entities =
      record { device = some (2 ∷ []); ids = 1 ∷ []; entity_type = 8; features = peer_feature ∷ [] }
      ∷ [];
}

abbrev peer_remote : Remote
peer_remote = record { device = peer (9 ∷ []); sender = record { msg_num = 0; has_writer = true } }

abbrev limit_state : FeatureLocal
limit_state = record {
  address = limit_address;
  role = RoleType.server;
  feature_type = 3;
  functions = [];
  wr_approval_cbs = [];
  pending_replies = [];
  pending_results = [];
  pending_write_requests = [];
  bindings = [];
  subscriptions = [];
}

abbrev no_links : Manager
no_links = record { local_device = own_node; num = 0; entries = [] }

abbrev own_device : LocalDevice
own_device = record {
  node = own_node;
  locals = limit_state ∷ [];
  subscriptions = no_links;
  bindings = no_links;
  world = record { remotes = peer_remote ∷ []; caches = []; log = [] };
}

abbrev application : Environment
application = record {
  printable = λ _. true;
  types = record {
    subscription_request_call = 1;
    subscription_delete_call = 2;
    binding_request_call = 3;
    binding_delete_call = 4;
    result_data_type = 5;
  };
  access = record {
    write_all = λ t new. (12, EebusError.ok);
    write_partial = λ t old new f. (13, EebusError.ok);
    delete_partial = λ t old f. 0;
  };
  decide = λ _ _. Decision.later;
  again_reply = λ _. [];
  again_result = λ _. [];
}

abbrev management : ManagementTypes
management = record {
  generic = 0;
  node_management = 20;
  detailed_discovery_data = 6;
  subscription_data = 7;
  binding_data = 8;
  use_case_data = 9;
  destination_list_data = 10;
}

abbrev no_discovery : Discovery
no_discovery = λ d fl r msg. some (d, EebusError.not_implemented)

abbrev limit_write : Header
limit_write = record {
  spec_version = none;
  src_addr = some peer_address;
  dest_addr = some limit_address;
  msg_cnt = some 6;
  msg_cnt_ref = none;
  cmd_classifier = some CommandClassifier.write;
  ack_request = some true;
}

abbrev limit_cmd : Cmd
limit_cmd = plain 30 (Content.function_data 99)

process_datagram-unbound_example :
    process_datagram application management no_discovery own_device
      (some (record { header = some limit_write; payload = some limit_cmd ∷ none ∷ [] }))
      (some (9 ∷ []))
    ≡ some (own_device, EebusError.no_change)
unfolding feature_at local_feature remote_feature remote_with_ski has_binding find compare
process_datagram-unbound_example =
    process_datagram-unbound application management no_discovery own_device limit_write limit_state
      peer_remote peer_address peer_feature (9 ∷ []) limit_cmd (none ∷ []) refl refl refl refl refl
      refl

abbrev request_message : Message
request_message = record {
  request_header = none;
  cmd_classifier = CommandClassifier.call;
  cmd = some (
      plain 3 (
        Content.binding_request (
          some (record {
            client_address = some peer_address;
            server_address = some limit_address;
            server_feature_type = some 3;
          }))));
  feature_remote = peer_feature;
  ski = 9 ∷ [];
}

-- The device with SKI 9 requests the binding, and that with SKI 8 writes.
binding_request-write_example :
    let bound =
      with_binding application management no_discovery own_device
        (peer (9 ∷ []))
        limit_address
        peer_address
        (some 3)
        limit_feature
        peer_feature in
    (handle_binding_request application management no_discovery own_device
        (peer (9 ∷ []))
        request_message
      ≡ some (bound, EebusError.ok))
    × (process_cmd application management no_discovery bound
          (peer (8 ∷ []))
          limit_write
          (some limit_cmd)
        ≡ handle_feature application management no_discovery bound limit_state (peer (8 ∷ [])) (
            message_for application management no_discovery
              (peer (8 ∷ []))
              limit_write
              (some limit_cmd)
              peer_feature
              CommandClassifier.write))
unfolding feature_at local_feature remote_feature parameters_match has_server compare
binding_request-write_example =
    binding_request-write application management no_discovery own_device (peer (9 ∷ []))
      limit_address peer_address (some 3) limit_feature peer_feature request_message (peer (8 ∷ []))
      limit_write peer_address limit_state peer_feature (some limit_cmd) refl refl refl refl refl
      refl refl refl refl refl refl refl refl refl
