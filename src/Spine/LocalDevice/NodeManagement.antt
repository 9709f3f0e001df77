-- ===== src/Spine/LocalDevice/NodeManagement.antt =====
-- The node management of the local device, src/spine/node_management: `HandleMessage` of
-- node_management.c, node_management_subscription.c, node_management_binding.c,
-- node_management_usecase.c and node_management_destination_list.c. Detailed discovery is a parameter.
use openeebus.Prelude.{ℕ, ◌==◌, if◌then◌else◌, true, Option, none, some, List}
use openeebus.Common.Error.{EebusError, is_ok}
use openeebus.Spine.Device.{DeviceRemote}
use openeebus.Spine.Function.{get_function}
use openeebus.Spine.Manager.{RequestCall, DeleteCall, LinkEntry}
use openeebus.Spine.Manager.Answer.{create_data}
use openeebus.Spine.Manager.Delete.{remove_subscription, remove_binding}
use openeebus.Spine.Manager.Request.{add_subscription, add_binding}
use openeebus.Spine.Message.{CommandClassifier, Content, Message}
use openeebus.Spine.Sender.{plain}
use openeebus.Spine.FeatureLocal.{FeatureLocal, World, Environment, logged, published}
use openeebus.Spine.FeatureLocal.Approval.{Outcome, type_of, content_of}
use openeebus.Spine.FeatureLocal.Exchange.{
  update_remote_data, reference_of, answer_reply, send_reply, read_with, process_result,
}
use openeebus.Spine.LocalDevice.{
  LocalDevice, Answer, ManagementTypes, answered, after_subscriptions, after_bindings,
}

-- `HandleMsgDetailedDiscoveryData`.
abbrev pub Discovery : Type 0
Discovery = LocalDevice → FeatureLocal → DeviceRemote → Message → Answer

module _ (env : Environment) (types : ManagementTypes) (discovery : Discovery) where
  abbrev not_implemented : LocalDevice → Answer
  not_implemented d = some (d, EebusError.not_implemented)

  -- The test for a call, which is in each handler.
  abbrev pub if_call : LocalDevice → CommandClassifier → Answer → Answer
  if_call d CommandClassifier.call more = more
  if_call d _ more = not_implemented d

  -- The request in a call. Content of another kind has none, and the handlers read through it.
  abbrev pub subscription_in : Option Content → Option RequestCall
  subscription_in (some (Content.subscription_request r)) = r
  subscription_in _ = none

  abbrev pub binding_in : Option Content → Option RequestCall
  binding_in (some (Content.binding_request r)) = r
  binding_in _ = none

  abbrev pub unsubscription_in : Option Content → Option DeleteCall
  unsubscription_in (some (Content.subscription_delete r)) = r
  unsubscription_in _ = none

  abbrev pub unbinding_in : Option Content → Option DeleteCall
  unbinding_in (some (Content.binding_delete r)) = r
  unbinding_in _ = none

  abbrev pub subscription_requested : LocalDevice → DeviceRemote → Option RequestCall → Answer
  subscription_requested d r none = none
  subscription_requested d r (some q) =
      after_subscriptions d (add_subscription types.generic d.subscriptions r q)

  abbrev pub binding_requested : LocalDevice → DeviceRemote → Option RequestCall → Answer
  binding_requested d r none = none
  binding_requested d r (some q) = after_bindings d (add_binding types.generic d.bindings r q)

  abbrev pub subscription_deleted : LocalDevice → DeviceRemote → Option DeleteCall → Answer
  subscription_deleted d r none = none
  subscription_deleted d r (some q) =
      after_subscriptions d (remove_subscription d.subscriptions r q)

  abbrev pub binding_deleted : LocalDevice → DeviceRemote → Option DeleteCall → Answer
  binding_deleted d r none = none
  binding_deleted d r (some q) = after_bindings d (remove_binding d.bindings r q)

  -- `HandleMsgSubscriptionRequestCall` and `HandleMsgSubscriptionDeleteCall`.
  unfoldable pub handle_subscription_request : LocalDevice → DeviceRemote → Message → Answer
  handle_subscription_request d r msg =
      if_call d msg.cmd_classifier
        (subscription_requested d r (subscription_in (content_of msg.cmd)))

  unfoldable pub handle_subscription_delete : LocalDevice → DeviceRemote → Message → Answer
  handle_subscription_delete d r msg =
      if_call d msg.cmd_classifier
        (subscription_deleted d r (unsubscription_in (content_of msg.cmd)))

  -- `HandleMsgBindingRequestCall` and `HandleMsgBindingDeleteCall`.
  unfoldable pub handle_binding_request : LocalDevice → DeviceRemote → Message → Answer
  handle_binding_request d r msg =
      if_call d msg.cmd_classifier (binding_requested d r (binding_in (content_of msg.cmd)))

  unfoldable pub handle_binding_delete : LocalDevice → DeviceRemote → Message → Answer
  handle_binding_delete d r msg =
      if_call d msg.cmd_classifier (binding_deleted d r (unbinding_in (content_of msg.cmd)))

  -- `NodeManagementSendReply`.
  unfoldable pub send_data : LocalDevice → FeatureLocal → Message → ℕ → Content → Answer
  send_data d fl msg t content = answered d (send_reply env fl d.world msg (plain t content))

  abbrev send_entries :
      LocalDevice
      → FeatureLocal
      → Message
      → ℕ
      → (List LinkEntry → Content)
      → Option (List LinkEntry)
      → Answer
  send_entries d fl msg t f none = none
  send_entries d fl msg t f (some es) = send_data d fl msg t (f es)

  -- `HandleMsgSubscriptionData` and `HandleMsgBindingData`.
  unfoldable pub handle_subscription_data :
      LocalDevice → FeatureLocal → DeviceRemote → Message → Answer
  handle_subscription_data d fl r msg = if_call d msg.cmd_classifier (
      send_entries d fl msg types.subscription_data Content.subscription_data
        (create_data d.subscriptions r))

  unfoldable pub handle_binding_data : LocalDevice → FeatureLocal → DeviceRemote → Message → Answer
  handle_binding_data d fl r msg =
      if_call d msg.cmd_classifier
        (send_entries d fl msg types.binding_data Content.binding_data (create_data d.bindings r))

  abbrev use_case_updated : FeatureLocal → Message → World × EebusError → Outcome
  use_case_updated fl msg (w, err) =
      if is_ok err
      then answer_reply env fl
          (logged w (
            published msg.ski msg.feature_remote.address types.use_case_data (content_of msg.cmd)
              msg.cmd_classifier))
          msg (some msg.ski) (reference_of env msg.request_header)
      else (fl, w, err)

  -- `ProcessReplyUseCaseData`, which leaves the filters of the message out. The events of the single
  -- use cases are not logged.
  unfoldable pub process_reply_use_case_data : FeatureLocal → World → Message → Outcome
  process_reply_use_case_data fl w msg = use_case_updated fl msg (
      update_remote_data env w msg.feature_remote.address types.use_case_data (content_of msg.cmd)
        none none true)

  -- `HandleMsgUseCaseData`.
  abbrev use_case_data : LocalDevice → FeatureLocal → Message → CommandClassifier → Answer
  use_case_data d fl msg CommandClassifier.read =
      answered d (read_with env fl d.world msg (get_function fl.functions types.use_case_data))
  use_case_data d fl msg CommandClassifier.reply =
      answered d (some (process_reply_use_case_data fl d.world msg))
  use_case_data d fl msg CommandClassifier.notify =
      answered d (some (process_reply_use_case_data fl d.world msg))
  use_case_data d fl msg _ = not_implemented d

  -- `HandleMsgDestinationListData`.
  abbrev destination_list_data : LocalDevice → FeatureLocal → Message → CommandClassifier → Answer
  destination_list_data d fl msg CommandClassifier.read =
      send_data d fl msg types.destination_list_data
        (Content.destination_data (some d.node.device_address))
  destination_list_data d fl msg _ = not_implemented d

  abbrev by_type : LocalDevice → FeatureLocal → DeviceRemote → Message → ℕ → Answer
  by_type d fl r msg t =
      if t == env.types.result_data_type
      then answered d (some (process_result env fl d.world msg))
      else if t == types.detailed_discovery_data
      then discovery d fl r msg
      else if t == env.types.subscription_request_call
      then handle_subscription_request d r msg
      else if t == env.types.subscription_delete_call
      then handle_subscription_delete d r msg
      else if t == types.subscription_data
      then handle_subscription_data d fl r msg
      else if t == env.types.binding_request_call
      then handle_binding_request d r msg
      else if t == env.types.binding_delete_call
      then handle_binding_delete d r msg
      else if t == types.binding_data
      then handle_binding_data d fl r msg
      else if t == types.use_case_data
      then use_case_data d fl msg msg.cmd_classifier
      else if t == types.destination_list_data
      then destination_list_data d fl msg msg.cmd_classifier
      else not_implemented d

  abbrev with_content :
      LocalDevice → FeatureLocal → DeviceRemote → Message → Option Content → Answer
  with_content d fl r msg none = some (d, EebusError.input_argument_null)
  with_content d fl r msg (some c) = by_type d fl r msg (type_of msg.cmd)

  -- `HandleMessage` of the node management.
  unfoldable pub handle_management : LocalDevice → FeatureLocal → DeviceRemote → Message → Answer
  handle_management d fl r msg = with_content d fl r msg (content_of msg.cmd)
