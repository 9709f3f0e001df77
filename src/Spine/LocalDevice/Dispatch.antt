-- ===== src/Spine/LocalDevice/Dispatch.antt =====
-- `ProcessCmd`, `ProcessDatagram` and `RemoveRemoteDevice` of src/spine/device/device_local.c.
pub mod Unbound
pub mod Bound
use openeebus.Prelude.{
  ℕ, ◌==◌, if◌then◌else◌, Bool, true, false, ◌&&◌, Option, none, some, List, [], ◌∷◌, ◌++◌,
}
use openeebus.Common.Error.{EebusError, is_ok}
use openeebus.Spine.Address.{FeatureAddress, same_list}
use openeebus.Spine.Device.{Feature, DeviceRemote, remote_feature}
use openeebus.Spine.Manager.{Manager, EventPayload}
use openeebus.Spine.Manager.Delete.{has_binding}
use openeebus.Spine.Manager.Release.{remove_device}
use openeebus.Spine.Message.{CommandClassifier, Header, Cmd, Datagram, Message}
use openeebus.Spine.Pending.Reply.{remove_for_ski}
use openeebus.Spine.Sender.{result_success}
use openeebus.Spine.FeatureLocal.{FeatureLocal, Environment, Remote, send}
use openeebus.Spine.FeatureLocal.Exchange.{handle_message}
use openeebus.Spine.FeatureLocal.Remotes.{clean_remote_device_caches}
use openeebus.Spine.LocalDevice.{
  LocalDevice, Answer, ManagementTypes, feature_at, answered, with_events, remote_with_ski,
}
use openeebus.Spine.LocalDevice.NodeManagement.{Discovery, handle_management}

module _ (env : Environment) (types : ManagementTypes) (discovery : Discovery) where
  -- `FEATURE_LOCAL_HANDLE_MESSAGE`: the node management has its own handler.
  unfoldable pub handle_feature : LocalDevice → FeatureLocal → DeviceRemote → Message → Answer
  handle_feature d fl r msg =
      if fl.feature_type == types.node_management
      then handle_management env types discovery d fl r msg
      else answered d (handle_message env fl d.world msg)

  -- `!HasBinding` refuses the write; `none` is its crash.
  abbrev pub if_bound : LocalDevice → Option Bool → Answer → Answer
  if_bound d none more = none
  if_bound d (some true) more = more
  if_bound d (some false) more = some (d, EebusError.no_change)

  abbrev pub unless_unbound :
      LocalDevice → CommandClassifier → FeatureAddress → FeatureAddress → Answer → Answer
  unless_unbound d CommandClassifier.write server client more =
      if_bound d (has_binding d.bindings server client) more
  unless_unbound d _ server client more = more

  abbrev pub message_for :
      DeviceRemote → Header → Option Cmd → Feature → CommandClassifier → Message
  message_for r header cmd f c = record {
    request_header = some header;
    cmd_classifier = c;
    cmd = cmd;
    feature_remote = f;
    ski = r.ski;
  }

  abbrev with_classifier :
      LocalDevice
      → DeviceRemote
      → Header
      → Option Cmd
      → FeatureLocal
      → Feature
      → Option CommandClassifier
      → Answer
  with_classifier d r header cmd fl f none = some (d, EebusError.input_argument_null)
  with_classifier d r header cmd fl f (some c) =
      unless_unbound d c fl.address f.address (handle_feature d fl r (message_for r header cmd f c))

  abbrev with_remote_feature :
      LocalDevice → DeviceRemote → Header → Option Cmd → FeatureLocal → Option Feature → Answer
  with_remote_feature d r header cmd fl none = some (d, EebusError.no_change)
  with_remote_feature d r header cmd fl (some f) =
      with_classifier d r header cmd fl f header.cmd_classifier

  -- The source address is read before any test of it.
  abbrev with_source :
      LocalDevice
      → DeviceRemote
      → Header
      → Option Cmd
      → FeatureLocal
      → Option FeatureAddress
      → Answer
  with_source d r header cmd fl none = none
  with_source d r header cmd fl (some src) =
      with_remote_feature d r header cmd fl (remote_feature r src)

  abbrev with_local :
      LocalDevice → DeviceRemote → Header → Option Cmd → Option FeatureLocal → Answer
  with_local d r header cmd none = some (d, EebusError.input_argument_out_of_range)
  with_local d r header cmd (some fl) = with_source d r header cmd fl header.src_addr

  -- `ProcessCmd`.
  unfoldable pub process_cmd : LocalDevice → DeviceRemote → Header → Option Cmd → Answer
  process_cmd d r header cmd = with_local d r header cmd (feature_at d header.dest_addr)

  -- The remote device is known by its SKI; `none` is a device that is gone.
  abbrev with_device : LocalDevice → Option Remote → Header → Option Cmd → Answer
  with_device d none header cmd = none
  with_device d (some r) header cmd = process_cmd d r.device header cmd

  abbrev then_commands : Answer → (LocalDevice → Answer) → Answer
  then_commands none f = none
  then_commands (some (d, err)) f = if is_ok err then f d else some (d, err)

  -- The loop of `ProcessDatagram` over the commands.
  unfoldable pub process_cmds : LocalDevice → List ℕ → Header → List (Option Cmd) → Answer
  process_cmds d ski header [] = some (d, EebusError.ok)
  process_cmds d ski header (none ∷ cmds) = some (d, EebusError.input_argument_null)
  process_cmds d ski header (some cmd ∷ cmds) =
      then_commands (with_device d (remote_with_ski d ski) header (some cmd))
        (λ d'. process_cmds d' ski header cmds)

  abbrev is_ack_cmd_classifier : CommandClassifier → Bool
  is_ack_cmd_classifier CommandClassifier.call = true
  is_ack_cmd_classifier CommandClassifier.reply = true
  is_ack_cmd_classifier CommandClassifier.notify = true
  is_ack_cmd_classifier _ = false

  abbrev is_requested : Option Bool → Bool
  is_requested none = false
  is_requested (some b) = b

  -- The result of success of SPINE chapter 5.2.4; its error is ignored.
  abbrev success_sent : LocalDevice → List ℕ → Header → LocalDevice
  success_sent d ski header = record d {
    world =
        (send d.world ski
          (λ s. result_success env.printable env.types s (some header) header.dest_addr)).0;
  }

  abbrev pub acknowledged : List ℕ → Header → CommandClassifier → Answer → Answer
  acknowledged ski header c none = none
  acknowledged ski header c (some (d, err)) =
      if is_ok err && (is_requested header.ack_request && is_ack_cmd_classifier c)
      then some (success_sent d ski header, err)
      else some (d, err)

  abbrev null : LocalDevice → Answer
  null d = some (d, EebusError.input_argument_null)

  abbrev with_payload :
      LocalDevice → Option (List ℕ) → Header → CommandClassifier → List (Option Cmd) → Answer
  with_payload d ski header c [] = null d
  with_payload d none header c (cmd ∷ cmds) = null d
  with_payload d (some ski) header c (cmd ∷ cmds) =
      acknowledged ski header c (process_cmds d ski header (cmd ∷ cmds))

  abbrev with_header_classifier :
      LocalDevice → Option (List ℕ) → Header → List (Option Cmd) → Option CommandClassifier → Answer
  with_header_classifier d ski header payload none = null d
  with_header_classifier d ski header payload (some c) = with_payload d ski header c payload

  abbrev with_header : LocalDevice → Option (List ℕ) → List (Option Cmd) → Option Header → Answer
  with_header d ski payload none = null d
  with_header d ski payload (some header) =
      with_header_classifier d ski header payload header.cmd_classifier

  -- `ProcessDatagram` of the device with an SKI; the datagram and the device may be NULL.
  unfoldable pub process_datagram : LocalDevice → Option Datagram → Option (List ℕ) → Answer
  process_datagram d none ski = null d
  process_datagram d (some datagram) ski = with_header d ski datagram.payload datagram.header

abbrev removed_subscriptions :
    LocalDevice → Option (Manager × List EventPayload) → Option LocalDevice
removed_subscriptions d none = none
removed_subscriptions d (some (m, evs)) =
    some (record d { subscriptions = m; world = with_events d.world evs })

abbrev removed_bindings : LocalDevice → Option (Manager × List EventPayload) → Option LocalDevice
removed_bindings d none = none
removed_bindings d (some (m, evs)) =
    some (record d { bindings = m; world = with_events d.world evs })

abbrev without_ski : List Remote → List ℕ → List Remote
without_ski [] ski = []
without_ski (r ∷ rs) ski = if same_list r.device.ski ski then rs else r ∷ without_ski rs ski

module _ (node_management : ℕ) where
  -- `FEATURE_LOCAL_CLEAN_REMOTE_DEVICE_CACHES`, the node management's one too.
  unfoldable pub clean_caches : FeatureLocal → DeviceRemote → FeatureLocal
  clean_caches fl r =
      let fl' = clean_remote_device_caches fl r.device_address in
      if fl.feature_type == node_management
      then record fl' { pending_replies = remove_for_ski fl'.pending_replies (some r.ski) }
      else fl'

  abbrev clean_all : List FeatureLocal → DeviceRemote → List FeatureLocal
  clean_all [] r = []
  clean_all (fl ∷ fls) r = clean_caches fl r ∷ clean_all fls r

  abbrev device_cleaned : LocalDevice → DeviceRemote → LocalDevice
  device_cleaned d r = record d {
    locals = clean_all d.locals r;
    world = record d.world { remotes = without_ski d.world.remotes r.ski };
  }

  abbrev bindings_then_caches : Option LocalDevice → DeviceRemote → Option LocalDevice
  bindings_then_caches none r = none
  bindings_then_caches (some d) r = elim (removed_bindings d (remove_device d.bindings r)) [
    | none ↦ none
    | some d' ↦ some (device_cleaned d' r)
  ]

  abbrev remove_remote : LocalDevice → Option Remote → Option LocalDevice
  remove_remote d none = some d
  remove_remote d (some r) =
      bindings_then_caches (removed_subscriptions d (remove_device d.subscriptions r.device))
        r.device

  -- `RemoveRemoteDevice`; `none` is a read through a NULL server feature.
  unfoldable pub remove_remote_device : LocalDevice → List ℕ → Option LocalDevice
  remove_remote_device d ski = remove_remote d (remote_with_ski d ski)
