-- ===== src/Spine/Sender.antt =====
-- The sender of a remote device, src/spine/device/sender.c, which numbers the messages. What is
-- written to the connection is a list of datagrams. Whether a datagram can be printed is an argument;
-- the allocation of the array of commands does not fail.
pub mod Counters
pub mod Tests
use openeebus.Prelude.{
  ℕ, ◌+◌, ◌%◌, ◌^◌, if◌then◌else◌, Bool, true, false, Option, none, some, List, [], ◌∷◌,
}
use openeebus.Common.Error.{EebusError}
use openeebus.Spine.Address.{FeatureAddress}
use openeebus.Spine.Manager.{RequestCall, DeleteCall}
use openeebus.Spine.Message.{CommandClassifier, Header, Content, Cmd, Datagram}

-- `Sender`; `has_writer` is `writer != NULL`.
pub record Sender : Type 0 where
  pub msg_num : ℕ
  pub has_writer : Bool

-- `SenderConstruct`.
unfoldable pub construct : Bool → Sender
construct writer = record { msg_num = 0; has_writer = writer }

-- The sender, the error, the number of the message if one was taken, and what was written.
pub record Sent : Type 0 where
  pub sender : Sender
  pub error : EebusError
  pub msg_cnt : Option ℕ
  pub written : List Datagram

abbrev pub refused : Sender → EebusError → Sent
refused s e = record { sender = s; error = e; msg_cnt = none; written = [] }

-- The constants of `node_management_types.h`.
abbrev node_management_entity_id : ℕ
node_management_entity_id = 0

abbrev node_management_feature_id : ℕ
node_management_feature_id = 0

-- `NodeManagementAddress`.
unfoldable pub node_management_address : Option (List ℕ) → FeatureAddress
node_management_address device = record {
  device = device;
  entity = node_management_entity_id ∷ [];
  feature = some node_management_feature_id;
}

-- `specification_version`: "1.3.0".
abbrev specification_version : List ℕ
specification_version = 49 ∷ 46 ∷ 51 ∷ 46 ∷ 48 ∷ []

-- A command without filters.
abbrev pub plain : ℕ → Content → Cmd
plain type_id content = record {
  data_choice = some content;
  data_choice_type_id = type_id;
  filter_partial = none;
  filter_delete = none;
}

-- The function types that the sender sets.
pub record FunctionTypes : Type 0 where
  pub subscription_request_call : ℕ
  pub subscription_delete_call : ℕ
  pub binding_request_call : ℕ
  pub binding_delete_call : ℕ
  pub result_data_type : ℕ

module _ (printable : Datagram → Bool) where
  -- The message of `SendSpineMessage` once it has its number.
  abbrev write_datagram : Sender → ℕ → Datagram → Sent
  write_datagram s n datagram =
      if printable datagram
      then record { sender = s; error = EebusError.ok; msg_cnt = some n; written = datagram ∷ [] }
      else record { sender = s; error = EebusError.memory_allocate; msg_cnt = some n; written = [] }

  -- `SendSpineMessage`, with one command or none. `SenderGetNextMsgCounter` counts in 64 bits.
  unfoldable pub send_spine_message :
      Sender
      → CommandClassifier
      → Option FeatureAddress
      → Option FeatureAddress
      → Option ℕ
      → Bool
      → Option Cmd
      → Sent
  send_spine_message s classifier none dst ref ack cmd = refused s EebusError.input_argument_null
  send_spine_message s classifier (some src) none ref ack cmd =
      refused s EebusError.input_argument_null
  send_spine_message s classifier (some src) (some dst) ref ack none =
      refused s EebusError.input_argument_null
  send_spine_message s classifier (some src) (some dst) ref ack (some cmd) =
      let n = (s.msg_num + 1) % 2 ^ 64 in
      if s.has_writer
      then write_datagram (record s { msg_num = n }) n
          (record {
            header = some (record {
              spec_version = some specification_version;
              src_addr = some src;
              dest_addr = some dst;
              msg_cnt = some n;
              msg_cnt_ref = ref;
              cmd_classifier = some classifier;
              ack_request = if ack then some true else none;
            });
            payload = some cmd ∷ [];
          })
      else refused s EebusError.init

  -- `Read`, `Notify` and `Write`.
  unfoldable pub read : Sender → Option FeatureAddress → Option FeatureAddress → Option Cmd → Sent
  read s src dst cmd = send_spine_message s CommandClassifier.read src dst none false cmd

  unfoldable pub notify : Sender → Option FeatureAddress → Option FeatureAddress → Option Cmd → Sent
  notify s src dst cmd = send_spine_message s CommandClassifier.notify src dst none false cmd

  unfoldable pub write : Sender → Option FeatureAddress → Option FeatureAddress → Option Cmd → Sent
  write s src dst cmd = send_spine_message s CommandClassifier.write src dst none true cmd

  abbrev reply_from :
      Sender → Option FeatureAddress → Header → FeatureAddress → Option Cmd → Option Sent
  reply_from s none header own cmd = none
  reply_from s (some dest) header own cmd = some (
      send_spine_message s CommandClassifier.reply (some (record dest { device = own.device }))
        header.src_addr header.msg_cnt false cmd)

  abbrev reply_to :
      Sender → Option FeatureAddress → Header → FeatureAddress → Option Cmd → Option Sent
  reply_to s none header own cmd = some (refused s EebusError.input_argument)
  reply_to s (some src) header own cmd = reply_from s header.dest_addr header own cmd

  -- `Reply`; `none` is the read through the address of the request's destination when it is NULL.
  unfoldable pub reply : Sender → Option Header → Option FeatureAddress → Option Cmd → Option Sent
  reply s none own cmd = some (refused s EebusError.input_argument_null)
  reply s (some header) none cmd = some (refused s EebusError.input_argument_null)
  reply s (some header) (some own) cmd = reply_to s header.src_addr header own cmd

  abbrev result_from : Sender → Option FeatureAddress → Header → FeatureAddress → Cmd → Sent
  result_from s none header own cmd = refused s EebusError.input_argument
  result_from s (some dest) header own cmd =
      send_spine_message s CommandClassifier.result (some (record dest { device = own.device }))
        header.src_addr header.msg_cnt false (some cmd)

  abbrev error_number : Option ℕ → ℕ
  error_number none = 0
  error_number (some n) = n

  module _ (types : FunctionTypes) where
    -- `SendResult`; without an error it reports `kErrorNumberTypeNoError`. The description of an error,
    -- which the result carries beside its number, is left out.
    unfoldable pub send_result : Sender → Option Header → Option FeatureAddress → Option ℕ → Sent
    send_result s none own err = refused s EebusError.input_argument_null
    send_result s (some header) none err = refused s EebusError.input_argument_null
    send_result s (some header) (some own) err =
        result_from s header.dest_addr header own
          (plain types.result_data_type (Content.result_data (some (error_number err))))

    -- `ResultSuccess` and `ResultError`.
    unfoldable pub result_success : Sender → Option Header → Option FeatureAddress → Sent
    result_success s header own = send_result s header own none

    unfoldable pub result_error : Sender → Option Header → Option FeatureAddress → ℕ → Sent
    result_error s header own err = send_result s header own (some err)

    -- `SendNodeManagmentCall`.
    unfoldable pub send_node_management_call :
        Sender → Content → ℕ → Option (List ℕ) → Option (List ℕ) → Sent
    send_node_management_call s content type_id local_device remote_device =
        send_spine_message s CommandClassifier.call (some (node_management_address local_device))
          (some (node_management_address remote_device)) none true (some (plain type_id content))

    abbrev request_call : FeatureAddress → FeatureAddress → ℕ → RequestCall
    request_call src dst feature_type = record {
      client_address = some src;
      server_address = some dst;
      server_feature_type = some feature_type;
    }

    abbrev delete_call : FeatureAddress → FeatureAddress → DeleteCall
    delete_call src dst = record { client_address = some src; server_address = some dst }

    abbrev call :
        (FeatureAddress → FeatureAddress → Content)
        → ℕ
        → Sender
        → Option FeatureAddress
        → Option FeatureAddress
        → Sent
    call content type_id s none dst = refused s EebusError.input_argument_null
    call content type_id s (some src) none = refused s EebusError.input_argument_null
    call content type_id s (some src) (some dst) =
        send_node_management_call s (content src dst) type_id src.device dst.device

    -- `CallSubscribe`, `CallUnsubscribe`, `CallBind` and `CallUnbind`.
    unfoldable pub call_subscribe :
        Sender → Option FeatureAddress → Option FeatureAddress → ℕ → Sent
    call_subscribe s src dst feature_type =
        call (λ a b. Content.subscription_request (some (request_call a b feature_type)))
          types.subscription_request_call s src dst

    unfoldable pub call_unsubscribe : Sender → Option FeatureAddress → Option FeatureAddress → Sent
    call_unsubscribe =
        call (λ a b. Content.subscription_delete (some (delete_call a b)))
          types.subscription_delete_call

    unfoldable pub call_bind : Sender → Option FeatureAddress → Option FeatureAddress → ℕ → Sent
    call_bind s src dst feature_type =
        call (λ a b. Content.binding_request (some (request_call a b feature_type)))
          types.binding_request_call s src dst

    unfoldable pub call_unbind : Sender → Option FeatureAddress → Option FeatureAddress → Sent
    call_unbind =
        call (λ a b. Content.binding_delete (some (delete_call a b))) types.binding_delete_call
