-- ===== src/Spine/Message.antt =====
-- The messages of SPINE: src/spine/model/command_frame_types.h, datagram_types.h, error_types.h,
-- result_types.h and src/spine/api/message.h. What a function of a feature holds is a number that
-- stands for the data.
use openeebus.Prelude.{ℕ, Bool, Option, List}
use openeebus.Spine.Address.{FeatureAddress}
use openeebus.Spine.Device.{Feature}
use openeebus.Spine.Manager.{RequestCall, DeleteCall, LinkEntry}

pub data CommandClassifier : Type 0 where
  read reply notify write call result : CommandClassifier

-- `HeaderType`, without the fields that no code sets.
pub record Header : Type 0 where
  pub spec_version : Option (List ℕ)
  pub src_addr : Option FeatureAddress
  pub dest_addr : Option FeatureAddress
  pub msg_cnt : Option ℕ
  pub msg_cnt_ref : Option ℕ
  pub cmd_classifier : Option CommandClassifier
  pub ack_request : Option Bool

-- `data_choice` of a command: the data of a function, a result, or a request or an answer of the node
-- management. The request in a call may be NULL, of a destination there is the device's address, and
-- of a result the number of the error, without its description.
pub data Content : Type 0 where
  function_data : ℕ → Content
  result_data : Option ℕ → Content
  subscription_request binding_request : Option RequestCall → Content
  subscription_delete binding_delete : Option DeleteCall → Content
  subscription_data binding_data : List LinkEntry → Content
  destination_data : Option (List ℕ) → Content

-- `CmdType`, with its first partial and its first delete filter.
pub record Cmd : Type 0 where
  pub data_choice : Option Content
  pub data_choice_type_id : ℕ
  pub filter_partial : Option ℕ
  pub filter_delete : Option ℕ

-- `DatagramType`. A command may be a NULL pointer.
pub record Datagram : Type 0 where
  pub header : Option Header
  pub payload : List (Option Cmd)

-- `Message`; the entity and the device are those of the remote feature.
pub record Message : Type 0 where
  pub request_header : Option Header
  pub cmd_classifier : CommandClassifier
  pub cmd : Option Cmd
  pub feature_remote : Feature
  pub ski : List ℕ

-- `ReplyMessage` and `ResultMessage`.
pub record ReplyMessage : Type 0 where
  pub msg_cnt_ref : ℕ
  pub function_data : Option Content
  pub function_type : ℕ
  pub feature_remote : Option Feature
  pub ski : Option (List ℕ)

pub record ResultMessage : Type 0 where
  pub msg_cnt_ref : ℕ
  pub function_type : ℕ
  pub result_data : Option ℕ
  pub feature_remote : Option Feature
