-- ===== src/Spine/Sender/Tests.antt =====
-- Calls of a sender.
use openeebus.Prelude.{Bool, true, none, some, List, [], ◌∷◌, arith}
use openeebus.Spine.Address.{FeatureAddress}
use openeebus.Spine.Message.{CommandClassifier, Header, Content, Datagram}
use openeebus.Spine.Sender.{Sender, FunctionTypes, plain}
use openeebus.Spine.Sender.Counters.{Request, Rising, run, run-Rising}

abbrev own : FeatureAddress
own = record { device = some (1 ∷ []); entity = 1 ∷ []; feature = some 7 }

-- The own feature as a request names it, without the device.
abbrev short : FeatureAddress
short = record { device = none; entity = 1 ∷ []; feature = some 7 }

abbrev peer : FeatureAddress
peer = record { device = some (2 ∷ []); entity = 1 ∷ []; feature = some 4 }

abbrev types : FunctionTypes
types = record {
  subscription_request_call = 1;
  subscription_delete_call = 2;
  binding_request_call = 3;
  binding_delete_call = 4;
  result_data_type = 5;
}

abbrev any : Datagram → Bool
any _ = true

abbrev read_call : Header
read_call = record {
  spec_version = none;
  src_addr = some peer;
  dest_addr = some short;
  msg_cnt = some 12;
  msg_cnt_ref = none;
  cmd_classifier = some CommandClassifier.read;
  ack_request = none;
}

abbrev up : Sender
up = record { msg_num = 3; has_writer = true }

abbrev calls : List Request
calls =
    Request.subscribe (some own) (some peer) 9
    ∷ Request.failure (some read_call) none 1
    ∷ Request.reply_request (some read_call) (some own) (some (plain 8 (Content.function_data 6)))
    ∷ []

run-Rising_example : Rising 3 (run any types calls up).0 (run any types calls up).1
run-Rising_example = run-Rising any types calls up (omega arith)
