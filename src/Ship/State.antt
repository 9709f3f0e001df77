-- ===== src/Ship/State.antt =====
-- The state of a SHIP connection, src/ship/ship_connection/ship_connection_internal.h, and its
-- construction in ship_connection.c, with the environment in which its thread runs.
use openeebus.Prelude.{ℕ, Bool, false, Option, none, List, [], String}
use openeebus.Common.Timer.{Timer, Timespec}
use openeebus.Common.Timer
use openeebus.Ship.Types.{SmeState, ShipRole, ShipMessage, Deserialized}

-- `ShipConnectionQueueMessage`. An acceptance callback is known by a number.
pub data QueueMessage : Type 0 where
  data_received spine_data_to_send : List ℕ → QueueMessage
  timed_out websocket_error websocket_close cancelled : QueueMessage
  trust_granted trust_denied : ℕ → Option ℕ → QueueMessage

pub data TrustDecision : Type 0 where
  undecided granted denied : TrustDecision

-- A queued message, with the timers that fire before it is taken out.
pub record Arrival : Type 0 where
  pub message : QueueMessage
  pub wait_for_ready_fires : Bool
  pub send_prolongation_request_fires : Bool
  pub prolongation_request_reply_fires : Bool

-- What the connection does that others can see, or what it is told.
pub data Event : Type 0 where
  state_update : SmeState → Event
  wrote : List ℕ → Event
  sent : ShipMessage → Event
  websocket_closed : ℕ → Option String → Event
  connection_closed : Bool → Event
  paired_answer : Bool → Event
  accept_answer : ℕ → Bool → Event
  remote_device_set_up : Event
  ship_id_reported : List ℕ → Event
  payload_handled : List ℕ → Event
  received : QueueMessage → Event
  timer_started : ℕ → Event

-- The websocket, the info provider, the message codec, the clocks and the thread library. Every
-- answer is given the events so far, newest first.
pub record Environment : Type 0 where
  pub write : List Event → List ℕ → Bool
  pub serialize : ShipMessage → Option (List ℕ)
  pub deserialize : List ℕ → Deserialized
  pub is_paired : List Event → Bool
  pub accept : List Event → ℕ → ℕ → Bool
  pub wall : List Event → Timespec
  pub now : List Event → Timespec
  pub thread_created : List Event → Bool

-- The fields of `ShipConnection` that the thread uses; `log` and `inbox` are the world's.
pub record ShipConnection : Type 0 where
  pub role : ShipRole
  pub local_ship_id : List ℕ
  pub remote_ship_id : List ℕ
  pub sme_state : SmeState
  pub is_access_methods_req_sent : Bool
  pub wait_for_ready_timer : Timer
  pub send_prolongation_request_timer : Timer
  pub prolongation_request_reply_timer : Timer
  pub last_received_waiting_value : ℕ
  pub trust_decision : TrustDecision
  pub trust_decision_id : ℕ
  pub trust_accept_cb : Option ℕ
  pub remote_hello_ready : Bool
  pub shutdown_once : Bool
  pub cancel : Bool
  pub msg : List ℕ
  pub inbox : List Arrival
  pub log : List Event

abbrev pub initial_state : ShipRole → SmeState
initial_state ShipRole.server = SmeState.cmi_server_wait
initial_state _ = SmeState.cmi_client_send

-- `ShipConnectionConstruct`.
unfoldable pub construct : ShipRole → List ℕ → List ℕ → List Arrival → ShipConnection
construct role local_ship_id remote_ship_id inbox = record {
  role = role;
  local_ship_id = local_ship_id;
  remote_ship_id = remote_ship_id;
  sme_state = initial_state role;
  is_access_methods_req_sent = false;
  wait_for_ready_timer = Timer.construct;
  send_prolongation_request_timer = Timer.construct;
  prolongation_request_reply_timer = Timer.construct;
  last_received_waiting_value = 0;
  trust_decision = TrustDecision.undecided;
  trust_decision_id = 0;
  trust_accept_cb = none;
  remote_hello_ready = false;
  shutdown_once = false;
  cancel = false;
  msg = [];
  inbox = inbox;
  log = [];
}
