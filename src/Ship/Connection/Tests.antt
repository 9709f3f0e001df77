-- ===== src/Ship/Connection/Tests.antt =====
-- Runs of a connection.
use openeebus.Prelude.{
  ◌≤◌, ℕ, true, false, ◌≡◌, refl, inr, ◌==◌, if◌then◌else◌, none, some, List, [], ◌∷◌,
}
use openeebus.Common.Error.{is_ok}
use openeebus.Common.Timer
use openeebus.Ship.Types.{
  SmeState, value, client, server, HelloPhase, ConnectionHello, ProtocolHandshake, HandshakeType,
  PinStateType, ConnectionPinState, ClosePhase, Deserialized, ShipMessage, send_hello,
  send_handshake, send_handshake_error, send_pin_state, send_data, send_access_methods_request,
  send_access_methods, send_close, ship_init_message,
}
use openeebus.Ship.Connection.{
  close_with_error, Event, ShipConnection, Environment, Arrival, QueueMessage, construct,
  set_sme_state, serialize_and_send, send, receive, finish_wait, wait_loop, deliver,
  start_wait_for_ready, translate_as, take, release_msg, stop_wait_for_ready,
  stop_send_prolongation, stop_prolongation_reply,
}
use openeebus.Ship.Connection.Outcome.{Outcome}
use openeebus.Ship.Connection.Diagram.{Edge}
use openeebus.Ship.Connection.Kept.{closings}
use openeebus.Ship.Connection.Hello
use openeebus.Ship.Connection.Handshake
use openeebus.Ship.Connection.Handshake.{utf8_handshake}
use openeebus.Ship.Connection.DataExchange.{data_exchange}
use openeebus.Ship.Connection.DataOutcome.{CanRequest}
use openeebus.Ship.Connection.Machine.{handle_state, client_step, common_step, loop}
use openeebus.Ship.Connection.StepOutcome.{handle_state-Outcome}
use openeebus.Ship.Connection.Trust.{IsTrusted, loop-construct-IsTrusted}
use openeebus.Ship.Connection.Closing.{
  ReportsOnce, loop-construct-ReportsOnce, data_exchange-closings,
}
use openeebus.Ship.Connection.Agreement.{
  close_with_error-log, server_proposal-agreed, client_choice-agreed,
}
use openeebus.Ship.Connection.Livelock.{loop-pending_timeout}
use openeebus.Ship.Connection.Cooperation.{Reliable, At, delivered}
use openeebus.Ship.Connection.Cooperation.Established.{client-established, server-established}

-- A codec with a few messages, each of one byte.
abbrev pub hello_ready : ConnectionHello
hello_ready = record { phase = HelloPhase.ready; waiting = some 60000; prolongation_request = none }

abbrev pub hello_pending : ConnectionHello
hello_pending = record {
  phase = HelloPhase.pending;
  waiting = some 20000;
  prolongation_request = none;
}

abbrev pub announced : ProtocolHandshake
announced = utf8_handshake HandshakeType.announce_max 1 0

abbrev pub selected : ProtocolHandshake
selected = utf8_handshake HandshakeType.select 1 0

abbrev pub pinless : ConnectionPinState
pinless = record { pin_state = PinStateType.no_pin; input_permission = none }

abbrev pub decode_tag : ℕ → Deserialized
decode_tag tag =
    if tag == 1
    then Deserialized.sme_hello (some hello_ready)
    else if tag == 2
    then Deserialized.sme_protocol_handshake (some announced)
    else if tag == 3
    then Deserialized.sme_protocol_handshake (some selected)
    else if tag == 4
    then Deserialized.sme_pin_state (some pinless)
    else if tag == 5
    then Deserialized.sme_close (some ClosePhase.announce)
    else if tag == 6
    then Deserialized.sme_hello (some hello_pending)
    else Deserialized.undefined

abbrev pub decode : List ℕ → Deserialized
decode (tag ∷ []) = decode_tag tag
decode _ = Deserialized.undefined

abbrev pub encode : ShipMessage → List ℕ
encode (send_hello _) = 1 ∷ []
encode (send_handshake _) = 2 ∷ []
encode (send_handshake_error _) = 7 ∷ []
encode (send_pin_state _) = 4 ∷ []
encode (send_data bytes) = bytes
encode send_access_methods_request = 8 ∷ []
encode (send_access_methods bytes) = bytes
encode (send_close _ _) = 5 ∷ []

abbrev pub friendly : Environment
friendly = record {
  write = λ _ _. true;
  serialize = λ m. some (encode m);
  deserialize = decode;
  is_paired = λ _. true;
  accept = λ _ _ _. true;
  wall = λ _. record { tv_sec = 1; tv_nsec = 0 };
  now = λ _. record { tv_sec = 1; tv_nsec = 0 };
  thread_created = λ _. true;
}

-- The websocket writes nothing.
abbrev mute : Environment
mute = record friendly { write = λ _ _. false }

abbrev friendly-Reliable : Reliable friendly
friendly-Reliable = record { writes = λ _ _. refl; encode = encode; encodes = λ _. refl }

abbrev client_inbox : List Arrival
client_inbox =
    delivered ship_init_message ∷ delivered (1 ∷ []) ∷ delivered (3 ∷ []) ∷ delivered (4 ∷ []) ∷ []

abbrev server_inbox : List Arrival
server_inbox =
    delivered ship_init_message
    ∷ delivered (1 ∷ [])
    ∷ delivered (2 ∷ [])
    ∷ delivered (3 ∷ [])
    ∷ delivered (4 ∷ [])
    ∷ []

client-established_example :
    At client SmeState.data_exchange [] [] (loop friendly 13 (construct client [] [] client_inbox))
client-established_example =
    client-established friendly friendly-Reliable (λ _. refl) [] [] (1 ∷ []) (3 ∷ []) (4 ∷ []) []
      hello_ready selected pinless refl refl refl (unfold Handshake.message_check in refl) refl refl

server-established_example :
    At server SmeState.data_exchange [] [] (loop friendly 13 (construct server [] [] server_inbox))
server-established_example =
    server-established friendly friendly-Reliable (λ _. refl) [] [] (1 ∷ []) (2 ∷ []) (3 ∷ [])
      (4 ∷ []) [] hello_ready announced selected pinless refl refl refl refl
      (unfold Handshake.agree_on_version in refl) refl refl refl refl

loop-construct-IsTrusted_example :
    IsTrusted (loop friendly 13 (construct client [] [] client_inbox))
loop-construct-IsTrusted_example = loop-construct-IsTrusted friendly 13 client [] [] client_inbox

friendly-CanRequest : (c : ShipConnection) → CanRequest friendly c
unfolding serialize_and_send send is_ok
friendly-CanRequest c = inr refl

loop-construct-ReportsOnce_example :
    ReportsOnce (loop friendly 14 (construct client [] [] client_inbox))
loop-construct-ReportsOnce_example =
    loop-construct-ReportsOnce friendly friendly-CanRequest 14 client [] [] client_inbox

-- An approved connection that a close message reaches.
abbrev pub exchanging : ShipConnection
exchanging = record (construct client [] [] (delivered (5 ∷ []) ∷ [])) {
  sme_state = SmeState.data_exchange;
}

handle_state-Outcome_example :
    Outcome (Edge client SmeState.data_exchange) exchanging (handle_state friendly exchanging)
unfolding construct
handle_state-Outcome_example =
    handle_state-Outcome friendly exchanging (λ _. friendly-CanRequest exchanging)

data_exchange-closings_example : closings (data_exchange mute exchanging).log ≡ 2
unfolding construct is_ok serialize_and_send send
data_exchange-closings_example =
    data_exchange-closings mute exchanging (delivered (5 ∷ [])) [] (5 ∷ []) ClosePhase.announce refl
      refl refl refl refl refl

-- A pending connection, for which the timer fires while a message is in the queue.
abbrev racing : ShipConnection
racing =
    record (construct client [] [] (
      record {
        message = QueueMessage.data_received (6 ∷ []);
        wait_for_ready_fires = true;
        send_prolongation_request_fires = false;
        prolongation_request_reply_fires = false;
      }
      ∷ record {
        message = QueueMessage.timed_out;
        wait_for_ready_fires = false;
        send_prolongation_request_fires = false;
        prolongation_request_reply_fires = false;
      }
      ∷ [])) { sme_state = SmeState.hello_pending_listen }

abbrev stuck : ShipConnection
stuck = loop friendly 2 racing

loop-pending_timeout_example : loop friendly 100 stuck ≡ stuck
unfolding loop construct handle_state client_step common_step Hello.hello_pending_listen receive
    finish_wait is_ok wait_loop deliver start_wait_for_ready translate_as take
    Hello.hello_pending_evaluate release_msg Hello.check_wait_and_prolongation Hello.new_wait_value
    stop_wait_for_ready stop_send_prolongation stop_prolongation_reply Timer.stop Timer.fire
    Timer.start Timer.construct Timer.update_wait_cond_timeout set_sme_state value
loop-pending_timeout_example = loop-pending_timeout friendly 100 stuck refl (record {
  wait_for_ready = record { not_expired = refl; no_thread = refl };
  send_prolongation = record { not_expired = refl; no_thread = refl };
  prolongation_reply = record { not_expired = refl; no_thread = refl };
})

close_with_error-log_example :
    (close_with_error friendly exchanging "lost").log
    ≡ Event.connection_closed false
      ∷ Event.websocket_closed 4001 (some "lost")
      ∷ Event.state_update SmeState.error
      ∷ []
unfolding construct
close_with_error-log_example =
    close_with_error-log friendly exchanging "lost" refl (λ e. absurd (cc e))

abbrev waiting_server : ShipConnection
waiting_server = construct server [] [] []

server_proposal-agreed_example :
    (h : ProtocolHandshake) × (Deserialized.sme_protocol_handshake (some announced)
      ≡ Deserialized.sme_protocol_handshake (some h))
    × (h.handshake_type ≡ HandshakeType.announce_max)
    × (h.major ≤ 1)
    × (h.minor ≤ 0)
unfolding Handshake.server_proposal Handshake.agree_on_version serialize_and_send send is_ok
    set_sme_state release_msg
server_proposal-agreed_example =
    server_proposal-agreed friendly waiting_server
      (Deserialized.sme_protocol_handshake (some announced)) refl

client_choice-agreed_example :
    (h : ProtocolHandshake) × (Deserialized.sme_protocol_handshake (some selected)
      ≡ Deserialized.sme_protocol_handshake (some h))
    × (Handshake.is_select h.handshake_type ≡ true)
    × (h.major ≡ 1)
    × (h.minor ≡ 0)
unfolding Handshake.client_choice Handshake.message_check serialize_and_send send is_ok
    set_sme_state release_msg
client_choice-agreed_example =
    client_choice-agreed friendly (construct client [] [] [])
      (Deserialized.sme_protocol_handshake (some selected)) refl
