-- ===== src/Ship/Connection.antt =====
-- The state of a SHIP connection and the operations that all its handlers share,
-- src/ship/ship_connection/ship_connection.c. The connection thread is modelled: it alone advances
-- the state. What it meets is an `Environment`, whose answers may depend on all that happened
-- before, and the `inbox`, the messages that its queue will deliver until the queue is closed.
pub mod Hello
pub mod Handshake
pub mod Pin
pub mod DataExchange
pub mod Machine
pub mod Kept
pub mod Outcome
pub mod Diagram
pub mod HelloKept
pub mod HelloOutcome
pub mod PhaseOutcome
pub mod DataOutcome
pub mod StepOutcome
pub mod Closing
pub mod Livelock
pub mod CallTests
pub mod ShipId
pub mod Api
pub mod Decisions
pub mod Agreement
pub mod Cooperation
pub mod Tests
pub mod Trust
use openeebus.Prelude.{
  ℕ, ◌==◌, if◌then◌else◌, Bool, true, false, ◌&&◌, Option, none, some, List, [], ◌∷◌, String,
}
use openeebus.Common.Error.{EebusError, is_ok}
use openeebus.Common.Timer.{Timer}
use openeebus.Common.Timer
use openeebus.Ship.Types.{
  SmeState, value, ShipRole, ShipMessage, Deserialized, ClosePhase, send_close, data_exchange,
  hello_pending_listen, hello_abort_done, hello_remote_abort_done, hello_rejected,
}
pub use openeebus.Ship.State.{
  QueueMessage, TrustDecision, Arrival, Event, Environment, ShipConnection, initial_state,
}
unfoldable pub use openeebus.Ship.State.{construct}

-- `ShipConnectionSetSmeState`: an unchanged state is assigned once more, and not reported.
unfoldable pub set_sme_state : ShipConnection → SmeState → ShipConnection
set_sme_state c state = record c {
  sme_state = state;
  log = if value c.sme_state == value state then c.log else Event.state_update state ∷ c.log;
}

unfoldable pub release_msg : ShipConnection → ShipConnection
release_msg c = record c { msg = [] }

unfoldable pub stop_wait_for_ready : ShipConnection → ShipConnection
stop_wait_for_ready c = record c { wait_for_ready_timer = Timer.stop c.wait_for_ready_timer }

unfoldable pub stop_send_prolongation : ShipConnection → ShipConnection
stop_send_prolongation c = record c {
  send_prolongation_request_timer = Timer.stop c.send_prolongation_request_timer;
}

unfoldable pub stop_prolongation_reply : ShipConnection → ShipConnection
stop_prolongation_reply c = record c {
  prolongation_request_reply_timer = Timer.stop c.prolongation_request_reply_timer;
}

-- The states in which `CloseConnection` calls the handshake ended.
abbrev pub is_hs_ended : SmeState → Bool
is_hs_ended data_exchange = true
is_hs_ended hello_abort_done = true
is_hs_ended hello_remote_abort_done = true
is_hs_ended hello_rejected = true
is_hs_ended _ = false

abbrev is_data_exchange : SmeState → Bool
is_data_exchange data_exchange = true
is_data_exchange _ = false

abbrev fire_if : Bool → Timer → Timer
fire_if fires t = if fires then Timer.fire t else t

-- The next message leaves the queue, after the timers that fire before.
unfoldable pub take : ShipConnection → Arrival → List Arrival → ShipConnection
take c a rest = record c {
  wait_for_ready_timer = fire_if a.wait_for_ready_fires c.wait_for_ready_timer;
  send_prolongation_request_timer =
      fire_if a.send_prolongation_request_fires c.send_prolongation_request_timer;
  prolongation_request_reply_timer =
      fire_if a.prolongation_request_reply_fires c.prolongation_request_reply_timer;
  inbox = rest;
  log = Event.received a.message ∷ c.log;
}

abbrev pub decide : ShipConnection → TrustDecision → ℕ → Option ℕ → ShipConnection
decide c decision approval_id accept_cb = record c {
  trust_decision = decision;
  trust_decision_id = approval_id;
  trust_accept_cb = accept_cb;
}

abbrev pub is_pending_listen : SmeState → Bool
is_pending_listen hello_pending_listen = true
is_pending_listen _ = false

-- The rest of an iteration of the loop, given what the further iterations make of the connection: a
-- trust decision counts in the pending phase, and is dropped in any other.
unfoldable pub deliver :
    Bool
    → ShipConnection
    → QueueMessage
    → ShipConnection × EebusError × QueueMessage
    → ShipConnection × EebusError × QueueMessage
deliver true c (QueueMessage.trust_granted approval_id accept_cb) more = (
  decide c TrustDecision.granted approval_id accept_cb,
  EebusError.ok,
  QueueMessage.trust_granted approval_id accept_cb,
)
deliver false c (QueueMessage.trust_granted approval_id accept_cb) more = more
deliver true c (QueueMessage.trust_denied approval_id accept_cb) more = (
  decide c TrustDecision.denied approval_id accept_cb,
  EebusError.ok,
  QueueMessage.trust_denied approval_id accept_cb,
)
deliver false c (QueueMessage.trust_denied approval_id accept_cb) more = more
deliver _ c message more = (c, EebusError.ok, message)

-- The loop of `ShipConnectionWaitForMessage`. A closed queue, which the empty inbox stands for,
-- returns `kEebusErrorNoChange`.
unfoldable pub wait_loop :
    List Arrival → ShipConnection → ShipConnection × EebusError × QueueMessage
wait_loop [] c = (record c { inbox = [] }, EebusError.no_change, QueueMessage.cancelled)
wait_loop (a ∷ rest) c =
    deliver (is_pending_listen c.sme_state) (take c a rest) a.message
      (wait_loop rest (take c a rest))

-- `ShipConnectionTranslateQueueMessage`, at the connection's trust decision.
unfoldable pub translate_as :
    TrustDecision → ShipConnection → QueueMessage → ShipConnection × EebusError
translate_as TrustDecision.undecided c (QueueMessage.data_received bytes) =
    (record c { msg = bytes }, EebusError.ok)
translate_as TrustDecision.undecided c QueueMessage.timed_out = (c, EebusError.time)
translate_as TrustDecision.undecided c QueueMessage.cancelled = (c, EebusError.deactivate)
translate_as TrustDecision.undecided c QueueMessage.websocket_error = (c, EebusError.communication)
translate_as TrustDecision.undecided c QueueMessage.websocket_close =
    (c, EebusError.communication_end)
translate_as TrustDecision.undecided c _ = (c, EebusError.input_type)
translate_as _ c _ = (c, EebusError.no_change)

-- What `ShipConnectionReceive` does once the wait is over: the end of
-- `ShipConnectionWaitForMessage`, and the translation of the message.
unfoldable pub finish_wait :
    ShipConnection × EebusError × QueueMessage → ShipConnection × EebusError
finish_wait r =
    let stopped = stop_wait_for_ready r.0 in
    if is_ok r.1 then translate_as r.0.trust_decision stopped r.2 else (stopped, r.1)

module _ (env : Environment) where
  abbrev start_timer : List Event → Timer → ℕ → Timer
  start_timer log t timeout_ms =
      Timer.start (env.wall log) (env.now log) (env.thread_created log) t timeout_ms false

  unfoldable pub start_wait_for_ready : ShipConnection → ℕ → ShipConnection
  start_wait_for_ready c timeout_ms = record c {
    wait_for_ready_timer = start_timer c.log c.wait_for_ready_timer timeout_ms;
    log = Event.timer_started timeout_ms ∷ c.log;
  }

  unfoldable pub start_send_prolongation : ShipConnection → ℕ → ShipConnection
  start_send_prolongation c timeout_ms = record c {
    send_prolongation_request_timer =
        start_timer c.log c.send_prolongation_request_timer timeout_ms;
    log = Event.timer_started timeout_ms ∷ c.log;
  }

  unfoldable pub start_prolongation_reply : ShipConnection → ℕ → ShipConnection
  start_prolongation_reply c timeout_ms = record c {
    prolongation_request_reply_timer =
        start_timer c.log c.prolongation_request_reply_timer timeout_ms;
    log = Event.timer_started timeout_ms ∷ c.log;
  }

  -- `ShipConnectionSend`.
  unfoldable pub send : ShipConnection → List ℕ → ShipConnection × EebusError
  send c bytes = (
    record c { log = Event.wrote bytes ∷ c.log },
    if env.write c.log bytes then EebusError.ok else EebusError.communication,
  )

  -- `ShipConnectionSerializeAndSendMessage`.
  unfoldable pub serialize_and_send : ShipConnection → ShipMessage → ShipConnection × EebusError
  serialize_and_send c message = elim (env.serialize message) [
    | none ↦ (c, EebusError.parse)
    | some bytes ↦ send (record c { log = Event.sent message ∷ c.log }) bytes
  ]

  -- `CloseConnection`. An error code 0 stands for 4001.
  unfoldable pub close_connection : ShipConnection → Bool → ℕ → Option String → ShipConnection
  close_connection c safe code reason =
      let stopped = stop_send_prolongation (stop_prolongation_reply (stop_wait_for_ready c)) in
      let announced = (serialize_and_send stopped (send_close ClosePhase.announce reason)).0 in
      let closed =
        if safe && is_data_exchange c.sme_state
        then record announced { log = Event.websocket_closed 4001 (some "close") ∷ announced.log }
        else record stopped {
          log = Event.websocket_closed (if code == 0 then 4001 else code) reason ∷ stopped.log;
        } in
      if c.shutdown_once then c else record closed {
        cancel = true;
        shutdown_once = true;
        log = Event.connection_closed (is_hs_ended c.sme_state) ∷ closed.log;
      }

  -- `ShipConnectionCloseWithError`.
  unfoldable pub close_with_error : ShipConnection → String → ShipConnection
  close_with_error c err = close_connection (set_sme_state c SmeState.error) true 0 (some err)

  -- `ShipConnectionReceive`, with `ShipConnectionWaitForMessage`.
  unfoldable pub receive : ShipConnection → ℕ → ShipConnection × EebusError
  receive c timeout_ms = finish_wait (wait_loop c.inbox (start_wait_for_ready c timeout_ms))

-- `ShipConnectionEvaluateInitMsg`.
unfoldable pub evaluate_init_msg : List ℕ → Bool
evaluate_init_msg (a ∷ b ∷ []) = a == 0 && b == 0
evaluate_init_msg _ = false
