-- ===== src/Ship/Connection/Api.antt =====
-- What other threads call on a connection: the callbacks of the websocket and of the timers, the
-- trust decisions, and calls of the owner, in src/ship/ship_connection/ship_connection.c. A
-- message goes to the queue of Common.Queue; `none` is a call that blocks on the full queue.
use openeebus.Prelude.{
  ℕ, if◌then◌else◌, Bool, true, false, ◌||◌, ◌≡◌, suc, Option, none, some, List, ◌∷◌, String, arith,
}
use openeebus.Common.Error.{EebusError}
use openeebus.Common.Queue.{Queue, infinite}
use openeebus.Common.Queue
use openeebus.Ship.Types.{SmeState}
use openeebus.Ship.Connection.{
  ShipConnection, Environment, Event, QueueMessage, set_sme_state, close_connection,
  is_pending_listen, serialize_and_send, send, stop_wait_for_ready, stop_send_prolongation,
  stop_prolongation_reply,
}
use openeebus.Ship.Connection.Kept.{closings}

pub data WebsocketCallbackType : Type 0 where
  read websocket_failed websocket_closed : WebsocketCallbackType

abbrev pub Posted : Type 0
Posted = Option (Queue QueueMessage × EebusError)

abbrev post : Queue QueueMessage → QueueMessage → Posted
post q m = Queue.send q m infinite

abbrev pub callback_post : Queue QueueMessage → WebsocketCallbackType → List ℕ → Posted
callback_post q read bytes = post q (QueueMessage.data_received bytes)
callback_post q websocket_failed bytes = post q QueueMessage.websocket_error
callback_post q websocket_closed bytes = post q QueueMessage.websocket_close

-- `ShipConnectionWebsocketCallback`. The code drops the error code of the queue.
unfoldable pub websocket_callback :
    ShipConnection → Queue QueueMessage → WebsocketCallbackType → List ℕ → Posted
websocket_callback c q type bytes =
    let posted = callback_post q type bytes in
    if c.cancel || c.shutdown_once then some (q, EebusError.ok) else posted

-- `ShipConnectionTimeoutCallback`.
unfoldable pub timeout_callback : Queue QueueMessage → Posted
timeout_callback q = post q QueueMessage.timed_out

-- `ShipConnectionPostTrustDecision`, on a queue that may be NULL: the queue and the error code.
abbrev pub post_trust_decision :
    Option (Queue QueueMessage) → QueueMessage → Option (Option (Queue QueueMessage) × EebusError)
post_trust_decision none m = some (none, EebusError.not_available)
post_trust_decision (some q) m = elim (post q m) [
  | none ↦ none
  | some (q', err) ↦ some (some q', err)
]

-- `ApprovePendingHandshake`.
unfoldable pub approve_pending_handshake :
    Option (Queue QueueMessage) → Option (Option (Queue QueueMessage) × EebusError)
approve_pending_handshake q = post_trust_decision q (QueueMessage.trust_granted 0 none)

-- `ShipConnectionApprovePendingHandshakeWithToken`.
unfoldable pub approve_with_token :
    Option (Queue QueueMessage) → ℕ → Option ℕ → Option (Option (Queue QueueMessage) × EebusError)
approve_with_token q approval_id none = some (q, EebusError.input_argument_null)
approve_with_token q approval_id (some cb) =
    post_trust_decision q (QueueMessage.trust_granted approval_id (some cb))

-- `AbortPendingHandshake`.
unfoldable pub abort_pending_handshake :
    Option (Queue QueueMessage) → Option (Option (Queue QueueMessage) × EebusError)
abort_pending_handshake q = post_trust_decision q (QueueMessage.trust_denied 0 none)

-- `GetPendingWaitingMs`.
unfoldable pub get_pending_waiting_ms : ShipConnection → ℕ
get_pending_waiting_ms c =
    if is_pending_listen c.sme_state then c.last_received_waiting_value else 0

-- `WriteMessage`.
unfoldable pub write_message : Queue QueueMessage → List ℕ → Posted
write_message q bytes = post q (QueueMessage.spine_data_to_send bytes)

module _ (env : Environment) where
  abbrev pub report_in : SmeState → ShipConnection → ShipConnection
  report_in SmeState.hello_ready_listen c =
      close_connection env (set_sme_state c SmeState.hello_rejected) false 0 (some "")
  report_in SmeState.hello_remote_abort_done c = close_connection env c false 0 (some "")
  report_in SmeState.hello_abort c =
      close_connection env c false 4452 (some "Node rejected by application")
  report_in SmeState.hello_abort_done c =
      close_connection env c false 4452 (some "Node rejected by application")
  report_in s c =
      let closed = close_connection env (set_sme_state c SmeState.error) false 0 (some "") in
      record closed { log = Event.state_update SmeState.error ∷ closed.log }

  -- `ReportConnectionError`.
  unfoldable pub report_connection_error : ShipConnection → ShipConnection
  report_connection_error c = report_in c.sme_state c

  -- A close by another way than the data exchange reports the end once, if the connection was open.
  report-closings :
      (c : ShipConnection) (safe : Bool) (code : ℕ) (reason : Option String)
      → c.shutdown_once ≡ false
      → (closings (close_connection env c safe code reason).log ≡ suc (closings c.log))
        × ((close_connection env c safe code reason).shutdown_once ≡ true)
  unfolding close_connection serialize_and_send send stop_wait_for_ready stop_send_prolongation
      stop_prolongation_reply
  report-closings c safe code reason h = ground arith

  report_in-closings :
      (s : SmeState) (c : ShipConnection)
      → c.shutdown_once ≡ false
      → (closings (report_in s c).log ≡ suc (closings c.log))
        × ((report_in s c).shutdown_once ≡ true)
  unfolding set_sme_state
  report_in-closings SmeState.hello_ready_listen c h =
      ground (arith, report-closings (set_sme_state c SmeState.hello_rejected) false 0 (some "") h)
  report_in-closings SmeState.hello_remote_abort_done c h = report-closings c false 0 (some "") h
  report_in-closings SmeState.hello_abort c h =
      report-closings c false 4452 (some "Node rejected by application") h
  report_in-closings SmeState.hello_abort_done c h =
      report-closings c false 4452 (some "Node rejected by application") h
  report_in-closings _ c h =
      ground (arith, report-closings (set_sme_state c SmeState.error) false 0 (some "") h)

  -- Reporting an error on an open connection, in whatever state it is, shuts it down and reports its
  -- end exactly once more.
  pub report_connection_error-closings :
      (c : ShipConnection)
      → c.shutdown_once ≡ false
      → (closings (report_connection_error c).log ≡ suc (closings c.log))
        × ((report_connection_error c).shutdown_once ≡ true)
  unfolding report_connection_error
  report_connection_error-closings c h = report_in-closings c.sme_state c h
