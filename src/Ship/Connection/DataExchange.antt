-- ===== src/Ship/Connection/DataExchange.antt =====
-- The approved connection: access methods, SHIP 13.4.6, data and termination, SHIP 13.4.7, in
-- src/ship/ship_connection/ship_connection.c. The pause of half a second after a close message is
-- left out.
use openeebus.Prelude.{
  ℕ, if◌then◌else◌, Bool, true, false, Option, none, some, List, [], ◌∷◌, length,
}
use openeebus.Common.Error.{EebusError, is_ok}
use openeebus.Common.Text.{is_empty, n_compare}
use openeebus.Ship.Types.{
  SmeState, AccessMethods, ClosePhase, announce, confirm, other_phase, Deserialized, send_data,
  send_access_methods_request, send_access_methods, send_close, cmi_timeout,
}
use openeebus.Ship.Connection.{
  ShipConnection, Environment, Event, Arrival, QueueMessage, set_sme_state, stop_wait_for_ready,
  stop_send_prolongation, stop_prolongation_reply, start_wait_for_ready, serialize_and_send,
  close_connection, close_with_error, take,
}

abbrev log_event : ShipConnection → Event → ShipConnection
log_event c e = record c { log = e ∷ c.log }

-- `SmeHandshakeAccessMethodsCheckMessageVal`: a first ID is saved, a later one must be equal to it.
unfoldable pub check_access_methods : ShipConnection → Option AccessMethods → ShipConnection × Bool
check_access_methods c none = (c, false)
check_access_methods c (some m) = elim m.id [
  | none ↦ (c, false)
  | some id ↦
      if is_empty c.remote_ship_id
      then (record c { remote_ship_id = id }, true)
      else (c, n_compare c.remote_ship_id id (length c.remote_ship_id))
]

-- `SmeHandshakeAccessMethodsHandle`.
unfoldable pub handle_access_methods :
    ShipConnection → Option AccessMethods → ShipConnection × EebusError
handle_access_methods c m =
    let (c', accepted) = check_access_methods (stop_wait_for_ready c) m in
    if accepted
    then (log_event c' (Event.ship_id_reported c'.remote_ship_id), EebusError.ok)
    else (c', EebusError.communication)

module _ (env : Environment) where
  -- `SmeHandshakeAccessMethodsInit`.
  unfoldable pub access_methods_init : ShipConnection → ShipConnection
  access_methods_init c =
      let (c', err) = serialize_and_send env c send_access_methods_request in
      if is_ok err
      then start_wait_for_ready env c' cmi_timeout
      else close_with_error env c'
          "SmeAccessMethodsRequest: Error sending kSmeConnectionAccessMethodsRequest message"

  -- `SmeHandshakeAccessMethodsRequestHandle`.
  unfoldable pub handle_access_methods_request : ShipConnection → ShipConnection × EebusError
  handle_access_methods_request c = serialize_and_send env c (send_access_methods c.local_ship_id)

  -- `SmeStateApproved`.
  unfoldable pub approve : ShipConnection → ShipConnection
  approve c =
      set_sme_state (stop_wait_for_ready (log_event c Event.remote_device_set_up))
        SmeState.data_exchange

  abbrev pub answer_close : ShipConnection → ClosePhase → ShipConnection
  answer_close c announce =
      log_event (serialize_and_send env c (send_close confirm none)).0
        (Event.websocket_closed 4001 (some "close"))
  answer_close c confirm = log_event c (Event.websocket_closed 4001 (some "close"))
  answer_close c other_phase = c

  -- `DataExchangeHandleClose`.
  unfoldable pub handle_close : ShipConnection → ClosePhase → ShipConnection × EebusError
  handle_close c phase =
      let stopped =
        stop_prolongation_reply
          (stop_send_prolongation (stop_wait_for_ready (answer_close c phase))) in
      (
        record stopped {
          cancel = true;
          shutdown_once = true;
          log = Event.connection_closed true ∷ stopped.log;
        },
        EebusError.ok,
      )

  -- `DataExchangeHandleReceive`.
  unfoldable pub handle_receive : ShipConnection → Deserialized → ShipConnection × EebusError
  handle_receive c (Deserialized.sme_data (some payload)) =
      (log_event c (Event.payload_handled payload), EebusError.ok)
  handle_receive c (Deserialized.sme_data none) = (c, EebusError.parse)
  handle_receive c Deserialized.sme_access_methods_request = handle_access_methods_request c
  handle_receive c (Deserialized.sme_access_methods m) = handle_access_methods c m
  handle_receive c (Deserialized.sme_close (some phase)) = handle_close c phase
  handle_receive c (Deserialized.sme_close none) = (c, EebusError.parse)
  handle_receive c _ = (c, EebusError.communication)

  -- `DataExchangeHandleSendSpineData`.
  unfoldable pub handle_send_spine_data : ShipConnection → List ℕ → ShipConnection × EebusError
  handle_send_spine_data c payload = serialize_and_send env c (send_data payload)

  -- What `DataExchangeHandle` makes of a queue message.
  unfoldable pub handle_message : ShipConnection → QueueMessage → ShipConnection × EebusError
  handle_message c (QueueMessage.data_received bytes) = handle_receive c (env.deserialize bytes)
  handle_message c (QueueMessage.spine_data_to_send payload) = handle_send_spine_data c payload
  handle_message c QueueMessage.cancelled = (c, EebusError.deactivate)
  handle_message c QueueMessage.timed_out = (c, EebusError.communication)
  handle_message c QueueMessage.websocket_close =
      (close_connection env c true 0 none, EebusError.communication_end)
  handle_message c QueueMessage.websocket_error = (c, EebusError.communication)
  handle_message c _ = (c, EebusError.input_type)

  abbrev pub handle_next : List Arrival → ShipConnection → ShipConnection × EebusError
  handle_next [] c = (c, EebusError.no_change)
  handle_next (a ∷ rest) c = handle_message (take c a rest) a.message

  -- `DataExchangeHandle`. The empty inbox is the closed queue.
  unfoldable pub data_exchange_handle : ShipConnection → ShipConnection × EebusError
  data_exchange_handle c = handle_next c.inbox c

  abbrev pub prepare_if : Bool → ShipConnection → ShipConnection
  prepare_if true c = c
  prepare_if false c = record (access_methods_init c) { is_access_methods_req_sent = true }

  -- The first step in the state requests the access methods.
  unfoldable pub prepare : ShipConnection → ShipConnection
  prepare c = prepare_if c.is_access_methods_req_sent c

  -- `DataExchange`.
  unfoldable pub data_exchange : ShipConnection → ShipConnection
  data_exchange c =
      let (c', err) = data_exchange_handle (prepare c) in
      if is_ok err then c' else close_with_error env c' "kDataExchange: data exchange failed"
