-- ===== src/Ship/Connection/DataOutcome.antt =====
-- The handlers of the approved connection, and the one case in which its end is reported twice.
use openeebus.Prelude.{
  ℕ, if◌then◌else◌, Bool, true, false, ◌≡◌, refl, ◌⊎◌, inl, inr, Option, none, some, List, [], ◌∷◌,
  String, arith,
}
use openeebus.Common.Error.{is_ok}
use openeebus.Ship.Types.{
  SmeState, ShipRole, AccessMethods, ClosePhase, announce, confirm, other_phase, Deserialized,
  send_access_methods_request,
}
use openeebus.Ship.Connection.{
  ShipConnection, Environment, Event, Arrival, QueueMessage, set_sme_state, take,
  serialize_and_send, send, close_connection, close_with_error, stop_wait_for_ready,
  stop_send_prolongation, stop_prolongation_reply,
}
use openeebus.Ship.Connection.Kept.{
  Kept, Kept-refl, Kept-trans, take-Kept, stop_wait-Kept, serialize_and_send-Kept, keeps,
}
use openeebus.Ship.Connection.Outcome.{Outcome, Ended, Closed, closed, stay, outcomes, fail-Closed}
use openeebus.Ship.Connection.Diagram.{Edge, wait, edges}
use openeebus.Ship.Connection.DataExchange.{
  check_access_methods, handle_access_methods, access_methods_init, handle_access_methods_request,
  approve, handle_close, handle_receive, handle_send_spine_data, handle_message, handle_next,
  data_exchange_handle, prepare_if, prepare, data_exchange,
}

-- A message leaves the connection open, or ends it.
data Ending (c d : ShipConnection) : Type 0 where
  open_yet : Kept c d → Ending c d
  shut : Closed c d → Ending c d

module _ {c d e : ShipConnection} where
  Kept-Closed : Kept c d → Closed d e → Closed c e
  Kept-Closed k l = ground arith

  Kept-Ending : Kept c d → Ending d e → Ending c e
  Kept-Ending k (open_yet l) = open_yet (Kept-trans k l)
  Kept-Ending k (shut l) = shut (Kept-Closed k l)

  Ended-Ending : Ended c d → Ending d e → Ended c e
  Ended-Ending k (open_yet l) = ground arith
  Ended-Ending k (shut l) = ground arith

logged-Kept-payload :
    (c : ShipConnection) (p : List ℕ) → Kept c (record c { log = Event.payload_handled p ∷ c.log })
logged-Kept-payload c p = ground arith

check-Kept :
    {c d : ShipConnection} (m : Option AccessMethods)
    → Kept c d
    → Kept c (check_access_methods d m).0
unfolding check_access_methods
check-Kept none k = k
check-Kept {c} {d} (some m) k = check_id m.id
  where
    check_id :
        (id : Option (List ℕ)) → Kept c (check_access_methods d (some (record { id = id }))).0
    check_id none = k
    check_id (some id) = ground arith

access-Kept :
    {c d : ShipConnection} (m : Option AccessMethods)
    → Kept c d
    → Kept c (handle_access_methods d m).0
unfolding handle_access_methods
access-Kept {d = d} m k = ground (arith, check-Kept m (stop_wait-Kept k))

module _ (env : Environment) where
  close-Closed : (c : ShipConnection) (phase : ClosePhase) → Closed c (handle_close env c phase).0
  unfolding handle_close stop_wait_for_ready stop_send_prolongation stop_prolongation_reply
      serialize_and_send send
  close-Closed c announce = ground arith
  close-Closed c confirm = ground arith
  close-Closed c other_phase = ground arith

  receive-Ending : (c : ShipConnection) (m : Deserialized) → Ending c (handle_receive env c m).0
  unfolding handle_receive handle_access_methods_request
  receive-Ending c (Deserialized.sme_data (some p)) = open_yet (logged-Kept-payload c p)
  receive-Ending c Deserialized.sme_access_methods_request =
      open_yet (serialize_and_send-Kept env _ Kept-refl)
  receive-Ending c (Deserialized.sme_access_methods m) = open_yet (access-Kept m Kept-refl)
  receive-Ending c (Deserialized.sme_close (some phase)) = shut (close-Closed c phase)
  receive-Ending c _ = open_yet Kept-refl

  websocket-Closed : (c : ShipConnection) → Closed c (close_connection env c true 0 none)
  unfolding close_connection stop_wait_for_ready stop_send_prolongation stop_prolongation_reply
      serialize_and_send send
  websocket-Closed c = ground arith

  message-Ending : (c : ShipConnection) (m : QueueMessage) → Ending c (handle_message env c m).0
  unfolding handle_message handle_send_spine_data
  message-Ending c (QueueMessage.data_received bytes) = receive-Ending c (env.deserialize bytes)
  message-Ending c (QueueMessage.spine_data_to_send payload) =
      open_yet (serialize_and_send-Kept env _ Kept-refl)
  message-Ending c QueueMessage.websocket_close = shut (websocket-Closed c)
  message-Ending c _ = open_yet Kept-refl

  handle_next-Ending :
      (inbox : List Arrival) (c : ShipConnection) → Ending c (handle_next env inbox c).0
  handle_next-Ending [] c = open_yet Kept-refl
  handle_next-Ending (a ∷ rest) c =
      Kept-Ending (take-Kept c a rest) (message-Ending (take c a rest) a.message)

  handle-Ending : (c : ShipConnection) → Ending c (data_exchange_handle env c).0
  unfolding data_exchange_handle
  handle-Ending c = handle_next-Ending c.inbox c

  init-Kept :
      (c : ShipConnection)
      → is_ok (serialize_and_send env c send_access_methods_request).1 ≡ true
      → Kept c (access_methods_init env c)
  unfolding access_methods_init
  init-Kept c h = rw h (search keeps)

  init-Closed :
      (c : ShipConnection)
      → is_ok (serialize_and_send env c send_access_methods_request).1 ≡ false
      → Closed c (access_methods_init env c)
  unfolding access_methods_init
  init-Closed c h = rw h (
      fail-Closed env c _ _
        (ground (arith, serialize_and_send-Kept env {c = c} send_access_methods_request Kept-refl)))

  requested-Kept :
      {c d : ShipConnection} → Kept c d → Kept c (record d { is_access_methods_req_sent = true })
  requested-Kept k = ground arith

  requested-Closed :
      {c d : ShipConnection}
      → Closed c d
      → Closed c (record d { is_access_methods_req_sent = true })
  requested-Closed k = ground arith

  -- Closing a connection once more does nothing.
  again-Closed :
      {c d : ShipConnection} (err : String) → Closed c d → Closed c (close_with_error env d err)
  unfolding close_with_error set_sme_state close_connection
  again-Closed err k = ground arith

  again-Ended :
      {c d : ShipConnection} (err : String) → Ended c d → Ended c (close_with_error env d err)
  unfolding close_with_error set_sme_state close_connection
  again-Ended err k = ground arith

  -- The request for the access methods has been sent, or can be.
  abbrev pub CanRequest : ShipConnection → Type 0
  CanRequest c =
      (c.is_access_methods_req_sent ≡ true)
      ⊎ (is_ok (serialize_and_send env c send_access_methods_request).1 ≡ true)

  prepare_if-Kept :
      (c : ShipConnection) (b : Bool)
      → (b ≡ true) ⊎ (is_ok (serialize_and_send env c send_access_methods_request).1 ≡ true)
      → Kept c (prepare_if env b c)
  prepare_if-Kept c true h = Kept-refl
  prepare_if-Kept c false (inl h) = absurd (ground arith)
  prepare_if-Kept c false (inr h) = requested-Kept (init-Kept c h)

  prepare-Kept : (c : ShipConnection) → CanRequest c → Kept c (prepare env c)
  unfolding prepare
  prepare-Kept c h = prepare_if-Kept c c.is_access_methods_req_sent h

  finish-Outcome :
      {E : SmeState → Type 0} {c d : ShipConnection} (b : Bool) (err : String)
      → Ending c d
      → E c.sme_state
      → Outcome E c (if b then d else close_with_error env d err)
  finish-Outcome true err (open_yet k) e = stay k e
  finish-Outcome true err (shut k) e = closed k
  finish-Outcome false err (open_yet k) e = search outcomes
  finish-Outcome false err (shut k) e = closed (again-Closed err k)

  pub data_exchange-Outcome :
      {r : ShipRole} (c : ShipConnection)
      → c.sme_state ≡ SmeState.data_exchange
      → CanRequest c
      → Outcome (Edge r SmeState.data_exchange) c (data_exchange env c)
  unfolding data_exchange
  data_exchange-Outcome c h can =
      finish-Outcome _ _ (Kept-Ending (prepare-Kept c can) (handle-Ending (prepare env c)))
        (rw h (wait refl))

  finish-Ended :
      {c d : ShipConnection} (b : Bool) (err : String)
      → Ended c d
      → Ended c (if b then d else close_with_error env d err)
  finish-Ended true err k = k
  finish-Ended false err k = again-Ended err k

  prepare_if-Ended :
      (c : ShipConnection) (b : Bool)
      → b ≡ false
      → is_ok (serialize_and_send env c send_access_methods_request).1 ≡ false
      → Ended c (prepare_if env b c)
  prepare_if-Ended c true h e = absurd (ground arith)
  prepare_if-Ended c false h e = (requested-Closed (init-Closed c e)).ended

  -- Where the request cannot be sent the connection is closed all the same.
  pub data_exchange-Ended :
      (c : ShipConnection)
      → c.is_access_methods_req_sent ≡ false
      → is_ok (serialize_and_send env c send_access_methods_request).1 ≡ false
      → Ended c (data_exchange env c)
  unfolding data_exchange prepare
  data_exchange-Ended c h e =
      finish-Ended _ _
        (Ended-Ending (prepare_if-Ended c c.is_access_methods_req_sent h e) (handle-Ending _))

  approved-Kept :
      (c : ShipConnection) → Kept c (record c { log = Event.remote_device_set_up ∷ c.log })
  approved-Kept c = ground arith

  pub approve-Outcome :
      {r : ShipRole} (c : ShipConnection) → Outcome (Edge r SmeState.approved) c (approve env c)
  unfolding approve
  approve-Outcome c = search (outcomes, approved-Kept, keeps, edges) depth 8
