-- ===== src/Ship/Connection/ShipId.antt =====
-- The SHIP ID of the peer, which the access methods carry: SHIP 13.4.6, in
-- src/ship/ship_connection/ship_connection.c.
use openeebus.Prelude.{
  ℕ, Bool, true, false, ◌≡◌, refl, if◌then◌else◌, Option, none, some, List, [], ◌∷◌, String, arith,
}
use openeebus.Common.Text.{is_empty}
use openeebus.Ship.Types.{AccessMethods, ClosePhase, announce, confirm, other_phase, Deserialized}
use openeebus.Ship.Connection.{
  ShipConnection, Environment, Arrival, QueueMessage, set_sme_state, close_with_error,
  close_connection, serialize_and_send, send, stop_wait_for_ready, stop_send_prolongation,
  stop_prolongation_reply, start_wait_for_ready, take,
}
use openeebus.Ship.Connection.DataExchange.{
  check_access_methods, handle_access_methods, access_methods_init, handle_access_methods_request,
  handle_close, handle_receive, handle_send_spine_data, handle_message, handle_next,
  data_exchange_handle, prepare_if, prepare, data_exchange,
}

-- The peer's ID is known and has not changed.
pub record SameId (c d : ShipConnection) : Type 0 where
  pub known : is_empty c.remote_ship_id ≡ false
  pub same : d.remote_ship_id ≡ c.remote_ship_id

module _ (env : Environment) {c : ShipConnection} where
  error-SameId :
      {d : ShipConnection} (err : String) → SameId c d → SameId c (close_with_error env d err)
  unfolding close_with_error close_connection set_sme_state serialize_and_send send
      stop_wait_for_ready stop_send_prolongation stop_prolongation_reply
  error-SameId err k = ground arith

  close-SameId : {d : ShipConnection} → SameId c d → SameId c (close_connection env d true 0 none)
  unfolding close_connection serialize_and_send send stop_wait_for_ready stop_send_prolongation
      stop_prolongation_reply
  close-SameId k = ground arith

  init-SameId : {d : ShipConnection} → SameId c d → SameId c (access_methods_init env d)
  unfolding access_methods_init close_with_error close_connection set_sme_state serialize_and_send
      send stop_wait_for_ready stop_send_prolongation stop_prolongation_reply start_wait_for_ready
  init-SameId k = ground arith

  phase-SameId :
      {d : ShipConnection} (phase : ClosePhase) → SameId c d → SameId c (handle_close env d phase).0
  unfolding handle_close serialize_and_send send stop_wait_for_ready stop_send_prolongation
      stop_prolongation_reply
  phase-SameId announce k = ground arith
  phase-SameId confirm k = ground arith
  phase-SameId other_phase k = ground arith

  access-SameId :
      {d : ShipConnection} (m : Option AccessMethods)
      → SameId c d
      → SameId c (handle_access_methods d m).0
  unfolding handle_access_methods check_access_methods stop_wait_for_ready
  access-SameId none k = ground arith
  access-SameId {d} (some m) k = with_id m.id
    where
      with_id :
          (id : Option (List ℕ)) → SameId c (handle_access_methods d (some (record { id = id }))).0
      with_id none = ground arith
      with_id (some id) = ground arith

  receive-SameId :
      {d : ShipConnection} (m : Deserialized) → SameId c d → SameId c (handle_receive env d m).0
  unfolding handle_receive handle_access_methods_request serialize_and_send send
  receive-SameId (Deserialized.sme_data (some p)) k = ground arith
  receive-SameId Deserialized.sme_access_methods_request k = ground arith
  receive-SameId (Deserialized.sme_access_methods m) k = access-SameId m k
  receive-SameId (Deserialized.sme_close (some phase)) k = phase-SameId phase k
  receive-SameId _ k = k

  message-SameId :
      {d : ShipConnection} (m : QueueMessage) → SameId c d → SameId c (handle_message env d m).0
  unfolding handle_message handle_send_spine_data serialize_and_send send
  message-SameId (QueueMessage.data_received bytes) k = receive-SameId (env.deserialize bytes) k
  message-SameId (QueueMessage.spine_data_to_send payload) k = ground arith
  message-SameId QueueMessage.websocket_close k = close-SameId k
  message-SameId _ k = k

  next-SameId :
      (inbox : List Arrival) {d : ShipConnection}
      → SameId c d
      → SameId c (handle_next env inbox d).0
  unfolding take
  next-SameId [] k = k
  next-SameId (a ∷ rest) k = message-SameId a.message (ground arith)

  prepare-SameId : (b : Bool) {d : ShipConnection} → SameId c d → SameId c (prepare_if env b d)
  prepare-SameId true k = k
  prepare-SameId false k = ground (arith, init-SameId k)

  branch-SameId :
      (b : Bool) {d : ShipConnection} (err : String)
      → SameId c d
      → SameId c (if b then d else close_with_error env d err)
  branch-SameId true err k = k
  branch-SameId false err k = error-SameId err k

-- Once the peer's SHIP ID is known, no step of the data exchange changes it, whatever message the
-- step handles.
pub data_exchange-remote_ship_id :
    (env : Environment) (c : ShipConnection)
    → is_empty c.remote_ship_id ≡ false
    → (data_exchange env c).remote_ship_id ≡ c.remote_ship_id
unfolding data_exchange prepare data_exchange_handle
data_exchange-remote_ship_id env c h =
    let prepared =
      prepare-SameId env {c = c} c.is_access_methods_req_sent {d = c}
        (record { known = h; same = refl }) in
    (branch-SameId env _ _ (next-SameId env _ prepared)).same
