-- ===== src/Ship/Connection/CallTests.antt =====
-- Calls on a connection, and the IDs of its peer.
use openeebus.Prelude.{suc, true, false, ◌≡◌, refl, none, List, [], ◌∷◌}
use openeebus.Ship.Types.{SmeState, client}
use openeebus.Ship.Connection.{ShipConnection, Arrival, QueueMessage, construct, wait_loop}
use openeebus.Ship.Connection.Kept.{closings}
use openeebus.Ship.Connection.DataExchange.{data_exchange}
use openeebus.Ship.Connection.Cooperation.{delivered}
use openeebus.Ship.Connection.Api.{report_connection_error, report_connection_error-closings}
use openeebus.Ship.Connection.Decisions.{is_decision, wait_loop-is_decision}
use openeebus.Ship.Connection.ShipId.{data_exchange-remote_ship_id}
use openeebus.Ship.Connection.Tests.{friendly, exchanging}

report_connection_error-closings_example :
    (closings (report_connection_error friendly exchanging).log ≡ suc (closings exchanging.log))
    × ((report_connection_error friendly exchanging).shutdown_once ≡ true)
unfolding construct
report_connection_error-closings_example = report_connection_error-closings friendly exchanging refl

-- A trust decision before the message for which the client waits.
abbrev racing_decision : List Arrival
racing_decision =
    record (delivered []) { message = QueueMessage.trust_granted 3 none }
    ∷ delivered (0 ∷ 0 ∷ [])
    ∷ []

abbrev waiting_client : ShipConnection
waiting_client = record (construct client [] [] racing_decision) {
  sme_state = SmeState.cmi_client_wait;
}

wait_loop-is_decision_example :
    ((wait_loop racing_decision waiting_client).0.trust_decision ≡ waiting_client.trust_decision)
    × (is_decision (wait_loop racing_decision waiting_client).2 ≡ false)
wait_loop-is_decision_example = wait_loop-is_decision racing_decision waiting_client refl

abbrev known_peer : ShipConnection
known_peer = record exchanging { remote_ship_id = 105 ∷ 49 ∷ [] }

data_exchange-remote_ship_id_example :
    (data_exchange friendly known_peer).remote_ship_id ≡ known_peer.remote_ship_id
data_exchange-remote_ship_id_example = data_exchange-remote_ship_id friendly known_peer refl
