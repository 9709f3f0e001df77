-- ===== src/Ship/Connection/Machine.antt =====
-- The connection thread: one step of the client and of the server, and the loop, in
-- src/ship/ship_connection/client.c, server.c and ship_connection.c.
use openeebus.Prelude.{ℕ, zero, suc, if◌then◌else◌, ◌||◌, ◌∷◌}
use openeebus.Ship.Types.{SmeState, ShipRole, server, client, auto}
use openeebus.Ship.Connection.{ShipConnection, Environment, Event, set_sme_state}
use openeebus.Ship.Connection.Hello
use openeebus.Ship.Connection.Handshake
use openeebus.Ship.Connection.Pin
use openeebus.Ship.Connection.DataExchange

module _ (env : Environment) where
  -- The case `kSmeHelloState` of both roles: only a paired peer is READY at once.
  unfoldable pub enter_hello : ShipConnection → ShipConnection
  enter_hello c =
      let paired = env.is_paired c.log in
      let asked = record c { log = Event.paired_answer paired ∷ c.log } in
      if paired
      then set_sme_state asked SmeState.hello_ready_init
      else set_sme_state asked SmeState.hello_pending_init

  -- The cases of the `switch` that client and server share, in `ClientHandleState` and
  -- `ServerHandleState`. The default case sleeps.
  unfoldable pub common_step : SmeState → ShipConnection → ShipConnection
  common_step SmeState.hello c = enter_hello c
  common_step SmeState.hello_ready_init c = Hello.hello_ready_init env c
  common_step SmeState.hello_ready_listen c = Hello.hello_ready_listen env c
  common_step SmeState.hello_ready_timeout c = Hello.hello_abort env c
  common_step SmeState.hello_pending_init c = Hello.hello_pending_init env c
  common_step SmeState.hello_pending_listen c = Hello.hello_pending_listen env c
  common_step SmeState.hello_pending_timeout c = Hello.hello_pending_timeout env c
  common_step SmeState.hello_abort c = Hello.hello_abort env c
  common_step SmeState.hello_abort_done c = Hello.hello_abort env c
  common_step SmeState.hello_remote_abort_done c = Hello.hello_abort env c
  common_step SmeState.hello_rejected c = Hello.hello_abort env c
  common_step SmeState.pin_check_init c = Pin.pin_check_init env c
  common_step SmeState.pin_check_listen c = Pin.pin_check_listen env c
  common_step SmeState.pin_check_busy_wait c = set_sme_state c SmeState.pin_check_listen
  common_step SmeState.pin_check_ok c = set_sme_state c SmeState.approved
  common_step SmeState.approved c = DataExchange.approve env c
  common_step SmeState.data_exchange c = DataExchange.data_exchange env c
  common_step _ c = c

  -- `ClientHandleState`.
  unfoldable pub client_step : SmeState → ShipConnection → ShipConnection
  client_step SmeState.cmi_client_send c = Handshake.cmi_client_send env c
  client_step SmeState.cmi_client_wait c = Handshake.cmi_client_wait env c
  client_step SmeState.cmi_client_evaluate c = Handshake.cmi_client_evaluate env c
  client_step SmeState.hello_ok c = set_sme_state c SmeState.prot_client_init
  client_step SmeState.prot_client_init c = Handshake.prot_client_init env c
  client_step SmeState.prot_client_listen_choice c = Handshake.prot_client_listen_choice env c
  client_step SmeState.prot_client_ok c = set_sme_state c SmeState.pin_check_init
  client_step s c = common_step s c

  -- `ServerHandleState`.
  unfoldable pub server_step : SmeState → ShipConnection → ShipConnection
  server_step SmeState.cmi_server_wait c = Handshake.cmi_server_wait env c
  server_step SmeState.cmi_server_evaluate c = Handshake.cmi_server_evaluate env c
  server_step SmeState.hello_ok c = set_sme_state c SmeState.prot_server_init
  server_step SmeState.prot_server_init c = Handshake.prot_server_init env c
  server_step SmeState.prot_server_listen_proposal c = Handshake.prot_server_listen_proposal env c
  server_step SmeState.prot_server_listen_confirm c = Handshake.prot_server_listen_confirm env c
  server_step SmeState.prot_server_ok c = set_sme_state c SmeState.pin_check_init
  server_step s c = common_step s c

  abbrev pub role_step : ShipRole → ShipConnection → ShipConnection
  role_step client c = client_step c.sme_state c
  role_step server c = server_step c.sme_state c
  role_step auto c = c

  -- `HandleState`.
  unfoldable pub handle_state : ShipConnection → ShipConnection
  handle_state c = role_step c.role c

  -- `ShipConnectionLoop` for a number of rounds.
  unfoldable pub loop : ℕ → ShipConnection → ShipConnection
  loop zero c = c
  loop (suc fuel) c =
      let next = loop fuel (handle_state c) in if c.cancel || c.shutdown_once then c else next
