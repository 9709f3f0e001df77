-- ===== src/Ship/Connection/Diagram.antt =====
-- The state diagram of the handshake, for the two roles: SHIP 13.4.3 to 13.4.7, as the handlers in
-- src/ship/ship_connection/client.c, server.c and ship_connection.c follow it.
use openeebus.Prelude.{Bool, true, false, ◌≡◌}
use openeebus.Ship.Types.{SmeState, ShipRole, client, server}

-- The states in which the machine may stay over a step.
abbrev pub waits : SmeState → Bool
waits SmeState.hello_ready_listen = true
waits SmeState.hello_pending_listen = true
waits SmeState.hello_pending_timeout = true
waits SmeState.pin_check_init = true
waits SmeState.data_exchange = true
waits SmeState.cmi_init_start = true
waits SmeState.prot_timeout = true
waits SmeState.pin_check_error = true
waits SmeState.pin_check_busy_init = true
waits SmeState.pin_ask_init = true
waits SmeState.pin_ask_process = true
waits SmeState.pin_ask_restricted_ok = true
waits SmeState.pin_ask_ok = true
waits SmeState.access_methods_request = true
waits SmeState.error = true
waits _ = false

-- The states from which the "hello" phase may be aborted.
abbrev pub aborts : SmeState → Bool
aborts SmeState.hello_ready_init = true
aborts SmeState.hello_ready_listen = true
aborts SmeState.hello_pending_init = true
aborts SmeState.hello_pending_listen = true
aborts SmeState.hello_pending_timeout = true
aborts SmeState.pin_check_init = true
aborts _ = false

-- The states of the other role, in which a machine does nothing.
abbrev pub foreign : ShipRole → SmeState → Bool
foreign client SmeState.cmi_server_wait = true
foreign client SmeState.cmi_server_evaluate = true
foreign client SmeState.prot_server_init = true
foreign client SmeState.prot_server_listen_proposal = true
foreign client SmeState.prot_server_listen_confirm = true
foreign client SmeState.prot_server_ok = true
foreign server SmeState.cmi_client_send = true
foreign server SmeState.cmi_client_wait = true
foreign server SmeState.cmi_client_evaluate = true
foreign server SmeState.prot_client_init = true
foreign server SmeState.prot_client_listen_choice = true
foreign server SmeState.prot_client_ok = true
foreign ShipRole.auto _ = true
foreign _ _ = false

pub data Edge : ShipRole → SmeState → SmeState → Type 0 where
  wait : {r : ShipRole} {s : SmeState} → waits s ≡ true → Edge r s s
  idle : {r : ShipRole} {s : SmeState} → foreign r s ≡ true → Edge r s s
  abort : {r : ShipRole} {s : SmeState} → aborts s ≡ true → Edge r s SmeState.hello_abort
  client_sends : Edge client SmeState.cmi_client_send SmeState.cmi_client_wait
  client_receives : Edge client SmeState.cmi_client_wait SmeState.cmi_client_evaluate
  client_accepts : Edge client SmeState.cmi_client_evaluate SmeState.hello
  server_receives : Edge server SmeState.cmi_server_wait SmeState.cmi_server_evaluate
  server_accepts : Edge server SmeState.cmi_server_evaluate SmeState.hello
  is_paired : {r : ShipRole} → Edge r SmeState.hello SmeState.hello_ready_init
  not_paired : {r : ShipRole} → Edge r SmeState.hello SmeState.hello_pending_init
  ready : {r : ShipRole} → Edge r SmeState.hello_ready_init SmeState.hello_ready_listen
  both_ready : {r : ShipRole} → Edge r SmeState.hello_ready_init SmeState.hello_ok
  peer_ready : {r : ShipRole} → Edge r SmeState.hello_ready_listen SmeState.hello_ok
  ready_late : {r : ShipRole} → Edge r SmeState.hello_ready_listen SmeState.hello_ready_timeout
  pending : {r : ShipRole} → Edge r SmeState.hello_pending_init SmeState.hello_pending_listen
  granted : {r : ShipRole} → Edge r SmeState.hello_pending_listen SmeState.hello_ready_init
  pending_late :
      {r : ShipRole} → Edge r SmeState.hello_pending_listen SmeState.hello_pending_timeout
  prolonged : {r : ShipRole} → Edge r SmeState.hello_pending_timeout SmeState.hello_pending_listen
  client_ok : Edge client SmeState.hello_ok SmeState.prot_client_init
  server_ok : Edge server SmeState.hello_ok SmeState.prot_server_init
  announced : Edge client SmeState.prot_client_init SmeState.prot_client_listen_choice
  chosen : Edge client SmeState.prot_client_listen_choice SmeState.prot_client_ok
  client_pin : Edge client SmeState.prot_client_ok SmeState.pin_check_init
  listening : Edge server SmeState.prot_server_init SmeState.prot_server_listen_proposal
  proposed : Edge server SmeState.prot_server_listen_proposal SmeState.prot_server_listen_confirm
  confirmed : Edge server SmeState.prot_server_listen_confirm SmeState.prot_server_ok
  server_pin : Edge server SmeState.prot_server_ok SmeState.pin_check_init
  pin_busy : {r : ShipRole} → Edge r SmeState.pin_check_init SmeState.pin_check_busy_wait
  pin_waits : {r : ShipRole} → Edge r SmeState.pin_check_init SmeState.pin_check_listen
  pin_none : {r : ShipRole} → Edge r SmeState.pin_check_init SmeState.pin_check_ok
  pin_again : {r : ShipRole} → Edge r SmeState.pin_check_busy_wait SmeState.pin_check_listen
  pin_listened : {r : ShipRole} → Edge r SmeState.pin_check_listen SmeState.pin_check_ok
  pin_done : {r : ShipRole} → Edge r SmeState.pin_check_ok SmeState.approved
  exchange : {r : ShipRole} → Edge r SmeState.approved SmeState.data_exchange

pub ruleset edges = (
  wait, idle, abort, client_sends, client_receives, client_accepts, server_receives, server_accepts,
  is_paired, not_paired, ready, both_ready, peer_ready, ready_late, pending, granted, pending_late,
  prolonged, client_ok, server_ok, announced, chosen, client_pin, listening, proposed, confirmed,
  server_pin, pin_busy, pin_waits, pin_none, pin_again, pin_listened, pin_done, exchange,
)
