-- ===== src/Ship/Connection/PhaseOutcome.antt =====
-- The handlers of the initialisation, the protocol handshake and the PIN phase follow the diagram.
use openeebus.Prelude.{◌≡◌, refl, Option, none, some}
use openeebus.Ship.Types.{
  SmeState, ShipRole, client, server, ProtocolHandshakeError, PinStateType, required, optional,
  pin_ok, no_pin, invalid_pin, PinInputPermission, busy, permitted, other, Deserialized,
}
use openeebus.Ship.Connection.{ShipConnection, Environment}
use openeebus.Ship.Connection.Kept.{Kept, serialize_and_send-Kept, keeps}
use openeebus.Ship.Connection.Outcome.{Outcome, stay, release, outcomes}
use openeebus.Ship.Connection.Diagram.{Edge, wait, edges}
use openeebus.Ship.Connection.Handshake.{
  cmi_client_send, cmi_client_wait, cmi_client_evaluate, cmi_server_wait, cmi_server_evaluate,
  prot_abort, prot_client_init, client_choice, prot_client_listen_choice, prot_server_init,
  server_proposal, prot_server_listen_proposal, server_confirm, prot_server_listen_confirm,
}
use openeebus.Ship.Connection.Pin.{
  send_pin_requirement, handle_permission, check_pin_state, pin_init_evaluate, pin_check_init,
  pin_listen_state, pin_listen_evaluate, pin_check_listen,
}

module _ (env : Environment) (c : ShipConnection) where
  pub client_send-Outcome : Outcome (Edge client SmeState.cmi_client_send) c (cmi_client_send env c)
  unfolding cmi_client_send
  client_send-Outcome = search (outcomes, keeps, edges) depth 8

  pub client_wait-Outcome : Outcome (Edge client SmeState.cmi_client_wait) c (cmi_client_wait env c)
  unfolding cmi_client_wait
  client_wait-Outcome = search (outcomes, keeps, edges) depth 8

  pub client_evaluate-Outcome :
      Outcome (Edge client SmeState.cmi_client_evaluate) c (cmi_client_evaluate env c)
  unfolding cmi_client_evaluate
  client_evaluate-Outcome = search (outcomes, keeps, edges) depth 8

  pub server_wait-Outcome : Outcome (Edge server SmeState.cmi_server_wait) c (cmi_server_wait env c)
  unfolding cmi_server_wait
  server_wait-Outcome = search (outcomes, keeps, edges) depth 8

  pub server_evaluate-Outcome :
      Outcome (Edge server SmeState.cmi_server_evaluate) c (cmi_server_evaluate env c)
  unfolding cmi_server_evaluate
  server_evaluate-Outcome = search (outcomes, keeps, edges) depth 8

  pub client_init-Outcome :
      Outcome (Edge client SmeState.prot_client_init) c (prot_client_init env c)
  unfolding prot_client_init
  client_init-Outcome = search (outcomes, keeps, edges) depth 8

  pub server_init-Outcome :
      Outcome (Edge server SmeState.prot_server_init) c (prot_server_init env c)
  unfolding prot_server_init
  server_init-Outcome = search (outcomes, keeps, edges) depth 8

module _ (env : Environment) {E : SmeState → Type 0} {c : ShipConnection} where
  prot_abort-Outcome :
      {d : ShipConnection} (e : ProtocolHandshakeError)
      → Kept c d
      → Outcome E c (prot_abort env d e)
  unfolding prot_abort
  prot_abort-Outcome e k = search (outcomes, keeps) depth 8

  client_choice-Outcome :
      {d : ShipConnection} (m : Deserialized)
      → Kept c d
      → E SmeState.prot_client_ok
      → Outcome E c (client_choice env d m)
  unfolding client_choice
  client_choice-Outcome (Deserialized.sme_protocol_handshake (some h)) k e =
      search (outcomes, prot_abort-Outcome, keeps) depth 8
  client_choice-Outcome _ k e = release (prot_abort-Outcome _ k)

  server_proposal-Outcome :
      {d : ShipConnection} (m : Deserialized)
      → Kept c d
      → E SmeState.prot_server_listen_confirm
      → Outcome E c (server_proposal env d m)
  unfolding server_proposal
  server_proposal-Outcome (Deserialized.sme_protocol_handshake (some h)) k e =
      search (outcomes, prot_abort-Outcome, keeps) depth 8
  server_proposal-Outcome _ k e = release (prot_abort-Outcome _ k)

  server_confirm-Outcome :
      {d : ShipConnection} (m : Deserialized)
      → Kept c d
      → E SmeState.prot_server_ok
      → Outcome E c (server_confirm env d m)
  unfolding server_confirm
  server_confirm-Outcome (Deserialized.sme_protocol_handshake (some h)) k e =
      search (outcomes, prot_abort-Outcome, keeps) depth 8
  server_confirm-Outcome _ k e = release (prot_abort-Outcome _ k)

module _ (env : Environment) (c : ShipConnection) where
  pub client_choice_listen-Outcome :
      Outcome (Edge client SmeState.prot_client_listen_choice) c (prot_client_listen_choice env c)
  unfolding prot_client_listen_choice
  client_choice_listen-Outcome =
      search (outcomes, client_choice-Outcome, prot_abort-Outcome, keeps, edges) depth 8

  pub server_proposal_listen-Outcome :
      Outcome
        (Edge server SmeState.prot_server_listen_proposal)
        c
        (prot_server_listen_proposal env c)
  unfolding prot_server_listen_proposal
  server_proposal_listen-Outcome =
      search (outcomes, server_proposal-Outcome, prot_abort-Outcome, keeps, edges) depth 8

  pub server_confirm_listen-Outcome :
      Outcome (Edge server SmeState.prot_server_listen_confirm) c (prot_server_listen_confirm env c)
  unfolding prot_server_listen_confirm
  server_confirm_listen-Outcome =
      search (outcomes, server_confirm-Outcome, prot_abort-Outcome, keeps, edges) depth 8

-- The PIN phase.
pin_requirement-Kept :
    (env : Environment) {c d : ShipConnection} (s : PinStateType) (p : Option PinInputPermission)
    → Kept c d
    → Kept c (send_pin_requirement env d s p).0
unfolding send_pin_requirement
pin_requirement-Kept env no_pin p k = serialize_and_send-Kept env _ k
pin_requirement-Kept env pin_ok p k = serialize_and_send-Kept env _ k
pin_requirement-Kept env required none k = k
pin_requirement-Kept env required (some p) k = serialize_and_send-Kept env _ k
pin_requirement-Kept env optional none k = k
pin_requirement-Kept env optional (some p) k = serialize_and_send-Kept env _ k
pin_requirement-Kept env invalid_pin none k = k
pin_requirement-Kept env invalid_pin (some p) k = serialize_and_send-Kept env _ k

module _ (env : Environment) {E : SmeState → Type 0} {c : ShipConnection} where
  permission-Outcome :
      {d : ShipConnection} (p : Option PinInputPermission)
      → Kept c d
      → E c.sme_state
      → E SmeState.pin_check_busy_wait
      → E SmeState.pin_check_listen
      → Outcome E c (handle_permission env d p)
  unfolding handle_permission
  permission-Outcome none k e f g = search outcomes
  permission-Outcome (some busy) k e f g = search outcomes
  permission-Outcome (some permitted) k e f g = search outcomes
  permission-Outcome (some other) k e f g = stay k e

  check_pin-Outcome :
      {d : ShipConnection} (s : PinStateType) (p : Option PinInputPermission)
      → Kept c d
      → E c.sme_state
      → E SmeState.pin_check_busy_wait
      → E SmeState.pin_check_listen
      → E SmeState.pin_check_ok
      → Outcome E c (check_pin_state env d s p)
  unfolding check_pin_state
  check_pin-Outcome required p k e f g h = permission-Outcome p k e f g
  check_pin-Outcome optional p k e f g h = permission-Outcome p k e f g
  check_pin-Outcome pin_ok p k e f g h = search outcomes
  check_pin-Outcome no_pin p k e f g h = search outcomes
  check_pin-Outcome invalid_pin p k e f g h = stay k e

  pin_evaluate-Outcome :
      {d : ShipConnection} (m : Deserialized)
      → Kept c d
      → E c.sme_state
      → E SmeState.pin_check_busy_wait
      → E SmeState.pin_check_listen
      → E SmeState.pin_check_ok
      → E SmeState.hello_abort
      → Outcome E c (pin_init_evaluate env d m)
  unfolding pin_init_evaluate
  pin_evaluate-Outcome (Deserialized.sme_pin_state (some p)) k e f g h i =
      release (check_pin-Outcome p.pin_state p.input_permission k e f g h)
  pin_evaluate-Outcome _ k e f g h i = search outcomes

  pin_listen_state-Outcome :
      {d : ShipConnection} (s : PinStateType)
      → Kept c d
      → E SmeState.pin_check_ok
      → Outcome E c (pin_listen_state env d s)
  unfolding pin_listen_state
  pin_listen_state-Outcome no_pin k e = search outcomes
  pin_listen_state-Outcome _ k e = search outcomes

  pin_listen_evaluate-Outcome :
      {d : ShipConnection} (m : Deserialized)
      → Kept c d
      → E SmeState.pin_check_ok
      → Outcome E c (pin_listen_evaluate env d m)
  unfolding pin_listen_evaluate
  pin_listen_evaluate-Outcome (Deserialized.sme_pin_state (some p)) k e =
      release (pin_listen_state-Outcome p.pin_state k e)
  pin_listen_evaluate-Outcome _ k e = search outcomes

module _ (env : Environment) {r : ShipRole} (c : ShipConnection) where
  pub pin_init-Outcome :
      c.sme_state ≡ SmeState.pin_check_init
      → Outcome (Edge r SmeState.pin_check_init) c (pin_check_init env c)
  unfolding pin_check_init
  pin_init-Outcome h =
      search (outcomes, pin_evaluate-Outcome, pin_requirement-Kept, keeps, edges, stays) depth 8
    where
      stays : Edge r SmeState.pin_check_init c.sme_state
      stays = rw h (wait refl)

  pub pin_listen-Outcome : Outcome (Edge r SmeState.pin_check_listen) c (pin_check_listen env c)
  unfolding pin_check_listen
  pin_listen-Outcome = search (outcomes, pin_listen_evaluate-Outcome, keeps, edges) depth 8
