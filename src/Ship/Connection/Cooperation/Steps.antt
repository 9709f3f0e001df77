-- ===== src/Ship/Connection/Cooperation/Steps.antt =====
-- The steps of a connection whose peer is paired and cooperates.
use openeebus.Prelude.{
  ℕ, Bool, true, false, not, ◌≡◌, ◌∙◌, sym, subst, ap, if◌then◌else◌, some, List, [], ◌∷◌, arith,
}
use openeebus.Common.Error.{EebusError, is_ok}
use openeebus.Ship.Types.{
  SmeState, ShipRole, client, server, HelloPhase, ConnectionHello, ProtocolHandshake, PinStateType,
  ConnectionPinState, Deserialized, ship_init_message, cmi_timeout, hello_init_timeout,
}
use openeebus.Ship.Connection.{
  ShipConnection, Environment, Event, Arrival, release_msg, receive, evaluate_init_msg,
}
use openeebus.Ship.Connection.Hello.{
  hello_ready_init, hello_ready_listen, hello_ready_evaluate, ready_received, ready_phase,
  send_hello_msg,
}
use openeebus.Ship.Connection.Handshake.{
  cmi_client_send, cmi_client_wait, cmi_client_evaluate, cmi_server_wait, cmi_server_evaluate,
  prot_client_init, prot_client_listen_choice, client_choice, prot_server_init,
  prot_server_listen_proposal, server_proposal, prot_server_listen_confirm, server_confirm,
  message_check, agree_on_version, is_select,
}
use openeebus.Ship.Connection.Pin.{
  pin_check_init, pin_init_evaluate, check_pin_state, send_pin_requirement,
}
use openeebus.Ship.Connection.DataExchange.{approve}
use openeebus.Ship.Connection.Machine.{enter_hello}
use openeebus.Ship.Connection.Cooperation.{
  Reliable, At, delivered, move-At, release-At, stop_wait-At, stop_send-At, stop_reply-At,
  send-Fine, serialize_and_send-Fine, receive-Fine,
}

module _ {r : ShipRole} {s : SmeState} {m : List ℕ} {inbox : List Arrival} where
  if_ok :
      {e : EebusError} {c : ShipConnection} (d : ShipConnection)
      → e ≡ EebusError.ok
      → At r s m inbox c
      → At r s m inbox (if is_ok e then c else d)
  unfolding is_ok
  if_ok {e} {c} d h a = subst (λ z. At r s m inbox (if is_ok z then c else d)) (sym h) a

  if_true :
      {b : Bool} {c : ShipConnection} (d : ShipConnection)
      → b ≡ true
      → At r s m inbox c
      → At r s m inbox (if b then c else d)
  if_true {b} {c} d h a = subst (λ z. At r s m inbox (if z then c else d)) (sym h) a

  if_false :
      {b : Bool} {d : ShipConnection} (c : ShipConnection)
      → b ≡ false
      → At r s m inbox d
      → At r s m inbox (if b then c else d)
  if_false {b} {d} c h a = subst (λ z. At r s m inbox (if z then c else d)) (sym h) a

module _ (env : Environment) {inbox : List Arrival} {c : ShipConnection} where
  pub client_evaluate-At :
      {s : SmeState}
      → At client s ship_init_message inbox c
      → At client SmeState.hello [] inbox (cmi_client_evaluate env c)
  unfolding cmi_client_evaluate evaluate_init_msg
  client_evaluate-At a = release-At (if_true _ (ap evaluate_init_msg a.msg) (move-At _ a))

  pub server_evaluate-At :
      {s : SmeState}
      → Reliable env
      → At server s ship_init_message inbox c
      → At server SmeState.hello [] inbox (cmi_server_evaluate env c)
  unfolding cmi_server_evaluate evaluate_init_msg
  server_evaluate-At rel a =
      let f = send-Fine env rel ship_init_message a in
      if_false _ (ap (λ b. not (evaluate_init_msg b)) a.msg)
        (if_ok _ f.ok (release-At (move-At _ f.at)))

module _ (env : Environment) (rel : Reliable env) {m : List ℕ} {inbox : List Arrival}
    {c : ShipConnection} where
  pub client_send-At :
      {s : SmeState}
      → At client s m inbox c
      → At client SmeState.cmi_client_wait m inbox (cmi_client_send env c)
  unfolding cmi_client_send
  client_send-At a = let f = send-Fine env rel ship_init_message a in if_ok _ f.ok (move-At _ f.at)

  module _ {r : ShipRole} {s : SmeState} (a : At r s m inbox c) where
    asked-At : (b : Bool) → At r s m inbox (record c { log = Event.paired_answer b ∷ c.log })
    asked-At b = ground arith

    pub enter_hello-At :
        env.is_paired c.log ≡ true → At r SmeState.hello_ready_init m inbox (enter_hello env c)
    unfolding enter_hello
    enter_hello-At p = if_true _ p (move-At _ (asked-At (env.is_paired c.log)))

    pub ready_init-At : At r SmeState.hello_ready_listen m inbox (hello_ready_init env c)
    unfolding hello_ready_init send_hello_msg
    ready_init-At =
        let f = serialize_and_send-Fine env rel _ (stop_reply-At (stop_send-At a)) in
        if_ok _ f.ok (if_false _ f.at.remote_hello_ready (move-At _ f.at))

    pub server_init-At : At r SmeState.prot_server_listen_proposal m inbox (prot_server_init env c)
    unfolding prot_server_init
    server_init-At = move-At _ (stop_wait-At a)

    pub client_init-At : At r SmeState.prot_client_listen_choice m inbox (prot_client_init env c)
    unfolding prot_client_init
    client_init-At =
        let f = serialize_and_send-Fine env rel _ (stop_wait-At a) in if_ok _ f.ok (move-At _ f.at)

module _ (env : Environment) {r : ShipRole} {s : SmeState} {m bytes : List ℕ} {rest : List Arrival}
    {c : ShipConnection} (a : At r s m (delivered bytes ∷ rest) c) where
  pub client_wait-At : At r SmeState.cmi_client_evaluate bytes rest (cmi_client_wait env c)
  unfolding cmi_client_wait
  client_wait-At = let f = receive-Fine env cmi_timeout a in if_ok _ f.ok (move-At _ f.at)

  pub server_wait-At : At r SmeState.cmi_server_evaluate bytes rest (cmi_server_wait env c)
  unfolding cmi_server_wait
  server_wait-At = let f = receive-Fine env cmi_timeout a in if_ok _ f.ok (move-At _ f.at)

  -- What the code makes of the received message, if it is decoded as expected.
  read :
      (ms : ℕ) (d : Deserialized)
      → env.deserialize bytes ≡ d
      → env.deserialize (receive env c ms).0.msg ≡ d
  read ms d e = ap env.deserialize (receive-Fine env ms a).at.msg ∙ e

  pub ready_listen-At :
      (h : ConnectionHello)
      → env.deserialize bytes ≡ Deserialized.sme_hello (some h)
      → h.phase ≡ HelloPhase.ready
      → At r SmeState.hello_ok [] rest (hello_ready_listen env c)
  unfolding hello_ready_listen hello_ready_evaluate
  ready_listen-At h e p =
      let f = receive-Fine env hello_init_timeout a in
      let d = (receive env c hello_init_timeout).0 in
      subst (λ x. At r SmeState.hello_ok [] rest (ready_received env d x)) (sym f.ok)
        (subst (λ x. At r SmeState.hello_ok [] rest (hello_ready_evaluate env d x))
          (sym (read hello_init_timeout _ e))
          (subst (λ x. At r SmeState.hello_ok [] rest (release_msg (ready_phase env d h x))) (sym p)
            (release-At (move-At _ f.at))))

  pub client_choice-At :
      Reliable env
      → (h : ProtocolHandshake)
      → env.deserialize bytes ≡ Deserialized.sme_protocol_handshake (some h)
      → message_check h ≡ true
      → At r SmeState.prot_client_ok [] rest (prot_client_listen_choice env c)
  unfolding prot_client_listen_choice client_choice
  client_choice-At rel h e p =
      let f = receive-Fine env cmi_timeout a in
      let d = (receive env c cmi_timeout).0 in
      let g = serialize_and_send-Fine env rel _ (stop_wait-At f.at) in
      if_ok _ f.ok (
        subst (λ x. At r SmeState.prot_client_ok [] rest (client_choice env d x))
          (sym (read cmi_timeout _ e))
          (if_false _ (ap not p) (if_ok _ g.ok (release-At (move-At _ g.at)))))

  pub server_proposal-At :
      Reliable env
      → (h : ProtocolHandshake)
      → env.deserialize bytes ≡ Deserialized.sme_protocol_handshake (some h)
      → is_select h.handshake_type ≡ false
      → agree_on_version h ≡ true
      → At r SmeState.prot_server_listen_confirm [] rest (prot_server_listen_proposal env c)
  unfolding prot_server_listen_proposal server_proposal
  server_proposal-At rel h e p q =
      let f = receive-Fine env cmi_timeout a in
      let d = (receive env c cmi_timeout).0 in
      let g = serialize_and_send-Fine env rel _ (stop_wait-At f.at) in
      if_ok _ f.ok (
        subst (λ x. At r SmeState.prot_server_listen_confirm [] rest (server_proposal env d x))
          (sym (read cmi_timeout _ e))
          (if_false _ p (if_false _ (ap not q) (if_ok _ g.ok (release-At (move-At _ g.at))))))

  pub server_confirm-At :
      (h : ProtocolHandshake)
      → env.deserialize bytes ≡ Deserialized.sme_protocol_handshake (some h)
      → is_select h.handshake_type ≡ true
      → At r SmeState.prot_server_ok [] rest (prot_server_listen_confirm env c)
  unfolding prot_server_listen_confirm server_confirm
  server_confirm-At h e p =
      let f = receive-Fine env cmi_timeout a in
      let d = (receive env c cmi_timeout).0 in
      if_ok _ f.ok (
        subst (λ x. At r SmeState.prot_server_ok [] rest (server_confirm env d x))
          (sym (read cmi_timeout _ e)) (if_true _ p (release-At (move-At _ (stop_wait-At f.at)))))

module _ (env : Environment) {r : ShipRole} {s : SmeState} {m bytes : List ℕ} {rest : List Arrival}
    {c : ShipConnection} (a : At r s m (delivered bytes ∷ rest) c) where
  pub pin_init-At :
      Reliable env
      → (p : ConnectionPinState) → env.deserialize bytes ≡ Deserialized.sme_pin_state (some p)
      → p.pin_state ≡ PinStateType.no_pin
      → At r SmeState.pin_check_ok [] rest (pin_check_init env c)
  unfolding pin_check_init send_pin_requirement pin_init_evaluate check_pin_state
  pin_init-At rel p e q =
      let g = serialize_and_send-Fine env rel _ a in
      let f = receive-Fine env cmi_timeout g.at in
      let d = (receive env _ cmi_timeout).0 in
      if_ok _ g.ok (
        if_ok _ f.ok (
          subst (λ x. At r SmeState.pin_check_ok [] rest (pin_init_evaluate env d x))
            (sym (read env g.at cmi_timeout _ e))
            (subst
              (λ x.
                At r SmeState.pin_check_ok [] rest
                  (release_msg (check_pin_state env d x p.input_permission)))
              (sym q) (release-At (move-At _ f.at)))))

set_up-At :
    {r : ShipRole} {s : SmeState} {m : List ℕ} {inbox : List Arrival} {c : ShipConnection}
    → At r s m inbox c
    → At r s m inbox (record c { log = Event.remote_device_set_up ∷ c.log })
set_up-At a = ground arith

pub approve-At :
    (env : Environment) {r : ShipRole} {s : SmeState} {m : List ℕ} {inbox : List Arrival}
    {c : ShipConnection}
    → At r s m inbox c
    → At r SmeState.data_exchange m inbox (approve env c)
unfolding approve
approve-At env a = move-At _ (stop_wait-At (set_up-At a))
