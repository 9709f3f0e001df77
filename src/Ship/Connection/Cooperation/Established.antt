-- ===== src/Ship/Connection/Cooperation/Established.antt =====
-- A whole handshake with a paired and cooperative peer.
use openeebus.Prelude.{
  ℕ, suc, true, false, ◌≡◌, sym, subst, if◌then◌else◌, ◌||◌, some, List, [], ◌∷◌, arith,
}
use openeebus.Ship.Types.{
  SmeState, ShipRole, client, server, HelloPhase, ConnectionHello, ProtocolHandshake, PinStateType,
  ConnectionPinState, Deserialized, ship_init_message,
}
use openeebus.Ship.Connection.{
  ShipConnection, Environment, Event, Arrival, construct, initial_state,
}
use openeebus.Ship.Connection.Handshake.{message_check, agree_on_version, is_select}
use openeebus.Ship.Connection.Machine.{
  role_step, client_step, server_step, common_step, handle_state, loop,
}
use openeebus.Ship.Connection.Cooperation.{Reliable, At, delivered, move-At}
use openeebus.Ship.Connection.Cooperation.Steps

construct-At :
    (role : ShipRole) (local_ship_id remote_ship_id : List ℕ) (inbox : List Arrival)
    → At role (initial_state role) [] inbox (construct role local_ship_id remote_ship_id inbox)
unfolding construct
construct-At role local_ship_id remote_ship_id inbox = ground arith

module _ (env : Environment) {s : SmeState} {m : List ℕ} {i rest : List Arrival}
    {c : ShipConnection} where
  next :
      {r : ShipRole} (n : ℕ)
      → At r s m i c
      → At r SmeState.data_exchange [] rest (loop env n (handle_state env c))
      → At r SmeState.data_exchange [] rest (loop env (suc n) c)
  unfolding loop
  next {r} n a p =
      subst
        (λ b.
          At r SmeState.data_exchange [] rest
            (if b || c.shutdown_once then c else loop env n (handle_state env c)))
        (sym a.cancel)
        (subst
          (λ b.
            At r SmeState.data_exchange [] rest (if b then c else loop env n (handle_state env c)))
          (sym a.shutdown_once) p)

module _ (env : Environment) {s t : SmeState} {m m' : List ℕ} {i i' rest : List Arrival}
    {c : ShipConnection} (n : ℕ) where
  by_client :
      At client s m i c
      → At client t m' i' (client_step env s c)
      → (At client t m' i' (handle_state env c)
          → At client SmeState.data_exchange [] rest (loop env n (handle_state env c)))
      → At client SmeState.data_exchange [] rest (loop env (suc n) c)
  by_client a b k = next env n a (
      k (
        unfold handle_state in
        subst (λ r. At client t m' i' (role_step env r c)) (sym a.role)
          (subst (λ x. At client t m' i' (client_step env x c)) (sym a.sme_state) b)))

  by_server :
      At server s m i c
      → At server t m' i' (server_step env s c)
      → (At server t m' i' (handle_state env c)
          → At server SmeState.data_exchange [] rest (loop env n (handle_state env c)))
      → At server SmeState.data_exchange [] rest (loop env (suc n) c)
  by_server a b k = next env n a (
      k (
        unfold handle_state in
        subst (λ r. At server t m' i' (role_step env r c)) (sym a.role)
          (subst (λ x. At server t m' i' (server_step env x c)) (sym a.sme_state) b)))

module _ (env : Environment) (rel : Reliable env)
    (paired : (log : List Event) → env.is_paired log ≡ true) where
  -- With an environment that writes and encodes every message and in which the peer is paired, a
  -- client that receives the init message, a READY hello, a protocol choice that the message check
  -- admits and the PIN state "none", with no timer expiring, is in the data exchange after 13 rounds:
  -- open, not cancelled, with the messages behind these still to come.
  pub client-established :
      (local_ship_id remote_ship_id hello choice pin : List ℕ) (rest : List Arrival)
      (h : ConnectionHello) (v : ProtocolHandshake) (p : ConnectionPinState)
      → env.deserialize hello ≡ Deserialized.sme_hello (some h)
      → h.phase ≡ HelloPhase.ready
      → env.deserialize choice ≡ Deserialized.sme_protocol_handshake (some v)
      → message_check v ≡ true
      → env.deserialize pin ≡ Deserialized.sme_pin_state (some p)
      → p.pin_state ≡ PinStateType.no_pin
      → At client SmeState.data_exchange [] rest (
          loop env 13 (
            construct client local_ship_id remote_ship_id (
              delivered ship_init_message
              ∷ delivered hello
              ∷ delivered choice
              ∷ delivered pin
              ∷ rest)))
  unfolding client_step common_step
  client-established local_ship_id remote_ship_id hello choice pin rest h v p dh ph dv pv dp pp =
      by_client env 12 (construct-At client local_ship_id remote_ship_id _)
        (Steps.client_send-At env rel (construct-At client local_ship_id remote_ship_id _))
        (λ a1. by_client env 11 a1 (Steps.client_wait-At env a1) (λ a2.
          by_client env 10 a2 (Steps.client_evaluate-At env a2) (λ a3.
            by_client env 9 a3 (Steps.enter_hello-At env rel a3 (paired _)) (λ a4.
              by_client env 8 a4 (Steps.ready_init-At env rel a4) (λ a5.
                by_client env 7 a5 (Steps.ready_listen-At env a5 h dh ph) (λ a6.
                  by_client env 6 a6 (move-At _ a6) (λ a7.
                    by_client env 5 a7 (Steps.client_init-At env rel a7) (λ a8.
                      by_client env 4 a8 (Steps.client_choice-At env a8 rel v dv pv) (λ a9.
                        by_client env 3 a9 (move-At _ a9) (λ a10.
                          by_client env 2 a10 (Steps.pin_init-At env a10 rel p dp pp) (λ a11.
                            by_client env 1 a11 (move-At _ a11) (λ a12.
                              by_client env 0 a12 (Steps.approve-At env a12)
                                (λ a13. unfold loop in a13)))))))))))))

  -- With an environment that writes and encodes every message and in which the peer is paired, a
  -- server that receives the init message, a READY hello, an announced protocol version that it agrees
  -- with, a selected version and the PIN state "none", with no timer expiring, is in the data exchange
  -- after 13 rounds: open, not cancelled, with the messages behind these still to come.
  pub server-established :
      (local_ship_id remote_ship_id hello proposal choice pin : List ℕ) (rest : List Arrival)
      (h : ConnectionHello) (v w : ProtocolHandshake) (p : ConnectionPinState)
      → env.deserialize hello ≡ Deserialized.sme_hello (some h)
      → h.phase ≡ HelloPhase.ready
      → env.deserialize proposal ≡ Deserialized.sme_protocol_handshake (some v)
      → is_select v.handshake_type ≡ false
      → agree_on_version v ≡ true
      → env.deserialize choice ≡ Deserialized.sme_protocol_handshake (some w)
      → is_select w.handshake_type ≡ true
      → env.deserialize pin ≡ Deserialized.sme_pin_state (some p)
      → p.pin_state ≡ PinStateType.no_pin
      → At server SmeState.data_exchange [] rest (
          loop env 13 (
            construct server local_ship_id remote_ship_id (
              delivered ship_init_message
              ∷ delivered hello
              ∷ delivered proposal
              ∷ delivered choice
              ∷ delivered pin
              ∷ rest)))
  unfolding server_step common_step
  server-established local_ship_id remote_ship_id hello proposal choice pin rest h v w p dh ph dv tv
        av dw tw dp pp =
      by_server env 12 (construct-At server local_ship_id remote_ship_id _)
        (Steps.server_wait-At env (construct-At server local_ship_id remote_ship_id _))
        (λ a1. by_server env 11 a1 (Steps.server_evaluate-At env rel a1) (λ a2.
          by_server env 10 a2 (Steps.enter_hello-At env rel a2 (paired _)) (λ a3.
            by_server env 9 a3 (Steps.ready_init-At env rel a3) (λ a4.
              by_server env 8 a4 (Steps.ready_listen-At env a4 h dh ph) (λ a5.
                by_server env 7 a5 (move-At _ a5) (λ a6.
                  by_server env 6 a6 (Steps.server_init-At env rel a6) (λ a7.
                    by_server env 5 a7 (Steps.server_proposal-At env a7 rel v dv tv av) (λ a8.
                      by_server env 4 a8 (Steps.server_confirm-At env a8 w dw tw) (λ a9.
                        by_server env 3 a9 (move-At _ a9) (λ a10.
                          by_server env 2 a10 (Steps.pin_init-At env a10 rel p dp pp) (λ a11.
                            by_server env 1 a11 (move-At _ a11) (λ a12.
                              by_server env 0 a12 (Steps.approve-At env a12)
                                (λ a13. unfold loop in a13)))))))))))))
