-- ===== src/Ship/Connection/Agreement.antt =====
-- On what client and server have agreed when they leave the protocol handshake, and how an error
-- ends a connection: src/ship/ship_connection/client.c, server.c and ship_connection.c.
use openeebus.Prelude.{
  true, false, ◌≡◌, ◌≢◌, refl, Bool-cases, inl, inr, ◌==◌, ◌≤◌, some, ◌∷◌, String, arith,
}
use openeebus.Common.Error.{is_ok}
use openeebus.Ship.Types.{
  SmeState, value, Deserialized, ProtocolHandshake, ProtocolHandshakeError, HandshakeType,
  send_handshake_error, max_major, max_minor,
}
use openeebus.Ship.Connection.{
  ShipConnection, Environment, Event, set_sme_state, close_with_error, close_connection,
  serialize_and_send, send, stop_wait_for_ready, stop_send_prolongation, stop_prolongation_reply,
  release_msg,
}
use openeebus.Ship.Connection.Handshake.{
  prot_abort, server_proposal, client_choice, message_check, agree_on_version, is_select,
}

value-error : (s : SmeState) → s ≢ SmeState.error → (value s == value SmeState.error) ≡ false
unfolding value
value-error SmeState.error n = absurd (n refl)
value-error _ n = refl

module _ (env : Environment) where
  close_with_error-error :
      (c : ShipConnection) (err : String) → (close_with_error env c err).sme_state ≡ SmeState.error
  unfolding close_with_error close_connection set_sme_state serialize_and_send send
      stop_wait_for_ready stop_send_prolongation stop_prolongation_reply
  close_with_error-error c err = ground arith

  -- An error on an open connection in a state other than the error state is reported as the error
  -- state, closes the websocket with code 4001 and the error text, and reports the end as that of an
  -- unfinished handshake: no close message is sent, not even in the data exchange.
  pub close_with_error-log :
      (c : ShipConnection) (err : String)
      → c.shutdown_once ≡ false
      → c.sme_state ≢ SmeState.error
      → (close_with_error env c err).log
        ≡ Event.connection_closed false
          ∷ Event.websocket_closed 4001 (some err)
          ∷ Event.state_update SmeState.error
          ∷ c.log
  unfolding close_with_error close_connection set_sme_state serialize_and_send send
      stop_wait_for_ready stop_send_prolongation stop_prolongation_reply
  close_with_error-log c err o n = rw (o, value-error c.sme_state n) refl

  prot_abort-error :
      (c : ShipConnection) (e : ProtocolHandshakeError)
      → (prot_abort env c e).sme_state ≡ SmeState.error
  unfolding prot_abort
  prot_abort-error c e =
      elim (Bool-cases
        (is_ok (serialize_and_send env (stop_wait_for_ready c) (send_handshake_error e)).1)) [
          | inl o ↦ rw o (close_with_error-error _ _)
          | inr o ↦ rw o (close_with_error-error _ _)
        ]

  release-state : (c : ShipConnection) → (release_msg c).sme_state ≡ c.sme_state
  unfolding release_msg
  release-state c = refl

  -- What an announced version that is agreed with is.
  proposal-agreed :
      (h : ProtocolHandshake)
      → is_select h.handshake_type ≡ false
      → agree_on_version h ≡ true
      → (h.handshake_type ≡ HandshakeType.announce_max)
        × (h.major ≤ max_major)
        × (h.minor ≤ max_minor)
  unfolding agree_on_version
  proposal-agreed h i a = (announces h.handshake_type i, ground arith, ground arith)
    where
      announces : (t : HandshakeType) → is_select t ≡ false → t ≡ HandshakeType.announce_max
      announces HandshakeType.announce_max e = refl
      announces HandshakeType.select e = absurd (cc e)

  -- A server leaves the wait for a proposal for the wait for the confirmation only on a received
  -- proposal that announces a version of at most the supported one, major and minor.
  pub server_proposal-agreed :
      (c : ShipConnection) (m : Deserialized)
      → (server_proposal env c m).sme_state ≡ SmeState.prot_server_listen_confirm
      → (h : ProtocolHandshake) × (m ≡ Deserialized.sme_protocol_handshake (some h))
        × (h.handshake_type ≡ HandshakeType.announce_max)
        × (h.major ≤ max_major)
        × (h.minor ≤ max_minor)
  unfolding server_proposal
  server_proposal-agreed c (Deserialized.sme_protocol_handshake (some h)) e =
      elim (Bool-cases (is_select h.handshake_type)) [
        | inl s ↦ absurd (
            ground (
              arith,
              e,
              prot_abort-error (release_msg (stop_wait_for_ready c))
                  ProtocolHandshakeError.unexpected_message,
            ))
        | inr s ↦ elim (Bool-cases (agree_on_version h)) [
          | inl a ↦
              let (announces, major, minor) = proposal-agreed h s a in
              (h, refl, announces, major, minor)
          | inr a ↦ absurd (
              ground (
                arith,
                e,
                prot_abort-error (release_msg (stop_wait_for_ready c))
                    ProtocolHandshakeError.selection_mismatch,
              ))
        ]
      ]
  server_proposal-agreed c _ e = absurd (
      cc (
        e,
        release-state (prot_abort env c ProtocolHandshakeError.unexpected_message),
        prot_abort-error c ProtocolHandshakeError.unexpected_message,
      ))

  -- What a selected version that passes the check is.
  choice-checked :
      (h : ProtocolHandshake)
      → message_check h ≡ true
      → (is_select h.handshake_type ≡ true) × (h.major ≡ max_major) × (h.minor ≡ max_minor)
  unfolding message_check
  choice-checked h a = ground arith

  -- A client leaves the wait for the choice for the end of the protocol handshake only on a received
  -- choice that selects exactly the supported version.
  pub client_choice-agreed :
      (c : ShipConnection) (m : Deserialized)
      → (client_choice env c m).sme_state ≡ SmeState.prot_client_ok
      → (h : ProtocolHandshake) × (m ≡ Deserialized.sme_protocol_handshake (some h))
        × (is_select h.handshake_type ≡ true)
        × (h.major ≡ max_major)
        × (h.minor ≡ max_minor)
  unfolding client_choice
  client_choice-agreed c (Deserialized.sme_protocol_handshake (some h)) e =
      elim (Bool-cases (message_check h)) [
        | inl a ↦
            let (selects, major, minor) = choice-checked h a in (h, refl, selects, major, minor)
        | inr a ↦ absurd (
            ground (
              arith,
              e,
              prot_abort-error (release_msg (stop_wait_for_ready c))
                  ProtocolHandshakeError.selection_mismatch,
            ))
      ]
  client_choice-agreed c _ e = absurd (
      cc (
        e,
        release-state (prot_abort env c ProtocolHandshakeError.unexpected_message),
        prot_abort-error c ProtocolHandshakeError.unexpected_message,
      ))
