-- ===== src/Ship/Connection/Handshake.antt =====
-- The connection mode initialisation and the protocol handshake, SHIP 13.4.3 and 13.4.4.2:
-- src/ship/ship_connection/client.c, server.c and a part of ship_connection.c.
use openeebus.Prelude.{
  ℕ, ◌==◌, leb, if◌then◌else◌, Bool, true, false, not, ◌&&◌, some, List, [], ◌∷◌,
}
use openeebus.Common.Error.{is_ok}
use openeebus.Ship.Types.{
  SmeState, ProtocolHandshake, ProtocolHandshakeError, HandshakeType, announce_max, select,
  FormatType, utf8, utf16, Deserialized, send_handshake, send_handshake_error, cmi_timeout,
  max_major, max_minor, ship_init_message,
}
use openeebus.Ship.Connection.{
  ShipConnection, Environment, set_sme_state, release_msg, stop_wait_for_ready, send,
  serialize_and_send, close_with_error, receive, evaluate_init_msg,
}

-- A handshake message of the given type and version, in UTF-8.
abbrev pub utf8_handshake : HandshakeType → ℕ → ℕ → ProtocolHandshake
utf8_handshake handshake_type major minor = record {
  handshake_type = handshake_type;
  major = major;
  minor = minor;
  formats = utf8 ∷ [];
}

abbrev pub is_select : HandshakeType → Bool
is_select select = true
is_select announce_max = false

-- The format must be there, and the first one be UTF-8.
abbrev first_is_utf8 : List FormatType → Bool
first_is_utf8 [] = false
first_is_utf8 (utf8 ∷ _) = true
first_is_utf8 (utf16 ∷ _) = false

-- `SmeProtHandshakeStateMessageCheck`.
unfoldable pub message_check : ProtocolHandshake → Bool
message_check h =
    is_select h.handshake_type
    && (h.major == max_major && (h.minor == max_minor && first_is_utf8 h.formats))

-- `SmeProtHandshakeStateAgreeOnProtocolVersion`: the versions agreed upon are those received.
unfoldable pub agree_on_version : ProtocolHandshake → Bool
agree_on_version h = leb h.major max_major && leb h.minor max_minor

module _ (env : Environment) where
  -- `CmiStateClientSend`.
  unfoldable pub cmi_client_send : ShipConnection → ShipConnection
  cmi_client_send c =
      let (c', err) = send env c ship_init_message in
      if is_ok err
      then set_sme_state c' SmeState.cmi_client_wait
      else close_with_error env c' "CMI client send failed"

  -- `CmiStateClientWait`.
  unfoldable pub cmi_client_wait : ShipConnection → ShipConnection
  cmi_client_wait c =
      let (c', err) = receive env c cmi_timeout in
      if is_ok err
      then set_sme_state c' SmeState.cmi_client_evaluate
      else close_with_error env c' "CMI client wait failed"

  -- `CmiStateClientEvaluate`.
  unfoldable pub cmi_client_evaluate : ShipConnection → ShipConnection
  cmi_client_evaluate c = release_msg (
      if evaluate_init_msg c.msg
      then set_sme_state c SmeState.hello
      else close_with_error env c "Invalid init message received")

  -- `CmiStateServerWait`.
  unfoldable pub cmi_server_wait : ShipConnection → ShipConnection
  cmi_server_wait c =
      let (c', err) = receive env c cmi_timeout in
      if is_ok err
      then set_sme_state c' SmeState.cmi_server_evaluate
      else close_with_error env c' "CMI server wait failed"

  -- `CmiStateServerEvaluate`.
  unfoldable pub cmi_server_evaluate : ShipConnection → ShipConnection
  cmi_server_evaluate c =
      let (c', err) = send env c ship_init_message in
      if not (evaluate_init_msg c.msg)
      then close_with_error env (release_msg c) "Invalid init message received"
      else if is_ok err
      then release_msg (set_sme_state c' SmeState.hello)
      else close_with_error env (release_msg c') "Server CMI message send failed"

  -- `SmeProtHandshakeStateAbort`.
  unfoldable pub prot_abort : ShipConnection → ProtocolHandshakeError → ShipConnection
  prot_abort c e =
      let (c', err) = serialize_and_send env (stop_wait_for_ready c) (send_handshake_error e) in
      if is_ok err
      then close_with_error env (set_sme_state c' SmeState.error) "Abort protocol handshake"
      else close_with_error env c' "Error sending ship message"

  -- `SmeProtHandshakeStateClientInit`.
  unfoldable pub prot_client_init : ShipConnection → ShipConnection
  prot_client_init c =
      let (c', err) =
        serialize_and_send env (stop_wait_for_ready c)
          (send_handshake (utf8_handshake announce_max max_major max_minor)) in
      if is_ok err
      then set_sme_state c' SmeState.prot_client_listen_choice
      else close_with_error env c' "Error serializing protocol handshake ship message"

  -- What `SmeProtHandshakeStateClientListenChoice` makes of a message.
  unfoldable pub client_choice : ShipConnection → Deserialized → ShipConnection
  client_choice c (Deserialized.sme_protocol_handshake (some h)) =
      let stopped = stop_wait_for_ready c in
      let (c', err) =
        serialize_and_send env stopped
          (send_handshake (utf8_handshake select max_major max_minor)) in
      if not (message_check h)
      then prot_abort (release_msg stopped) ProtocolHandshakeError.selection_mismatch
      else if is_ok err
      then release_msg (set_sme_state c' SmeState.prot_client_ok)
      else close_with_error env (release_msg c') "Error serializing protocol handshake ship message"
  client_choice c _ = release_msg (prot_abort c ProtocolHandshakeError.unexpected_message)

  -- `SmeProtHandshakeStateClientListenChoice`.
  unfoldable pub prot_client_listen_choice : ShipConnection → ShipConnection
  prot_client_listen_choice c =
      let (c', err) = receive env c cmi_timeout in
      if is_ok err
      then client_choice c' (env.deserialize c'.msg)
      else prot_abort c' ProtocolHandshakeError.unexpected_message

  -- `SmeProtHandshakeStateServerInit`.
  unfoldable pub prot_server_init : ShipConnection → ShipConnection
  prot_server_init c = set_sme_state (stop_wait_for_ready c) SmeState.prot_server_listen_proposal

  -- What `SmeProtHandshakeStateServerListenProposal` makes of a message.
  unfoldable pub server_proposal : ShipConnection → Deserialized → ShipConnection
  server_proposal c (Deserialized.sme_protocol_handshake (some h)) =
      let stopped = stop_wait_for_ready c in
      let (c', err) =
        serialize_and_send env stopped (send_handshake (utf8_handshake select h.major h.minor)) in
      if is_select h.handshake_type
      then prot_abort (release_msg stopped) ProtocolHandshakeError.unexpected_message
      else if not (agree_on_version h)
      then prot_abort (release_msg stopped) ProtocolHandshakeError.selection_mismatch
      else if is_ok err
      then release_msg (set_sme_state c' SmeState.prot_server_listen_confirm)
      else close_with_error env (release_msg c') "Error serializing protocol handshake ship message"
  server_proposal c _ = release_msg (prot_abort c ProtocolHandshakeError.unexpected_message)

  -- `SmeProtHandshakeStateServerListenProposal`.
  unfoldable pub prot_server_listen_proposal : ShipConnection → ShipConnection
  prot_server_listen_proposal c =
      let (c', err) = receive env c cmi_timeout in
      if is_ok err
      then server_proposal c' (env.deserialize c'.msg)
      else prot_abort c' ProtocolHandshakeError.unexpected_message

  -- What `SmeProtHandshakeStateServerListenConfirm` makes of a message.
  unfoldable pub server_confirm : ShipConnection → Deserialized → ShipConnection
  server_confirm c (Deserialized.sme_protocol_handshake (some h)) =
      if is_select h.handshake_type
      then release_msg (set_sme_state (stop_wait_for_ready c) SmeState.prot_server_ok)
      else prot_abort (release_msg c) ProtocolHandshakeError.selection_mismatch
  server_confirm c _ = release_msg (prot_abort c ProtocolHandshakeError.selection_mismatch)

  -- `SmeProtHandshakeStateServerListenConfirm`.
  unfoldable pub prot_server_listen_confirm : ShipConnection → ShipConnection
  prot_server_listen_confirm c =
      let (c', err) = receive env c cmi_timeout in
      if is_ok err
      then server_confirm c' (env.deserialize c'.msg)
      else prot_abort c' ProtocolHandshakeError.unexpected_message
