-- ===== src/Ship/Connection/Pin.antt =====
-- The PIN phase of the handshake, SHIP 13.4.5, in src/ship/ship_connection/ship_connection.c. Only
-- the state "none" is supported: the connection announces no PIN.
use openeebus.Prelude.{if◌then◌else◌, Option, none, some}
use openeebus.Common.Error.{EebusError, is_ok}
use openeebus.Ship.Types.{
  SmeState, PinStateType, required, optional, pin_ok, no_pin, invalid_pin, PinInputPermission, busy,
  permitted, other, Deserialized, send_pin_state, cmi_timeout, hello_init_timeout,
}
use openeebus.Ship.Connection.{
  ShipConnection, Environment, set_sme_state, release_msg, serialize_and_send, close_with_error,
  receive,
}

-- The states that need no input permission.
abbrev needs_permission :
    PinStateType → Option PinInputPermission → Option (Option PinInputPermission)
needs_permission no_pin _ = some none
needs_permission pin_ok _ = some none
needs_permission _ none = none
needs_permission _ (some p) = some (some p)

module _ (env : Environment) where
  -- `SmePinStateCommonPinRequirementSendProcedure`.
  unfoldable pub send_pin_requirement :
      ShipConnection → PinStateType → Option PinInputPermission → ShipConnection × EebusError
  send_pin_requirement c pin_state permission = elim (needs_permission pin_state permission) [
    | none ↦ (c, EebusError.input_argument)
    | some input_permission ↦
        serialize_and_send env c
          (send_pin_state (record { pin_state = pin_state; input_permission = input_permission }))
  ]

  -- `SmePinStateHandlePermissionType`.
  unfoldable pub handle_permission : ShipConnection → Option PinInputPermission → ShipConnection
  handle_permission c none = close_with_error env c "node_pin_requirement is missing"
  handle_permission c (some busy) = set_sme_state c SmeState.pin_check_busy_wait
  handle_permission c (some permitted) = set_sme_state c SmeState.pin_check_listen
  handle_permission c (some other) = c

  -- `SmePinStateCheckPinStateAndRequirement`.
  unfoldable pub check_pin_state :
      ShipConnection → PinStateType → Option PinInputPermission → ShipConnection
  check_pin_state c required permission = handle_permission c permission
  check_pin_state c optional permission = handle_permission c permission
  check_pin_state c pin_ok permission = set_sme_state c SmeState.pin_check_ok
  check_pin_state c no_pin permission = set_sme_state c SmeState.pin_check_ok
  check_pin_state c invalid_pin permission = c

  -- What `SmePinStateCheckInit` makes of a message.
  unfoldable pub pin_init_evaluate : ShipConnection → Deserialized → ShipConnection
  pin_init_evaluate c (Deserialized.sme_pin_state (some p)) =
      release_msg (check_pin_state c p.pin_state p.input_permission)
  pin_init_evaluate c _ = release_msg (set_sme_state c SmeState.hello_abort)

  -- `SmePinStateCheckInit`.
  unfoldable pub pin_check_init : ShipConnection → ShipConnection
  pin_check_init c =
      let (c', err) = send_pin_requirement c no_pin (some permitted) in
      let (c'', received) = receive env c' cmi_timeout in
      if is_ok err
      then if is_ok received
        then pin_init_evaluate c'' (env.deserialize c''.msg)
        else close_with_error env c'' "Error receiving pin requirement"
      else close_with_error env c' "Error sending PIN requirement message"

  -- What `SmePinStateCheckListen` makes of a PIN state.
  unfoldable pub pin_listen_state : ShipConnection → PinStateType → ShipConnection
  pin_listen_state c no_pin = set_sme_state c SmeState.pin_check_ok
  pin_listen_state c required = close_with_error env c "Unsupported PIN state: required"
  pin_listen_state c optional = close_with_error env c "Unsupported PIN state: optional"
  pin_listen_state c pin_ok = close_with_error env c "Unsupported PIN state: ok"
  pin_listen_state c invalid_pin = close_with_error env c "Invalid PIN state"

  -- What `SmePinStateCheckListen` makes of a message.
  unfoldable pub pin_listen_evaluate : ShipConnection → Deserialized → ShipConnection
  pin_listen_evaluate c (Deserialized.sme_pin_state (some p)) =
      release_msg (pin_listen_state c p.pin_state)
  pin_listen_evaluate c _ = release_msg (close_with_error env c "Error deserializing PIN message")

  -- `SmePinStateCheckListen`.
  unfoldable pub pin_check_listen : ShipConnection → ShipConnection
  pin_check_listen c =
      let (c', err) = receive env c hello_init_timeout in
      if is_ok err
      then pin_listen_evaluate c' (env.deserialize c'.msg)
      else close_with_error env c' "SmePinStateCheckListen: Error receiving SHIP message"
