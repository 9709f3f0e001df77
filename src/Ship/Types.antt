-- ===== src/Ship/Types.antt =====
-- The states and messages of SHIP, src/ship/model/types.h and src/ship/model/model.h, and the
-- constants of src/ship/ship_connection/types.h.
use openeebus.Prelude.{ℕ, Bool, Option, List, ◌∷◌, [], String}

-- `SmeState`, in the order of the enumeration.
pub data SmeState : Type 0 where
  cmi_init_start cmi_client_send cmi_client_wait cmi_client_evaluate : SmeState
  cmi_server_wait cmi_server_evaluate : SmeState
  hello hello_ready_init hello_ready_listen hello_ready_timeout : SmeState
  hello_pending_init hello_pending_listen hello_pending_timeout : SmeState
  hello_ok hello_abort hello_abort_done hello_remote_abort_done hello_rejected : SmeState
  prot_server_init prot_client_init prot_server_listen_proposal : SmeState
  prot_server_listen_confirm prot_client_listen_choice prot_timeout : SmeState
  prot_client_ok prot_server_ok : SmeState
  pin_check_init pin_check_listen pin_check_error pin_check_busy_init : SmeState
  pin_check_busy_wait pin_check_ok : SmeState
  pin_ask_init pin_ask_process pin_ask_restricted_ok pin_ask_ok : SmeState
  access_methods_request approved data_exchange error : SmeState

-- The value of an enumerator.
unfoldable pub value : SmeState → ℕ
value cmi_init_start = 0
value cmi_client_send = 1
value cmi_client_wait = 2
value cmi_client_evaluate = 3
value cmi_server_wait = 4
value cmi_server_evaluate = 5
value hello = 6
value hello_ready_init = 7
value hello_ready_listen = 8
value hello_ready_timeout = 9
value hello_pending_init = 10
value hello_pending_listen = 11
value hello_pending_timeout = 12
value hello_ok = 13
value hello_abort = 14
value hello_abort_done = 15
value hello_remote_abort_done = 16
value hello_rejected = 17
value prot_server_init = 18
value prot_client_init = 19
value prot_server_listen_proposal = 20
value prot_server_listen_confirm = 21
value prot_client_listen_choice = 22
value prot_timeout = 23
value prot_client_ok = 24
value prot_server_ok = 25
value pin_check_init = 26
value pin_check_listen = 27
value pin_check_error = 28
value pin_check_busy_init = 29
value pin_check_busy_wait = 30
value pin_check_ok = 31
value pin_ask_init = 32
value pin_ask_process = 33
value pin_ask_restricted_ok = 34
value pin_ask_ok = 35
value access_methods_request = 36
value approved = 37
value data_exchange = 38
value error = 39

pub data ShipRole : Type 0 where
  server client auto : ShipRole

-- `ConnectionHelloPhase`; a value that is none of the three is `unknown`.
pub data HelloPhase : Type 0 where
  pending ready aborted unknown : HelloPhase

pub record ConnectionHello : Type 0 where
  pub phase : HelloPhase
  pub waiting : Option ℕ
  pub prolongation_request : Option Bool

pub data FormatType : Type 0 where
  utf8 utf16 : FormatType

pub data HandshakeType : Type 0 where
  announce_max select : HandshakeType

-- `formats` holds the `format_size` entries in use.
pub record ProtocolHandshake : Type 0 where
  pub handshake_type : HandshakeType
  pub major : ℕ
  pub minor : ℕ
  pub formats : List FormatType

pub data ProtocolHandshakeError : Type 0 where
  rfu timeout unexpected_message selection_mismatch : ProtocolHandshakeError

pub data PinStateType : Type 0 where
  required optional pin_ok no_pin invalid_pin : PinStateType

pub data PinInputPermission : Type 0 where
  busy permitted other : PinInputPermission

pub record ConnectionPinState : Type 0 where
  pub pin_state : PinStateType
  pub input_permission : Option PinInputPermission

pub record AccessMethods : Type 0 where
  pub id : Option (List ℕ)

pub data ClosePhase : Type 0 where
  announce confirm other_phase : ClosePhase

-- What the deserializer makes of a buffer: the value type, and the value unless it is NULL.
pub data Deserialized : Type 0 where
  undefined : Deserialized
  sme_hello : Option ConnectionHello → Deserialized
  sme_protocol_handshake : Option ProtocolHandshake → Deserialized
  sme_protocol_handshake_error : Deserialized
  sme_pin_state : Option ConnectionPinState → Deserialized
  sme_pin_input : Deserialized
  sme_pin_error : Deserialized
  sme_data : Option (List ℕ) → Deserialized
  sme_access_methods_request : Deserialized
  sme_access_methods : Option AccessMethods → Deserialized
  sme_close : Option ClosePhase → Deserialized

-- The messages that the connection serializes and sends.
pub data ShipMessage : Type 0 where
  send_hello : ConnectionHello → ShipMessage
  send_handshake : ProtocolHandshake → ShipMessage
  send_handshake_error : ProtocolHandshakeError → ShipMessage
  send_pin_state : ConnectionPinState → ShipMessage
  send_data : List ℕ → ShipMessage
  send_access_methods_request : ShipMessage
  send_access_methods : List ℕ → ShipMessage
  send_close : ClosePhase → Option String → ShipMessage

-- The timeouts in milliseconds.
abbrev pub cmi_timeout : ℕ
cmi_timeout = 10000

abbrev pub hello_init_timeout : ℕ
hello_init_timeout = 60000

abbrev pub hello_inc : ℕ
hello_inc = 60000

abbrev pub hello_prolong_thr_inc : ℕ
hello_prolong_thr_inc = 30000

abbrev pub hello_prolong_waiting_gap : ℕ
hello_prolong_waiting_gap = 15000

abbrev pub hello_prolong_min : ℕ
hello_prolong_min = 1000

-- `SHIP_PROTOCOL_MAX_SUPPORTED_MAJOR_VERSION` and its minor version.
abbrev pub max_major : ℕ
max_major = 1

abbrev pub max_minor : ℕ
max_minor = 0

-- `kShipInitMessage`.
abbrev pub ship_init_message : List ℕ
ship_init_message = 0 ∷ 0 ∷ []
