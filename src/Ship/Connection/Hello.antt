-- ===== src/Ship/Connection/Hello.antt =====
-- The "hello" phase of the handshake, SHIP 13.4.4.1, in
-- src/ship/ship_connection/ship_connection.c.
use openeebus.Prelude.{
  ℕ, ◌+◌, ◌-◌, ◌*◌, ◌/◌, ◌%◌, ◌^◌, ◌==◌, ltb, leb, if◌then◌else◌, Bool, true, false, ◌||◌, Option,
  none, some, ◌∷◌,
}
use openeebus.Common.Error.{EebusError, is_ok}
use openeebus.Common.Timer.{TimerState, get_remaining_time}
use openeebus.Ship.Types.{
  SmeState, HelloPhase, ConnectionHello, Deserialized, send_hello, hello_init_timeout, hello_inc,
  hello_prolong_thr_inc, hello_prolong_waiting_gap, hello_prolong_min,
}
use openeebus.Ship.Connection.{
  ShipConnection, Environment, Event, TrustDecision, set_sme_state, release_msg,
  stop_wait_for_ready, stop_send_prolongation, stop_prolongation_reply, start_wait_for_ready,
  start_send_prolongation, start_prolongation_reply, serialize_and_send, close_with_error, receive,
}

abbrev pub is_expired : TimerState → Bool
is_expired TimerState.expired = true
is_expired _ = false

abbrev is_running : TimerState → Bool
is_running TimerState.running = true
is_running _ = false

abbrev u32 : ℕ → ℕ
u32 n = n % 2 ^ 32

module _ (env : Environment) where
  -- `SmeHelloStateSendHelloMsg`: a wait of 0 and a false prolongation are left out.
  unfoldable pub send_hello_msg :
      ShipConnection → HelloPhase → ℕ → Bool → ShipConnection × EebusError
  send_hello_msg c phase wait_duration prolongation = serialize_and_send env c (
      send_hello (record {
        phase = phase;
        waiting = if ltb 0 wait_duration then some wait_duration else none;
        prolongation_request = if prolongation then some true else none;
      }))

  -- `SmeHelloStateReadyInit`.
  unfoldable pub hello_ready_init : ShipConnection → ShipConnection
  hello_ready_init c =
      let stopped = stop_prolongation_reply (stop_send_prolongation c) in
      let (c', err) = send_hello_msg stopped HelloPhase.ready hello_init_timeout false in
      if is_ok err
      then if c'.remote_hello_ready
        then set_sme_state c' SmeState.hello_ok
        else set_sme_state c' SmeState.hello_ready_listen
      else set_sme_state c' SmeState.hello_abort

  -- `SmeHelloStateCommonUpdateHelloMessageSendProcedure`.
  unfoldable pub update_hello : ShipConnection → ConnectionHello → ShipConnection
  update_hello c msg =
      let remaining_time =
        if is_running c.wait_for_ready_timer.timer_state
        then get_remaining_time (env.now c.log) c.wait_for_ready_timer
        else 0 in
      let (c', err) = send_hello_msg c msg.phase remaining_time false in
      if is_ok err then c' else set_sme_state c' SmeState.hello_abort

  abbrev pub prolong : ShipConnection → ConnectionHello → Option Bool → ShipConnection
  prolong c msg (some true) =
      let remaining_time =
        u32 (get_remaining_time (env.now c.log) c.wait_for_ready_timer + hello_inc) in
      update_hello (start_wait_for_ready env c remaining_time) msg
  prolong c msg (some false) = c
  prolong c msg none = c

  -- `SmeHelloStateCommonProlongationRequestAndUpdateMessageSendProcedure`.
  unfoldable pub prolongation_request : ShipConnection → ConnectionHello → ShipConnection
  prolongation_request c msg = prolong c msg msg.prolongation_request

  -- `SmeHelloStateAbort`.
  unfoldable pub hello_abort : ShipConnection → ShipConnection
  hello_abort c =
      close_with_error env (send_hello_msg c HelloPhase.aborted 0 false).0
        "SME Hello state connection aborted"

  abbrev pub ready_phase : ShipConnection → ConnectionHello → HelloPhase → ShipConnection
  ready_phase c msg HelloPhase.ready = set_sme_state c SmeState.hello_ok
  ready_phase c msg HelloPhase.pending = prolongation_request c msg
  ready_phase c msg HelloPhase.aborted = set_sme_state c SmeState.hello_abort
  ready_phase c msg HelloPhase.unknown = set_sme_state c SmeState.hello_abort

  -- `SmeHelloReadyStateEvaluateReceivedHelloMessage`.
  unfoldable pub hello_ready_evaluate : ShipConnection → Deserialized → ShipConnection
  hello_ready_evaluate c (Deserialized.sme_hello none) = release_msg (hello_abort c)
  hello_ready_evaluate c (Deserialized.sme_hello (some msg)) =
      release_msg (ready_phase c msg msg.phase)
  hello_ready_evaluate c _ = release_msg (set_sme_state c SmeState.hello_abort)

  abbrev pub ready_received : ShipConnection → EebusError → ShipConnection
  ready_received c EebusError.ok = hello_ready_evaluate c (env.deserialize c.msg)
  ready_received c EebusError.time = set_sme_state c SmeState.hello_ready_timeout
  ready_received c _ = set_sme_state c SmeState.hello_abort

  -- `SmeHelloStateReadyListen`.
  unfoldable pub hello_ready_listen : ShipConnection → ShipConnection
  hello_ready_listen c = let (c', err) = receive env c hello_init_timeout in ready_received c' err

  -- `SmeHelloStatePendingInit`.
  unfoldable pub hello_pending_init : ShipConnection → ShipConnection
  hello_pending_init c =
      let stopped = stop_prolongation_reply (stop_send_prolongation c) in
      let (c', err) = send_hello_msg stopped HelloPhase.pending hello_init_timeout false in
      if is_ok err
      then set_sme_state c' SmeState.hello_pending_listen
      else set_sme_state c' SmeState.hello_abort

  -- `SmeHelloCalculateNewWaitValueAndSetTimer`.
  unfoldable pub new_wait_value : ShipConnection → ℕ → ShipConnection
  new_wait_value c waiting =
      let noted = record c { last_received_waiting_value = waiting } in
      let new_wait_duration = waiting - hello_prolong_waiting_gap in
      if leb hello_prolong_thr_inc waiting
      then if leb hello_prolong_min new_wait_duration
        then start_send_prolongation env noted new_wait_duration
        else stop_send_prolongation noted
      else stop_send_prolongation noted

  abbrev pub wait_or_prolong :
      ShipConnection → ConnectionHello → Option ℕ → Option Bool → ShipConnection
  wait_or_prolong c msg (some waiting) none = new_wait_value (stop_prolongation_reply c) waiting
  wait_or_prolong c msg _ _ = prolongation_request c msg

  -- `SmeHelloStateCheckWaitAndProlongationRequestSubelements`.
  unfoldable pub check_wait_and_prolongation : ShipConnection → ConnectionHello → ShipConnection
  check_wait_and_prolongation c msg = wait_or_prolong c msg msg.waiting msg.prolongation_request

  abbrev pub wait_or_abort : ShipConnection → Option ℕ → ShipConnection
  wait_or_abort c none = set_sme_state c SmeState.hello_abort
  wait_or_abort c (some waiting) =
      new_wait_value (stop_prolongation_reply (stop_wait_for_ready c)) waiting

  -- `SmeHelloStateCheckWaitingSubelement`.
  unfoldable pub check_waiting : ShipConnection → ConnectionHello → ShipConnection
  check_waiting c msg = wait_or_abort c msg.waiting

  abbrev pub pending_phase : ShipConnection → ConnectionHello → HelloPhase → ShipConnection
  pending_phase c msg HelloPhase.ready = check_waiting (record c { remote_hello_ready = true }) msg
  pending_phase c msg HelloPhase.pending = check_wait_and_prolongation c msg
  pending_phase c msg HelloPhase.aborted = set_sme_state c SmeState.hello_abort
  pending_phase c msg HelloPhase.unknown = set_sme_state c SmeState.hello_abort

  -- `SmeHelloPendingStateEvaluateReceivedHelloMessage`.
  unfoldable pub hello_pending_evaluate : ShipConnection → Deserialized → ShipConnection
  hello_pending_evaluate c (Deserialized.sme_hello none) = release_msg (hello_abort c)
  hello_pending_evaluate c (Deserialized.sme_hello (some msg)) =
      release_msg (pending_phase c msg msg.phase)
  hello_pending_evaluate c _ = release_msg (set_sme_state c SmeState.hello_abort)

  -- The acceptance of a granted decision: by the callback, or of the token 0 without one.
  unfoldable pub accept_decision : ShipConnection → ℕ → Option ℕ → ShipConnection × Bool
  accept_decision c approval_id none =
      let answer = approval_id == 0 in
      (record c { log = Event.accept_answer approval_id answer ∷ c.log }, answer)
  accept_decision c approval_id (some cb) =
      let answer = env.accept c.log cb approval_id in
      (record c { log = Event.accept_answer approval_id answer ∷ c.log }, answer)

  abbrev pub decision_taken : ShipConnection → TrustDecision → ℕ → Option ℕ → ShipConnection
  decision_taken c TrustDecision.granted approval_id accept_cb =
      let (c', accepted) = accept_decision c approval_id accept_cb in
      if accepted
      then set_sme_state (stop_prolongation_reply (stop_send_prolongation c'))
          SmeState.hello_ready_init
      else set_sme_state c' SmeState.hello_abort
  decision_taken c _ approval_id accept_cb = set_sme_state c SmeState.hello_abort

  abbrev pub pending_received : ShipConnection → EebusError → ShipConnection
  pending_received c EebusError.ok = hello_pending_evaluate c (env.deserialize c.msg)
  pending_received c EebusError.no_change =
      let reset = record c {
        trust_decision = TrustDecision.undecided;
        trust_decision_id = 0;
        trust_accept_cb = none;
      } in
      decision_taken reset c.trust_decision c.trust_decision_id c.trust_accept_cb
  pending_received c EebusError.time = set_sme_state c SmeState.hello_pending_timeout
  pending_received c _ = set_sme_state c SmeState.hello_abort

  -- `SmeHelloStatePendingListen`.
  unfoldable pub hello_pending_listen : ShipConnection → ShipConnection
  hello_pending_listen c =
      let (c', err) = receive env c hello_init_timeout in pending_received c' err

  -- The wait for the answer to a prolongation request, in `SmeHelloStatePendingTimeout`: a missing
  -- waiting value is estimated, as the product with 1.1 rounded down.
  unfoldable pub await_reply : ShipConnection → ShipConnection
  await_reply c =
      let remaining_time = get_remaining_time (env.now c.log) c.prolongation_request_reply_timer in
      let waited =
        if c.last_received_waiting_value == 0
        then u32 (remaining_time * 11 / 10)
        else c.last_received_waiting_value in
      start_prolongation_reply env (record c { last_received_waiting_value = waited }) waited

  -- `SmeHelloStatePendingTimeout`.
  unfoldable pub hello_pending_timeout : ShipConnection → ShipConnection
  hello_pending_timeout c =
      let (c', err) = send_hello_msg c HelloPhase.pending 0 true in
      if is_expired c.wait_for_ready_timer.timer_state
        || is_expired c.prolongation_request_reply_timer.timer_state
      then set_sme_state c SmeState.hello_abort
      else if is_expired c.send_prolongation_request_timer.timer_state
      then if is_ok err
        then set_sme_state (await_reply c') SmeState.hello_pending_listen
        else close_with_error env c' "Error sending hello message"
      else c
