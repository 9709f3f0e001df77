-- ===== src/Spine/FeatureLocal/Approval.antt =====
-- Write requests to a local feature and their approval: `ProcessWrite`, `FeatureLocalTryApproveWrite`
-- and `FeatureLocalDenyWrite` of src/spine/feature/feature_local.c, `GetMessage` of
-- pending_write_request.c, and `Tick` of pending_write_request_container.c.
use openeebus.Prelude.{
  ℕ, suc, ◌==◌, ltb, if◌then◌else◌, Bool, true, false, Option, none, some, List, [], ◌∷◌, ◌++◌,
  length,
}
use openeebus.Common.Error.{EebusError, is_ok}
use openeebus.Spine.Device.{Feature, is_server, remote_feature}
use openeebus.Spine.Function.{Function, get_function, put_function, update_data, create_notify_cmd}
use openeebus.Spine.Message.{CommandClassifier, Header, Content, Cmd, Message}
use openeebus.Spine.Pending.{tick_loop}
use openeebus.Spine.Pending.Timeout.{silent}
use openeebus.Spine.Pending.Write.{
  PendingWrite, create, add, find, approve, remove, update_remaining_time,
}
use openeebus.Spine.Sender.{result_success, result_error}
use openeebus.Spine.FeatureLocal.{
  FeatureLocal, World, Remote, Environment, Decision, logged, send, remote_with_address, notified,
  published, asked, expired, later, approved, denied,
}

-- `FeatureLocalAddWriteApprovalCallback`.
unfoldable pub add_write_approval_callback : FeatureLocal → ℕ → FeatureLocal × EebusError
add_write_approval_callback fl cb =
    if is_server fl.role
    then (record fl { wr_approval_cbs = fl.wr_approval_cbs ++ cb ∷ [] }, EebusError.ok)
    else (fl, EebusError.no_change)

abbrev pub general_error : ℕ
general_error = 1

abbrev pub timeout_error : ℕ
timeout_error = 2

-- The feature, the world and the error of a call.
abbrev pub Outcome : Type 0
Outcome = FeatureLocal × World × EebusError

-- A NULL command has been refused before.
abbrev pub type_of : Option Cmd → ℕ
type_of none = 0
type_of (some cmd) = cmd.data_choice_type_id

abbrev pub content_of : Option Cmd → Option Content
content_of none = none
content_of (some cmd) = cmd.data_choice

abbrev pub partial_of : Option Cmd → Option ℕ
partial_of none = none
partial_of (some cmd) = cmd.filter_partial

abbrev pub delete_of : Option Cmd → Option ℕ
delete_of none = none
delete_of (some cmd) = cmd.filter_delete

module _ (env : Environment) where
  -- The subscribers are notified, and the event is published.
  abbrev told : FeatureLocal → World → Message → Function → World
  told fl w msg f =
      logged
        (logged w (
          notified fl.address
            (create_notify_cmd f (content_of msg.cmd) (partial_of msg.cmd) (delete_of msg.cmd))))
        (published msg.ski msg.feature_remote.address (type_of msg.cmd) (content_of msg.cmd)
          CommandClassifier.write)

  abbrev updated : FeatureLocal → World → Message → Function × EebusError → Outcome
  updated fl w msg (f, err) =
      let fl' = record fl { functions = put_function fl.functions (type_of msg.cmd) f } in
      if is_ok err then (fl', told fl w msg f, EebusError.ok) else (fl', w, err)

  abbrev write_function : FeatureLocal → World → Message → Option Function → Outcome
  write_function fl w msg none = (fl, w, EebusError.no_change)
  write_function fl w msg (some f) =
      updated fl w msg (
        update_data env.access f (content_of msg.cmd) (partial_of msg.cmd) (delete_of msg.cmd) true)

  -- `ProcessWriteFunctionData`.
  unfoldable pub process_write_function_data : FeatureLocal → World → Message → Outcome
  process_write_function_data fl w msg =
      write_function fl w msg (get_function fl.functions (type_of msg.cmd))

  abbrev pub is_true : Option Bool → Bool
  is_true none = false
  is_true (some b) = b

  -- The answer to a write that was carried out or that failed.
  abbrev answer_write : Message → Header → Outcome → Outcome
  answer_write msg header (fl, w, err) =
      let failure = send w msg.ski (λ s.
        result_error env.printable env.types s (some header) (some fl.address) general_error) in
      let success =
        send w msg.ski
          (λ s. result_success env.printable env.types s (some header) (some fl.address)) in
      (
        fl,
        if is_ok err then (if is_true header.ack_request then success.0 else w) else failure.0,
        EebusError.ok,
      )

  abbrev write_with : FeatureLocal → World → Message → Option Header → Outcome
  write_with fl w msg none = (fl, w, EebusError.invalid)
  write_with fl w msg (some header) = answer_write msg header (process_write_function_data fl w msg)

  -- `ProcessWriteInternal`.
  unfoldable pub process_write_internal : FeatureLocal → World → Message → Outcome
  process_write_internal fl w msg = write_with fl w msg msg.request_header

  abbrev message_from : PendingWrite → Remote → Option Feature → Option Message
  message_from p r none = none
  message_from p r (some f) = some (record {
    request_header = some p.header;
    cmd_classifier = p.cmd_classifier;
    cmd = some p.cmd;
    feature_remote = f;
    ski = r.device.ski;
  })

  abbrev message_of : PendingWrite → Option Remote → Option Message
  message_of p none = none
  message_of p (some r) = message_from p r (remote_feature r.device p.feature_address)

  -- `GetMessage`; `none` is `kEebusErrorNotAvailable`.
  unfoldable pub get_message : World → PendingWrite → Option Message
  get_message w p = message_of p (remote_with_address w.remotes p.feature_address.device)

  abbrev pub with_pending : FeatureLocal → List PendingWrite → FeatureLocal
  with_pending fl items = record fl { pending_write_requests = items }

  abbrev pub removed : List ℕ → ℕ → Outcome → Outcome
  removed ski n (fl, w, err) = (with_pending fl (remove fl.pending_write_requests ski n), w, err)

  -- The write of a request with enough approvals.
  abbrev pub write_approved : FeatureLocal → World → List ℕ → ℕ → Option Message → Outcome
  write_approved fl w ski n none = (fl, w, EebusError.not_available)
  write_approved fl w ski n (some msg) = removed ski n (process_write_internal fl w msg)

  abbrev pub try_found : FeatureLocal → World → List ℕ → ℕ → Option PendingWrite → Outcome
  try_found fl w ski n none = (fl, w, EebusError.no_change)
  try_found fl w ski n (some p) =
      let fl' = with_pending fl (approve fl.pending_write_requests ski n) in
      if ltb (suc p.num_approvals) (length fl.wr_approval_cbs)
      then (fl', w, EebusError.pending)
      else write_approved fl' w ski n (get_message w p)

  abbrev try_with : FeatureLocal → World → Option (List ℕ) → ℕ → Outcome
  try_with fl w none n = (fl, w, EebusError.input_argument)
  try_with fl w (some ski) n = try_found fl w ski n (find fl.pending_write_requests ski n)

  -- `FeatureLocalTryApproveWrite`.
  unfoldable pub try_approve_write : FeatureLocal → World → Option (List ℕ) → ℕ → Outcome
  try_approve_write fl w ski n =
      if is_server fl.role then try_with fl w ski n else (fl, w, EebusError.input_argument)

  abbrev deny_message : FeatureLocal → World → List ℕ → ℕ → ℕ → Option Message → Outcome
  deny_message fl w ski n err none = (fl, w, EebusError.not_available)
  deny_message fl w ski n err (some msg) =
      let sent =
        send w msg.ski
          (λ s. result_error env.printable env.types s msg.request_header (some fl.address) err) in
      removed ski n (fl, sent.0, EebusError.ok)

  abbrev deny_found : FeatureLocal → World → List ℕ → ℕ → ℕ → Option PendingWrite → Outcome
  deny_found fl w ski n err none = (fl, w, EebusError.no_change)
  deny_found fl w ski n err (some p) = deny_message fl w ski n err (get_message w p)

  abbrev deny_with : FeatureLocal → World → Option (List ℕ) → ℕ → Option ℕ → Outcome
  deny_with fl w none n err = (fl, w, EebusError.input_argument)
  deny_with fl w (some ski) n none = (fl, w, EebusError.input_argument)
  deny_with fl w (some ski) n (some err) =
      if err == 0
      then (fl, w, EebusError.input_argument)
      else deny_found fl w ski n err (find fl.pending_write_requests ski n)

  -- `FeatureLocalDenyWrite`; the error may be NULL or the number of no error.
  unfoldable pub deny_write : FeatureLocal → World → Option (List ℕ) → ℕ → Option ℕ → Outcome
  deny_write fl w ski n err =
      if is_server fl.role then deny_with fl w ski n err else (fl, w, EebusError.input_argument)

  abbrev pub counter_of : Option Header → Option ℕ
  counter_of none = none
  counter_of (some h) = h.msg_cnt

  abbrev add_from : FeatureLocal → Message → Option Cmd → Header → ℕ → FeatureLocal
  add_from fl msg none header n = fl
  add_from fl msg (some cmd) header n = with_pending fl (
      add fl.pending_write_requests
        (create msg.ski n msg.cmd_classifier cmd header msg.feature_remote.address))

  abbrev add_counted : FeatureLocal → Message → Header → Option ℕ → FeatureLocal
  add_counted fl msg header none = fl
  add_counted fl msg header (some n) = add_from fl msg msg.cmd header n

  abbrev add_header : FeatureLocal → Message → Option Header → FeatureLocal
  add_header fl msg none = fl
  add_header fl msg (some header) = add_counted fl msg header header.msg_cnt

  -- `Add` of the container with its guards on the message; its error is not looked at.
  unfoldable pub add_request : FeatureLocal → Message → FeatureLocal
  add_request fl msg = add_header fl msg msg.request_header

  abbrev pub first_two : Outcome → FeatureLocal × World
  first_two (fl, w, err) = (fl, w)

  -- What a callback that is asked does; without a number there is no request that it could name.
  abbrev pub act : FeatureLocal → World → Message → Option ℕ → Decision → FeatureLocal × World
  act fl w msg none d = (fl, w)
  act fl w msg (some n) later = (fl, w)
  act fl w msg (some n) approved = first_two (try_approve_write fl w (some msg.ski) n)
  act fl w msg (some n) (denied err) = first_two (deny_write fl w (some msg.ski) n (some err))

  -- `ProcessWriteApprovalCallbacks`.
  unfoldable pub ask : List ℕ → Message → FeatureLocal × World → FeatureLocal × World
  ask [] msg (fl, w) = (fl, w)
  ask (cb ∷ cbs) msg (fl, w) =
      ask cbs msg
        (act fl (logged w (asked cb)) msg (counter_of msg.request_header) (env.decide cb msg))

  abbrev pub ended : FeatureLocal × World → Outcome
  ended (fl, w) = (fl, w, EebusError.ok)

  abbrev pub is_empty : List ℕ → Bool
  is_empty [] = true
  is_empty (_ ∷ _) = false

  -- `ProcessWrite`.
  unfoldable pub process_write : FeatureLocal → World → Message → Outcome
  process_write fl w msg =
      if is_empty fl.wr_approval_cbs
      then process_write_internal fl w msg
      else ended (ask fl.wr_approval_cbs msg (add_request fl msg, w))

  abbrev time_out : FeatureLocal → World → Option Message → World
  time_out fl w none = w
  time_out fl w (some msg) =
      (send w msg.ski (λ s.
        result_error env.printable env.types s msg.request_header (some fl.address)
          timeout_error)).0

  -- The expiry of requests: the peer is told if it can still be found, then the application.
  unfoldable pub expire : FeatureLocal → World → List PendingWrite → World
  expire fl w [] = w
  expire fl w (p ∷ ps) =
      expire fl (logged (time_out fl w (get_message w p)) (expired p.ski p.msg_counter)) ps

  abbrev after_walk :
      FeatureLocal
      → World
      → List PendingWrite × List PendingWrite × List PendingWrite
      → FeatureLocal × World
  after_walk fl w (kept, more, calls) = (with_pending fl kept, expire fl w calls)

  -- `Tick` of the container; the application's callback does nothing to it.
  unfoldable pub tick_writes : FeatureLocal → World → FeatureLocal × World
  tick_writes fl w =
      after_walk fl w
        (tick_loop (λ p. p) silent (λ p. p.time) update_remaining_time fl.pending_write_requests)
