-- ===== src/Spine/FeatureLocal/Exchange.antt =====
-- The messages of a local feature, src/spine/feature/feature_local.c: those that it handles and those
-- by which it reads and writes remote features. Of feature_remote.c there is the update of the data.
use openeebus.Prelude.{
  ℕ, ◌==◌, if◌then◌else◌, Bool, true, false, Option, none, some, List, [], ◌∷◌, ◌++◌, is_some,
}
use openeebus.Common.Error.{EebusError, is_ok}
use openeebus.Spine.Address.{FeatureAddress, compare}
use openeebus.Spine.Device.{RoleType}
use openeebus.Spine.Function.{
  Function, Operations, get_function, put_function, update_data, create_reply_cmd,
}
use openeebus.Spine.Message.{CommandClassifier, Header, Content, Cmd, Message}
use openeebus.Spine.Pending.Reply
use openeebus.Spine.Pending.Reply.{ReplyCall, PendingReply}
use openeebus.Spine.Pending.Result
use openeebus.Spine.Pending.Result.{ResultCall, PendingResult}
use openeebus.Spine.Sender.{Sender, Sent, reply}
use openeebus.Spine.FeatureLocal.{
  FeatureLocal, World, Cache, Effect, Environment, logged, sent_by, sender_of, published, replied,
  resulted,
}
use openeebus.Spine.FeatureLocal.Approval.{
  Outcome, process_write, type_of, content_of, partial_of, delete_of,
}

abbrev pub functions_of : List Cache → FeatureAddress → List Function
functions_of [] a = []
functions_of (c ∷ cs) a =
    let rest = functions_of cs a in if compare c.address a then c.functions else rest

abbrev pub put_functions : List Cache → FeatureAddress → List Function → List Cache
put_functions [] a fs = []
put_functions (c ∷ cs) a fs =
    if compare c.address a then record c { functions = fs } ∷ cs else c ∷ put_functions cs a fs

-- `FeatureRemoteGetData`; `none` is NULL.
abbrev content_in : Option Function → Option Content
content_in none = none
content_in (some f) = some (Content.function_data f.content)

unfoldable pub remote_data : World → FeatureAddress → ℕ → Option Content
remote_data w a t = content_in (get_function (functions_of w.caches a) t)

abbrev operations_in : Option Function → Option Operations
operations_in none = none
operations_in (some f) = f.operations

-- `FeatureGetFunctionOperations` of a remote feature.
unfoldable pub remote_operations : World → FeatureAddress → ℕ → Option Operations
remote_operations w a t = operations_in (get_function (functions_of w.caches a) t)

-- The outcome of sending, with the number of the message.
abbrev sending_counted :
    World → List ℕ → Option Sender → (Sender → Sent) → World × EebusError × Option ℕ
sending_counted w ski none f = (w, EebusError.init, none)
sending_counted w ski (some s) f = (sent_by w ski (f s), (f s).error, (f s).msg_cnt)

unfoldable pub send_counted : World → List ℕ → (Sender → Sent) → World × EebusError × Option ℕ
send_counted w ski f = sending_counted w ski (sender_of w.remotes ski) f

abbrev pub replied_all : List ReplyCall → List Effect
replied_all [] = []
replied_all (c ∷ cs) = replied c ∷ replied_all cs

abbrev pub resulted_all : List ResultCall → List Effect
resulted_all [] = []
resulted_all (c ∷ cs) = resulted c ∷ resulted_all cs

module _ (env : Environment) where
  abbrev put_updated : World → FeatureAddress → ℕ → Function × EebusError → World × EebusError
  put_updated w a t (f, err) = (
    record w { caches = put_functions w.caches a (put_function (functions_of w.caches a) t f) },
    err,
  )

  abbrev update_in :
      World
      → FeatureAddress
      → ℕ
      → Option Content
      → Option ℕ
      → Option ℕ
      → Bool
      → Option Function
      → World × EebusError
  update_in w a t new partial delete persist none = (w, EebusError.input_argument)
  update_in w a t new partial delete persist (some f) =
      put_updated w a t (update_data env.access f new partial delete persist)

  -- `FeatureRemoteUpdateData`.
  unfoldable pub update_remote_data :
      World → FeatureAddress → ℕ → Option Content → Option ℕ → Option ℕ → Bool → World × EebusError
  update_remote_data w a t new partial delete persist =
      update_in w a t new partial delete persist (get_function (functions_of w.caches a) t)

  abbrev pub update_from : World → Message → CommandClassifier → World × EebusError
  update_from w msg classifier =
      let (w', err) =
        update_remote_data w msg.feature_remote.address (type_of msg.cmd) (content_of msg.cmd)
          (partial_of msg.cmd) (delete_of msg.cmd) true in
      if is_ok err
      then (
        logged w' (
            published msg.ski msg.feature_remote.address (type_of msg.cmd) (content_of msg.cmd)
              classifier),
        err,
      )
      else (w', err)

  -- `ProcessNotify`.
  unfoldable pub process_notify : FeatureLocal → World → Message → Outcome
  process_notify fl w msg =
      let (w', err) = update_from w msg CommandClassifier.notify in (fl, w', err)

  abbrev pub reference_of : Option Header → Option ℕ
  reference_of none = none
  reference_of (some h) = h.msg_cnt_ref

  abbrev replies_processed : FeatureLocal → World → List PendingReply × List ReplyCall → Outcome
  replies_processed fl w (items, calls) = (
    record fl { pending_replies = items },
    record w { log = w.log ++ replied_all calls },
    EebusError.ok,
  )

  -- The pending replies for a message are processed, with the SKI that the reply message names.
  abbrev pub answer_reply : FeatureLocal → World → Message → Option (List ℕ) → Option ℕ → Outcome
  answer_reply fl w msg ski none = (fl, w, EebusError.ok)
  answer_reply fl w msg ski (some n) = replies_processed fl w (
      Reply.process env.again_reply fl.pending_replies (record {
        msg_cnt_ref = n;
        function_data = content_of msg.cmd;
        function_type = type_of msg.cmd;
        feature_remote = some msg.feature_remote;
        ski = ski;
      }))

  abbrev pub reply_after : FeatureLocal → Message → World × EebusError → Outcome
  reply_after fl msg (w, err) =
      if is_ok err
      then answer_reply fl w msg none (reference_of msg.request_header)
      else (fl, w, err)

  -- `ProcessReply`.
  unfoldable pub process_reply : FeatureLocal → World → Message → Outcome
  process_reply fl w msg = reply_after fl msg (update_from w msg CommandClassifier.reply)

  abbrev results_processed : FeatureLocal → World → List PendingResult × List ResultCall → Outcome
  results_processed fl w (items, calls) = (
    record fl { pending_results = items },
    record w { log = w.log ++ resulted_all calls },
    EebusError.ok,
  )

  abbrev answer_result : FeatureLocal → World → Message → ℕ → Option ℕ → Outcome
  answer_result fl w msg err none = (fl, w, EebusError.ok)
  answer_result fl w msg err (some n) = results_processed fl w (
      Result.process env.again_result fl.pending_results (record {
        msg_cnt_ref = n;
        function_type = 0;
        result_data = some err;
        feature_remote = some msg.feature_remote;
      }))

  -- Content of another kind has no error number.
  abbrev error_in : Option Content → Option ℕ
  error_in (some (Content.result_data err)) = err
  error_in _ = none

  abbrev result_with : FeatureLocal → World → Message → Option ℕ → Outcome
  result_with fl w msg none = (fl, w, EebusError.not_implemented)
  result_with fl w msg (some err) = answer_result fl w msg err (reference_of msg.request_header)

  -- `FeatureLocalProcessResult`.
  unfoldable pub process_result : FeatureLocal → World → Message → Outcome
  process_result fl w msg =
      if type_of msg.cmd == env.types.result_data_type
      then result_with fl w msg (error_in (content_of msg.cmd))
      else (fl, w, EebusError.input_argument)

  abbrev reply_sent : FeatureLocal → World → List ℕ → Option Sent → Option Outcome
  reply_sent fl w ski none = none
  reply_sent fl w ski (some sent) = some (fl, sent_by w ski sent, sent.error)

  abbrev reply_by : FeatureLocal → World → Message → Cmd → Option Sender → Option Outcome
  reply_by fl w msg cmd none = some (fl, w, EebusError.init)
  reply_by fl w msg cmd (some s) =
      reply_sent fl w msg.ski
        (reply env.printable s msg.request_header (some fl.address) (some cmd))

  -- `SEND_REPLY(MessageGetSender(msg), …)`.
  abbrev pub send_reply : FeatureLocal → World → Message → Cmd → Option Outcome
  send_reply fl w msg cmd = reply_by fl w msg cmd (sender_of w.remotes msg.ski)

  abbrev pub read_with : FeatureLocal → World → Message → Option Function → Option Outcome
  read_with fl w msg none = some (fl, w, EebusError.no_change)
  read_with fl w msg (some f) = send_reply fl w msg (create_reply_cmd f)

  abbrev is_client : RoleType → Bool
  is_client RoleType.client = true
  is_client _ = false

  -- `ProcessRead`; `none` is the read through a NULL pointer in `Reply`.
  unfoldable pub process_read : FeatureLocal → World → Message → Option Outcome
  process_read fl w msg =
      if is_client fl.role
      then some (fl, w, EebusError.no_change)
      else read_with fl w msg (get_function fl.functions (type_of msg.cmd))

  abbrev dispatch : FeatureLocal → World → Message → CommandClassifier → Option Outcome
  dispatch fl w msg CommandClassifier.result = some (process_result fl w msg)
  dispatch fl w msg CommandClassifier.read = process_read fl w msg
  dispatch fl w msg CommandClassifier.reply = some (process_reply fl w msg)
  dispatch fl w msg CommandClassifier.notify = some (process_notify fl w msg)
  dispatch fl w msg CommandClassifier.write = some (process_write env fl w msg)
  dispatch fl w msg CommandClassifier.call = some (fl, w, EebusError.not_implemented)

  -- `HandleMessage` of a message that is not NULL.
  unfoldable pub handle_message : FeatureLocal → World → Message → Option Outcome
  handle_message fl w msg =
      if is_some (content_of msg.cmd)
      then dispatch fl w msg msg.cmd_classifier
      else some (fl, w, EebusError.input_argument_null)
