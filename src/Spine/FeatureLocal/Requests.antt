-- ===== src/Spine/FeatureLocal/Requests.antt =====
-- What a local feature sends by itself, src/spine/feature/feature_local.c: reads and writes of remote
-- features, updates of its own data, and its tick.
use openeebus.Prelude.{ℕ, if◌then◌else◌, Bool, true, false, ◌&&◌, Option, none, some, List, ◌++◌}
use openeebus.Common.Error.{EebusError, is_ok}
use openeebus.Spine.Device.{Feature}
use openeebus.Spine.Function.{
  Function, Operations, get_function, put_function, update_data, create_read_cmd, create_notify_cmd,
}
use openeebus.Spine.Message.{Content, Cmd}
use openeebus.Spine.Pending.Reply
use openeebus.Spine.Pending.Reply.{ReplyCall, PendingReply}
use openeebus.Spine.Pending.Result
use openeebus.Spine.Pending.Result.{ResultCall, PendingResult}
use openeebus.Spine.Sender.{Sender, read, write}
use openeebus.Spine.FeatureLocal.{FeatureLocal, World, Environment, logged, notified, sender_of}
use openeebus.Spine.FeatureLocal.Approval.{Outcome, tick_writes}
use openeebus.Spine.FeatureLocal.Exchange.{
  remote_operations, remote_data, update_remote_data, send_counted, replied_all, resulted_all,
}

module _ (env : Environment) where
  abbrev updated_own :
      FeatureLocal → World → Option Content → Option ℕ → Option ℕ → Function × EebusError → Outcome
  updated_own fl w new partial delete (f, err) =
      let fl' = record fl { functions = put_function fl.functions f.function_type f } in
      if is_ok err
      then (
        fl',
        logged w (notified fl.address (create_notify_cmd f new partial delete)),
        EebusError.ok,
      )
      else (fl', w, err)

  abbrev update_own :
      FeatureLocal → World → Option Content → Option ℕ → Option ℕ → Option Function → Outcome
  update_own fl w new partial delete none = (fl, w, EebusError.no_change)
  update_own fl w new partial delete (some f) =
      updated_own fl w new partial delete (update_data env.access f new partial delete true)

  -- `FeatureLocalUpdateData`.
  unfoldable pub update_local_data :
      FeatureLocal → World → ℕ → Option Content → Option ℕ → Option ℕ → Outcome
  update_local_data fl w t new partial delete =
      update_own fl w new partial delete (get_function fl.functions t)

  -- The filter of `FeatureLocalReadFromRemote`: only with selectors, and if the remote feature reads
  -- and writes partially.
  abbrev read_filter : Operations → Option ℕ → Option ℕ
  read_filter ops none = none
  read_filter ops (some selectors) =
      if ops.read_partial && ops.write_partial then some selectors else none

  abbrev add_reply : FeatureLocal → World → Feature → ℕ → Option ℕ → EebusError → Option ℕ → Outcome
  add_reply fl w dest t none err cnt = (fl, w, err)
  add_reply fl w dest t (some cb) err none = (fl, w, err)
  add_reply fl w dest t (some cb) err (some n) =
      if is_ok err
      then (
        record fl {
          pending_replies = Reply.add fl.pending_replies (Reply.create n dest.address t none cb);
        },
        w,
        err,
      )
      else (fl, w, err)

  abbrev read_requested :
      FeatureLocal → Feature → ℕ → Option ℕ → World × EebusError × Option ℕ → Outcome
  read_requested fl dest t cb (w, err, cnt) = add_reply fl w dest t cb err cnt

  -- `FeatureLocalRequestRemoteData` and the pending reply.
  abbrev request_read :
      FeatureLocal → World → List ℕ → Feature → ℕ → Option ℕ → Option ℕ → Option Function → Outcome
  request_read fl w ski dest t filter cb none = (fl, w, EebusError.no_change)
  request_read fl w ski dest t filter cb (some f) = read_requested fl dest t cb (
      send_counted w ski (λ s.
        read env.printable s (some fl.address) (some dest.address)
          (some (create_read_cmd f filter))))

  abbrev read_allowed :
      FeatureLocal
      → World
      → List ℕ
      → Feature
      → ℕ
      → Option ℕ
      → Option ℕ
      → Option Operations
      → Outcome
  read_allowed fl w ski dest t selectors cb none = (fl, w, EebusError.no_change)
  read_allowed fl w ski dest t selectors cb (some ops) =
      if ops.read
      then request_read fl w ski dest t (read_filter ops selectors) cb (get_function fl.functions t)
      else (fl, w, EebusError.no_change)

  abbrev read_to :
      FeatureLocal → World → List ℕ → Option Feature → ℕ → Option ℕ → Option ℕ → Outcome
  read_to fl w ski none t selectors cb = (fl, w, EebusError.no_change)
  read_to fl w ski (some dest) t selectors cb =
      read_allowed fl w ski dest t selectors cb (remote_operations w dest.address t)

  -- `FeatureLocalReadFromRemote` of the device with an SKI; the destination and the callback may be
  -- NULL. The elements of the filter are left out.
  unfoldable pub read_from_remote :
      FeatureLocal → World → List ℕ → Option Feature → ℕ → Option ℕ → Option ℕ → Outcome
  read_from_remote fl w ski dest t selectors cb = read_to fl w ski dest t selectors cb

  abbrev add_result :
      FeatureLocal → World → Feature → ℕ → Option ℕ → EebusError → Option ℕ → Outcome
  add_result fl w dest t none err cnt = (fl, w, err)
  add_result fl w dest t (some cb) err none = (fl, w, err)
  add_result fl w dest t (some cb) err (some n) =
      if is_ok err
      then (
        record fl {
          pending_results = Result.add fl.pending_results (Result.create n t dest.address cb);
        },
        w,
        err,
      )
      else (fl, w, err)

  abbrev write_requested :
      FeatureLocal → Feature → ℕ → Option ℕ → World × EebusError × Option ℕ → Outcome
  write_requested fl dest t cb (w, err, cnt) = add_result fl w dest t cb err cnt

  abbrev pub send_write : FeatureLocal → World → List ℕ → Feature → ℕ → Option ℕ → Cmd → Outcome
  send_write fl w ski dest t cb cmd = write_requested fl dest t cb (
      send_counted w ski
        (λ s. write env.printable s (some fl.address) (some dest.address) (some cmd)))

  -- Without partial writes: the remote data is updated without `persist`, and then sent.
  abbrev write_whole : FeatureLocal → List ℕ → Feature → ℕ → Option ℕ → World × EebusError → Outcome
  write_whole fl ski dest t cb (w, err) =
      if is_ok err
      then send_write fl w ski dest t cb (record {
        data_choice = remote_data w dest.address t;
        data_choice_type_id = t;
        filter_partial = none;
        filter_delete = none;
      })
      else (fl, w, err)

  abbrev or_default : Option ℕ → ℕ → ℕ
  or_default none d = d
  or_default (some f) d = f

  abbrev pub writes_partial : Option Operations → Bool
  writes_partial none = false
  writes_partial (some ops) = ops.write_partial

  -- The sender of the destination's device is tested before anything is updated.
  abbrev pub with_sender : FeatureLocal → World → Option Sender → Outcome → Outcome
  with_sender fl w none written = (fl, w, EebusError.init)
  with_sender fl w (some s) written = written

  abbrev write_data :
      FeatureLocal
      → World
      → List ℕ
      → Feature
      → ℕ
      → Option Content
      → Option ℕ
      → Option ℕ
      → Option ℕ
      → ℕ
      → Outcome
  write_data fl w ski dest t none partial delete cb d = (fl, w, EebusError.input_argument_null)
  write_data fl w ski dest t (some new) partial delete cb d =
      with_sender fl w (sender_of w.remotes ski) (
        if writes_partial (remote_operations w dest.address t)
        then send_write fl w ski dest t cb (record {
          data_choice = some new;
          data_choice_type_id = t;
          filter_partial = some (or_default partial d);
          filter_delete = delete;
        })
        else write_whole fl ski dest t cb
            (update_remote_data env w dest.address t (some new) none none false))

  -- `FeatureLocalWriteToRemote` of the device with an SKI, `d` being the default partial filter.
  unfoldable pub write_to_remote :
      FeatureLocal
      → World
      → List ℕ
      → Feature
      → ℕ
      → Option Content
      → Option ℕ
      → Option ℕ
      → Option ℕ
      → ℕ
      → Outcome
  write_to_remote fl w ski dest t new partial delete cb d =
      write_data fl w ski dest t new partial delete cb d

  abbrev ticked_replies :
      FeatureLocal → World → List PendingReply × List ReplyCall → FeatureLocal × World
  ticked_replies fl w (items, calls) =
      (record fl { pending_replies = items }, record w { log = w.log ++ replied_all calls })

  abbrev ticked_results :
      FeatureLocal → World → List PendingResult × List ResultCall → FeatureLocal × World
  ticked_results fl w (items, calls) =
      (record fl { pending_results = items }, record w { log = w.log ++ resulted_all calls })

  -- `FeatureLocalTick`.
  unfoldable pub tick : FeatureLocal → World → FeatureLocal × World
  tick fl w =
      let (fl1, w1) = tick_writes env fl w in
      let (fl2, w2) = ticked_replies fl1 w1 (Reply.tick_all env.again_reply fl1.pending_replies) in
      ticked_results fl2 w2 (Result.tick_all env.again_result fl2.pending_results)
