-- ===== src/Spine/Pending/Once.antt =====
-- How often the callback of a request is called: the containers of pending replies and results.
use openeebus.Prelude.{
  ℕ, ◌+◌, ◌≤◌, ◌==◌, if◌then◌else◌, Bool, ◌≡◌, refl, Option, none, some, List, [], ◌∷◌, ◌++◌, arith,
}
use openeebus.Common.Error.{EebusError}
use openeebus.Spine.Message.{ReplyMessage}
use openeebus.Spine.Pending.{count}
use openeebus.Spine.Pending.Laws.{count-append, count-keep, added, tick-count, process-count}
use openeebus.Spine.Pending.Reply.{
  PendingReply, ReplyCall, add, process, tick_all, remove_for_device, remove_for_ski, fire,
  fire_error, update_time, is_device,
}

-- What is done to a container of pending replies.
pub data Operation : Type 0 where
  added_reply : PendingReply → Operation
  processed : ReplyMessage → Operation
  ticked : Operation
  removed_device removed_ski : Option (List ℕ) → Operation

abbrev pub waits : ℕ → PendingReply → Bool
waits k p = p.cb == k

abbrev pub called : ℕ → ReplyCall → Bool
called k c = c.cb == k

-- The requests with a callback among the operations.
unfoldable pub requests : ℕ → List Operation → ℕ
requests k [] = 0
requests k (added_reply p ∷ ops) = (if waits k p then 1 else 0) + requests k ops
requests k (_ ∷ ops) = requests k ops

module _ (again : ReplyCall → List PendingReply) where
  unfoldable pub operate : Operation → List PendingReply → List PendingReply × List ReplyCall
  operate (added_reply p) items = (add items p, [])
  operate (processed m) items = process again items m
  operate ticked items = tick_all again items
  operate (removed_device d) items = (remove_for_device items d, [])
  operate (removed_ski s) items = (remove_for_ski items s, [])

  -- A sequence of operations, with the calls in order.
  unfoldable pub run : List Operation → List PendingReply → List PendingReply × List ReplyCall
  run [] items = (items, [])
  run (op ∷ ops) items =
      let (items', calls) = operate op items in
      let (rest, later) = run ops items' in (rest, calls ++ later)

  module _ (k : ℕ) where
    added-count :
        (es fs : List ReplyCall)
        → count (waits k) (added again (es ++ fs))
          ≡ count (waits k) (added again es) + count (waits k) (added again fs)
    unfolding added count
    added-count [] fs = omega arith
    added-count (e ∷ es) fs = omega (
      arith,
      count-append (waits k) (again e) (added again es),
      count-append (waits k) (again e) (added again (es ++ fs)),
      added-count es fs,
    )

    device-count :
        (items : List PendingReply) (d : Option (List ℕ))
        → count (waits k) (remove_for_device items d) ≤ count (waits k) items
    unfolding remove_for_device
    device-count items none = omega arith
    device-count items (some d) =
        count-keep (waits k) (λ (p : PendingReply). is_device p.remote_feature_addr.device d) items

    ski-count :
        (items : List PendingReply) (s : Option (List ℕ))
        → count (waits k) (remove_for_ski items s) ≤ count (waits k) items
    unfolding remove_for_ski
    ski-count items none = omega arith
    ski-count items (some s) = count-keep (waits k) (λ (p : PendingReply). is_device p.ski s) items

    count-process :
        (m : ReplyMessage) (items : List PendingReply)
        → count (waits k) (process again items m).0 + count (called k) (process again items m).1
          ≡ count (waits k) items + count (waits k) (added again (process again items m).1)
    unfolding process fire
    count-process m items =
        process-count again (fire m) (waits k) (called k) (λ _. refl) (λ p. p.msg_cnt_ref)
          m.msg_cnt_ref items

    count-tick :
        (items : List PendingReply)
        → count (waits k) (tick_all again items).0 + count (called k) (tick_all again items).1
          ≡ count (waits k) items + count (waits k) (added again (tick_all again items).1)
    unfolding tick_all fire_error update_time
    count-tick items =
        tick-count again (fire_error EebusError.time) (waits k) (called k) (λ _. refl) (λ p. p.time)
          update_time (λ _. refl) items

    operate-count :
        (op : Operation) (items : List PendingReply)
        → count (waits k) (operate op items).0 + count (called k) (operate op items).1
          ≤ count (waits k) items
            + requests k (op ∷ [])
            + count (waits k) (added again (operate op items).1)
    unfolding operate requests add count added
    operate-count (added_reply p) items = omega (arith, count-append (waits k) items (p ∷ []))
    operate-count (processed m) items = omega (arith, count-process m items)
    operate-count ticked items = omega (arith, count-tick items)
    operate-count (removed_device d) items = omega (arith, device-count items d)
    operate-count (removed_ski s) items = omega (arith, ski-count items s)

    requests-cons :
        (op : Operation) (ops : List Operation)
        → requests k (op ∷ ops) ≡ requests k (op ∷ []) + requests k ops
    unfolding requests
    requests-cons (added_reply p) ops = omega arith
    requests-cons (processed m) ops = omega arith
    requests-cons ticked ops = omega arith
    requests-cons (removed_device d) ops = omega arith
    requests-cons (removed_ski s) ops = omega arith

    -- In any sequence of additions, replies, ticks and removals, a callback is called and still
    -- awaited at most as often as it was awaited before, requested, or added by the callbacks that
    -- were called: no request is answered twice.
    pub run-count :
        (ops : List Operation) (items : List PendingReply)
        → count (waits k) (run ops items).0 + count (called k) (run ops items).1
          ≤ count (waits k) items + requests k ops + count (waits k) (added again (run ops items).1)
    unfolding run requests added count
    run-count [] items = omega arith
    run-count (op ∷ ops) items = omega (
      arith,
      operate-count op items,
      run-count ops (operate op items).0,
      requests-cons op ops,
      added-count (operate op items).1 (run ops (operate op items).0).1,
      count-append (called k) (operate op items).1 (run ops (operate op items).0).1,
    )
