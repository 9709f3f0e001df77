-- ===== src/Spine/Pending/Tests.antt =====
-- Containers of pending replies.
use openeebus.Prelude.{◌+◌, ◌≤◌, ◌≡◌, refl, none, some, List, [], ◌∷◌}
use openeebus.Spine.Address.{FeatureAddress}
use openeebus.Spine.Message.{ReplyMessage}
use openeebus.Spine.Pending.{count, process_loop}
use openeebus.Spine.Pending.Laws.{added}
use openeebus.Spine.Pending.Timeout.{silent}
use openeebus.Spine.Pending.Reply.{PendingReply, create, process, fire}
use openeebus.Spine.Pending.Once.{Operation, operate, run, requests, waits, called, run-count}

abbrev remote : FeatureAddress
remote = record { device = some (2 ∷ []); entity = 1 ∷ []; feature = some 4 }

abbrev two_reads : List PendingReply
two_reads = create 1 remote 30 none 7 ∷ create 2 remote 31 none 8 ∷ []

abbrev answer : ReplyMessage
answer = record {
  msg_cnt_ref = 2;
  function_data = none;
  function_type = 31;
  feature_remote = none;
  ski = none;
}

run-count_example :
    count
        (waits 8)
        (run silent (Operation.processed answer ∷ Operation.processed answer ∷ []) two_reads).0
      + count
          (called 8)
          (run silent (Operation.processed answer ∷ Operation.processed answer ∷ []) two_reads).1
    ≤ count (waits 8) two_reads
      + requests 8 (Operation.processed answer ∷ Operation.processed answer ∷ [])
      + count (waits 8) (
          added silent
            (run silent (Operation.processed answer ∷ Operation.processed answer ∷ []) two_reads).1)
run-count_example =
    run-count silent 8 (Operation.processed answer ∷ Operation.processed answer ∷ []) two_reads

answered :
    count
      (called 8)
      (run silent (Operation.processed answer ∷ Operation.processed answer ∷ []) two_reads).1
    ≡ 1
unfolding run create count operate process process_loop fire
answered = refl
