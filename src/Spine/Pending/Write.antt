-- ===== src/Spine/Pending/Write.antt =====
-- Write requests that wait for approval: src/spine/feature/pending_write_request.c and
-- pending_write_request_container.c.
use openeebus.Prelude.{
  ℕ, suc, ◌==◌, if◌then◌else◌, Bool, ◌&&◌, Option, none, some, List, [], ◌∷◌, ◌++◌,
}
use openeebus.Common.Countdown.{Countdown, countdown, tick}
use openeebus.Spine.Address.{FeatureAddress, same_list}
use openeebus.Spine.Message.{CommandClassifier, Header, Cmd}
use openeebus.Spine.Pending.Reply.{max_response_delay}

-- `PendingWriteRequest`.
pub record PendingWrite : Type 0 where
  pub ski : List ℕ
  pub msg_counter : ℕ
  pub num_approvals : ℕ
  pub time : Countdown
  pub cmd_classifier : CommandClassifier
  pub cmd : Cmd
  pub header : Header
  pub feature_address : FeatureAddress

-- `PendingWriteRequestConstruct` of a message with a header and a number.
unfoldable pub create :
    List ℕ → ℕ → CommandClassifier → Cmd → Header → FeatureAddress → PendingWrite
create ski n classifier cmd header addr = record {
  ski = ski;
  msg_counter = n;
  num_approvals = 0;
  time = countdown max_response_delay;
  cmd_classifier = classifier;
  cmd = cmd;
  header = header;
  feature_address = addr;
}

unfoldable pub is_write : List ℕ → ℕ → PendingWrite → Bool
is_write ski n p = same_list p.ski ski && p.msg_counter == n

-- `Find`.
unfoldable pub find : List PendingWrite → List ℕ → ℕ → Option PendingWrite
find [] ski n = none
find (p ∷ ps) ski n = let rest = find ps ski n in if is_write ski n p then some p else rest

-- `AddApproval` of the request that `Find` returns, and `Remove` of it.
abbrev pub add_approval : PendingWrite → PendingWrite
add_approval p = record p { num_approvals = suc p.num_approvals }

unfoldable pub approve : List PendingWrite → List ℕ → ℕ → List PendingWrite
approve [] ski n = []
approve (p ∷ ps) ski n = if is_write ski n p then add_approval p ∷ ps else p ∷ approve ps ski n

unfoldable pub remove : List PendingWrite → List ℕ → ℕ → List PendingWrite
remove [] ski n = []
remove (p ∷ ps) ski n = if is_write ski n p then ps else p ∷ remove ps ski n

abbrev add_unless : Option PendingWrite → List PendingWrite → PendingWrite → List PendingWrite
add_unless none items p = items ++ p ∷ []
add_unless (some _) items p = items

-- `Add` behind its guards: a request with the SKI and number of another changes nothing.
unfoldable pub add : List PendingWrite → PendingWrite → List PendingWrite
add items p = add_unless (find items p.ski p.msg_counter) items p

-- `UpdateRemainingTime`.
unfoldable pub update_remaining_time : PendingWrite → PendingWrite
update_remaining_time p = record p { time = tick p.time }
