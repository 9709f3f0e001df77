-- ===== src/Spine/Pending/Reply.antt =====
-- Requests that wait for a reply: src/spine/feature/pending_reply.c and pending_reply_container.c.
use openeebus.Prelude.{ℕ, ◌/◌, Bool, false, Option, none, some, List, [], ◌∷◌, ◌++◌}
use openeebus.Common.Countdown.{Countdown, countdown, tick}
use openeebus.Common.Error.{EebusError}
use openeebus.Spine.Address.{FeatureAddress, same_list}
use openeebus.Spine.Message.{ReplyMessage}
use openeebus.Spine.Pending.{tick_loop, process_loop, joined, keep}

-- `kDefaultMaxResponseDelayMs`, in seconds.
abbrev pub max_response_delay : ℕ
max_response_delay = 10000 / 1000

-- `PendingReply`; `cb` stands for the callback and its context.
pub record PendingReply : Type 0 where
  pub msg_cnt_ref : ℕ
  pub cb : ℕ
  pub remote_feature_addr : FeatureAddress
  pub function_type : ℕ
  pub ski : Option (List ℕ)
  pub time : Countdown

-- A call of a callback.
pub record ReplyCall : Type 0 where
  pub cb : ℕ
  pub message : ReplyMessage
  pub remote_feature_addr : FeatureAddress
  pub error : EebusError

-- `PendingReplyConstruct`.
unfoldable pub create : ℕ → FeatureAddress → ℕ → Option (List ℕ) → ℕ → PendingReply
create msg_cnt_ref addr function_type ski cb = record {
  msg_cnt_ref = msg_cnt_ref;
  cb = cb;
  remote_feature_addr = addr;
  function_type = function_type;
  ski = ski;
  time = countdown max_response_delay;
}

-- `Fire` without an error, and with one.
unfoldable pub fire : ReplyMessage → PendingReply → ReplyCall
fire m p = record {
  cb = p.cb;
  message = m;
  remote_feature_addr = p.remote_feature_addr;
  error = EebusError.ok;
}

unfoldable pub fire_error : EebusError → PendingReply → ReplyCall
fire_error e p = record {
  cb = p.cb;
  message = record {
    msg_cnt_ref = p.msg_cnt_ref;
    function_data = none;
    function_type = p.function_type;
    feature_remote = none;
    ski = p.ski;
  };
  remote_feature_addr = p.remote_feature_addr;
  error = e;
}

-- `UpdateTime`.
unfoldable pub update_time : PendingReply → PendingReply
update_time p = record p { time = tick p.time }

-- `Add`.
unfoldable pub add : List PendingReply → PendingReply → List PendingReply
add items p = items ++ p ∷ []

abbrev pub is_device : Option (List ℕ) → List ℕ → Bool
is_device none device = false
is_device (some d) device = same_list d device

abbrev pub unless_null :
    Option (List ℕ) → (List ℕ → List PendingReply) → List PendingReply → List PendingReply
unless_null none f items = items
unless_null (some s) f items = f s

-- `RemoveForDevice` and `RemoveForSki`; the argument may be NULL.
unfoldable pub remove_for_device : List PendingReply → Option (List ℕ) → List PendingReply
remove_for_device items device =
    unless_null device
      (λ d. keep (λ (p : PendingReply). is_device p.remote_feature_addr.device d) items) items

unfoldable pub remove_for_ski : List PendingReply → Option (List ℕ) → List PendingReply
remove_for_ski items ski =
    unless_null ski (λ s. keep (λ (p : PendingReply). is_device p.ski s) items) items

module _ (again : ReplyCall → List PendingReply) where
  -- `Process`.
  unfoldable pub process : List PendingReply → ReplyMessage → List PendingReply × List ReplyCall
  process items m = process_loop (fire m) again (λ p. p.msg_cnt_ref) m.msg_cnt_ref items

  -- `Tick`.
  unfoldable pub tick_all : List PendingReply → List PendingReply × List ReplyCall
  tick_all items =
      joined (fire_error EebusError.time) again
        (tick_loop (fire_error EebusError.time) again (λ p. p.time) update_time items)
