-- ===== src/Spine/Pending/Result.antt =====
-- Writes that wait for the result: src/spine/feature/pending_result.c and pending_result_container.c.
use openeebus.Prelude.{ℕ, none, List, [], ◌∷◌, ◌++◌}
use openeebus.Common.Countdown.{Countdown, countdown, tick}
use openeebus.Common.Error.{EebusError}
use openeebus.Spine.Address.{FeatureAddress}
use openeebus.Spine.Message.{ResultMessage}
use openeebus.Spine.Pending.{tick_loop, process_loop, joined}
use openeebus.Spine.Pending.Reply.{max_response_delay}

-- `PendingResult`; `cb` stands for the callback and its context.
pub record PendingResult : Type 0 where
  pub msg_cnt_ref : ℕ
  pub function_type : ℕ
  pub cb : ℕ
  pub remote_feature_addr : FeatureAddress
  pub time : Countdown

pub record ResultCall : Type 0 where
  pub cb : ℕ
  pub message : ResultMessage
  pub remote_feature_addr : FeatureAddress
  pub error : EebusError

-- `PendingResultConstruct`.
unfoldable pub create : ℕ → ℕ → FeatureAddress → ℕ → PendingResult
create msg_cnt_ref function_type addr cb = record {
  msg_cnt_ref = msg_cnt_ref;
  function_type = function_type;
  cb = cb;
  remote_feature_addr = addr;
  time = countdown max_response_delay;
}

-- `Fire` without an error, which puts in the type of the function, and with one.
unfoldable pub fire : ResultMessage → PendingResult → ResultCall
fire m p = record {
  cb = p.cb;
  message = record m { function_type = p.function_type };
  remote_feature_addr = p.remote_feature_addr;
  error = EebusError.ok;
}

unfoldable pub fire_error : EebusError → PendingResult → ResultCall
fire_error e p = record {
  cb = p.cb;
  message = record {
    msg_cnt_ref = p.msg_cnt_ref;
    function_type = p.function_type;
    result_data = none;
    feature_remote = none;
  };
  remote_feature_addr = p.remote_feature_addr;
  error = e;
}

-- `UpdateTime`.
unfoldable pub update_time : PendingResult → PendingResult
update_time p = record p { time = tick p.time }

-- `Add`.
unfoldable pub add : List PendingResult → PendingResult → List PendingResult
add items p = items ++ p ∷ []

module _ (again : ResultCall → List PendingResult) where
  -- `Process`.
  unfoldable pub process : List PendingResult → ResultMessage → List PendingResult × List ResultCall
  process items m = process_loop (fire m) again (λ p. p.msg_cnt_ref) m.msg_cnt_ref items

  -- `Tick`.
  unfoldable pub tick_all : List PendingResult → List PendingResult × List ResultCall
  tick_all items =
      joined (fire_error EebusError.time) again
        (tick_loop (fire_error EebusError.time) again (λ p. p.time) update_time items)
