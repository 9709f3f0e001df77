-- ===== src/Common/Timer.antt =====
-- The Linux timer, src/common/eebus_timer/eebus_timer_linux.c. The fields are those that the
-- interface can observe: `has_thread` is `thread != NULL`. The clock and the outcome of
-- `EebusThreadCreate` are arguments; the destruction and the locks are left out.
use openeebus.Prelude.{
  ℕ, zero, suc, ◌+◌, ◌-◌, ◌*◌, ◌/◌, ◌%◌, ◌^◌, ◌==◌, ltb, leb, if◌then◌else◌, Bool, true, false,
  ◌||◌, ◌&&◌, not,
}
pub mod Laws

pub data TimerState : Type 0 where
  idle running expired : TimerState

pub record Timespec : Type 0 where
  pub tv_sec : ℕ
  pub tv_nsec : ℕ

pub record Timer : Type 0 where
  pub timeout_ms : ℕ
  pub autoreload : Bool
  pub cancel : Bool
  pub start_time : Timespec
  pub has_thread : Bool
  pub timer_state : TimerState

abbrev pub epoch : Timespec
epoch = record { tv_sec = 0; tv_nsec = 0 }

-- `EebusTimerConstruct`.
unfoldable pub construct : Timer
construct = record {
  timeout_ms = 0;
  autoreload = false;
  cancel = false;
  start_time = epoch;
  has_thread = false;
  timer_state = idle;
}

-- `UpdateWaitCondTimeout`: the instant at which the wait ends, from the real-time clock.
unfoldable pub update_wait_cond_timeout : Timespec → ℕ → Timespec
update_wait_cond_timeout now timeout_ms =
    let sec = now.tv_sec + timeout_ms / 1000 in
    let nsec = now.tv_nsec + timeout_ms % 1000 * 1000000 in
    if leb 1000000000 nsec
    then record { tv_sec = sec + nsec / 1000000000; tv_nsec = nsec % 1000000000 }
    else record { tv_sec = sec; tv_nsec = nsec }

abbrev is_zero : Timespec → Bool
is_zero t = t.tv_sec == 0 && t.tv_nsec == 0

-- `Start`: `wall` is the real-time clock, `now` the monotonic one, `created` whether the thread was.
unfoldable pub start : Timespec → Timespec → Bool → Timer → ℕ → Bool → Timer
unfolding update_wait_cond_timeout
start wall now created t timeout_ms autoreload =
    let armed = record t {
      cancel = false;
      timeout_ms = timeout_ms;
      timer_state = idle;
      autoreload = autoreload;
    } in
    let timed = record armed { start_time = now } in
    if t.has_thread
    then t
    else if timeout_ms == 0
    then armed
    else if is_zero (update_wait_cond_timeout wall timeout_ms)
    then timed
    else if not created
    then timed
    else record timed { has_thread = true; timer_state = running }

abbrev unless_expired : TimerState → TimerState
unless_expired expired = expired
unless_expired _ = idle

-- `Stop`: it joins the thread; a timer that has expired stays so.
unfoldable pub stop : Timer → Timer
stop t =
    if t.has_thread
    then record t { cancel = true; has_thread = false; timer_state = unless_expired t.timer_state }
    else t

-- The end of `TimerLoop` once the wait is over: the callback has run, and the state is set unless
-- the timer was cancelled or reloads itself.
unfoldable pub fire : Timer → Timer
fire t =
    if t.has_thread && not t.cancel && not t.autoreload
    then record t { timer_state = expired }
    else t

-- `GetRemainingTime`: the seconds and nanoseconds are subtracted with a borrow.
unfoldable pub get_remaining_time : Timespec → Timer → ℕ
get_remaining_time now t =
    let borrow : ℕ = if ltb now.tv_nsec t.start_time.tv_nsec then 1 else 0 in
    let nsec = now.tv_nsec + borrow * 1000000000 - t.start_time.tv_nsec in
    let elapsed_ms = (now.tv_sec - borrow - t.start_time.tv_sec) * 1000 + nsec / 1000000 in
    if ltb now.tv_sec (t.start_time.tv_sec + borrow)
    then 0
    else if leb t.timeout_ms elapsed_ms
    then 0
    else t.timeout_ms - elapsed_ms
