-- ===== src/Common/Timer/Laws.antt =====
-- What a client of the Linux timer may rely on.
use openeebus.Prelude.{ℕ, ◌+◌, ◌-◌, ◌*◌, ◌/◌, ◌<◌, ◌≤◌, ◌≡◌, arith}
use openeebus.Common.Timer.{Timespec, Timer, get_remaining_time}

-- An instant in nanoseconds.
abbrev pub nanos : Timespec → ℕ
nanos t = t.tv_sec * 1000000000 + t.tv_nsec

-- The nanoseconds of an instant are less than a second.
abbrev pub IsNormal : Timespec → Type 0
IsNormal t = t.tv_nsec < 1000000000

-- At an instant that is not before the start of the timer, both with less than a second of
-- nanoseconds, the remaining time is the timeout less the whole milliseconds that have gone by, and 0
-- if more than the timeout have gone by.
pub get_remaining_time-elapsed :
    (now : Timespec) (t : Timer)
    → IsNormal now
    → IsNormal t.start_time
    → nanos t.start_time ≤ nanos now
    → get_remaining_time now t ≡ t.timeout_ms - (nanos now - nanos t.start_time) / 1000000
unfolding get_remaining_time
get_remaining_time-elapsed now t h k l = ground arith
