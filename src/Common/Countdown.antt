-- ===== src/Common/Countdown.antt =====
-- The countdown of a request that waits for its answer, src/common/eebus_countdown/eebus_countdown.h.
use openeebus.Prelude.{ℕ, ◌-◌, ◌<◌, ◌≡◌, ◌==◌, if◌then◌else◌, Bool, true, false, arith}

pub record Countdown : Type 0 where
  pub remaining : ℕ
  pub expired : Bool

-- `EEBUS_COUNTDOWN`.
abbrev pub countdown : ℕ → Countdown
countdown ticks = record { remaining = ticks; expired = false }

-- `EebusCountdownTick`.
unfoldable pub tick : Countdown → Countdown
tick c =
    let left : ℕ = if c.remaining == 0 then 0 else c.remaining - 1 in
    record { remaining = left; expired = if left == 0 then true else c.expired }

-- The number of ticks after which it has expired.
unfoldable pub life : Countdown → ℕ
life c = if c.expired then 0 else if c.remaining == 0 then 1 else c.remaining

pub life-tick : (c : Countdown) → c.expired ≡ false → life (tick c) ≡ life c - 1
unfolding life tick
life-tick c h = ground arith

pub life-expired : (c : Countdown) → c.expired ≡ true → life c ≡ 0
unfolding life
life-expired c h = ground arith

pub expired-life : (c : Countdown) → life c ≡ 0 → c.expired ≡ true
unfolding life
expired-life c h = ground arith

pub life-pos : (c : Countdown) → c.expired ≡ false → 0 < life c
unfolding life
life-pos c h = ground arith
