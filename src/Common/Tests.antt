-- ===== src/Common/Tests.antt =====
-- Runs of the queue and the timer.
use openeebus.Prelude.{ℕ, ◌-◌, ◌/◌, if◌then◌else◌, true, ◌≡◌, refl, some, List, [], ◌∷◌, arith}
use openeebus.Common.Queue.{Queue, create, construct, enqueue, clear_internal}
use openeebus.Common.Queue.Window.{contents, IsValid}
use openeebus.Common.Queue.Refinement.{Command, put, get, run, spec_run, run-create}
use openeebus.Common.Queue.Clearing.{clear_internal-contents}
use openeebus.Common.Timer.{
  Timer, Timespec, start, stop, fire, running, expired, get_remaining_time,
}
use openeebus.Common.Timer
use openeebus.Common.Timer.Laws.{get_remaining_time-elapsed}

abbrev cell : ℕ → ℕ
cell _ = 0

-- More messages than the queue holds, and more calls than there are messages.
abbrev history : List (Command ℕ)
history = get ∷ put 1 ∷ put 2 ∷ put 3 ∷ get ∷ put 4 ∷ get ∷ get ∷ get ∷ []

run-create_example : run 50 (construct cell 2 true) history ≡ some (spec_run 2 [] history)
run-create_example = run-create cell 2 50 true history (unfold create in refl)

abbrev full : Queue ℕ
full = enqueue (enqueue (construct cell 2 true) 1) 2

clear_internal-contents_example :
    IsValid (clear_internal full).0
    × (contents (clear_internal full).0 ≡ [])
    × ((clear_internal full).0.is_closed ≡ full.is_closed)
    × ((clear_internal full).1 ≡ (if full.is_full then [] else contents full))
unfolding construct enqueue
clear_internal-contents_example = clear_internal-contents full (ground arith) refl

abbrev started : Timer
started = record Timer.construct {
  timeout_ms = 2000;
  start_time = record { tv_sec = 5; tv_nsec = 900000000 };
  has_thread = true;
  timer_state = running;
}

abbrev later : Timespec
later = record { tv_sec = 6; tv_nsec = 100000000 }

get_remaining_time-elapsed_example : get_remaining_time later started ≡ 2000 - 200000000 / 1000000
get_remaining_time-elapsed_example =
    get_remaining_time-elapsed later started (omega arith) (omega arith) (omega arith)
