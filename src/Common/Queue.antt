-- ===== src/Common/Queue.antt =====
-- The bounded message queue, src/common/eebus_queue/eebus_queue.c. A message is a value of a type
-- `A` and the cyclic buffer a memory of such values, so `head` and `tail` count messages instead of
-- bytes. What `malloc` left in the buffer is an argument. The mutex makes each call one step, and
-- a wait ends by what the other threads have done before it: a call whose condition does not hold
-- times out, or blocks (`none`) with an infinite timeout.
use openeebus.Prelude.{
  ℕ, zero, suc, ◌+◌, ◌-◌, ◌≤◌, ◌==◌, leb, if◌then◌else◌, Bool, true, false, ◌||◌, not, Option, none,
  some, List, [], ◌∷◌,
}
use openeebus.Common.Error.{EebusError}
pub mod Window
pub mod Fifo
pub mod Refinement
pub mod Clearing

pub record Queue {ℓ} (A : Type ℓ) : Type ℓ where
  pub max_msg : ℕ
  pub has_deallocator : Bool
  pub msg_buf : ℕ → A
  pub head : ℕ
  pub tail : ℕ
  pub is_closed : Bool
  pub is_full : Bool
  pub is_empty : Bool

-- The timeout of a call, `kTimeoutInfinite` apart.
pub data Timeout : Type 0 where
  infinite : Timeout
  within : ℕ → Timeout

-- `p += msg_size`, back to the start of the buffer at its end.
abbrev pub advance : ℕ → ℕ → ℕ
advance max_msg i = if leb max_msg (i + 1) then 0 else i + 1

-- `WaitCond`: true once the predicate holds, false at a timeout, `none` while it blocks.
abbrev wait_cond : Bool → Timeout → Option Bool
wait_cond true _ = some true
wait_cond false infinite = none
wait_cond false (within _) = some false

abbrev opt_map {ℓ} : {B : Type ℓ} → (Bool → B) → Option Bool → Option B
opt_map f none = none
opt_map f (some b) = some (f b)

module _ {ℓ} {A : Type ℓ} where
  -- `EebusQueueConstruct` once the memory, the mutex and the conditions are there.
  unfoldable pub construct : (ℕ → A) → ℕ → Bool → Queue A
  construct memory max_msg has_deallocator = record {
    max_msg = max_msg;
    has_deallocator = has_deallocator;
    msg_buf = memory;
    head = 0;
    tail = 0;
    is_closed = false;
    is_full = false;
    is_empty = true;
  }

  -- `EebusQueueCreate`: `msg_size` is positive by the type of messages.
  unfoldable pub create : (ℕ → A) → ℕ → Bool → Option (Queue A)
  create memory max_msg has_deallocator =
      if max_msg == 0 then none else some (construct memory max_msg has_deallocator)

  abbrev pub write : (ℕ → A) → ℕ → A → ℕ → A
  write memory i a j = if j == i then a else memory j

  -- The part of `SendInternal` behind the wait and the test for a closed queue.
  unfoldable pub enqueue : Queue A → A → Queue A
  enqueue q msg =
      let head' = advance q.max_msg q.head in
      record q {
        msg_buf = write q.msg_buf q.head msg;
        head = head';
        is_empty = false;
        is_full = head' == q.tail;
      }

  abbrev send_internal : Queue A → A → Bool → Queue A × EebusError
  send_internal q msg ready =
      if not ready
      then (q, EebusError.time)
      else if q.is_closed
      then (q, EebusError.no_change)
      else (enqueue q msg, EebusError.ok)

  unfoldable pub send : Queue A → A → Timeout → Option (Queue A × EebusError)
  send q msg timeout =
      if q.is_closed
      then some (q, EebusError.no_change)
      else opt_map (send_internal q msg) (wait_cond (not q.is_full || q.is_closed) timeout)

  -- The part of `ReceiveInternal` behind the wait and the test, after the message is copied out.
  unfoldable pub dequeue : Queue A → Queue A
  dequeue q =
      let tail' = advance q.max_msg q.tail in
      record q { tail = tail'; is_full = false; is_empty = q.head == tail' }

  -- The error code, and the message that was received.
  abbrev receive_internal : Queue A → Bool → Queue A × EebusError × Option A
  receive_internal q ready =
      if not ready
      then (q, EebusError.time, none)
      else if q.is_closed
      then (q, EebusError.no_change, none)
      else (dequeue q, EebusError.ok, some (q.msg_buf q.tail))

  unfoldable pub receive : Queue A → Timeout → Option (Queue A × EebusError × Option A)
  receive q timeout =
      if q.is_closed
      then some (q, EebusError.no_change, none)
      else opt_map (receive_internal q) (wait_cond (not q.is_empty || q.is_closed) timeout)

  -- The loop of `ClearInternal`: the messages that it passes over, and the final `tail`.
  unfoldable pub clear_loop : ℕ → (ℕ → A) → ℕ → ℕ → ℕ → List A × ℕ
  clear_loop zero memory max_msg head tail = ([], tail)
  clear_loop (suc fuel) memory max_msg head tail =
      let rest = clear_loop fuel memory max_msg head (advance max_msg tail) in
      if tail == head then ([], tail) else (memory tail ∷ rest.0, rest.1)

  -- `ClearInternal`, with the messages that it hands to the deallocator. The loop passes each place
  -- of the buffer at most once, so `max_msg` rounds are enough.
  unfoldable pub clear_internal : Queue A → Queue A × List A
  clear_internal q =
      let passed = clear_loop q.max_msg q.msg_buf q.max_msg q.head q.tail in
      (
        record q { tail = passed.1; is_empty = true; is_full = false },
        if q.has_deallocator then passed.0 else [],
      )

  -- `Destruct`: closed, and cleared. It returns the messages that were deallocated.
  unfoldable pub destruct : Queue A → Queue A × List A
  unfolding clear_internal
  destruct q = clear_internal (record q { is_closed = true })
