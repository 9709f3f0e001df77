-- ===== src/Common/Queue/Fifo.antt =====
-- The queue as a bounded first-in first-out list.
use openeebus.Prelude.{
  ℕ, zero, suc, ◌≤◌, ◌<◌, ◌≡◌, refl, sym, ap, ◌∙◌, ltb, true, false, not, [], ◌∷◌, ◌++◌, none, some,
  length, arith,
}
use openeebus.Common.Error.{EebusError}
use openeebus.Common.Queue.{
  Queue, Timeout, infinite, within, write, advance, enqueue, dequeue, send, receive,
}
use openeebus.Common.Queue.Window.{
  window, place, count, contents, IsValid, window-snoc, window-write,
}

module _ {ℓ} {A : Type ℓ} where
  length-window : (memory : ℕ → A) (max_msg i n : ℕ) → length (window memory max_msg i n) ≡ n
  length-window memory max_msg i zero = refl
  length-window memory max_msg i (suc n) =
      ap suc (length-window memory max_msg (advance max_msg i) n)

  pub length-contents : (q : Queue A) → length (contents q) ≡ count q
  length-contents q = length-window q.msg_buf q.max_msg q.tail (count q)

  pub place-count : (q : Queue A) → IsValid q → place q.max_msg q.tail (count q) ≡ q.head
  place-count q v = ground arith

  pub count_bound : (q : Queue A) → IsValid q → q.is_full ≡ false → count q < q.max_msg
  count_bound q v f = ground arith

  -- The flags tell how many messages there are.
  pub count-flags :
      (q : Queue A)
      → IsValid q
      → (count q ≤ q.max_msg)
        × (q.is_full ≡ not (ltb (count q) q.max_msg))
        × (q.is_empty ≡ not (ltb 0 (count q)))
  count-flags q v = ground arith

  enqueue-count :
      (q : Queue A) (msg : A)
      → IsValid q
      → q.is_full ≡ false
      → count (enqueue q msg) ≡ suc (count q)
  unfolding enqueue
  enqueue-count q msg v f = ground arith

  dequeue-count : (q : Queue A) → IsValid q → q.is_empty ≡ false → count q ≡ suc (count (dequeue q))
  unfolding dequeue
  dequeue-count q v e = ground arith

  enqueue-IsValid :
      (q : Queue A) (msg : A) → IsValid q → q.is_full ≡ false → IsValid (enqueue q msg)
  unfolding enqueue
  enqueue-IsValid q msg v f = ground arith

  dequeue-IsValid : (q : Queue A) → IsValid q → IsValid (dequeue q)
  unfolding dequeue
  dequeue-IsValid q v = ground arith

  write_self : (memory : ℕ → A) (i : ℕ) (a : A) → write memory i a i ≡ a
  write_self memory i a = ground arith

  window-enqueue :
      (q : Queue A) (msg : A)
      → IsValid q
      → q.is_full ≡ false
      → window (write q.msg_buf q.head msg) q.max_msg q.tail (count q) ≡ contents q
  window-enqueue q msg v f =
      ap (λ h. window (write q.msg_buf h msg) q.max_msg q.tail (count q)) (sym (place-count q v))
      ∙ window-write q.msg_buf q.max_msg q.tail (count q) (count q) msg v.tail_bound (omega arith)
          (count_bound q v f)

  enqueue-contents :
      (q : Queue A) (msg : A)
      → IsValid q
      → q.is_full ≡ false
      → contents (enqueue q msg) ≡ contents q ++ msg ∷ []
  unfolding enqueue
  enqueue-contents q msg v f =
      let memory = write q.msg_buf q.head msg in
      ap (window memory q.max_msg q.tail) (enqueue-count q msg v f)
      ∙ (window-snoc memory q.max_msg q.tail (count q) v.tail_bound (count_bound q v f)
          ∙ (ap (λ l. l ++ memory (place q.max_msg q.tail (count q)) ∷ [])
                (window-enqueue q msg v f)
              ∙ ap (λ a. contents q ++ a ∷ [])
                  (ap memory (place-count q v) ∙ write_self q.msg_buf q.head msg)))

  dequeue-contents :
      (q : Queue A)
      → IsValid q
      → q.is_empty ≡ false
      → contents q ≡ q.msg_buf q.tail ∷ contents (dequeue q)
  unfolding dequeue
  dequeue-contents q v e = ap (window q.msg_buf q.max_msg q.tail) (dequeue-count q v e)

  -- On a valid open queue with room `send` succeeds at once whatever the timeout, appends the message
  -- behind those that are there, and leaves a valid open queue. On a full one it blocks with the
  -- infinite timeout, and with any other reports the time error and changes nothing.
  pub send-contents :
      (q : Queue A) (msg : A) (timeout : Timeout)
      → IsValid q
      → q.is_closed ≡ false
      → (q.is_full ≡ false
          → (send q msg timeout ≡ some (enqueue q msg, EebusError.ok))
            × (contents (enqueue q msg) ≡ contents q ++ msg ∷ [])
            × IsValid (enqueue q msg)
            × ((enqueue q msg).is_closed ≡ false))
        × (q.is_full ≡ true
            → (send q msg infinite ≡ none)
              × ((ms : ℕ) → send q msg (within ms) ≡ some (q, EebusError.time)))
  unfolding send
  send-contents q msg timeout v c = (
    λ f. (ground arith, enqueue-contents q msg v f, enqueue-IsValid q msg v f, unfold enqueue in c),
    λ f. (ground arith, λ ms. ground arith),
  )

  -- On a valid open queue that holds a message `receive` succeeds at once whatever the timeout, hands
  -- out the oldest message and leaves a valid open queue of the others. On an empty one it blocks
  -- with the infinite timeout, and with any other reports the time error and changes nothing.
  pub receive-contents :
      (q : Queue A) (timeout : Timeout)
      → IsValid q
      → q.is_closed ≡ false
      → (q.is_empty ≡ false
          → (receive q timeout ≡ some (dequeue q, EebusError.ok, some (q.msg_buf q.tail)))
            × (contents q ≡ q.msg_buf q.tail ∷ contents (dequeue q))
            × IsValid (dequeue q)
            × ((dequeue q).is_closed ≡ false))
        × (q.is_empty ≡ true
            → (receive q infinite ≡ none)
              × ((ms : ℕ) → receive q (within ms) ≡ some (q, EebusError.time, none)))
  unfolding receive
  receive-contents q timeout v c = (
    λ e. (ground arith, dequeue-contents q v e, dequeue-IsValid q v, unfold dequeue in c),
    λ e. (ground arith, λ ms. ground arith),
  )
