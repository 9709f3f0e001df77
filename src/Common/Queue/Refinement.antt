-- ===== src/Common/Queue/Refinement.antt =====
-- Any history of calls on a queue answers as a bounded list does.
use openeebus.Prelude.{
  ℕ, zero, suc, ◌≡◌, refl, ap, subst, ltb, if◌then◌else◌, Bool, false, not, sym, ◌∙◌, List, [], ◌∷◌,
  ◌++◌, Option, none, some, length, inl, inr, Bool-cases, arith,
}
use openeebus.Common.Error.{EebusError}
use openeebus.Common.Queue.{Queue, within, enqueue, dequeue, send, receive, create, construct}
use openeebus.Common.Queue.Window.{contents, IsValid}
use openeebus.Common.Queue.Fifo.{length-contents, count-flags, send-contents, receive-contents}

-- A call with a finite timeout that no other thread interrupts.
pub data Command {ℓ} (A : Type ℓ) : Type ℓ where
  put : A → Command A
  get : Command A

module _ {ℓ} {A : Type ℓ} where
  pub step : ℕ → Queue A → Command A → Option (Queue A × EebusError × Option A)
  step ms q (put a) = elim (send q a (within ms)) [
    | none ↦ none
    | some (q', e) ↦ some (q', e, none)
  ]
  step ms q get = receive q (within ms)

  pub run : ℕ → Queue A → List (Command A) → Option (List (EebusError × Option A))
  run ms q [] = some []
  run ms q (c ∷ cs) = elim (step ms q c) [
    | none ↦ none
    | some (q', e, a) ↦ elim (run ms q' cs) [ none ↦ none | some out ↦ some ((e, a) ∷ out) ]
  ]

  -- The specification: a list with a bound.
  pub spec_step : ℕ → List A → Command A → List A × EebusError × Option A
  spec_step bound l (put a) =
      if ltb (length l) bound
      then (l ++ a ∷ [], EebusError.ok, none)
      else (l, EebusError.time, none)
  spec_step bound [] get = ([], EebusError.time, none)
  spec_step bound (a ∷ l) get = (l, EebusError.ok, some a)

  pub spec_run : ℕ → List A → List (Command A) → List (EebusError × Option A)
  spec_run bound l [] = []
  spec_run bound l (c ∷ cs) = let r = spec_step bound l c in (r.1, r.2) ∷ spec_run bound r.0 cs

  record Simulates (q : Queue A) (bound : ℕ) (l : List A) : Type ℓ where
    valid : IsValid q
    opened : q.is_closed ≡ false
    capacity : q.max_msg ≡ bound
    same : contents q ≡ l

  Simulated : Option (Queue A × EebusError × Option A) → ℕ → List A × EebusError × Option A → Type ℓ
  Simulated o bound r = (q : Queue A) × (o ≡ some (q, r.1, r.2)) × Simulates q bound r.0

  has_room :
      {q : Queue A} {bound : ℕ} {l : List A}
      → Simulates q bound l
      → (q.is_full ≡ not (ltb (length l) bound)) × (q.is_empty ≡ not (ltb 0 (length l)))
  has_room {q} s =
      rw (← s.same, ← s.capacity, length-contents q)
        ((count-flags q s.valid).1, (count-flags q s.valid).2)

  step-put :
      (ms : ℕ) (q : Queue A) (a : A) (bound : ℕ) (l : List A)
      → Simulates q bound l
      → Simulated (step ms q (put a)) bound (spec_step bound l (put a))
  unfolding Simulated step spec_step
  step-put ms q a bound l s = elim (Bool-cases (ltb (length l) bound)) [
    | inl room ↦
        let (sent, appended, valid, opened) =
          (send-contents q a (within ms) s.valid s.opened).0 (ground (arith, (has_room s).0)) in
        rw (room, sent, step)
          (
            enqueue q a,
            refl,
            record {
              valid = valid;
              opened = opened;
              capacity = unfold enqueue in s.capacity;
              same = appended ∙ ap (λ x. x ++ a ∷ []) s.same;
            },
          )
    | inr full ↦
        let refused =
          ((send-contents q a (within ms) s.valid s.opened).1 (ground (arith, (has_room s).0))).1
            ms in
        rw (full, refused, step) (q, refl, s)
  ]

  step-get :
      (ms : ℕ) (q : Queue A) (bound : ℕ) (l : List A)
      → Simulates q bound l
      → Simulated (step ms q get) bound (spec_step bound l get)
  unfolding Simulated step spec_step
  step-get ms q bound [] s =
      let refused =
        ((receive-contents q (within ms) s.valid s.opened).1 (ground (arith, (has_room s).1))).1
          ms in
      (q, refused, s)
  step-get ms q bound (a ∷ l) s =
      let (received, split, valid, opened) =
        (receive-contents q (within ms) s.valid s.opened).0 (ground (arith, (has_room s).1)) in
      let parts : q.msg_buf q.tail ∷ contents (dequeue q) ≡ a ∷ l = sym split ∙ s.same in
      (
        dequeue q,
        rw received (cc parts),
        record {
          valid = valid;
          opened = opened;
          capacity = unfold dequeue in s.capacity;
          same = cc parts;
        },
      )

  step-Simulated :
      (ms : ℕ) (q : Queue A) (c : Command A) (bound : ℕ) (l : List A)
      → Simulates q bound l
      → Simulated (step ms q c) bound (spec_step bound l c)
  step-Simulated ms q (put a) bound l s = step-put ms q a bound l s
  step-Simulated ms q get bound l s = step-get ms q bound l s

  run-Simulates :
      (ms : ℕ) (cs : List (Command A)) (q : Queue A) (bound : ℕ) (l : List A)
      → Simulates q bound l
      → run ms q cs ≡ some (spec_run bound l cs)
  unfolding run spec_run Simulated
  run-Simulates ms [] q bound l s = refl
  run-Simulates ms (c ∷ cs) q bound l s =
      let (q', done, s') = step-Simulated ms q c bound l s in
      rw (done, run) (rw (run-Simulates ms cs q' bound (spec_step bound l c).0 s') refl)

  construct-Simulates :
      (memory : ℕ → A) (n : ℕ) (has_deallocator : Bool)
      → Simulates (construct memory (suc n) has_deallocator) (suc n) []
  unfolding construct
  construct-Simulates memory n has_deallocator = record {
    valid = ground arith;
    opened = refl;
    capacity = refl;
    same = refl;
  }

  -- Every sequence of `send` and `receive` calls with one finite timeout on a queue that `create` made
  -- returns, without blocking, the error codes and messages that a list of at most `max_msg`
  -- messages gives: first in first out, a time error when full or empty.
  pub run-create :
      (memory : ℕ → A) (max_msg ms : ℕ) (has_deallocator : Bool) (cs : List (Command A))
      {q : Queue A}
      → create memory max_msg has_deallocator ≡ some q
      → run ms q cs ≡ some (spec_run max_msg [] cs)
  unfolding create
  run-create memory zero ms has_deallocator cs h = cc h
  run-create memory (suc n) ms has_deallocator cs {q} h =
      let made : construct memory (suc n) has_deallocator ≡ q = ground arith in
      subst (λ p. run ms p cs ≡ some (spec_run (suc n) [] cs)) made
        (run-Simulates ms cs (construct memory (suc n) has_deallocator) (suc n) []
          (construct-Simulates memory n has_deallocator))
