-- ===== src/Common/Queue/Clearing.antt =====
-- What `ClearInternal` hands to the deallocator.
use openeebus.Prelude.{
  ℕ, zero, suc, ◌≤◌, ◌<◌, ◌≡◌, refl, sym, ◌∙◌, if◌then◌else◌, subst, ap, true, false, [], arith,
  inl, inr, Bool-cases,
}
use openeebus.Common.Queue.{Queue, advance, clear_loop, clear_internal}
use openeebus.Common.Queue.Window.{
  window, place, count, contents, IsValid, place-advance, advance_bound, place_apart,
}
use openeebus.Common.Queue.Fifo.{place-count, count_bound}

module _ {ℓ} {A : Type ℓ} where
  -- From `n` messages before the head the loop passes those, in order, and ends at the head.
  clear_loop-window :
      (memory : ℕ → A) (max_msg fuel n i : ℕ)
      → i < max_msg
      → n < max_msg
      → n ≤ fuel
      → clear_loop fuel memory max_msg (place max_msg i n) i
        ≡ (window memory max_msg i n, place max_msg i n)
  unfolding clear_loop
  clear_loop-window memory max_msg zero zero i h k l = ground arith
  clear_loop-window memory max_msg zero (suc n) i h k l = absurd (omega arith)
  clear_loop-window memory max_msg (suc fuel) zero i h k l = ground arith
  clear_loop-window memory max_msg (suc fuel) (suc n) i h k l = ground (
    arith,
    place_apart max_msg i n h k,
    place-advance max_msg i n h,
    clear_loop-window memory max_msg fuel n (advance max_msg i) (advance_bound max_msg i h),
  )

  clear_loop-meets :
      (memory : ℕ → A) (max_msg fuel i : ℕ) → clear_loop fuel memory max_msg i i ≡ ([], i)
  unfolding clear_loop
  clear_loop-meets memory max_msg zero i = refl
  clear_loop-meets memory max_msg (suc fuel) i = ground arith

  clear_loop-contents :
      (q : Queue A)
      → IsValid q
      → q.is_full ≡ false
      → clear_loop q.max_msg q.msg_buf q.max_msg q.head q.tail ≡ (contents q, q.head)
  clear_loop-contents q v f =
      subst (λ h. clear_loop q.max_msg q.msg_buf q.max_msg h q.tail ≡ (contents q, h))
        (place-count q v)
        (clear_loop-window q.msg_buf q.max_msg q.max_msg (count q) q.tail v.tail_bound
          (count_bound q v f) (ground (arith, count_bound q v f)))

  clear_loop_full :
      (q : Queue A)
      → IsValid q
      → q.is_full ≡ true
      → clear_loop q.max_msg q.msg_buf q.max_msg q.head q.tail ≡ ([], q.head)
  clear_loop_full q v f =
      subst (λ t. clear_loop q.max_msg q.msg_buf q.max_msg q.head t ≡ ([], q.head)) (v.full_meets f)
        (clear_loop-meets q.msg_buf q.max_msg q.max_msg q.head)

  clear_loop_ends :
      (q : Queue A)
      → IsValid q
      → (clear_loop q.max_msg q.msg_buf q.max_msg q.head q.tail).1 ≡ q.head
  clear_loop_ends q v = elim (Bool-cases q.is_full) [
    | inl f ↦ ap (λ r. r.1) (clear_loop_full q v f)
    | inr f ↦ ap (λ r. r.1) (clear_loop-contents q v f)
  ]

  -- Clearing a valid queue that has a deallocator leaves a valid empty one, open or closed as before.
  -- The messages of a queue that is not full are all deallocated, oldest first; but those of a full
  -- queue are dropped and none is deallocated, since its head meets its tail.
  pub clear_internal-contents :
      (q : Queue A)
      → IsValid q
      → q.has_deallocator ≡ true
      → IsValid (clear_internal q).0
        × (contents (clear_internal q).0 ≡ [])
        × ((clear_internal q).0.is_closed ≡ q.is_closed)
        × ((clear_internal q).1 ≡ (if q.is_full then [] else contents q))
  unfolding clear_internal
  clear_internal-contents q v d =
      rw (d, clear_loop_ends q v)
        (
          ground arith,
          ground arith,
          refl,
          elim (Bool-cases q.is_full) [
            | inl f ↦ ap (λ r. r.0) (clear_loop_full q v f) ∙ sym (if_full f)
            | inr f ↦ ap (λ r. r.0) (clear_loop-contents q v f) ∙ sym (if_not_full f)
          ],
        )
    where
      if_full : q.is_full ≡ true → (if q.is_full then [] else contents q) ≡ []
      if_full f = rw f refl

      if_not_full : q.is_full ≡ false → (if q.is_full then [] else contents q) ≡ contents q
      if_not_full f = rw f refl
