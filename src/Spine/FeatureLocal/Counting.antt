-- ===== src/Spine/FeatureLocal/Counting.antt =====
-- One more approval of a pending write request, `FeatureLocalTryApproveWrite` of
-- src/spine/feature/feature_local.c.
use openeebus.Prelude.{
  ℕ, zero, suc, ◌+◌, ◌<◌, ◌≤◌, ltb, true, false, ◌≡◌, refl, some, List, [], ◌∷◌, length, arith,
}
use openeebus.Common.Error.{EebusError}
use openeebus.Spine.Device.{is_server}
use openeebus.Spine.Message.{Message}
use openeebus.Spine.Pending.Write.{PendingWrite, find, approve, is_write, add_approval}
use openeebus.Spine.FeatureLocal.{FeatureLocal, World, Environment}
use openeebus.Spine.FeatureLocal.Approval.{
  with_pending, removed, try_approve_write, get_message, process_write_internal,
}

-- A request after a number of approvals.
unfoldable pub approve_all : ℕ → List PendingWrite → List ℕ → ℕ → List PendingWrite
approve_all zero items ski n = items
approve_all (suc k) items ski n = approve_all k (approve items ski n) ski n

is_write-approval :
    (ski : List ℕ) (n : ℕ) (p : PendingWrite) → is_write ski n (add_approval p) ≡ is_write ski n p
unfolding is_write
is_write-approval ski n p = refl

-- `Find` finds the request again, with one more approval.
pub find-approve :
    (items : List PendingWrite) (ski : List ℕ) (n : ℕ) (p : PendingWrite)
    → find items ski n ≡ some p
    → find (approve items ski n) ski n ≡ some (add_approval p)
unfolding find approve
find-approve [] ski n p h = ground arith
find-approve (q ∷ qs) ski n p h = ground (arith, is_write-approval ski n q, find-approve qs ski n p)

-- A request with a number of approvals more.
approved_by : ℕ → PendingWrite → PendingWrite
approved_by zero p = p
approved_by (suc k) p = approved_by k (add_approval p)

find-approve_all :
    (k : ℕ) (items : List PendingWrite) (ski : List ℕ) (n : ℕ) (p : PendingWrite)
    → find items ski n ≡ some p
    → find (approve_all k items ski n) ski n ≡ some (approved_by k p)
unfolding approve_all approved_by
find-approve_all zero items ski n p h = h
find-approve_all (suc k) items ski n p h =
    find-approve_all k (approve items ski n) ski n (add_approval p) (find-approve items ski n p h)

num-approved_by : (k : ℕ) (p : PendingWrite) → (approved_by k p).num_approvals ≡ p.num_approvals + k
unfolding approved_by
num-approved_by zero p = omega arith
num-approved_by (suc k) p = omega (arith, num-approved_by k (add_approval p))

approve_all-approve :
    (k : ℕ) (items : List PendingWrite) (ski : List ℕ) (n : ℕ)
    → approve (approve_all k items ski n) ski n ≡ approve_all (suc k) items ski n
unfolding approve_all
approve_all-approve zero items ski n = refl
approve_all-approve (suc k) items ski n = approve_all-approve k (approve items ski n) ski n

lt→ltb : (a b : ℕ) → a < b → ltb a b ≡ true
lt→ltb a b h = ground arith

le→ltb : (a b : ℕ) → b ≤ a → ltb a b ≡ false
le→ltb a b h = ground arith

module _ (env : Environment) (ski : List ℕ) (n : ℕ) where
  message-approved_by :
      (k : ℕ) (w : World) (p : PendingWrite)
      → get_message env w (approved_by k p) ≡ get_message env w p
  unfolding approved_by get_message
  message-approved_by zero w p = refl
  message-approved_by (suc k) w p = message-approved_by k w (add_approval p)

  module _ (fl : FeatureLocal) (w : World) (p : PendingWrite) (server : is_server fl.role ≡ true)
      (waiting : find fl.pending_write_requests ski n ≡ some p) where
    -- The feature with a number of approvals more of the request.
    abbrev pub counted : ℕ → FeatureLocal
    counted k = with_pending env fl (approve_all k fl.pending_write_requests ski n)

    pub try_early :
        (k : ℕ)
        → p.num_approvals + suc k < length fl.wr_approval_cbs
        → try_approve_write env (counted k) w (some ski) n
          ≡ (counted (suc k), w, EebusError.pending)
    unfolding try_approve_write
    try_early k h =
        rw
          (
            server,
            find-approve_all k fl.pending_write_requests ski n p waiting,
            lt→ltb (suc (approved_by k p).num_approvals) (length fl.wr_approval_cbs)
                (omega (arith, num-approved_by k p)),
            approve_all-approve k fl.pending_write_requests ski n,
          )
          refl

    pub try_last :
        (k : ℕ) (msg : Message)
        → length fl.wr_approval_cbs ≤ p.num_approvals + suc k
        → get_message env w p ≡ some msg
        → try_approve_write env (counted k) w (some ski) n
          ≡ removed env ski n (process_write_internal env (counted (suc k)) w msg)
    unfolding try_approve_write
    try_last k msg h e =
        rw
          (
            server,
            find-approve_all k fl.pending_write_requests ski n p waiting,
            le→ltb (suc (approved_by k p).num_approvals) (length fl.wr_approval_cbs)
                (omega (arith, num-approved_by k p)),
            approve_all-approve k fl.pending_write_requests ski n,
            message-approved_by k w p,
            e,
          )
          refl
