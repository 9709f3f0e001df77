-- ===== src/Spine/FeatureLocal/Approvals.antt =====
-- When a write that needs approval is carried out.
use openeebus.Prelude.{
  ℕ, zero, suc, ◌+◌, ◌≤◌, ◌<◌, ltb, if◌then◌else◌, true, false, ◌≡◌, refl, sym, ap, ◌∙◌, inl, inr,
  Bool-cases, none, some, List, [], ◌∷◌, ◌++◌, length, arith,
}
use openeebus.Common.Error.{EebusError, is_ok}
use openeebus.Spine.Device.{Feature, is_server, remote_feature}
use openeebus.Spine.Function.{Function, get_function, put_function, update_data, create_notify_cmd}
use openeebus.Spine.Message.{CommandClassifier, Message}
use openeebus.Spine.Pending.Write.{PendingWrite, find, approve, remove, is_write, add_approval}
use openeebus.Spine.Sender.{result_success, result_error}
use openeebus.Spine.FeatureLocal.{
  FeatureLocal, World, Remote, Environment, logged, send, remote_with_address, notified, published,
}
use openeebus.Spine.FeatureLocal.Approval.{
  Outcome, try_approve_write, get_message, process_write_internal, process_write_function_data,
  first_two, is_true, general_error,
}

module _ (ski : List ℕ) (n : ℕ) (q : PendingWrite) (behind : List PendingWrite)
    (named : is_write ski n q ≡ true) where
  find-at :
      (before : List PendingWrite)
      → find before ski n ≡ none
      → find (before ++ q ∷ behind) ski n ≡ some q
  unfolding find
  find-at [] h = rw named refl
  find-at (x ∷ xs) h = ground (arith, find-at xs)

  approve-at :
      (before : List PendingWrite)
      → find before ski n ≡ none
      → approve (before ++ q ∷ behind) ski n ≡ before ++ add_approval q ∷ behind
  unfolding find approve
  approve-at [] h = rw named refl
  approve-at (x ∷ xs) h = ground (arith, approve-at xs)

  remove-at :
      (before : List PendingWrite)
      → find before ski n ≡ none
      → remove (before ++ q ∷ behind) ski n ≡ before ++ behind
  unfolding find remove
  remove-at [] h = rw named refl
  remove-at (x ∷ xs) h = ground (arith, remove-at xs)

module _ (t : ℕ) (f : Function) (gs : List Function) (named : f.function_type ≡ t) where
  get_function-at :
      (fs : List Function) → get_function fs t ≡ none → get_function (fs ++ f ∷ gs) t ≡ some f
  unfolding get_function
  get_function-at [] h = ground arith
  get_function-at (x ∷ xs) h = ground (arith, get_function-at xs)

  put_function-at :
      (fs : List Function) (g : Function)
      → get_function fs t ≡ none
      → put_function (fs ++ f ∷ gs) t g ≡ fs ++ g ∷ gs
  unfolding get_function put_function
  put_function-at [] g h = ground arith
  put_function-at (x ∷ xs) g h = ground (arith, put_function-at xs g)

plus-zero : (a : ℕ) → a ≡ a + 0
plus-zero a = omega arith

plus-suc : (a b : ℕ) → a + suc b ≡ suc (a + b)
plus-suc a b = omega arith

lt→ltb : (a b : ℕ) → a < b → ltb a b ≡ true
lt→ltb a b h = ground arith

le→ltb : (a b : ℕ) → b ≤ a → ltb a b ≡ false
le→ltb a b h = ground arith

module _ (env : Environment) (ski : List ℕ) (n : ℕ) where
  -- The feature and the world after a number of calls of `FeatureLocalTryApproveWrite`.
  unfoldable pub approve_times : ℕ → FeatureLocal → World → FeatureLocal × World
  approve_times zero fl w = (fl, w)
  approve_times (suc k) fl w =
      let (fl', w') = approve_times k fl w in
      first_two env (try_approve_write env fl' w' (some ski) n)

  module _ (fl : FeatureLocal) (w : World) (p : PendingWrite) (before behind : List PendingWrite)
      (server : is_server fl.role ≡ true)
      (pending : fl.pending_write_requests ≡ before ++ p ∷ behind)
      (first : find before ski n ≡ none) (named : is_write ski n p ≡ true) where
    -- The feature with a number of approvals more of the request.
    abbrev pub counted : ℕ → FeatureLocal
    counted k = record fl {
      pending_write_requests = before ++ record p { num_approvals = p.num_approvals + k } ∷ behind;
    }

    try_early :
        (k : ℕ)
        → p.num_approvals + suc k < length fl.wr_approval_cbs
        → try_approve_write env (counted k) w (some ski) n
          ≡ (counted (suc k), w, EebusError.pending)
    unfolding try_approve_write is_write
    try_early k h =
        let q = record p { num_approvals = p.num_approvals + k } in
        rw
          (
            server,
            find-at ski n q behind named before first,
            lt→ltb (suc q.num_approvals) (length fl.wr_approval_cbs) (omega arith),
            approve-at ski n q behind named before first,
            plus-suc p.num_approvals k,
          )
          refl

    unapproved : fl ≡ counted 0
    unapproved =
        ap (λ items. record fl { pending_write_requests = items })
          (pending
            ∙ ap (λ (m : ℕ). before ++ record p { num_approvals = m } ∷ behind)
                (plus-zero p.num_approvals))

    times_early :
        (k : ℕ)
        → p.num_approvals + k < length fl.wr_approval_cbs
        → approve_times k fl w ≡ (counted k, w)
    unfolding approve_times
    times_early zero h = ap (λ x. first_two env (x, w, EebusError.ok)) unapproved
    times_early (suc k) h = rw (times_early k (omega arith), try_early k h) refl

    module _ (r : Remote) (feature : Feature) (fs gs : List Function) (f f' : Function)
        (err : EebusError) (known : remote_with_address w.remotes p.feature_address.device ≡ some r)
        (sender : remote_feature r.device p.feature_address ≡ some feature)
        (functions : fl.functions ≡ fs ++ f ∷ gs)
        (first_function : get_function fs p.cmd.data_choice_type_id ≡ none)
        (type : f.function_type ≡ p.cmd.data_choice_type_id)
        (update : update_data env.access f p.cmd.data_choice p.cmd.filter_partial
            p.cmd.filter_delete true
          ≡ (f', err)) where
      -- The subscribers have been notified, and the event has been published.
      abbrev pub announced : World
      announced =
          logged
            (logged w (
              notified fl.address
                (create_notify_cmd f' p.cmd.data_choice p.cmd.filter_partial p.cmd.filter_delete)))
            (published r.device.ski feature.address p.cmd.data_choice_type_id p.cmd.data_choice
              CommandClassifier.write)

      -- The peer is answered: an error, or the success if it asked for an answer.
      abbrev pub written : World
      written =
          if is_ok err
          then (if is_true env p.header.ack_request
              then (send announced r.device.ski (λ s.
                  result_success env.printable env.types s (some p.header) (some fl.address))).0
              else announced)
          else (send w r.device.ski (λ s.
              result_error env.printable env.types s (some p.header) (some fl.address)
                general_error)).0

      -- The feature with the function updated and without the request.
      abbrev pub done : FeatureLocal
      done = record fl { functions = fs ++ f' ∷ gs; pending_write_requests = before ++ behind }

      abbrev message : Message
      message = record {
        request_header = some p.header;
        cmd_classifier = p.cmd_classifier;
        cmd = some p.cmd;
        feature_remote = feature;
        ski = r.device.ski;
      }

      -- The outcome of the update, before the peer is answered.
      abbrev outcome : ℕ → Outcome
      outcome k =
          let fl' = record (counted k) { functions = fs ++ f' ∷ gs } in
          if is_ok err then (fl', announced, EebusError.ok) else (fl', w, err)

      function_written : (k : ℕ) → process_write_function_data env (counted k) w message ≡ outcome k
      unfolding process_write_function_data
      function_written k =
          rw
            (
              functions,
              get_function-at p.cmd.data_choice_type_id f gs type fs first_function,
              update,
              put_function-at p.cmd.data_choice_type_id f gs type fs f' first_function,
            )
            refl

      carried_out :
          (k : ℕ)
          → process_write_internal env (counted k) w message
            ≡ (record (counted k) { functions = fs ++ f' ∷ gs }, written, EebusError.ok)
      unfolding process_write_internal is_ok
      carried_out k = elim (Bool-cases (is_ok err)) [
        | inl t ↦ rw (function_written k, t) refl
        | inr e ↦ rw (function_written k, e, e) refl
      ]

      try_last :
          (k : ℕ)
          → length fl.wr_approval_cbs ≤ p.num_approvals + suc k
          → try_approve_write env (counted k) w (some ski) n ≡ (done, written, EebusError.ok)
      unfolding try_approve_write is_write get_message
      try_last k h =
          let q = record p { num_approvals = p.num_approvals + k } in
          rw
            (
              server,
              find-at ski n q behind named before first,
              le→ltb (suc q.num_approvals) (length fl.wr_approval_cbs) (omega arith),
              approve-at ski n q behind named before first,
              known,
              sender,
              sym (plus-suc p.num_approvals k),
              carried_out (suc k),
              remove-at ski n (record p { num_approvals = p.num_approvals + suc k }) behind named
                  before first,
            )
            refl

      -- A request to a server feature, the first of its SKI and number among those that are pending,
      -- that still lacks `k + 1` approvals, from a remote feature that is still known, for a function
      -- that the local feature has: `k` approvals leave the world as it is, and only count. The next
      -- one updates the data of the function, notifies the subscribers and publishes the event if the
      -- update succeeds, answers the peer with the error, or with the success if it asked for an
      -- answer, and removes this request and no other.
      pub approve_times-write :
          (k : ℕ)
          → p.num_approvals + suc k ≡ length fl.wr_approval_cbs
          → (approve_times k fl w ≡ (counted k, w)) × (approve_times (suc k) fl w ≡ (done, written))
      unfolding approve_times
      approve_times-write k h = (
        times_early k (omega arith),
        rw (times_early k (omega arith), try_last k (omega arith)) refl,
      )
