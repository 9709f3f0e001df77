-- ===== src/Spine/FeatureLocal/Repeated.antt =====
-- A write request that its sender repeats while it is pending.
use openeebus.Prelude.{
  ℕ, if◌then◌else◌, true, ◌≡◌, refl, ap, ◌∙◌, none, some, List, [], ◌∷◌, ◌++◌, length, arith,
}
use openeebus.Common.Error.{EebusError}
use openeebus.Spine.Address.{same_list_≡}
use openeebus.Spine.Device.{Feature, is_server}
use openeebus.Spine.Message.{CommandClassifier, Message, Header, Cmd}
use openeebus.Spine.Pending.Write.{PendingWrite, create, find, add, approve, is_write, add_approval}
use openeebus.Spine.FeatureLocal.{FeatureLocal, World, Environment, Decision, logged, asked}
use openeebus.Spine.FeatureLocal.Approval.{
  Outcome, with_pending, removed, first_two, ended, is_empty, act, get_message,
  process_write_internal, process_write, ask, add_request, try_approve_write,
}
use openeebus.Spine.FeatureLocal.Counting.{try_early, try_last, find-approve, approve_all}

find-snoc :
    (items : List PendingWrite) (ski : List ℕ) (n : ℕ) (p : PendingWrite)
    → find items ski n ≡ none
    → is_write ski n p ≡ true
    → find (items ++ p ∷ []) ski n ≡ some p
unfolding find
find-snoc [] ski n p h e = rw e refl
find-snoc (q ∷ qs) ski n p h e = ground (arith, find-snoc qs ski n p)

module _ (env : Environment) (fl : FeatureLocal) (w : World) (base : Header) (cmd : Cmd)
    (remote : Feature) (ski : List ℕ) (n a b : ℕ) where
  -- A write request with a number and a command.
  abbrev header : Header
  header = record base { msg_cnt = some n }

  abbrev pub repeated : Message
  repeated = record {
    request_header = some header;
    cmd_classifier = CommandClassifier.write;
    cmd = some cmd;
    feature_remote = remote;
    ski = ski;
  }

  -- The pending request of the message.
  abbrev pub request : PendingWrite
  request = create ski n CommandClassifier.write cmd header remote.address

  is_write-request : is_write ski n request ≡ true
  unfolding is_write create
  is_write-request = rw ((same_list_≡ ski ski).1 refl) (ground arith)

  -- The feature with the request added, and with it approved once.
  abbrev holding : FeatureLocal
  holding = with_pending env fl (fl.pending_write_requests ++ request ∷ [])

  abbrev pub holding_one : FeatureLocal
  holding_one = with_pending env fl (approve (fl.pending_write_requests ++ request ∷ []) ski n)

  abbrev pub holding_two : FeatureLocal
  holding_two =
      with_pending env fl
        (approve (approve (fl.pending_write_requests ++ request ∷ []) ski n) ski n)

  -- The other callback is asked after an outcome.
  abbrev pub then_asked : Outcome → Outcome
  then_asked (fl', w', err) = (fl', logged w' (asked b), EebusError.ok)

  module _ (server : is_server fl.role ≡ true) (two : fl.wr_approval_cbs ≡ a ∷ b ∷ [])
      (new : find fl.pending_write_requests ski n ≡ none)
      (a_approves : env.decide a repeated ≡ Decision.approved)
      (b_waits : env.decide b repeated ≡ Decision.later) where
    added : add_request env fl repeated ≡ holding
    unfolding add_request add create
    added = rw new refl

    waiting : find holding.pending_write_requests ski n ≡ some request
    waiting = find-snoc fl.pending_write_requests ski n request new is_write-request

    waiting_one : find holding_one.pending_write_requests ski n ≡ some (add_approval request)
    waiting_one = find-approve holding.pending_write_requests ski n request waiting

    added_again : add_request env holding_one repeated ≡ holding_one
    unfolding add_request add create
    added_again = rw waiting_one refl

    asks :
        (f : FeatureLocal) (w' : World)
        → f.wr_approval_cbs ≡ fl.wr_approval_cbs
        → process_write env f w' repeated
          ≡ ended env (ask env (a ∷ b ∷ []) repeated (add_request env f repeated, w'))
    unfolding process_write
    asks f w' e =
        ap
          (λ cbs.
            if is_empty env cbs
            then process_write_internal env f w' repeated
            else ended env (ask env cbs repeated (add_request env f repeated, w')))
          (e ∙ two)

    one_approval :
        (w' : World)
        → try_approve_write env holding w' (some ski) n ≡ (holding_one, w', EebusError.pending)
    unfolding create approve_all
    one_approval w' =
        try_early env ski n holding w' request server waiting 0 (omega (arith, ap length two))

    asking : FeatureLocal → World → Outcome
    asking f w' = ended env (ask env (a ∷ b ∷ []) repeated (f, w'))

    b_asked : (o : Outcome) → ended env (ask env (b ∷ []) repeated (first_two env o)) ≡ then_asked o
    unfolding ask
    b_asked (f, w', e) =
        ap (λ d. ended env (act env f (logged w' (asked b)) repeated (some n) d)) b_waits

    both_asked :
        (f : FeatureLocal) (w' : World)
        → asking f w' ≡ then_asked (try_approve_write env f (logged w' (asked a)) (some ski) n)
    unfolding asking ask
    both_asked f w' =
        ap
          (λ d.
            ended env
              (ask env (b ∷ []) repeated (act env f (logged w' (asked a)) repeated (some n) d)))
          a_approves
        ∙ b_asked (try_approve_write env f (logged w' (asked a)) (some ski) n)

    first :
        process_write env fl w repeated
        ≡ (holding_one, logged (logged w (asked a)) (asked b), EebusError.ok)
    unfolding asking
    first =
        asks fl w refl
        ∙ (ap (λ f. asking f w) added
            ∙ (both_asked holding w ∙ ap then_asked (one_approval (logged w (asked a)))))

    two_approvals :
        (w' : World) (msg : Message)
        → get_message env w' (add_approval request) ≡ some msg
        → try_approve_write env holding_one w' (some ski) n
          ≡ removed env ski n (process_write_internal env holding_two w' msg)
    unfolding create approve_all
    two_approvals w' msg known =
        try_last env ski n holding_one w' (add_approval request) server waiting_one 0 msg
          (omega (arith, ap length two)) known

    -- A message that waits for the approval of two callbacks, of which the first approves whenever
    -- it is asked and the second never: when the peer sends the message a second time with the same
    -- number, the write is carried out, although the second callback has not approved it.
    pub repeated-written :
        (msg : Message)
        → get_message env w (add_approval request) ≡ some msg
        → (process_write env fl w repeated
            ≡ (holding_one, logged (logged w (asked a)) (asked b), EebusError.ok))
          × (process_write env holding_one (logged (logged w (asked a)) (asked b)) repeated
              ≡ then_asked (
                  removed env ski n (
                    process_write_internal env holding_two
                      (logged (logged (logged w (asked a)) (asked b)) (asked a))
                      msg)))
    unfolding asking get_message
    repeated-written msg known =
        let w' = logged (logged w (asked a)) (asked b) in
        (
          first,
          asks holding_one w' refl
              ∙ (ap (λ f. asking f w') added_again
                  ∙ (both_asked holding_one w'
                      ∙ ap then_asked (two_approvals (logged w' (asked a)) msg known))),
        )
