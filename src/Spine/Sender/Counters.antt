-- ===== src/Spine/Sender/Counters.antt =====
-- The numbers that a sender gives its messages over any sequence of calls.
use openeebus.Prelude.{
  ℕ, suc, ◌+◌, ◌%◌, ◌^◌, ◌≤◌, ◌<◌, Bool, true, false, ◌≡◌, refl, Bool-cases, inl, inr, Option, none,
  some, List, [], ◌∷◌, ◌++◌, length, arith,
}
use openeebus.Spine.Address.{FeatureAddress}
use openeebus.Spine.Message.{CommandClassifier, Header, Content, Cmd, Datagram}
use openeebus.Spine.Sender.{
  Sender, Sent, FunctionTypes, write_datagram, send_spine_message, read, notify, write, reply,
  reply_to, reply_from, send_result, result_from, result_success, result_error,
  send_node_management_call, call, call_subscribe, call_unsubscribe, call_bind, call_unbind,
}

-- A call of the sender.
pub data Request : Type 0 where
  read_request notify_request write_request :
      Option FeatureAddress → Option FeatureAddress → Option Cmd → Request
  reply_request : Option Header → Option FeatureAddress → Option Cmd → Request
  subscribe bind : Option FeatureAddress → Option FeatureAddress → ℕ → Request
  unsubscribe unbind : Option FeatureAddress → Option FeatureAddress → Request
  success : Option Header → Option FeatureAddress → Request
  failure : Option Header → Option FeatureAddress → ℕ → Request

abbrev counter_of : Option Header → Option ℕ
counter_of none = none
counter_of (some h) = h.msg_cnt

-- The datagrams carry numbers that rise strictly from above `lo` to `hi` at most.
abbrev pub Rising : ℕ → List Datagram → ℕ → Type 0
Rising lo [] hi = lo ≤ hi
Rising lo (d ∷ ds) hi = (n : ℕ) × (counter_of d.header ≡ some n) × (lo < n) × Rising n ds hi

Rising-le : (lo lo' hi : ℕ) (ds : List Datagram) → lo' ≤ lo → Rising lo ds hi → Rising lo' ds hi
Rising-le lo lo' hi [] h r = omega arith
Rising-le lo lo' hi (d ∷ ds) h (n, e, lt, r) = (n, e, omega arith, r)

Rising-append :
    (lo mid hi : ℕ) (ds es : List Datagram)
    → Rising lo ds mid
    → Rising mid es hi
    → Rising lo (ds ++ es) hi
Rising-append lo mid hi [] es h r = Rising-le mid lo hi es h r
Rising-append lo mid hi (d ∷ ds) es (n, e, lt, r) r' = (n, e, lt, Rising-append n mid hi ds es r r')

-- A call takes one number at most, and its message carries it.
abbrev Numbered : ℕ → Sent → Type 0
Numbered lo sent = Rising lo sent.written sent.sender.msg_num × (sent.sender.msg_num ≤ suc lo)

abbrev NumberedOption : ℕ → Option Sent → Type 0
NumberedOption lo none = Unit {0}
NumberedOption lo (some sent) = Numbered lo sent

module _ (printable : Datagram → Bool) where
  write_datagram-Numbered :
      (s : Sender) (lo : ℕ) (d : Datagram)
      → s.msg_num ≡ suc lo
      → counter_of d.header ≡ some s.msg_num
      → Numbered lo (write_datagram printable s s.msg_num d)
  write_datagram-Numbered s lo d e f = elim (Bool-cases (printable d)) [
    | inl y ↦ rw y ((s.msg_num, f, omega arith, omega arith), omega arith)
    | inr z ↦ rw z (omega arith, omega arith)
  ]

  send-Numbered :
      (s : Sender) (classifier : CommandClassifier) (src dst : Option FeatureAddress)
      (ref : Option ℕ) (ack : Bool) (cmd : Option Cmd)
      → s.msg_num + 1 < 2 ^ 64
      → Numbered s.msg_num (send_spine_message printable s classifier src dst ref ack cmd)
  unfolding send_spine_message
  send-Numbered s classifier none dst ref ack cmd h = (omega arith, omega arith)
  send-Numbered s classifier (some src) none ref ack cmd h = (omega arith, omega arith)
  send-Numbered s classifier (some src) (some dst) ref ack none h = (omega arith, omega arith)
  send-Numbered s classifier (some src) (some dst) ref ack (some cmd) h =
      elim (Bool-cases s.has_writer) [
        | inl y ↦ rw y (
            write_datagram-Numbered
              (record { msg_num = (s.msg_num + 1) % 2 ^ 64; has_writer = true }) s.msg_num _
              (omega arith) refl)
        | inr z ↦ rw z (omega arith, omega arith)
      ]

  reply-Numbered :
      (s : Sender) (header : Option Header) (own : Option FeatureAddress) (cmd : Option Cmd)
      → s.msg_num + 1 < 2 ^ 64
      → NumberedOption s.msg_num (reply printable s header own cmd)
  unfolding reply
  reply-Numbered s none own cmd h = (omega arith, omega arith)
  reply-Numbered s (some header) none cmd h = (omega arith, omega arith)
  reply-Numbered s (some header) (some own) cmd h = to header.src_addr
    where
      from :
          (dest : Option FeatureAddress)
          → NumberedOption s.msg_num (reply_from printable s dest header own cmd)
      from none = tt
      from (some dest) =
          send-Numbered s CommandClassifier.reply (some (record dest { device = own.device }))
            header.src_addr header.msg_cnt false cmd h

      to :
          (src : Option FeatureAddress)
          → NumberedOption s.msg_num (reply_to printable s src header own cmd)
      to none = (omega arith, omega arith)
      to (some src) = from header.dest_addr

  module _ (types : FunctionTypes) where
    result-Numbered :
        (s : Sender) (header : Option Header) (own : Option FeatureAddress) (err : Option ℕ)
        → s.msg_num + 1 < 2 ^ 64
        → Numbered s.msg_num (send_result printable types s header own err)
    unfolding send_result
    result-Numbered s none own err h = (omega arith, omega arith)
    result-Numbered s (some header) none err h = (omega arith, omega arith)
    result-Numbered s (some header) (some own) err h = from header.dest_addr _
      where
        from :
            (dest : Option FeatureAddress) (cmd : Cmd)
            → Numbered s.msg_num (result_from printable s dest header own cmd)
        from none cmd = (omega arith, omega arith)
        from (some dest) cmd =
            send-Numbered s CommandClassifier.result (some (record dest { device = own.device }))
              header.src_addr header.msg_cnt false (some cmd) h

    call-Numbered :
        (content : FeatureAddress → FeatureAddress → Content) (type_id : ℕ) (s : Sender)
        (src dst : Option FeatureAddress)
        → s.msg_num + 1 < 2 ^ 64
        → Numbered s.msg_num (call printable types content type_id s src dst)
    unfolding send_node_management_call
    call-Numbered content type_id s none dst h = (omega arith, omega arith)
    call-Numbered content type_id s (some src) none h = (omega arith, omega arith)
    call-Numbered content type_id s (some src) (some dst) h =
        send-Numbered s CommandClassifier.call _ _ none true _ h

    -- A call; `none` is a crash.
    unfoldable pub perform : Sender → Request → Option Sent
    perform s (read_request src dst cmd) = some (read printable s src dst cmd)
    perform s (notify_request src dst cmd) = some (notify printable s src dst cmd)
    perform s (write_request src dst cmd) = some (write printable s src dst cmd)
    perform s (reply_request header own cmd) = reply printable s header own cmd
    perform s (subscribe src dst t) = some (call_subscribe printable types s src dst t)
    perform s (bind src dst t) = some (call_bind printable types s src dst t)
    perform s (unsubscribe src dst) = some (call_unsubscribe printable types s src dst)
    perform s (unbind src dst) = some (call_unbind printable types s src dst)
    perform s (success header own) = some (result_success printable types s header own)
    perform s (failure header own err) = some (result_error printable types s header own err)

    perform-Numbered :
        (s : Sender) (r : Request) → s.msg_num + 1 < 2 ^ 64 → NumberedOption s.msg_num (perform s r)
    unfolding perform read notify write call_subscribe call_bind call_unsubscribe call_unbind
        result_success result_error
    perform-Numbered s (read_request src dst cmd) h = send-Numbered s _ src dst none false cmd h
    perform-Numbered s (notify_request src dst cmd) h = send-Numbered s _ src dst none false cmd h
    perform-Numbered s (write_request src dst cmd) h = send-Numbered s _ src dst none true cmd h
    perform-Numbered s (reply_request header own cmd) h = reply-Numbered s header own cmd h
    perform-Numbered s (subscribe src dst t) h = call-Numbered _ _ s src dst h
    perform-Numbered s (bind src dst t) h = call-Numbered _ _ s src dst h
    perform-Numbered s (unsubscribe src dst) h = call-Numbered _ _ s src dst h
    perform-Numbered s (unbind src dst) h = call-Numbered _ _ s src dst h
    perform-Numbered s (success header own) h = result-Numbered s header own none h
    perform-Numbered s (failure header own err) h = result-Numbered s header own (some err) h

    -- A sequence of calls: what was written up to its end or to a crash, and the last number.
    abbrev proceed : Option Sent → (Sender → List Datagram × ℕ) → ℕ → List Datagram × ℕ
    proceed none later n = ([], n)
    proceed (some sent) later n =
        let (rest, last) = later sent.sender in (sent.written ++ rest, last)

    unfoldable pub run : List Request → Sender → List Datagram × ℕ
    run [] s = ([], s.msg_num)
    run (r ∷ rs) s = proceed (perform s r) (run rs) s.msg_num

    proceed-Rising :
        (later : Sender → List Datagram × ℕ) (k : ℕ) (s : Sender) (o : Option Sent)
        → ((s' : Sender) → s'.msg_num + k < 2 ^ 64 → Rising s'.msg_num (later s').0 (later s').1)
        → NumberedOption s.msg_num o
        → s.msg_num + suc k < 2 ^ 64
        → Rising s.msg_num (proceed o later s.msg_num).0 (proceed o later s.msg_num).1
    proceed-Rising later k s none ih n h = omega arith
    proceed-Rising later k s (some sent) ih (rises, one) h =
        Rising-append s.msg_num sent.sender.msg_num (later sent.sender).1 sent.written
          (later sent.sender).0 rises (ih sent.sender (omega arith))

    -- In any sequence of calls that stays below 2 ^ 64 messages, whatever fails among them, the
    -- messages that are written carry numbers that rise strictly from above that of the last
    -- message before, so that no number is used twice.
    pub run-Rising :
        (rs : List Request) (s : Sender)
        → s.msg_num + length rs < 2 ^ 64
        → Rising s.msg_num (run rs s).0 (run rs s).1
    unfolding run
    run-Rising [] s h = omega arith
    run-Rising (r ∷ rs) s h =
        proceed-Rising (run rs) (length rs) s (perform s r) (λ s'. run-Rising rs s')
          (perform-Numbered s r (omega arith)) (omega arith)
