-- ===== src/Spine/FeatureLocal/Crossing.antt =====
-- Replies to a feature that reads from two devices.
use openeebus.Prelude.{
  ℕ, ◌+◌, ◌%◌, ◌^◌, ==_iff, if◌then◌else◌, true, false, ◌≡◌, refl, ap, ◌∙◌, Bool-cases, inl, inr,
  none, some, List, [], ◌∷◌, ◌++◌,
}
use openeebus.Common.Error.{EebusError, is_ok}
use openeebus.Spine.Address.{FeatureAddress, same_list, same_list_≡}
use openeebus.Spine.Device.{Feature}
use openeebus.Spine.Function.{Function, Operations, get_function, create_read_cmd, update_data}
use openeebus.Spine.Message.{CommandClassifier, Cmd, Datagram, Message, ReplyMessage}
use openeebus.Spine.Pending.{process_loop}
use openeebus.Spine.Pending.Reply.{PendingReply, ReplyCall, create, process, fire}
use openeebus.Spine.Pending.Reply
use openeebus.Spine.Sender.{Sender, Sent, read, send_spine_message}
use openeebus.Spine.FeatureLocal.{
  FeatureLocal, World, Remote, Environment, sender_of, put_sender, sent_by, replied,
}
use openeebus.Spine.FeatureLocal.Approval.{Outcome, content_of, type_of, partial_of, delete_of}
use openeebus.Spine.FeatureLocal.Exchange.{
  functions_of, remote_operations, send_counted, process_reply, reference_of, reply_after,
  update_from, update_remote_data, answer_reply,
}
use openeebus.Spine.FeatureLocal.Requests.{read_from_remote}

sender_of-put_sender :
    (rs : List Remote) (ski other : List ℕ) (s : Sender)
    → same_list ski other ≡ false
    → sender_of (put_sender rs ski s) other ≡ sender_of rs other
sender_of-put_sender [] ski other s h = refl
sender_of-put_sender (r ∷ rs) ski other s h = elim (Bool-cases (same_list r.device.ski ski)) [
  | inl y ↦
      let e = (same_list_≡ r.device.ski ski).0 y in
      let f : same_list r.device.ski other ≡ false = ap (λ x. same_list x other) e ∙ h in
      rw (y, f) refl
  | inr z ↦ rw z (
      ap (λ o. if same_list r.device.ski other then some r.sender else o)
        (sender_of-put_sender rs ski other s h))
]

-- The reply that a message is to a callback.
abbrev pub answer : Message → ℕ → ReplyMessage
answer msg n = record {
  msg_cnt_ref = n;
  function_data = content_of msg.cmd;
  function_type = type_of msg.cmd;
  feature_remote = some msg.feature_remote;
  ski = none;
}

module _ (env : Environment) (printable : (d : Datagram) → env.printable d ≡ true) where
  read-counted :
      (s : Sender) (src dst : FeatureAddress) (cmd : Cmd)
      → s.has_writer ≡ true
      → ((read env.printable s (some src) (some dst) (some cmd)).error ≡ EebusError.ok)
        × ((read env.printable s (some src) (some dst) (some cmd)).msg_cnt
            ≡ some ((s.msg_num + 1) % 2 ^ 64))
  unfolding read send_spine_message
  read-counted s src dst cmd w = rw (w, printable) (refl, refl)

  -- A read that is sent adds a pending reply under the number of the sender's next message.
  read_from_remote-pending :
      (fl : FeatureLocal) (w : World) (ski : List ℕ) (dest : Feature) (t cb : ℕ) (f : Function)
      (ops : Operations) (s : Sender)
      → get_function fl.functions t ≡ some f
      → remote_operations w dest.address t ≡ some ops
      → ops.read ≡ true
      → sender_of w.remotes ski ≡ some s
      → s.has_writer ≡ true
      → (sent : Sent) × (read_from_remote env fl w ski (some dest) t none (some cb) ≡ (
        record fl {
          pending_replies =
              Reply.add fl.pending_replies
                (create ((s.msg_num + 1) % 2 ^ 64) dest.address t none cb);
        },
        sent_by w ski sent,
        EebusError.ok,
      ))
  unfolding read_from_remote send_counted is_ok
  read_from_remote-pending fl w ski dest t cb f ops s local remote reads sender writer =
      let cmd = create_read_cmd f none in
      let (fine, number) = read-counted s fl.address dest.address cmd writer in
      (
        read env.printable s (some fl.address) (some dest.address) (some cmd),
        rw (remote, reads, local, sender, fine, number) refl,
      )

  -- A reply that refers to the first of two requests with the same number, whoever sent it.
  answer_first :
      (fl : FeatureLocal) (w : World) (msg : Message) (p q : PendingReply) (n : ℕ)
      → p.msg_cnt_ref ≡ n
      → env.again_reply (fire (answer msg n) p) ≡ []
      → answer_reply env (record fl { pending_replies = p ∷ q ∷ [] }) w msg none (some n) ≡ (
        record fl { pending_replies = q ∷ [] },
        record w { log = w.log ++ replied (fire (answer msg n) p) ∷ [] },
        EebusError.ok,
      )
  unfolding process process_loop
  answer_first fl w msg p q n e silent = rw ((==_iff p.msg_cnt_ref n).1 e, silent) refl

  update_from-ok :
      (w : World) (msg : Message) (g : Function)
      → get_function (functions_of w.caches msg.feature_remote.address) (type_of msg.cmd) ≡ some g
      → (update_data env.access g
          (content_of msg.cmd)
          (partial_of msg.cmd)
          (delete_of msg.cmd)
          true).1
        ≡ EebusError.ok
      → (update_from env w msg CommandClassifier.reply).1 ≡ EebusError.ok
  unfolding update_remote_data is_ok
  update_from-ok w msg g known fine = rw (known, fine) refl

  after_update :
      (fl : FeatureLocal) (msg : Message) (n : ℕ) (updated : World × EebusError)
      → updated.1 ≡ EebusError.ok
      → reference_of env msg.request_header ≡ some n
      → reply_after env fl msg updated ≡ answer_reply env fl updated.0 msg none (some n)
  unfolding is_ok
  after_update fl msg n (w, err) fine ref =
      ap
        (λ e.
          if is_ok e
          then answer_reply env fl w msg none (reference_of env msg.request_header)
          else (fl, w, e))
        fine
      ∙ ap (answer_reply env fl w msg none) ref

  module _ (fl : FeatureLocal) (w : World) (ski_a ski_b : List ℕ) (dest_a dest_b : Feature)
      (t a b : ℕ) where
    -- The feature without pending replies reads from one device and then from another.
    abbrev read_a : Outcome
    read_a =
        read_from_remote env (record fl { pending_replies = [] }) w ski_a (some dest_a) t none
          (some a)

    abbrev pub reads_both : Outcome
    reads_both = read_from_remote env read_a.0 read_a.1 ski_b (some dest_b) t none (some b)

    reads_both-pending :
        (f : Function) (ops_a ops_b : Operations) (sa sb : Sender)
        → get_function fl.functions t ≡ some f
        → remote_operations w dest_a.address t ≡ some ops_a
        → remote_operations w dest_b.address t ≡ some ops_b
        → ops_a.read ≡ true
        → ops_b.read ≡ true
        → same_list ski_a ski_b ≡ false
        → sender_of w.remotes ski_a ≡ some sa
        → sender_of w.remotes ski_b ≡ some sb
        → sa.has_writer ≡ true
        → sb.has_writer ≡ true
        → (sent_a sent_b : Sent) × (reads_both ≡ (
          record fl {
            pending_replies =
                create ((sa.msg_num + 1) % 2 ^ 64) dest_a.address t none a
                ∷ create ((sb.msg_num + 1) % 2 ^ 64) dest_b.address t none b
                ∷ [];
          },
          sent_by (sent_by w ski_a sent_a) ski_b sent_b,
          EebusError.ok,
        ))
    unfolding Reply.add remote_operations
    reads_both-pending f ops_a ops_b sa sb local remote_a remote_b may_a may_b differ has_a has_b
          up_a up_b =
        let (sent_a, step_a) =
          read_from_remote-pending (record fl { pending_replies = [] }) w ski_a dest_a t a f ops_a
            sa local remote_a may_a has_a up_a in
        let (sent_b, step_b) =
          read_from_remote-pending
            (record fl {
              pending_replies = create ((sa.msg_num + 1) % 2 ^ 64) dest_a.address t none a ∷ [];
            })
            (sent_by w ski_a sent_a) ski_b dest_b t b f ops_b sb local remote_b may_b
            (sender_of-put_sender w.remotes ski_a ski_b sent_a.sender differ ∙ has_b) up_b in
        (
          sent_a,
          sent_b,
          ap (λ o. read_from_remote env o.0 o.1 ski_b (some dest_b) t none (some b)) step_a
              ∙ step_b,
        )

    -- A feature without pending replies reads from two devices whose senders are at the same number,
    -- which is so when both have just connected; the callbacks request nothing more. The reply of
    -- the second device is then handed to the callback of the first request, with the address of
    -- the first device, and the second request stays pending.
    pub reply-crossed :
        (f : Function) (ops_a ops_b : Operations) (sa sb : Sender) (msg : Message) (g : Function)
        → get_function fl.functions t ≡ some f
        → remote_operations w dest_a.address t ≡ some ops_a
        → remote_operations w dest_b.address t ≡ some ops_b
        → ops_a.read ≡ true
        → ops_b.read ≡ true
        → same_list ski_a ski_b ≡ false
        → sender_of w.remotes ski_a ≡ some sa
        → sender_of w.remotes ski_b ≡ some sb
        → sa.has_writer ≡ true
        → sb.has_writer ≡ true
        → sa.msg_num ≡ sb.msg_num
        → reference_of env msg.request_header ≡ some ((sb.msg_num + 1) % 2 ^ 64)
        → get_function (functions_of w.caches msg.feature_remote.address) (type_of msg.cmd) ≡ some g
        → (update_data env.access g
            (content_of msg.cmd)
            (partial_of msg.cmd)
            (delete_of msg.cmd)
            true).1
          ≡ EebusError.ok
        → ((c : ReplyCall) → env.again_reply c ≡ [])
        → (w' : World) × (process_reply env reads_both.0 reads_both.1 msg ≡ (
          record fl {
            pending_replies = create ((sb.msg_num + 1) % 2 ^ 64) dest_b.address t none b ∷ [];
          },
          record w' {
            log =
                w'.log
                ++ replied (
                    fire
                      (answer msg ((sb.msg_num + 1) % 2 ^ 64))
                      (create ((sa.msg_num + 1) % 2 ^ 64) dest_a.address t none a))
                  ∷ [];
          },
          EebusError.ok,
        ))
    unfolding process_reply create
    reply-crossed f ops_a ops_b sa sb msg g local remote_a remote_b may_a may_b differ has_a has_b
          up_a up_b same ref kept fine silent =
        let n = (sb.msg_num + 1) % 2 ^ 64 in
        let (sent_a, sent_b, both) =
          reads_both-pending f ops_a ops_b sa sb local remote_a remote_b may_a may_b differ has_a
            has_b up_a up_b in
        let w2 = sent_by (sent_by w ski_a sent_a) ski_b sent_b in
        let updated = update_from env w2 msg CommandClassifier.reply in
        (
          updated.0,
          ap (λ o. process_reply env o.0 o.1 msg) both
              ∙ (after_update _ msg n updated (update_from-ok w2 msg g kept fine) ref
                  ∙ answer_first fl updated.0 msg
                      (create ((sa.msg_num + 1) % 2 ^ 64) dest_a.address t none a)
                      (create n dest_b.address t none b) n (ap (λ k. (k + 1) % 2 ^ 64) same)
                      (silent _)),
        )
