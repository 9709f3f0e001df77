-- ===== src/Ship/Connection/Kept.antt =====
-- What the shared operations of a connection leave alone.
use openeebus.Prelude.{
  ℕ, suc, Bool, true, false, ◌≡◌, ◌∙◌, Option, List, [], ◌∷◌, inl, inr, Bool-cases, arith,
}
use openeebus.Common.Error.{EebusError, is_ok}
use openeebus.Ship.Types.{ShipMessage}
use openeebus.Ship.Connection.{
  ShipConnection, Environment, Event, Arrival, QueueMessage, TrustDecision, decide,
  is_pending_listen, take, deliver, wait_loop, translate_as, finish_wait, receive,
  start_wait_for_ready, start_send_prolongation, start_prolongation_reply, stop_wait_for_ready,
  stop_send_prolongation, stop_prolongation_reply, release_msg, send, serialize_and_send,
}

-- Whether some event settles that the peer is trusted: it is paired, or its approval was accepted.
abbrev pub trusted : List Event → Bool
trusted [] = false
trusted (Event.paired_answer true ∷ l) = true
trusted (Event.accept_answer _ true ∷ l) = true
trusted (_ ∷ l) = trusted l

-- How often the end of the connection was reported.
abbrev pub closings : List Event → ℕ
closings [] = 0
closings (Event.connection_closed _ ∷ l) = suc (closings l)
closings (_ ∷ l) = closings l

-- From `c` to `d` the machine has not moved, the connection is as open as it was, its end has not
-- been reported, and trust has not been lost.
pub record Kept (c d : ShipConnection) : Type 0 where
  pub role : d.role ≡ c.role
  pub sme_state : d.sme_state ≡ c.sme_state
  pub shutdown_once : d.shutdown_once ≡ c.shutdown_once
  pub cancel : d.cancel ≡ c.cancel
  pub trusted : trusted c.log ≡ true → trusted d.log ≡ true
  pub closings : closings d.log ≡ closings c.log

pub take-Kept : (c : ShipConnection) (a : Arrival) (rest : List Arrival) → Kept c (take c a rest)
unfolding take
take-Kept c a rest = ground arith

pub Kept-trans : {c d e : ShipConnection} → Kept c d → Kept d e → Kept c e
Kept-trans k l = record {
  role = l.role ∙ k.role;
  sme_state = l.sme_state ∙ k.sme_state;
  shutdown_once = l.shutdown_once ∙ k.shutdown_once;
  cancel = l.cancel ∙ k.cancel;
  trusted = λ t. l.trusted (k.trusted t);
  closings = l.closings ∙ k.closings;
}

decide-Kept :
    (c d : ShipConnection) (decision : TrustDecision) (id : ℕ) (cb : Option ℕ)
    → Kept c d
    → Kept c (decide d decision id cb)
decide-Kept c d decision id cb k = record {
  role = k.role;
  sme_state = k.sme_state;
  shutdown_once = k.shutdown_once;
  cancel = k.cancel;
  trusted = k.trusted;
  closings = k.closings;
}

deliver-Kept :
    (pending : Bool) (c d : ShipConnection) (m : QueueMessage)
    (more : ShipConnection × EebusError × QueueMessage)
    → Kept c d
    → Kept c more.0
    → Kept c (deliver pending d m more).0
unfolding deliver
deliver-Kept true c d (QueueMessage.trust_granted id cb) more k l = decide-Kept c d _ id cb k
deliver-Kept false c d (QueueMessage.trust_granted id cb) more k l = l
deliver-Kept true c d (QueueMessage.trust_denied id cb) more k l = decide-Kept c d _ id cb k
deliver-Kept false c d (QueueMessage.trust_denied id cb) more k l = l
deliver-Kept _ c d m more k l = k

wait_loop-Kept : (arrivals : List Arrival) (c : ShipConnection) → Kept c (wait_loop arrivals c).0
unfolding wait_loop
wait_loop-Kept [] c = ground arith
wait_loop-Kept (a ∷ rest) c =
    deliver-Kept (is_pending_listen c.sme_state) c (take c a rest) a.message
      (wait_loop rest (take c a rest)) (take-Kept c a rest)
      (Kept-trans (take-Kept c a rest) (wait_loop-Kept rest (take c a rest)))

translate-Kept :
    (c d : ShipConnection) (decision : TrustDecision) (m : QueueMessage)
    → Kept c d
    → Kept c (translate_as decision d m).0
unfolding translate_as
translate-Kept c d TrustDecision.undecided (QueueMessage.data_received bytes) k = ground arith
translate-Kept c d _ _ k = k

pub Kept-refl : {c : ShipConnection} → Kept c c
Kept-refl = ground arith

pub stop_wait-Kept : {c d : ShipConnection} → Kept c d → Kept c (stop_wait_for_ready d)
unfolding stop_wait_for_ready
stop_wait-Kept k = ground arith

pub stop_send-Kept : {c d : ShipConnection} → Kept c d → Kept c (stop_send_prolongation d)
unfolding stop_send_prolongation
stop_send-Kept k = ground arith

pub stop_reply-Kept : {c d : ShipConnection} → Kept c d → Kept c (stop_prolongation_reply d)
unfolding stop_prolongation_reply
stop_reply-Kept k = ground arith

pub release-Kept : {c d : ShipConnection} → Kept c d → Kept c (release_msg d)
unfolding release_msg
release-Kept k = ground arith

finish-Kept :
    (c : ShipConnection) (r : ShipConnection × EebusError × QueueMessage)
    → Kept c r.0
    → Kept c (finish_wait r).0
unfolding finish_wait
finish-Kept c r k = elim (Bool-cases (is_ok r.1)) [
  | inl o ↦
      rw o (translate-Kept c (stop_wait_for_ready r.0) r.0.trust_decision r.2 (stop_wait-Kept k))
  | inr e ↦ rw e (stop_wait-Kept k)
]

module _ (env : Environment) where
  pub start_wait-Kept :
      {c d : ShipConnection} (ms : ℕ) → Kept c d → Kept c (start_wait_for_ready env d ms)
  unfolding start_wait_for_ready
  start_wait-Kept ms k = ground arith

  pub start_send-Kept :
      {c d : ShipConnection} (ms : ℕ) → Kept c d → Kept c (start_send_prolongation env d ms)
  unfolding start_send_prolongation
  start_send-Kept ms k = ground arith

  pub start_reply-Kept :
      {c d : ShipConnection} (ms : ℕ) → Kept c d → Kept c (start_prolongation_reply env d ms)
  unfolding start_prolongation_reply
  start_reply-Kept ms k = ground arith

  pub send-Kept : {c d : ShipConnection} (bytes : List ℕ) → Kept c d → Kept c (send env d bytes).0
  unfolding send
  send-Kept bytes k = ground arith

  pub serialize_and_send-Kept :
      {c d : ShipConnection} (m : ShipMessage) → Kept c d → Kept c (serialize_and_send env d m).0
  unfolding serialize_and_send send
  serialize_and_send-Kept m k = ground arith

  -- Receiving a message leaves the state of the machine alone.
  pub receive-Kept : {c d : ShipConnection} (ms : ℕ) → Kept c d → Kept c (receive env d ms).0
  unfolding receive
  receive-Kept {d = d} ms k = Kept-trans k (
      finish-Kept d (wait_loop d.inbox (start_wait_for_ready env d ms)) (
        Kept-trans (start_wait-Kept ms Kept-refl)
          (wait_loop-Kept d.inbox (start_wait_for_ready env d ms))))

pub ruleset keeps = (
  Kept-refl, stop_wait-Kept, stop_send-Kept, stop_reply-Kept, release-Kept, start_wait-Kept,
  start_send-Kept, start_reply-Kept, send-Kept, serialize_and_send-Kept, receive-Kept,
)
