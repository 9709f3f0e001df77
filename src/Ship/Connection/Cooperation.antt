-- ===== src/Ship/Connection/Cooperation.antt =====
-- A connection with a cooperative peer: what its handlers make of the expected messages.
pub mod Steps
pub mod Established
use openeebus.Prelude.{
  ℕ, Bool, sym, subst, true, false, ◌≡◌, refl, ◌∙◌, Option, some, List, [], ◌∷◌, arith,
}
use openeebus.Common.Error.{EebusError, is_ok}
use openeebus.Ship.Types.{SmeState, ShipRole, ShipMessage}
use openeebus.Ship.Connection.{
  ShipConnection, Environment, Event, Arrival, QueueMessage, TrustDecision, set_sme_state,
  release_msg, stop_wait_for_ready, stop_send_prolongation, stop_prolongation_reply,
  start_wait_for_ready, send, serialize_and_send, receive, finish_wait, wait_loop, deliver,
  is_pending_listen, translate_as, take,
}

-- Every message can be encoded and is written.
pub record Reliable (env : Environment) : Type 0 where
  pub writes : (log : List Event) (bytes : List ℕ) → env.write log bytes ≡ true
  pub encode : ShipMessage → List ℕ
  pub encodes : (m : ShipMessage) → env.serialize m ≡ some (encode m)

-- An open connection in a state, with a received message and with messages to come.
pub record At (r : ShipRole) (s : SmeState) (m : List ℕ) (arrivals : List Arrival)
    (c : ShipConnection) : Type 0 where
  pub role : c.role ≡ r
  pub sme_state : c.sme_state ≡ s
  pub msg : c.msg ≡ m
  pub inbox : c.inbox ≡ arrivals
  pub trust_decision : c.trust_decision ≡ TrustDecision.undecided
  pub remote_hello_ready : c.remote_hello_ready ≡ false
  pub cancel : c.cancel ≡ false
  pub shutdown_once : c.shutdown_once ≡ false

-- A message of the peer, before which no timer fires.
abbrev pub delivered : List ℕ → Arrival
delivered bytes = record {
  message = QueueMessage.data_received bytes;
  wait_for_ready_fires = false;
  send_prolongation_request_fires = false;
  prolongation_request_reply_fires = false;
}

module _ {r : ShipRole} {s : SmeState} {m : List ℕ} {inbox : List Arrival} where
  pub move-At :
      {c : ShipConnection} (t : SmeState) → At r s m inbox c → At r t m inbox (set_sme_state c t)
  unfolding set_sme_state
  move-At t a = ground arith

  pub release-At : {c : ShipConnection} → At r s m inbox c → At r s [] inbox (release_msg c)
  unfolding release_msg
  release-At a = ground arith

  pub stop_wait-At :
      {c : ShipConnection} → At r s m inbox c → At r s m inbox (stop_wait_for_ready c)
  unfolding stop_wait_for_ready
  stop_wait-At a = ground arith

  pub stop_send-At :
      {c : ShipConnection} → At r s m inbox c → At r s m inbox (stop_send_prolongation c)
  unfolding stop_send_prolongation
  stop_send-At a = ground arith

  pub stop_reply-At :
      {c : ShipConnection} → At r s m inbox c → At r s m inbox (stop_prolongation_reply c)
  unfolding stop_prolongation_reply
  stop_reply-At a = ground arith

-- A call that succeeds, and its connection.
pub record Fine (r : ShipRole) (s : SmeState) (m : List ℕ) (inbox : List Arrival)
    (o : ShipConnection × EebusError) : Type 0 where
  pub at : At r s m inbox o.0
  pub ok : o.1 ≡ EebusError.ok

translate-Fine :
    {r : ShipRole} {s : SmeState} {m bytes : List ℕ} {rest : List Arrival} {c : ShipConnection}
    (d : TrustDecision)
    → d ≡ TrustDecision.undecided
    → At r s m rest c
    → Fine r s bytes rest (translate_as d c (QueueMessage.data_received bytes))
unfolding translate_as
translate-Fine TrustDecision.undecided h a = ground arith
translate-Fine _ h a = absurd (cc h)

data_deliver :
    (pending : Bool) (c : ShipConnection) (bytes : List ℕ)
    (more : ShipConnection × EebusError × QueueMessage)
    → deliver pending c (QueueMessage.data_received bytes) more
      ≡ (c, EebusError.ok, QueueMessage.data_received bytes)
unfolding deliver
data_deliver true c bytes more = refl
data_deliver false c bytes more = refl

module _ {r : ShipRole} {s : SmeState} {m : List ℕ} where
  take-At :
      {bytes : List ℕ} {rest : List Arrival} {c : ShipConnection}
      → At r s m (delivered bytes ∷ rest) c
      → At r s m rest (take c (delivered bytes) rest)
  unfolding take
  take-At a = ground arith

  loop-Fine :
      {bytes : List ℕ} {rest : List Arrival} {c : ShipConnection}
      → At r s m (delivered bytes ∷ rest) c
      → Fine r s bytes rest (finish_wait (wait_loop (delivered bytes ∷ rest) c))
  unfolding wait_loop finish_wait is_ok
  loop-Fine {bytes} {rest} {c} a =
      let taken = take c (delivered bytes) rest in
      subst (λ x. Fine r s bytes rest (finish_wait x))
        (sym (data_deliver (is_pending_listen c.sme_state) taken bytes (wait_loop rest taken)))
        (translate-Fine taken.trust_decision (unfold take in a.trust_decision)
          (stop_wait-At (take-At a)))

module _ (env : Environment) {r : ShipRole} {s : SmeState} {m : List ℕ} where
  pub send-Fine :
      {inbox : List Arrival} {c : ShipConnection} (rel : Reliable env) (bytes : List ℕ)
      → At r s m inbox c
      → Fine r s m inbox (send env c bytes)
  unfolding send
  send-Fine {c = c} rel bytes a = rw (rel.writes c.log bytes) (ground arith)

  pub serialize_and_send-Fine :
      {inbox : List Arrival} {c : ShipConnection} (rel : Reliable env) (x : ShipMessage)
      → At r s m inbox c
      → Fine r s m inbox (serialize_and_send env c x)
  unfolding serialize_and_send
  serialize_and_send-Fine {c = c} rel x a =
      rw (rel.encodes x, serialize_and_send) (send-Fine rel (rel.encode x) (ground arith))

  start-At :
      {inbox : List Arrival} {c : ShipConnection} (ms : ℕ)
      → At r s m inbox c
      → At r s m inbox (start_wait_for_ready env c ms)
  unfolding start_wait_for_ready
  start-At ms a = ground arith

  pub receive-Fine :
      {bytes : List ℕ} {rest : List Arrival} {c : ShipConnection} (ms : ℕ)
      → At r s m (delivered bytes ∷ rest) c
      → Fine r s bytes rest (receive env c ms)
  unfolding receive
  receive-Fine {bytes} {rest} {c} ms a =
      subst (λ l. Fine r s bytes rest (finish_wait (wait_loop l (start_wait_for_ready env c ms))))
        (sym a.inbox) (loop-Fine (start-At ms a))
