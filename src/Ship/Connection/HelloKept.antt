-- ===== src/Ship/Connection/HelloKept.antt =====
-- What the helpers of the "hello" phase leave alone.
use openeebus.Prelude.{ℕ, Bool, true, Option, none, some, arith}
use openeebus.Ship.Types.{HelloPhase, send_hello}
use openeebus.Ship.Connection.{ShipConnection, Environment, TrustDecision}
use openeebus.Ship.Connection.Kept.{Kept, start_reply-Kept, serialize_and_send-Kept}
use openeebus.Ship.Connection.Hello.{send_hello_msg, accept_decision, await_reply}

module _ (env : Environment) where
  pub send_hello-Kept :
      {c d : ShipConnection} (phase : HelloPhase) (ms : ℕ) (prolongation : Bool)
      → Kept c d
      → Kept c (send_hello_msg env d phase ms prolongation).0
  unfolding send_hello_msg
  send_hello-Kept phase ms prolongation k = serialize_and_send-Kept env (send_hello _) k

pub noted-Kept : {c d : ShipConnection} → Kept c d → Kept c (record d { remote_hello_ready = true })
noted-Kept k = ground arith

pub waiting-Kept :
    {c d : ShipConnection} (w : ℕ)
    → Kept c d
    → Kept c (record d { last_received_waiting_value = w })
waiting-Kept w k = ground arith

pub undecided-Kept :
    {c d : ShipConnection}
    → Kept c d
    → Kept c (record d {
      trust_decision = TrustDecision.undecided;
      trust_decision_id = 0;
      trust_accept_cb = none;
    })
undecided-Kept k = ground arith

module _ (env : Environment) where
  pub accept-Kept :
      {c d : ShipConnection} (id : ℕ) (cb : Option ℕ)
      → Kept c d
      → Kept c (accept_decision env d id cb).0
  unfolding accept_decision
  accept-Kept id none k = ground arith
  accept-Kept id (some cb) k = ground arith

  pub await_reply-Kept : {c d : ShipConnection} → Kept c d → Kept c (await_reply env d)
  unfolding await_reply
  await_reply-Kept k = search (start_reply-Kept, waiting-Kept)
