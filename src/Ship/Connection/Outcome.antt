-- ===== src/Ship/Connection/Outcome.antt =====
-- How a handler ends: the machine has moved along an edge, or the connection has been closed.
use openeebus.Prelude.{
  ℕ, suc, if◌then◌else◌, Bool, true, false, ◌≡◌, refl, sym, subst, ◌⊎◌, Option, some, String, arith,
}
use openeebus.Ship.Types.{SmeState}
use openeebus.Ship.Connection.{
  ShipConnection, Environment, set_sme_state, release_msg, serialize_and_send, close_connection,
  close_with_error, stop_wait_for_ready, stop_send_prolongation, stop_prolongation_reply, send,
}
use openeebus.Ship.Connection.Kept.{trusted, closings, Kept}

-- The machine is in a state that `E` admits, and the connection is as open as before.
pub record Moved (E : SmeState → Type 0) (c d : ShipConnection) : Type 0 where
  pub edge : E d.sme_state
  pub role : d.role ≡ c.role
  pub shutdown_once : d.shutdown_once ≡ c.shutdown_once
  pub cancel : d.cancel ≡ c.cancel
  pub trusted : trusted c.log ≡ true → trusted d.log ≡ true
  pub closings : closings d.log ≡ closings c.log

-- The connection is closed, in the error state or where it was.
pub record Ended (c d : ShipConnection) : Type 0 where
  pub sme_state : (d.sme_state ≡ SmeState.error) ⊎ (d.sme_state ≡ c.sme_state)
  pub role : d.role ≡ c.role
  pub shutdown_once : d.shutdown_once ≡ true
  pub trusted : trusted c.log ≡ true → trusted d.log ≡ true

-- The connection was closed and its end reported once, unless it had been closed before.
pub record Closed (c d : ShipConnection) : Type 0 where
  pub ended : Ended c d
  pub closings : c.shutdown_once ≡ false → closings d.log ≡ suc (closings c.log)

pub data Outcome (E : SmeState → Type 0) (c d : ShipConnection) : Type 0 where
  moved : Moved E c d → Outcome E c d
  closed : Closed c d → Outcome E c d

close-Closed :
    (env : Environment) (c d : ShipConnection) (safe : Bool) (code : ℕ) (reason : Option String)
    → Kept c (record d { sme_state = c.sme_state })
    → d.sme_state ≡ SmeState.error
    → Closed c (close_connection env d safe code reason)
unfolding close_connection serialize_and_send send stop_wait_for_ready stop_send_prolongation
    stop_prolongation_reply
close-Closed env c d safe code reason k e = ground arith

pub fail-Closed :
    (env : Environment) (c d : ShipConnection) (err : String)
    → Kept c (record d { sme_state = c.sme_state })
    → Closed c (close_with_error env d err)
unfolding close_with_error set_sme_state
fail-Closed env c d err k =
    close-Closed env c (set_sme_state d SmeState.error) true 0 (some err) (ground arith) refl

module _ {E : SmeState → Type 0} {c : ShipConnection} where
  pub stay : {d : ShipConnection} → Kept c d → E c.sme_state → Outcome E c d
  stay k e = moved (record {
    edge = subst E (sym k.sme_state) e;
    role = k.role;
    shutdown_once = k.shutdown_once;
    cancel = k.cancel;
    trusted = k.trusted;
    closings = k.closings;
  })

  set_sme_state-Moved :
      {d : ShipConnection} (s : SmeState) → Kept c d → E s → Moved E c (set_sme_state d s)
  unfolding set_sme_state
  set_sme_state-Moved s k e = record {
    edge = e;
    role = k.role;
    shutdown_once = k.shutdown_once;
    cancel = k.cancel;
    trusted = ground arith;
    closings = ground arith;
  }

  pub move : {d : ShipConnection} (s : SmeState) → Kept c d → E s → Outcome E c (set_sme_state d s)
  move s k e = moved (set_sme_state-Moved s k e)

  pub release : {d : ShipConnection} → Outcome E c d → Outcome E c (release_msg d)
  unfolding release_msg
  release (moved m) = moved (record {
    edge = m.edge;
    role = m.role;
    shutdown_once = m.shutdown_once;
    cancel = m.cancel;
    trusted = m.trusted;
    closings = m.closings;
  })
  release (closed m) = closed (record {
    ended = record {
      sme_state = m.ended.sme_state;
      role = m.ended.role;
      shutdown_once = m.ended.shutdown_once;
      trusted = m.ended.trusted;
    };
    closings = m.closings;
  })

  pub branch :
      {d e : ShipConnection} (b : Bool)
      → (b ≡ true → Outcome E c d)
      → (b ≡ false → Outcome E c e)
      → Outcome E c (if b then d else e)
  branch true x y = x refl
  branch false x y = y refl

  pub fail :
      (env : Environment) {d : ShipConnection} (err : String)
      → Kept c d
      → Outcome E c (close_with_error env d err)
  fail env {d} err k = closed (fail-Closed env c d err (ground arith))

  pub set_fail :
      (env : Environment) {d : ShipConnection} (s : SmeState) (err : String)
      → Kept c d
      → Outcome E c (close_with_error env (set_sme_state d s) err)
  unfolding set_sme_state
  set_fail env {d} s err k = closed (fail-Closed env c (set_sme_state d s) err (ground arith))

pub ruleset outcomes = (stay, move, release, branch, fail, set_fail)
