-- ===== src/Ship/Connection/HelloOutcome.antt =====
-- The handlers of the "hello" phase follow the diagram.
use openeebus.Prelude.{ℕ, Bool, true, false, ◌≡◌, refl, Option, none, some}
use openeebus.Common.Error.{EebusError}
use openeebus.Ship.Types.{
  SmeState, ShipRole, HelloPhase, ConnectionHello, Deserialized, hello_init_timeout,
}
use openeebus.Ship.Connection.{ShipConnection, Environment, TrustDecision, receive}
use openeebus.Ship.Connection.Kept.{Kept, Kept-refl, start_wait-Kept, receive-Kept, keeps}
use openeebus.Ship.Connection.Outcome.{Outcome, stay, release, outcomes}
use openeebus.Ship.Connection.Diagram.{
  Edge, wait, abort, peer_ready, ready_late, granted, pending_late, edges,
}
use openeebus.Ship.Connection.Hello.{
  hello_ready_init, update_hello, prolongation_request, hello_abort, hello_ready_evaluate,
  hello_ready_listen, hello_pending_init, new_wait_value, check_wait_and_prolongation,
  check_waiting, hello_pending_evaluate, hello_pending_listen, hello_pending_timeout, ready_phase,
  ready_received, pending_phase, decision_taken, pending_received, prolong, wait_or_prolong,
  wait_or_abort,
}
use openeebus.Ship.Connection.HelloKept.{
  send_hello-Kept, noted-Kept, waiting-Kept, undecided-Kept, accept-Kept, await_reply-Kept,
}

module _ (env : Environment) where
  pub ready_init-Outcome :
      {r : ShipRole} (c : ShipConnection)
      → Outcome (Edge r SmeState.hello_ready_init) c (hello_ready_init env c)
  unfolding hello_ready_init
  ready_init-Outcome c = search (outcomes, send_hello-Kept, keeps, edges) depth 8

module _ (env : Environment) {E : SmeState → Type 0} {c : ShipConnection} where
  update-Outcome :
      {d : ShipConnection} (m : ConnectionHello)
      → Kept c d
      → E c.sme_state
      → E SmeState.hello_abort
      → Outcome E c (update_hello env d m)
  unfolding update_hello
  update-Outcome m k e f = search (outcomes, send_hello-Kept, keeps) depth 8

  prolong-Outcome :
      {d : ShipConnection} (m : ConnectionHello) (p : Option Bool)
      → Kept c d
      → E c.sme_state
      → E SmeState.hello_abort
      → Outcome E c (prolong env d m p)
  prolong-Outcome m none k e f = stay k e
  prolong-Outcome m (some false) k e f = stay k e
  prolong-Outcome m (some true) k e f = update-Outcome m (start_wait-Kept env _ k) e f

  prolongation-Outcome :
      {d : ShipConnection} (m : ConnectionHello)
      → Kept c d
      → E c.sme_state
      → E SmeState.hello_abort
      → Outcome E c (prolongation_request env d m)
  unfolding prolongation_request
  prolongation-Outcome m k e f = prolong-Outcome m m.prolongation_request k e f

  new_wait-Outcome :
      {d : ShipConnection} (waiting : ℕ)
      → Kept c d
      → E c.sme_state
      → Outcome E c (new_wait_value env d waiting)
  unfolding new_wait_value
  new_wait-Outcome waiting k e = search (outcomes, waiting-Kept, keeps) depth 8

  wait_or_prolong-Outcome :
      {d : ShipConnection} (m : ConnectionHello) (w : Option ℕ) (p : Option Bool)
      → Kept c d
      → E c.sme_state
      → E SmeState.hello_abort
      → Outcome E c (wait_or_prolong env d m w p)
  wait_or_prolong-Outcome m (some w) none k e f = search (new_wait-Outcome, keeps)
  wait_or_prolong-Outcome m _ _ k e f = prolongation-Outcome m k e f

  wait_or_abort-Outcome :
      {d : ShipConnection} (w : Option ℕ)
      → Kept c d
      → E c.sme_state
      → E SmeState.hello_abort
      → Outcome E c (wait_or_abort env d w)
  wait_or_abort-Outcome none k e f = search (outcomes, keeps)
  wait_or_abort-Outcome (some w) k e f = search (new_wait-Outcome, keeps)

  abort-Outcome : {d : ShipConnection} → Kept c d → Outcome E c (hello_abort env d)
  unfolding hello_abort
  abort-Outcome k = search (outcomes, send_hello-Kept, keeps)

  ready_phase-Outcome :
      {d : ShipConnection} (m : ConnectionHello) (p : HelloPhase)
      → Kept c d
      → E c.sme_state
      → E SmeState.hello_abort
      → E SmeState.hello_ok
      → Outcome E c (ready_phase env d m p)
  ready_phase-Outcome m HelloPhase.ready k e f g = search outcomes
  ready_phase-Outcome m HelloPhase.pending k e f g = prolongation-Outcome m k e f
  ready_phase-Outcome m HelloPhase.aborted k e f g = search outcomes
  ready_phase-Outcome m HelloPhase.unknown k e f g = search outcomes

  ready_evaluate-Outcome :
      {d : ShipConnection} (m : Deserialized)
      → Kept c d
      → E c.sme_state
      → E SmeState.hello_abort
      → E SmeState.hello_ok
      → Outcome E c (hello_ready_evaluate env d m)
  unfolding hello_ready_evaluate
  ready_evaluate-Outcome (Deserialized.sme_hello none) k e f g = release (abort-Outcome k)
  ready_evaluate-Outcome (Deserialized.sme_hello (some m)) k e f g =
      release (ready_phase-Outcome m m.phase k e f g)
  ready_evaluate-Outcome _ k e f g = search outcomes

  ready_received-Outcome :
      {d : ShipConnection} (err : EebusError)
      → Kept c d
      → E c.sme_state
      → E SmeState.hello_abort
      → E SmeState.hello_ok
      → E SmeState.hello_ready_timeout
      → Outcome E c (ready_received env d err)
  ready_received-Outcome {d} EebusError.ok k e f g h =
      ready_evaluate-Outcome (env.deserialize d.msg) k e f g
  ready_received-Outcome EebusError.time k e f g h = search outcomes
  ready_received-Outcome _ k e f g h = search outcomes

  pending_phase-Outcome :
      {d : ShipConnection} (m : ConnectionHello) (p : HelloPhase)
      → Kept c d
      → E c.sme_state
      → E SmeState.hello_abort
      → Outcome E c (pending_phase env d m p)
  unfolding check_waiting check_wait_and_prolongation
  pending_phase-Outcome m HelloPhase.ready k e f =
      wait_or_abort-Outcome m.waiting (noted-Kept k) e f
  pending_phase-Outcome m HelloPhase.pending k e f =
      wait_or_prolong-Outcome m m.waiting m.prolongation_request k e f
  pending_phase-Outcome m HelloPhase.aborted k e f = search outcomes
  pending_phase-Outcome m HelloPhase.unknown k e f = search outcomes

  pub pending_evaluate-Outcome :
      {d : ShipConnection} (m : Deserialized)
      → Kept c d
      → E c.sme_state
      → E SmeState.hello_abort
      → Outcome E c (hello_pending_evaluate env d m)
  unfolding hello_pending_evaluate
  pending_evaluate-Outcome (Deserialized.sme_hello none) k e f = release (abort-Outcome k)
  pending_evaluate-Outcome (Deserialized.sme_hello (some m)) k e f =
      release (pending_phase-Outcome m m.phase k e f)
  pending_evaluate-Outcome _ k e f = search outcomes

  decision-Outcome :
      {d : ShipConnection} (decision : TrustDecision) (id : ℕ) (cb : Option ℕ)
      → Kept c d
      → E SmeState.hello_abort
      → E SmeState.hello_ready_init
      → Outcome E c (decision_taken env d decision id cb)
  decision-Outcome TrustDecision.granted id cb k f g = search (outcomes, accept-Kept, keeps) depth 8
  decision-Outcome _ id cb k f g = search outcomes

  pending_received-Outcome :
      {d : ShipConnection} (err : EebusError)
      → Kept c d
      → E c.sme_state
      → E SmeState.hello_abort
      → E SmeState.hello_ready_init
      → E SmeState.hello_pending_timeout
      → Outcome E c (pending_received env d err)
  pending_received-Outcome {d} EebusError.ok k e f g h =
      pending_evaluate-Outcome (env.deserialize d.msg) k e f
  pending_received-Outcome {d} EebusError.no_change k e f g h =
      decision-Outcome d.trust_decision d.trust_decision_id d.trust_accept_cb (undecided-Kept k) f g
  pending_received-Outcome EebusError.time k e f g h = search outcomes
  pending_received-Outcome _ k e f g h = search outcomes

module _ (env : Environment) {r : ShipRole} (c : ShipConnection) where
  pub pending_init-Outcome :
      Outcome (Edge r SmeState.hello_pending_init) c (hello_pending_init env c)
  unfolding hello_pending_init
  pending_init-Outcome = search (outcomes, send_hello-Kept, keeps, edges) depth 8

  pub ready_listen-Outcome :
      c.sme_state ≡ SmeState.hello_ready_listen
      → Outcome (Edge r SmeState.hello_ready_listen) c (hello_ready_listen env c)
  unfolding hello_ready_listen
  ready_listen-Outcome h =
      ready_received-Outcome env (receive env c hello_init_timeout).1
        (receive-Kept env hello_init_timeout Kept-refl) (rw h (wait refl)) (abort refl) peer_ready
        ready_late

  pub pending_listen-Outcome :
      c.sme_state ≡ SmeState.hello_pending_listen
      → Outcome (Edge r SmeState.hello_pending_listen) c (hello_pending_listen env c)
  unfolding hello_pending_listen
  pending_listen-Outcome h =
      pending_received-Outcome env (receive env c hello_init_timeout).1
        (receive-Kept env hello_init_timeout Kept-refl) (rw h (wait refl)) (abort refl) granted
        pending_late

  pub pending_timeout-Outcome :
      c.sme_state ≡ SmeState.hello_pending_timeout
      → Outcome (Edge r SmeState.hello_pending_timeout) c (hello_pending_timeout env c)
  unfolding hello_pending_timeout
  pending_timeout-Outcome h =
      search (outcomes, await_reply-Kept, send_hello-Kept, edges, keeps, stays) depth 8
    where
      stays : Edge r SmeState.hello_pending_timeout c.sme_state
      stays = rw h (wait refl)

  pub hello_abort-Outcome : Outcome (Edge r c.sme_state) c (hello_abort env c)
  hello_abort-Outcome = abort-Outcome env Kept-refl
