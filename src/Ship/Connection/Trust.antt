-- ===== src/Ship/Connection/Trust.antt =====
-- No peer gets past the "hello" phase without trust: SHIP 12.5 and 13.4.4.1, in
-- src/ship/ship_connection/ship_connection.c.
use openeebus.Prelude.{
  ℕ, zero, suc, Bool, true, false, ◌≡◌, refl, ◌⊎◌, inl, inr, Bool-cases, List, Option, some, none,
  ◌||◌, sym, subst, ◌∙◌, arith,
}
use openeebus.Common.Error.{EebusError, is_ok}
use openeebus.Ship.Types.{
  SmeState, ShipRole, client, server, auto, send_access_methods_request, hello_init_timeout,
}
use openeebus.Ship.Connection.{
  ShipConnection, Environment, Arrival, TrustDecision, set_sme_state, receive, serialize_and_send,
  stop_send_prolongation, stop_prolongation_reply, construct,
}
use openeebus.Ship.Connection.Kept.{Kept-refl, trusted, receive-Kept}
use openeebus.Ship.Connection.Outcome.{Ended, Outcome, moved, closed}
use openeebus.Ship.Connection.Diagram.{Edge, wait, idle}
use openeebus.Ship.Connection.Hello.{
  accept_decision, decision_taken, pending_received, hello_pending_listen,
}
use openeebus.Ship.Connection.HelloOutcome.{pending_evaluate-Outcome}
use openeebus.Ship.Connection.DataOutcome.{CanRequest, data_exchange-Ended}
use openeebus.Ship.Connection.Machine.{
  enter_hello, common_step, client_step, server_step, role_step, handle_state, loop,
}
use openeebus.Ship.Connection.StepOutcome.{handle_state-Outcome}

-- The states past the question whether the peer is trusted.
abbrev pub needs_trust : SmeState → Bool
needs_trust SmeState.hello_ready_init = true
needs_trust SmeState.hello_ready_listen = true
needs_trust SmeState.hello_ready_timeout = true
needs_trust SmeState.hello_ok = true
needs_trust SmeState.prot_server_init = true
needs_trust SmeState.prot_client_init = true
needs_trust SmeState.prot_server_listen_proposal = true
needs_trust SmeState.prot_server_listen_confirm = true
needs_trust SmeState.prot_client_listen_choice = true
needs_trust SmeState.prot_client_ok = true
needs_trust SmeState.prot_server_ok = true
needs_trust SmeState.pin_check_init = true
needs_trust SmeState.pin_check_listen = true
needs_trust SmeState.pin_check_busy_wait = true
needs_trust SmeState.pin_check_ok = true
needs_trust SmeState.approved = true
needs_trust SmeState.data_exchange = true
needs_trust _ = false

abbrev pub IsTrusted : ShipConnection → Type 0
IsTrusted c = needs_trust c.sme_state ≡ true → trusted c.log ≡ true

-- The states in which trust is won.
abbrev asks_trust : SmeState → Bool
asks_trust SmeState.hello = true
asks_trust SmeState.hello_pending_listen = true
asks_trust _ = false

Edge-needs_trust :
    {r : ShipRole} {s t : SmeState}
    → Edge r s t
    → asks_trust s ≡ false
    → needs_trust t ≡ true
    → needs_trust s ≡ true
Edge-needs_trust (wait w) a n = n
Edge-needs_trust (idle w) a n = n
Edge-needs_trust _ a n = ground arith

Ended-IsTrusted : {c d : ShipConnection} → Ended c d → IsTrusted c → IsTrusted d
Ended-IsTrusted e t n = ground arith

Outcome-IsTrusted :
    {r : ShipRole} {c d : ShipConnection}
    → asks_trust c.sme_state ≡ false
    → Outcome (Edge r c.sme_state) c d
    → IsTrusted c
    → IsTrusted d
Outcome-IsTrusted a (moved m) t n = m.trusted (t (Edge-needs_trust m.edge a n))
Outcome-IsTrusted a (closed k) t n = Ended-IsTrusted k.ended t n

-- A handler that leads to no state past the question.
Untrusting : SmeState → Type 0
Untrusting s = needs_trust s ≡ false

Outcome-Untrusting :
    {c d : ShipConnection} → needs_trust c.sme_state ≡ false → Outcome Untrusting c d → IsTrusted d
unfolding Untrusting
Outcome-Untrusting u (moved m) n = absurd (ground arith)
Outcome-Untrusting u (closed k) n = absurd (ground (arith, k.ended.sme_state))

module _ (env : Environment) where
  enter_hello-IsTrusted : (c : ShipConnection) → IsTrusted (enter_hello env c)
  unfolding enter_hello set_sme_state
  enter_hello-IsTrusted c n = ground arith

  decision-IsTrusted :
      (c : ShipConnection) (decision : TrustDecision) (id : ℕ) (cb : Option ℕ)
      → IsTrusted (decision_taken env c decision id cb)
  unfolding set_sme_state accept_decision stop_send_prolongation stop_prolongation_reply
  decision-IsTrusted c TrustDecision.granted id none n = ground arith
  decision-IsTrusted c TrustDecision.granted id (some cb) n = ground arith
  decision-IsTrusted c TrustDecision.undecided id cb n = ground arith
  decision-IsTrusted c TrustDecision.denied id cb n = ground arith

  pending_received-IsTrusted :
      (c : ShipConnection) (err : EebusError)
      → c.sme_state ≡ SmeState.hello_pending_listen
      → IsTrusted (pending_received env c err)
  unfolding Untrusting
  pending_received-IsTrusted c EebusError.ok h =
      Outcome-Untrusting (rw h refl)
        (pending_evaluate-Outcome env (env.deserialize c.msg) Kept-refl (rw h refl) refl)
  pending_received-IsTrusted c EebusError.no_change h = decision-IsTrusted _ _ _ _
  pending_received-IsTrusted c _ h = unfold set_sme_state in λ n. absurd (cc n)

  pending_listen-IsTrusted :
      (c : ShipConnection)
      → c.sme_state ≡ SmeState.hello_pending_listen
      → IsTrusted (hello_pending_listen env c)
  unfolding hello_pending_listen
  pending_listen-IsTrusted c h =
      pending_received-IsTrusted (receive env c hello_init_timeout).0
        (receive env c hello_init_timeout).1
        ((receive-Kept env hello_init_timeout Kept-refl).sme_state ∙ h)

  unable :
      (c : ShipConnection)
      → (CanRequest env c)
        ⊎ ((c.is_access_methods_req_sent ≡ false)
            × (is_ok (serialize_and_send env c send_access_methods_request).1 ≡ false))
  unable c = elim (Bool-cases c.is_access_methods_req_sent) [
    | inl s ↦ inl (inl s)
    | inr s ↦ elim (Bool-cases (is_ok (serialize_and_send env c send_access_methods_request).1)) [
      | inl o ↦ inl (inr o)
      | inr o ↦ inr (s, o)
    ]
  ]

  in_hello-IsTrusted :
      (c : ShipConnection) (r : ShipRole)
      → c.sme_state ≡ SmeState.hello
      → IsTrusted (role_step env r c)
  unfolding client_step server_step common_step
  in_hello-IsTrusted c client h =
      subst (λ s. IsTrusted (client_step env s c)) (sym h) (enter_hello-IsTrusted c)
  in_hello-IsTrusted c server h =
      subst (λ s. IsTrusted (server_step env s c)) (sym h) (enter_hello-IsTrusted c)
  in_hello-IsTrusted c auto h = λ n. absurd (ground arith)

  in_pending-IsTrusted :
      (c : ShipConnection) (r : ShipRole)
      → c.sme_state ≡ SmeState.hello_pending_listen
      → IsTrusted (role_step env r c)
  unfolding client_step server_step common_step
  in_pending-IsTrusted c client h =
      subst (λ s. IsTrusted (client_step env s c)) (sym h) (pending_listen-IsTrusted c h)
  in_pending-IsTrusted c server h =
      subst (λ s. IsTrusted (server_step env s c)) (sym h) (pending_listen-IsTrusted c h)
  in_pending-IsTrusted c auto h = λ n. absurd (ground arith)

  in_exchange-IsTrusted :
      (c : ShipConnection) (r : ShipRole)
      → c.sme_state ≡ SmeState.data_exchange
      → c.is_access_methods_req_sent ≡ false
      → is_ok (serialize_and_send env c send_access_methods_request).1 ≡ false
      → IsTrusted c
      → IsTrusted (role_step env r c)
  unfolding client_step server_step common_step
  in_exchange-IsTrusted c client h s o t =
      subst (λ x. IsTrusted (client_step env x c)) (sym h)
        (Ended-IsTrusted (data_exchange-Ended env c s o) t)
  in_exchange-IsTrusted c server h s o t =
      subst (λ x. IsTrusted (server_step env x c)) (sym h)
        (Ended-IsTrusted (data_exchange-Ended env c s o) t)
  in_exchange-IsTrusted c auto h s o t = t

  other-IsTrusted :
      (c : ShipConnection)
      → asks_trust c.sme_state ≡ false
      → IsTrusted c
      → (s : SmeState) → c.sme_state ≡ s
      → IsTrusted (handle_state env c)
  unfolding handle_state
  other-IsTrusted c a t SmeState.data_exchange h = elim (unable c) [
    | inl can ↦ Outcome-IsTrusted a (handle_state-Outcome env c (λ _. can)) t
    | inr (s, o) ↦ in_exchange-IsTrusted c c.role h s o t
  ]
  other-IsTrusted c a t s h =
      Outcome-IsTrusted a (handle_state-Outcome env c (λ d. absurd (cc (d, h)))) t

  state-IsTrusted :
      (c : ShipConnection) (s : SmeState)
      → c.sme_state ≡ s
      → IsTrusted c
      → IsTrusted (handle_state env c)
  unfolding handle_state
  state-IsTrusted c SmeState.hello h t = in_hello-IsTrusted c c.role h
  state-IsTrusted c SmeState.hello_pending_listen h t = in_pending-IsTrusted c c.role h
  state-IsTrusted c s h t = other-IsTrusted c (rw h refl) t s h

  loop-IsTrusted : (fuel : ℕ) (c : ShipConnection) → IsTrusted c → IsTrusted (loop env fuel c)
  unfolding loop
  loop-IsTrusted zero c t = t
  loop-IsTrusted (suc fuel) c t = elim (Bool-cases (c.cancel || c.shutdown_once)) [
    | inl stops ↦ rw stops t
    | inr goes ↦
        rw goes (loop-IsTrusted fuel (handle_state env c) (state-IsTrusted c c.sme_state refl t))
  ]

  -- However the environment answers and whatever messages arrive, a connection that has run for any
  -- number of rounds is in a state past the trust question (READY, the protocol handshake, the PIN
  -- phase or the data exchange) only if the peer was found paired or an approval was accepted.
  pub loop-construct-IsTrusted :
      (fuel : ℕ) (role : ShipRole) (local_ship_id remote_ship_id : List ℕ) (inbox : List Arrival)
      → IsTrusted (loop env fuel (construct role local_ship_id remote_ship_id inbox))
  unfolding construct
  loop-construct-IsTrusted fuel role local_ship_id remote_ship_id inbox =
      loop-IsTrusted fuel _ (fresh role)
    where
      fresh : (r : ShipRole) → IsTrusted (construct r local_ship_id remote_ship_id inbox)
      fresh server n = absurd (cc n)
      fresh client n = absurd (cc n)
      fresh auto n = absurd (cc n)
