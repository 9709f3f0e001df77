-- ===== src/Ship/Connection/StepOutcome.antt =====
-- One step of the machine follows the state diagram, in src/ship/ship_connection/client.c and
-- server.c.
use openeebus.Prelude.{Bool, true, false, ◌≡◌, refl, sym, subst, ◌∷◌, arith}
use openeebus.Ship.Types.{SmeState, ShipRole, client, server, auto}
use openeebus.Ship.Connection.{ShipConnection, Environment, Event}
use openeebus.Ship.Connection.Kept.{Kept, Kept-refl, keeps}
use openeebus.Ship.Connection.Outcome.{Outcome, stay, outcomes}
use openeebus.Ship.Connection.Diagram.{Edge, wait, idle, edges}
use openeebus.Ship.Connection.Hello.{hello_abort}
use openeebus.Ship.Connection.Machine.{
  enter_hello, common_step, client_step, server_step, role_step, handle_state,
}
use openeebus.Ship.Connection.HelloOutcome
use openeebus.Ship.Connection.PhaseOutcome
use openeebus.Ship.Connection.DataOutcome
use openeebus.Ship.Connection.DataOutcome.{CanRequest}

asked-Kept :
    (c : ShipConnection) (b : Bool) → Kept c (record c { log = Event.paired_answer b ∷ c.log })
asked-Kept c true = ground arith
asked-Kept c false = ground arith

module _ (env : Environment) (c : ShipConnection) where
  enter_hello-Outcome : {r : ShipRole} → Outcome (Edge r SmeState.hello) c (enter_hello env c)
  unfolding enter_hello
  enter_hello-Outcome = search (outcomes, asked-Kept, keeps, edges) depth 8

  at_abort :
      {r : ShipRole} (s : SmeState) → c.sme_state ≡ s → Outcome (Edge r s) c (hello_abort env c)
  at_abort {r} s h =
      subst (λ t. Outcome (Edge r t) c (hello_abort env c)) h
        (HelloOutcome.hello_abort-Outcome env c)

  halted : {r : ShipRole} (s : SmeState) → c.sme_state ≡ s → Edge r s s → Outcome (Edge r s) c c
  halted {r} s h e = stay Kept-refl (subst (λ t. Edge r s t) (sym h) e)

  -- The states that only one of the roles handles.
  abbrev is_common : SmeState → Bool
  is_common SmeState.cmi_client_send = false
  is_common SmeState.cmi_client_wait = false
  is_common SmeState.cmi_client_evaluate = false
  is_common SmeState.cmi_server_wait = false
  is_common SmeState.cmi_server_evaluate = false
  is_common SmeState.hello_ok = false
  is_common SmeState.prot_server_init = false
  is_common SmeState.prot_client_init = false
  is_common SmeState.prot_server_listen_proposal = false
  is_common SmeState.prot_server_listen_confirm = false
  is_common SmeState.prot_client_listen_choice = false
  is_common SmeState.prot_client_ok = false
  is_common SmeState.prot_server_ok = false
  is_common _ = true

  common-Outcome :
      {r : ShipRole} (s : SmeState)
      → is_common s ≡ true
      → c.sme_state ≡ s
      → (s ≡ SmeState.data_exchange → CanRequest env c)
      → Outcome (Edge r s) c (common_step env s c)
  unfolding common_step
  common-Outcome SmeState.hello o h can = enter_hello-Outcome
  common-Outcome SmeState.hello_ready_init o h can = HelloOutcome.ready_init-Outcome env c
  common-Outcome SmeState.hello_ready_listen o h can = HelloOutcome.ready_listen-Outcome env c h
  common-Outcome SmeState.hello_ready_timeout o h can = at_abort _ h
  common-Outcome SmeState.hello_pending_init o h can = HelloOutcome.pending_init-Outcome env c
  common-Outcome SmeState.hello_pending_listen o h can = HelloOutcome.pending_listen-Outcome env c h
  common-Outcome SmeState.hello_pending_timeout o h can =
      HelloOutcome.pending_timeout-Outcome env c h
  common-Outcome SmeState.hello_abort o h can = at_abort _ h
  common-Outcome SmeState.hello_abort_done o h can = at_abort _ h
  common-Outcome SmeState.hello_remote_abort_done o h can = at_abort _ h
  common-Outcome SmeState.hello_rejected o h can = at_abort _ h
  common-Outcome SmeState.pin_check_init o h can = PhaseOutcome.pin_init-Outcome env c h
  common-Outcome SmeState.pin_check_listen o h can = PhaseOutcome.pin_listen-Outcome env c
  common-Outcome SmeState.pin_check_busy_wait o h can = search (outcomes, keeps, edges) depth 6
  common-Outcome SmeState.pin_check_ok o h can = search (outcomes, keeps, edges) depth 6
  common-Outcome SmeState.approved o h can = DataOutcome.approve-Outcome env c
  common-Outcome SmeState.data_exchange o h can =
      DataOutcome.data_exchange-Outcome env c h (can refl)
  common-Outcome SmeState.cmi_client_send o h can = absurd (cc o)
  common-Outcome SmeState.cmi_client_wait o h can = absurd (cc o)
  common-Outcome SmeState.cmi_client_evaluate o h can = absurd (cc o)
  common-Outcome SmeState.cmi_server_wait o h can = absurd (cc o)
  common-Outcome SmeState.cmi_server_evaluate o h can = absurd (cc o)
  common-Outcome SmeState.hello_ok o h can = absurd (cc o)
  common-Outcome SmeState.prot_server_init o h can = absurd (cc o)
  common-Outcome SmeState.prot_client_init o h can = absurd (cc o)
  common-Outcome SmeState.prot_server_listen_proposal o h can = absurd (cc o)
  common-Outcome SmeState.prot_server_listen_confirm o h can = absurd (cc o)
  common-Outcome SmeState.prot_client_listen_choice o h can = absurd (cc o)
  common-Outcome SmeState.prot_client_ok o h can = absurd (cc o)
  common-Outcome SmeState.prot_server_ok o h can = absurd (cc o)
  common-Outcome s o h can = halted s h (wait refl)

  client-Outcome :
      (s : SmeState)
      → c.sme_state ≡ s
      → (s ≡ SmeState.data_exchange → CanRequest env c)
      → Outcome (Edge client s) c (client_step env s c)
  unfolding client_step
  client-Outcome SmeState.cmi_client_send h can = PhaseOutcome.client_send-Outcome env c
  client-Outcome SmeState.cmi_client_wait h can = PhaseOutcome.client_wait-Outcome env c
  client-Outcome SmeState.cmi_client_evaluate h can = PhaseOutcome.client_evaluate-Outcome env c
  client-Outcome SmeState.hello_ok h can = search (outcomes, keeps, edges) depth 6
  client-Outcome SmeState.prot_client_init h can = PhaseOutcome.client_init-Outcome env c
  client-Outcome SmeState.prot_client_listen_choice h can =
      PhaseOutcome.client_choice_listen-Outcome env c
  client-Outcome SmeState.prot_client_ok h can = search (outcomes, keeps, edges) depth 6
  client-Outcome SmeState.cmi_server_wait h can = unfold common_step in halted _ h (idle refl)
  client-Outcome SmeState.cmi_server_evaluate h can = unfold common_step in halted _ h (idle refl)
  client-Outcome SmeState.prot_server_init h can = unfold common_step in halted _ h (idle refl)
  client-Outcome SmeState.prot_server_listen_proposal h can =
      unfold common_step in halted _ h (idle refl)
  client-Outcome SmeState.prot_server_listen_confirm h can =
      unfold common_step in halted _ h (idle refl)
  client-Outcome SmeState.prot_server_ok h can = unfold common_step in halted _ h (idle refl)
  client-Outcome s h can = common-Outcome s refl h can

  server-Outcome :
      (s : SmeState)
      → c.sme_state ≡ s
      → (s ≡ SmeState.data_exchange → CanRequest env c)
      → Outcome (Edge server s) c (server_step env s c)
  unfolding server_step
  server-Outcome SmeState.cmi_server_wait h can = PhaseOutcome.server_wait-Outcome env c
  server-Outcome SmeState.cmi_server_evaluate h can = PhaseOutcome.server_evaluate-Outcome env c
  server-Outcome SmeState.hello_ok h can = search (outcomes, keeps, edges) depth 6
  server-Outcome SmeState.prot_server_init h can = PhaseOutcome.server_init-Outcome env c
  server-Outcome SmeState.prot_server_listen_proposal h can =
      PhaseOutcome.server_proposal_listen-Outcome env c
  server-Outcome SmeState.prot_server_listen_confirm h can =
      PhaseOutcome.server_confirm_listen-Outcome env c
  server-Outcome SmeState.prot_server_ok h can = search (outcomes, keeps, edges) depth 6
  server-Outcome SmeState.cmi_client_send h can = unfold common_step in halted _ h (idle refl)
  server-Outcome SmeState.cmi_client_wait h can = unfold common_step in halted _ h (idle refl)
  server-Outcome SmeState.cmi_client_evaluate h can = unfold common_step in halted _ h (idle refl)
  server-Outcome SmeState.prot_client_init h can = unfold common_step in halted _ h (idle refl)
  server-Outcome SmeState.prot_client_listen_choice h can =
      unfold common_step in halted _ h (idle refl)
  server-Outcome SmeState.prot_client_ok h can = unfold common_step in halted _ h (idle refl)
  server-Outcome s h can = common-Outcome s refl h can

  role_step-Outcome :
      (r : ShipRole)
      → (c.sme_state ≡ SmeState.data_exchange → CanRequest env c)
      → Outcome (Edge r c.sme_state) c (role_step env r c)
  role_step-Outcome client can = client-Outcome c.sme_state refl can
  role_step-Outcome server can = server-Outcome c.sme_state refl can
  role_step-Outcome auto can = stay Kept-refl (idle refl)

  -- A step either takes an edge of the role's state diagram, with the connection as open and its end
  -- as often reported as before, or it closes the connection, in the error state or where it was,
  -- and reports the end once if it had been open. In the data exchange this needs that the request
  -- for the access methods was sent or can be sent.
  pub handle_state-Outcome :
      (c.sme_state ≡ SmeState.data_exchange → CanRequest env c)
      → Outcome (Edge c.role c.sme_state) c (handle_state env c)
  unfolding handle_state
  handle_state-Outcome can = role_step-Outcome c.role can
