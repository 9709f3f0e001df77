-- ===== src/Ship/Connection/Closing.antt =====
-- How often the end of a connection is reported to the info provider.
use openeebus.Prelude.{
  ℕ, zero, suc, Bool, true, false, ◌≡◌, refl, inl, inr, Bool-cases, if◌then◌else◌, ◌||◌, ap, ◌∙◌,
  sym, subst, List, ◌∷◌, some, arith,
}
use openeebus.Common.Error.{EebusError, is_ok}
use openeebus.Ship.Types.{
  SmeState, ShipRole, ClosePhase, announce, confirm, other_phase, Deserialized,
  send_access_methods_request,
}
use openeebus.Ship.Connection.{
  ShipConnection, Environment, Arrival, QueueMessage, construct, serialize_and_send,
  close_with_error, close_connection, set_sme_state, send, stop_wait_for_ready,
  stop_send_prolongation, stop_prolongation_reply, take,
}
use openeebus.Ship.Connection.Kept.{closings, take-Kept}
use openeebus.Ship.Connection.Outcome.{Outcome, moved, closed}
use openeebus.Ship.Connection.DataExchange.{
  access_methods_init, handle_close, handle_receive, handle_message, handle_next,
  data_exchange_handle, prepare, prepare_if, data_exchange,
}
use openeebus.Ship.Connection.DataOutcome.{CanRequest}
use openeebus.Ship.Connection.Machine.{handle_state, loop}
use openeebus.Ship.Connection.StepOutcome.{handle_state-Outcome}

-- The end has been reported once if the connection is shut down, and not otherwise.
abbrev pub ReportsOnce : ShipConnection → Type 0
ReportsOnce c = closings c.log ≡ (if c.shutdown_once then 1 else 0)

Outcome-ReportsOnce :
    {E : SmeState → Type 0} {c d : ShipConnection}
    → c.shutdown_once ≡ false
    → Outcome E c d
    → ReportsOnce c
    → ReportsOnce d
Outcome-ReportsOnce o (moved m) r = ground arith
Outcome-ReportsOnce o (closed k) r = ground arith

module _ (env : Environment) where
  loop-ReportsOnce :
      ((c : ShipConnection) → CanRequest env c)
      → (fuel : ℕ) (c : ShipConnection) → ReportsOnce c
      → ReportsOnce (loop env fuel c)
  unfolding loop
  loop-ReportsOnce can zero c r = r
  loop-ReportsOnce can (suc fuel) c r = elim (Bool-cases (c.cancel || c.shutdown_once)) [
    | inl stops ↦ rw stops r
    | inr goes ↦ rw goes (
        loop-ReportsOnce can fuel (handle_state env c)
          (Outcome-ReportsOnce (ground arith) (handle_state-Outcome env c (λ _. can c)) r))
  ]

  -- As long as the request for the access methods can be sent, a connection that has run for any
  -- number of rounds has reported its end exactly once if it is shut down, and never if it is not,
  -- whichever error or message closed it.
  pub loop-construct-ReportsOnce :
      ((c : ShipConnection) → CanRequest env c)
      → (fuel : ℕ) (role : ShipRole) (local_ship_id remote_ship_id : List ℕ) (inbox : List Arrival)
      → ReportsOnce (loop env fuel (construct role local_ship_id remote_ship_id inbox))
  unfolding construct
  loop-construct-ReportsOnce can fuel role local_ship_id remote_ship_id inbox =
      loop-ReportsOnce can fuel _ refl

  handle_close-closings :
      (c : ShipConnection) (phase : ClosePhase)
      → (closings (handle_close env c phase).0.log ≡ suc (closings c.log))
        × ((handle_close env c phase).1 ≡ EebusError.ok)
  unfolding handle_close stop_wait_for_ready stop_send_prolongation stop_prolongation_reply
      serialize_and_send send
  handle_close-closings c announce = ground arith
  handle_close-closings c confirm = ground arith
  handle_close-closings c other_phase = ground arith

  refused-closings :
      (c : ShipConnection)
      → c.shutdown_once ≡ false
      → is_ok (serialize_and_send env c send_access_methods_request).1 ≡ false
      → (closings (access_methods_init env c).log ≡ suc (closings c.log))
        × ((access_methods_init env c).inbox ≡ c.inbox)
  unfolding access_methods_init close_with_error close_connection set_sme_state stop_wait_for_ready
      stop_send_prolongation stop_prolongation_reply serialize_and_send send
  refused-closings c o h = ground arith

  -- A message that was handled, and whose handling reported the end.
  Reported : ShipConnection → ShipConnection × EebusError → Type 0
  Reported c r = (closings r.0.log ≡ suc (closings c.log)) × (r.1 ≡ EebusError.ok)

  data-closings :
      (c : ShipConnection) (a : Arrival) (rest : List Arrival) (bytes : List ℕ) (phase : ClosePhase)
      → env.deserialize bytes ≡ Deserialized.sme_close (some phase)
      → Reported c (handle_message env (take c a rest) (QueueMessage.data_received bytes))
  unfolding Reported handle_message handle_receive
  data-closings c a rest bytes phase d =
      subst (λ x. Reported c (handle_receive env (take c a rest) x)) (sym d)
        (let (again, fine) = handle_close-closings (take c a rest) phase in
          (again ∙ ap suc (take-Kept c a rest).closings, fine))

  closing_message-closings :
      (c : ShipConnection) (a : Arrival) (rest : List Arrival) (bytes : List ℕ) (phase : ClosePhase)
      → c.inbox ≡ a ∷ rest
      → a.message ≡ QueueMessage.data_received bytes
      → env.deserialize bytes ≡ Deserialized.sme_close (some phase)
      → Reported c (data_exchange_handle env c)
  unfolding data_exchange_handle
  closing_message-closings c a rest bytes phase i m d =
      subst (λ l. Reported c (handle_next env l c)) (sym i)
        (subst (λ x. Reported c (handle_message env (take c a rest) x)) (sym m)
          (data-closings c a rest bytes phase d))

  twice :
      (c : ShipConnection) (b : Bool) (a : Arrival) (rest : List Arrival) (bytes : List ℕ)
      (phase : ClosePhase)
      → b ≡ false
      → c.shutdown_once ≡ false
      → is_ok (serialize_and_send env c send_access_methods_request).1 ≡ false
      → c.inbox ≡ a ∷ rest
      → a.message ≡ QueueMessage.data_received bytes
      → env.deserialize bytes ≡ Deserialized.sme_close (some phase)
      → (closings (data_exchange_handle env (prepare_if env b c)).0.log
          ≡ suc (suc (closings c.log)))
        × ((data_exchange_handle env (prepare_if env b c)).1 ≡ EebusError.ok)
  unfolding Reported
  twice c true a rest bytes phase b o h i m d = absurd (ground arith)
  twice c false a rest bytes phase b o h i m d =
      let (once, same) = refused-closings c o h in
      let (again, fine) =
        closing_message-closings (prepare_if env false c) a rest bytes phase (same ∙ i) m d in
      (again ∙ ap suc once, fine)

  -- In the first step of the data exchange of an open connection, if the request for the access
  -- methods cannot be sent and the next message of the queue is a close message, the end of the
  -- connection is reported twice.
  pub data_exchange-closings :
      (c : ShipConnection) (a : Arrival) (rest : List Arrival) (bytes : List ℕ) (phase : ClosePhase)
      → c.is_access_methods_req_sent ≡ false
      → c.shutdown_once ≡ false
      → is_ok (serialize_and_send env c send_access_methods_request).1 ≡ false
      → c.inbox ≡ a ∷ rest
      → a.message ≡ QueueMessage.data_received bytes
      → env.deserialize bytes ≡ Deserialized.sme_close (some phase)
      → closings (data_exchange env c).log ≡ suc (suc (closings c.log))
  unfolding data_exchange prepare is_ok
  data_exchange-closings c a rest bytes phase b o h i m d =
      let (again, fine) = twice c c.is_access_methods_req_sent a rest bytes phase b o h i m d in
      simp (fine, again)
