-- ===== src/Ship/Connection/Decisions.antt =====
-- Trust decisions that race the handshake, `ShipConnectionWaitForMessage` of
-- src/ship/ship_connection/ship_connection.c.
use openeebus.Prelude.{Bool, true, false, ◌≡◌, refl, List, [], ◌∷◌}
use openeebus.Common.Error.{EebusError}
use openeebus.Ship.Connection.{
  ShipConnection, Arrival, QueueMessage, TrustDecision, is_pending_listen, take, deliver, wait_loop,
}

abbrev pub is_decision : QueueMessage → Bool
is_decision (QueueMessage.trust_granted _ _) = true
is_decision (QueueMessage.trust_denied _ _) = true
is_decision _ = false

deliver-dropped :
    (c : ShipConnection) (m : QueueMessage) (more : ShipConnection × EebusError × QueueMessage)
    (decision : TrustDecision)
    → c.trust_decision ≡ decision
    → (more.0.trust_decision ≡ decision) × (is_decision more.2 ≡ false)
    → ((deliver false c m more).0.trust_decision ≡ decision)
      × (is_decision (deliver false c m more).2 ≡ false)
unfolding deliver
deliver-dropped c (QueueMessage.trust_granted i cb) more decision h k = k
deliver-dropped c (QueueMessage.trust_denied i cb) more decision h k = k
deliver-dropped c (QueueMessage.data_received b) more decision h k = (h, refl)
deliver-dropped c (QueueMessage.spine_data_to_send b) more decision h k = (h, refl)
deliver-dropped c QueueMessage.timed_out more decision h k = (h, refl)
deliver-dropped c QueueMessage.websocket_error more decision h k = (h, refl)
deliver-dropped c QueueMessage.websocket_close more decision h k = (h, refl)
deliver-dropped c QueueMessage.cancelled more decision h k = (h, refl)

-- Outside the pending phase a wait takes no trust decision: whatever arrives, the connection's
-- decision stays as it was, and the message that ends the wait is not a decision.
pub wait_loop-is_decision :
    (arrivals : List Arrival) (c : ShipConnection)
    → is_pending_listen c.sme_state ≡ false
    → ((wait_loop arrivals c).0.trust_decision ≡ c.trust_decision)
      × (is_decision (wait_loop arrivals c).2 ≡ false)
unfolding wait_loop take
wait_loop-is_decision [] c h = (refl, refl)
wait_loop-is_decision (a ∷ rest) c h = rw h (
    deliver-dropped (take c a rest) a.message (wait_loop rest (take c a rest)) c.trust_decision refl
      (wait_loop-is_decision rest (take c a rest) h))
