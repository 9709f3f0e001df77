-- ===== src/Ship/Connection/Livelock.antt =====
-- The phase PENDING_TIMEOUT, `SmeHelloStatePendingTimeout` of
-- src/ship/ship_connection/ship_connection.c.
use openeebus.Prelude.{ℕ, zero, suc, false, ◌≡◌, refl, sym, subst, arith}
use openeebus.Common.Timer.{Timer}
use openeebus.Ship.Types.{SmeState, ShipRole, server, client}
use openeebus.Ship.Connection.{ShipConnection, Environment}
use openeebus.Ship.Connection.Hello.{hello_pending_timeout, is_expired}
use openeebus.Ship.Connection.Machine.{
  role_step, client_step, server_step, common_step, handle_state, loop,
}

-- A timer that has not expired and cannot, as it has no thread.
pub record Unarmed (t : Timer) : Type 0 where
  pub not_expired : is_expired t.timer_state ≡ false
  pub no_thread : t.has_thread ≡ false

-- No timer of the connection has expired or can.
pub record NoneArmed (c : ShipConnection) : Type 0 where
  pub wait_for_ready : Unarmed c.wait_for_ready_timer
  pub send_prolongation : Unarmed c.send_prolongation_request_timer
  pub prolongation_reply : Unarmed c.prolongation_request_reply_timer

module _ (env : Environment) where
  pending_timeout_stays : (c : ShipConnection) → NoneArmed c → hello_pending_timeout env c ≡ c
  unfolding hello_pending_timeout
  pending_timeout_stays c n =
      rw
        (
          n.wait_for_ready.not_expired, n.send_prolongation.not_expired,
          n.prolongation_reply.not_expired,
        )
        refl

  role_step_stays :
      (c : ShipConnection) (r : ShipRole)
      → c.sme_state ≡ SmeState.hello_pending_timeout
      → NoneArmed c
      → role_step env r c ≡ c
  unfolding client_step server_step common_step
  role_step_stays c client h n =
      subst (λ s. client_step env s c ≡ c) (sym h) (pending_timeout_stays c n)
  role_step_stays c server h n =
      subst (λ s. server_step env s c ≡ c) (sym h) (pending_timeout_stays c n)
  role_step_stays c ShipRole.auto h n = refl

  -- A connection in PENDING_TIMEOUT whose timers have neither expired nor a thread that lets them
  -- expire stays exactly as it is over any number of rounds: the loop spins and takes no message.
  pub loop-pending_timeout :
      (fuel : ℕ) (c : ShipConnection)
      → c.sme_state ≡ SmeState.hello_pending_timeout
      → NoneArmed c
      → loop env fuel c ≡ c
  unfolding loop handle_state
  loop-pending_timeout zero c h n = refl
  loop-pending_timeout (suc fuel) c h n =
      ground (arith, role_step_stays c c.role h n, loop-pending_timeout fuel c h n)
