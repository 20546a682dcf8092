-- ===== src/Sidecar/Tests.antt =====
-- Runs of the machine of zenith-extension/src/sidecar.ts, and the instance of its bound.
use zenith_extension.Prelude.{◌+◌, ◌≤◌, ◌≡◌, refl, true, false, List, [], ◌∷◌}
use zenith_extension.Prelude.Text.{codes, text_eq}
use zenith_extension.Sidecar.{
  sent, timeout_set, rejected, spawned, connecting, new_manager, Signal, started, connect_now,
  requested, opened, closed, disposed, signal_run, timed_out,
}
use zenith_extension.Sidecar.Reconnect.{NoOpening, is_opening, signal_run-reconnects}

-- A process is started, its socket opens and closes, and two attempts to connect again fail.
abbrev lost_twice : List Signal
lost_twice =
    started false true
    ∷ connect_now
    ∷ opened 0
    ∷ requested (codes "engine.stage")
    ∷ closed
    ∷ connect_now
    ∷ closed
    ∷ []

lost_twice_outputs :
    (signal_run lost_twice new_manager).outputs
    ≡ connecting 1
      ∷ rejected 1 (codes "Sidecar disconnected")
      ∷ sent 1 (codes "engine.stage")
      ∷ timeout_set 1 15000
      ∷ connecting 0
      ∷ spawned
      ∷ []
unfolding signal_run text_eq
lost_twice_outputs = refl

-- A request that is pending when the manager is disposed is neither resolved nor rejected, not even
-- by the timeout that was set with it; the closing socket then plans a new connection.
abbrev disposed_with_request : List Signal
disposed_with_request =
    started true false
    ∷ opened 0
    ∷ requested (codes "auditor.check")
    ∷ disposed
    ∷ closed
    ∷ timed_out 1
    ∷ []

disposed_with_request_outputs :
    (signal_run disposed_with_request new_manager).outputs
    ≡ sent 1 (codes "auditor.check") ∷ timeout_set 1 5000 ∷ connecting 0 ∷ []
unfolding signal_run text_eq
disposed_with_request_outputs = refl

disposed_with_request_reconnects : (signal_run disposed_with_request new_manager).reconnects ≡ 1
unfolding signal_run
disposed_with_request_reconnects = refl

-- Six closings in a row set five timers only.
abbrev never_open : List Signal
never_open = started true false ∷ closed ∷ closed ∷ closed ∷ closed ∷ closed ∷ closed ∷ []

never_open_reconnects : (signal_run never_open new_manager).reconnects ≡ 5
unfolding signal_run
never_open_reconnects = refl

abbrev lost_again : List Signal
lost_again = connect_now ∷ closed ∷ connect_now ∷ closed ∷ []

lost_again-NoOpening : NoOpening lost_again
unfolding NoOpening is_opening
lost_again-NoOpening = (refl, (refl, (refl, (refl, tt))))

signal_run-reconnects_example :
    ((signal_run lost_again (signal_run lost_twice new_manager)).reconnects
      ≤ (signal_run lost_twice new_manager).reconnects + 5)
    × ((signal_run lost_again (signal_run lost_twice new_manager)).reconnect_attempts ≤ 5)
signal_run-reconnects_example = signal_run-reconnects lost_twice lost_again lost_again-NoOpening
