-- ===== src/Rpc/Tests.antt =====
-- A concrete run of the client: two calls, a reply to the first, a late timer.
use zenith_extension.Prelude.{◌+◌, ◌≡◌, true, List, [], ◌∷◌, ◌++◌}
use zenith_extension.Prelude.Text.{codes}
use zenith_extension.Rpc.{new_client, Event, called, replied, expired, closed, succeeded, run}
use zenith_extension.Rpc.Settled.{
  count_calls, count_pending, count_settled, run-settled, run-closed,
}

abbrev events : List Event
events = called 70 true ∷ called 80 true ∷ replied 1 (succeeded (codes "ok")) ∷ expired 1 ∷ []

run-settled_example :
    count_calls 70 events
    ≡ count_pending 70 (run events new_client).0.pending
      + count_settled 70 (run events new_client).1
run-settled_example = run-settled 70 events

run-closed_example :
    count_settled 80 (run (events ++ closed ∷ []) new_client).1 ≡ count_calls 80 events
run-closed_example = run-closed 80 events
