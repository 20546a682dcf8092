-- ===== src/Bridge/Tests.antt =====
-- The throttle at a concrete burst of calls.
use zenith_extension.Prelude.{ℕ, ◌≡◌, none, List, [], ◌∷◌, ◌++◌, map}
use zenith_extension.Bridge.{idle, Event, called, fired, run}
use zenith_extension.Bridge.Burst.{run-burst}
use zenith_extension.Bridge.Order.{run-last_call}

abbrev events : List (Event ℕ)
events = called 1 ∷ called 2 ∷ called 3 ∷ fired ∷ called 4 ∷ []

run-burst_example :
    run {A = ℕ} (called 1 ∷ (map called (2 ∷ 3 ∷ []) ++ called 4 ∷ fired ∷ [])) idle
    ≡ (idle, 1 ∷ 4 ∷ [])
run-burst_example = run-burst 1 (2 ∷ 3 ∷ []) 4

run-last_call_example :
    (before : List ℕ) × ((run (events ++ called 5 ∷ fired ∷ []) idle).1 ≡ before ++ 5 ∷ [])
    × ((run (events ++ called 5 ∷ fired ∷ []) idle).0.last_args ≡ none)
run-last_call_example = run-last_call events 5
