-- ===== src/Bridge/Burst.antt =====
-- What `throttle` of zenith-extension/webview-ui/src/bridge.ts sends of a burst of calls.
use zenith_extension.Prelude.{◌≡◌, refl, ap, true, Option, none, some, List, [], ◌∷◌, ◌++◌, map}
use zenith_extension.Bridge.{Throttle, idle, called, fired, run}

module _ {A : Type 0} where
  abbrev waiting : Option A → Throttle A
  waiting last = record { in_throttle = true; last_args = last; timeouts = 1 }

  run-waiting :
      (middle : List A) (c : A) (last : Option A)
      → run (map called middle ++ called c ∷ fired ∷ []) (waiting last) ≡ (idle, c ∷ [])
  unfolding run
  run-waiting [] c last = refl
  run-waiting (b ∷ middle) c last = run-waiting middle c (some b)

  -- A burst of two calls or more before the timeout, from the idle throttle, sends the first call
  -- and the last one, drops all others, and leaves the throttle idle.
  pub run-burst :
      (a : A) (middle : List A) (c : A)
      → run (called a ∷ (map called middle ++ called c ∷ fired ∷ [])) idle ≡ (idle, a ∷ c ∷ [])
  unfolding run
  run-burst a middle c = ap (λ r. (r.0, a ∷ r.1)) (run-waiting middle c none)
