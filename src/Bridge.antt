-- ===== src/Bridge.antt =====
-- `throttle` of zenith-extension/webview-ui/src/bridge.ts, which both `patchStyleThrottled` and
-- `patchBatchThrottled` use: its closure as a state, and its calls and timeouts as events. The
-- function that it wraps is what is sent.
pub mod Burst
pub mod Order
mod Tests
use zenith_extension.Prelude.{
  ℕ, ◌+◌, ◌-◌, Bool, true, false, Option, none, some, List, [], ◌∷◌, ◌++◌, if◌then◌else◌,
}

-- `inThrottle`, `lastArgs`, and the number of timeouts that are set and have not fired.
pub record Throttle (A : Type 0) : Type 0 where
  pub in_throttle : Bool
  pub last_args : Option A
  pub timeouts : ℕ

abbrev pub idle : {A : Type 0} → Throttle A
idle = record { in_throttle = false; last_args = none; timeouts = 0 }

pub data Event (A : Type 0) : Type 0 where
  called : A → Event A
  -- A timeout fires.
  fired : Event A

module _ {A : Type 0} where
  -- The function that `throttle` returns.
  unfoldable pub on_call : A → Throttle A → Throttle A × List A
  on_call args s =
      if s.in_throttle
      then (record s { last_args = some args }, [])
      else (record s { in_throttle = true; timeouts = s.timeouts + 1 }, args ∷ [])

  -- The function that it gives to `setTimeout`.
  unfoldable pub on_timeout : Throttle A → Throttle A × List A
  on_timeout s =
      let rest = s.timeouts - 1 in
      elim s.last_args [
        | none ↦ (record { in_throttle = false; last_args = none; timeouts = rest }, [])
        | some args ↦ (record { in_throttle = false; last_args = none; timeouts = rest }, args ∷ [])
      ]

  unfoldable pub step : Event A → Throttle A → Throttle A × List A
  unfolding on_call on_timeout
  step (called args) s = on_call args s
  step fired s = on_timeout s

  -- Events in their order, with all that they send.
  unfoldable pub run : List (Event A) → Throttle A → Throttle A × List A
  unfolding step
  run [] s = (s, [])
  run (e ∷ es) s = let (s', sent) = step e s in let (s'', later) = run es s' in (s'', sent ++ later)
