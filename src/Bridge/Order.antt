-- ===== src/Bridge/Order.antt =====
-- The calls that `throttle` of zenith-extension/webview-ui/src/bridge.ts sends, in any order of calls
-- and timeouts.
use zenith_extension.Prelude.{
  ℕ, ◌+◌, ◌-◌, ◌≡◌, refl, ap, Bool, true, false, Option, none, some, List, [], ◌∷◌, ◌++◌,
}
use zenith_extension.Bridge.{Throttle, idle, Event, called, fired, run}

module _ {A : Type 0} where
  -- The first list is the second with some elements left out.
  pub data IsSublist : List A → List A → Type 0 where
    empty : IsSublist [] []
    kept : (x : A) {xs ys : List A} → IsSublist xs ys → IsSublist (x ∷ xs) (x ∷ ys)
    dropped : (y : A) {xs ys : List A} → IsSublist xs ys → IsSublist xs (y ∷ ys)

  -- The arguments of the calls.
  abbrev pub calls : List (Event A) → List A
  calls [] = []
  calls (called a ∷ es) = a ∷ calls es
  calls (fired ∷ es) = calls es

  abbrev state_of : Bool → Option A → ℕ → Throttle A
  state_of b o n = record { in_throttle = b; last_args = o; timeouts = n }

  abbrev pending : Option A → List A
  pending none = []
  pending (some a) = a ∷ []

  IsSublist-none : (xs : List A) → IsSublist [] xs
  IsSublist-none [] = empty
  IsSublist-none (x ∷ xs) = dropped x (IsSublist-none xs)

  -- Arguments are kept only while the throttle is closed.
  run-IsSublist_from :
      (es : List (Event A)) (b : Bool) (o : Option A) (n : ℕ)
      → (b ≡ false → o ≡ none)
      → IsSublist (run es (state_of b o n)).1 (pending o ++ calls es)
  unfolding run
  run-IsSublist_from [] b o n h = IsSublist-none _
  run-IsSublist_from (called a ∷ es) true none n h = run-IsSublist_from es true (some a) n (λ k. cc)
  run-IsSublist_from (called a ∷ es) true (some x) n h =
      dropped x (run-IsSublist_from es true (some a) n (λ k. cc))
  run-IsSublist_from (called a ∷ es) false none n h =
      kept a (run-IsSublist_from es true none (n + 1) (λ k. refl))
  run-IsSublist_from (called a ∷ es) false (some x) n h = cc (h refl)
  run-IsSublist_from (fired ∷ es) b none n h = run-IsSublist_from es false none (n - 1) (λ k. refl)
  run-IsSublist_from (fired ∷ es) b (some x) n h =
      kept x (run-IsSublist_from es false none (n - 1) (λ k. refl))

  -- From the idle throttle, whatever the order of calls and timeouts, the arguments that are sent are
  -- arguments of the calls, in the order of the calls, and none more often than it was called with.
  pub run-IsSublist : (es : List (Event A)) → IsSublist (run es idle).1 (calls es)
  run-IsSublist es = run-IsSublist_from es false none 0 (λ k. refl)

  run-called_fired :
      (es : List (Event A)) (a : A) (b : Bool) (o : Option A) (n : ℕ)
      → (b ≡ false → o ≡ none)
      → (before : List A) × ((run (es ++ called a ∷ fired ∷ []) (state_of b o n)).1
          ≡ before ++ a ∷ [])
        × ((run (es ++ called a ∷ fired ∷ []) (state_of b o n)).0.last_args ≡ none)
  unfolding run
  run-called_fired [] a true o n h = ([], refl, refl)
  run-called_fired [] a false none n h = ([], refl, refl)
  run-called_fired [] a false (some x) n h = cc (h refl)
  run-called_fired (called c ∷ es) a true o n h = run-called_fired es a true (some c) n (λ k. cc)
  run-called_fired (called c ∷ es) a false none n h =
      let (before, e, l) = run-called_fired es a true none (n + 1) (λ k. refl) in
      (c ∷ before, ap (λ t. c ∷ t) e, l)
  run-called_fired (called c ∷ es) a false (some x) n h = cc (h refl)
  run-called_fired (fired ∷ es) a b none n h = run-called_fired es a false none (n - 1) (λ k. refl)
  run-called_fired (fired ∷ es) a b (some x) n h =
      let (before, e, l) = run-called_fired es a false none (n - 1) (λ k. refl) in
      (x ∷ before, ap (λ t. x ∷ t) e, l)

  -- Whatever happened before, the arguments of a call are the last ones that are sent once the next
  -- timeout has fired, and then nothing is pending.
  pub run-last_call :
      (es : List (Event A)) (a : A)
      → (before : List A) × ((run (es ++ called a ∷ fired ∷ []) idle).1 ≡ before ++ a ∷ [])
        × ((run (es ++ called a ∷ fired ∷ []) idle).0.last_args ≡ none)
  run-last_call es a = run-called_fired es a false none 0 (λ k. refl)
