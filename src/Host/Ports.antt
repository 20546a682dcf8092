-- ===== src/Host/Ports.antt =====
-- `getAvailablePort` of zenith-extension/src/extension.ts, where the system's answer for a port is a
-- parameter.
use zenith_extension.Prelude.{
  ℕ, zero, suc, ◌+◌, ◌≤◌, ◌<◌, ◌≡◌, Bool, true, false, ltb, Bool-cases, inl, inr, arith,
}

pub data Probe : Type 0 where
  found : ℕ → Probe
  -- 'No available ports found in range'
  exhausted : Probe
  out_of_fuel : Probe

-- The loop from a port on.
unfoldable pub probe : (ℕ → Bool) → ℕ → ℕ → ℕ → Probe
probe free start zero port = out_of_fuel
probe free start (suc fuel) port = elim (free port) [
  | true ↦ found port
  | false ↦ elim (ltb (start + 100) (port + 1)) [
    | true ↦ exhausted
    | false ↦ probe free start fuel (port + 1)
  ]
]

unfoldable pub get_available_port : (ℕ → Bool) → ℕ → Probe
unfolding probe
get_available_port free start = probe free start 101 start

abbrev pub AllTaken : (ℕ → Bool) → ℕ → ℕ → Type 0
AllTaken free start end = (port : ℕ) → start ≤ port → port < end → free port ≡ false

-- The first free port of the 101 from the start on, or none if all are taken.
abbrev pub IsFirstFree : (ℕ → Bool) → ℕ → Probe → Type 0
IsFirstFree free start (found p) =
    (start ≤ p) × (p ≤ start + 100) × (free p ≡ true) × AllTaken free start p
IsFirstFree free start exhausted = AllTaken free start (start + 101)
IsFirstFree free start out_of_fuel = ⊥

module _ (free : ℕ → Bool) (start : ℕ) where
  one_more :
      (port : ℕ) → AllTaken free start port → free port ≡ false → AllTaken free start (port + 1)
  one_more port h e q a b = elim (Bool-cases (ltb q port)) [
    | inl below ↦ h q a (ground arith)
    | inr at ↦ let same : q ≡ port = ground arith in rw same e
  ]

  probe-IsFirstFree :
      (fuel port : ℕ)
      → port + fuel ≡ start + 101
      → start ≤ port
      → 0 < fuel
      → AllTaken free start port
      → IsFirstFree free start (probe free start fuel port)
  unfolding probe
  probe-IsFirstFree zero port e a z h = elim z [ ]
  probe-IsFirstFree (suc fuel) port e a z h = elim (Bool-cases (free port)) [
    | inl open_port ↦ rw (open_port, probe) (a, omega arith, open_port, h)
    | inr taken ↦ elim (Bool-cases (ltb (start + 100) (port + 1))) [
      | inl last ↦ rw (taken, probe) (rw last (λ q x y. one_more port h taken q x (ground arith)))
      | inr more ↦
          rw (taken, probe)
            (rw more (
              probe-IsFirstFree fuel (port + 1) (omega arith) (omega arith) (ground arith)
                (one_more port h taken)))
    ]
  ]

  -- Looking for a port ends: with the first free one of the 101 ports from the start on, or, if all
  -- of them are taken, with the error.
  pub get_available_port-IsFirstFree : IsFirstFree free start (get_available_port free start)
  unfolding get_available_port
  get_available_port-IsFirstFree =
      probe-IsFirstFree 101 start (omega arith) (omega arith) (omega arith)
        (λ q a b. absurd (omega arith))
