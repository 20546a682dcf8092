-- ===== src/Vite/Proxy.antt =====
-- `fetchFromGhostProxy` of zenith-vite-plugin/src/index.ts: the virtual content of a file, asked up to
-- five times.
use zenith_extension.Prelude.{
  ℕ, zero, suc, ◌+◌, ◌<◌, ◌≤◌, ◌≡◌, ◌⊎◌, refl, true, false, Option, none, ltb, Bool-cases, inl, inr,
  arith,
}
use zenith_extension.Prelude.Text.{Text}

-- How a connection ends: with an answer, which may hold no content, with an error of a proxy that is
-- not there yet (`ENOENT`, `ECONNREFUSED`, a timeout), or with another error.
pub data Attempt : Type 0 where
  answered : Option Text → Attempt
  not_there broken : Attempt

-- The content, and the attempts made.
pub record Fetched : Type 0 where
  pub content : Option Text
  pub attempts : ℕ

unfoldable pub fetch_from : (ℕ → Attempt) → ℕ → ℕ → Fetched
fetch_from try_connect zero attempt = record { content = none; attempts = attempt }
fetch_from try_connect (suc left) attempt = elim (try_connect attempt) [
  | answered content ↦ record { content = content; attempts = attempt }
  | not_there ↦ elim (ltb attempt 5) [
    | true ↦ fetch_from try_connect left (attempt + 1)
    | false ↦ record { content = none; attempts = attempt }
  ]
  | broken ↦ record { content = none; attempts = attempt }
]

unfoldable pub fetch_from_ghost_proxy : (ℕ → Attempt) → Fetched
unfolding fetch_from
fetch_from_ghost_proxy try_connect = fetch_from try_connect 5 1

-- What the attempts up to the fifth say: the first that does not say that the proxy is not there.
abbrev pub first_answer : (ℕ → Attempt) → ℕ → ℕ → Option Text
first_answer try_connect zero attempt = none
first_answer try_connect (suc left) attempt = elim (try_connect attempt) [
  | answered content ↦ content
  | not_there ↦ first_answer try_connect left (attempt + 1)
  | broken ↦ none
]

Attempt-cases :
    (a : Attempt) → ((c : Option Text) × (a ≡ answered c)) ⊎ ((a ≡ not_there) ⊎ (a ≡ broken))
Attempt-cases (answered c) = inl (c, refl)
Attempt-cases not_there = inr (inl refl)
Attempt-cases broken = inr (inr refl)

fetch_from-first :
    (try_connect : ℕ → Attempt) (left attempt : ℕ)
    → attempt + left ≡ 6
    → 0 < left
    → ((fetch_from try_connect left attempt).content ≡ first_answer try_connect left attempt)
      × ((fetch_from try_connect left attempt).attempts ≤ 5)
unfolding fetch_from
fetch_from-first try_connect zero attempt e h = elim h [ ]
fetch_from-first try_connect (suc left) attempt e h = elim (Attempt-cases (try_connect attempt)) [
  | inl (c, a) ↦ rw (a, fetch_from, first_answer) (refl, omega arith)
  | inr (inl a) ↦ elim (Bool-cases (ltb attempt 5)) [
    | inl more ↦
        rw (a, fetch_from, first_answer)
          (rw more (fetch_from-first try_connect left (attempt + 1) (omega arith) (ground arith)))
    | inr last ↦
        let none_left : left ≡ 0 = ground arith in
        rw (a, fetch_from, first_answer) (rw last (rw none_left refl, ground arith))
  ]
  | inr (inr a) ↦ rw (a, fetch_from, first_answer) (refl, omega arith)
]

-- Asking the proxy gives the content of the first attempt that does not find it missing, and makes
-- five attempts at most.
pub fetch_from_ghost_proxy-first :
    (try_connect : ℕ → Attempt)
    → ((fetch_from_ghost_proxy try_connect).content ≡ first_answer try_connect 5 1)
      × ((fetch_from_ghost_proxy try_connect).attempts ≤ 5)
unfolding fetch_from_ghost_proxy
fetch_from_ghost_proxy-first try_connect =
    fetch_from-first try_connect 5 1 (omega arith) (omega arith)
