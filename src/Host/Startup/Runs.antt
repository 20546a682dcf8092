-- ===== src/Host/Startup/Runs.antt =====
-- The startups that `ongoingStartups` of zenith-extension/src/extension.ts keeps: their stages and
-- ports.
use zenith_extension.Prelude.{
  ℕ, ◌<◌, ◌≡◌, refl, false, Option, none, some, List, [], ◌∷◌, ◌==◌, All, if◌then◌else◌, Bool-cases,
  inl, inr, arith,
}
use zenith_extension.Host.Startup.{Stage, StartupRun, has_port, remove_run, set_stage}

-- How far the startup with a number is.
unfoldable pub stage_of : ℕ → List StartupRun → Option Stage
stage_of number [] = none
stage_of number (r ∷ rs) = if r.number == number then some r.stage else stage_of number rs

abbrev pub UniquePorts : List StartupRun → Type 0
UniquePorts [] = Unit
UniquePorts (r ∷ rs) = (has_port r.port rs ≡ false) × UniquePorts rs

pub stage_of-set_stage :
    (n m : ℕ) (st : Stage) (rs : List StartupRun)
    → (n == m) ≡ false
    → stage_of m (set_stage n st rs) ≡ stage_of m rs
unfolding stage_of set_stage
stage_of-set_stage n m st [] h = refl
stage_of-set_stage n m st (r ∷ rs) h = ground (arith, stage_of-set_stage n m st rs h)

pub stage_of-set_stage_self :
    (n : ℕ) (st old : Stage) (rs : List StartupRun)
    → stage_of n rs ≡ some old
    → stage_of n (set_stage n st rs) ≡ some st
unfolding stage_of set_stage
stage_of-set_stage_self n st old [] h = cc
stage_of-set_stage_self n st old (r ∷ rs) h = ground (arith, stage_of-set_stage_self n st old rs)

pub stage_of-remove_run :
    (n m : ℕ) (rs : List StartupRun)
    → (n == m) ≡ false
    → stage_of m (remove_run n rs) ≡ stage_of m rs
unfolding stage_of remove_run
stage_of-remove_run n m [] h = refl
stage_of-remove_run n m (r ∷ rs) h = ground (arith, stage_of-remove_run n m rs h)

pub has_port-set_stage :
    (n : ℕ) (st : Stage) (port : ℕ) (rs : List StartupRun)
    → has_port port (set_stage n st rs) ≡ has_port port rs
unfolding has_port set_stage
has_port-set_stage n st port [] = refl
has_port-set_stage n st port (r ∷ rs) = ground (arith, has_port-set_stage n st port rs)

pub UniquePorts-set_stage :
    (n : ℕ) (st : Stage) (rs : List StartupRun) → UniquePorts rs → UniquePorts (set_stage n st rs)
unfolding set_stage
UniquePorts-set_stage n st [] h = tt
UniquePorts-set_stage n st (r ∷ rs) (p, h) =
    (ground (arith, has_port-set_stage n st r.port rs), UniquePorts-set_stage n st rs h)

pub has_port-remove_run :
    (n port : ℕ) (rs : List StartupRun)
    → has_port port rs ≡ false
    → has_port port (remove_run n rs) ≡ false
unfolding has_port remove_run
has_port-remove_run n port [] h = refl
has_port-remove_run n port (r ∷ rs) h = ground (arith, has_port-remove_run n port rs)

pub UniquePorts-remove_run :
    (n : ℕ) (rs : List StartupRun) → UniquePorts rs → UniquePorts (remove_run n rs)
unfolding remove_run
UniquePorts-remove_run n [] h = tt
UniquePorts-remove_run n (r ∷ rs) (p, h) = elim (Bool-cases (r.number == n)) [
  | inl y ↦ rw y (UniquePorts-remove_run n rs h)
  | inr n' ↦ rw n' (has_port-remove_run n r.port rs p, UniquePorts-remove_run n rs h)
]

pub below-set_stage :
    (n next : ℕ) (st : Stage) (rs : List StartupRun)
    → All (λ r. r.number < next) rs
    → All (λ r. r.number < next) (set_stage n st rs)
unfolding set_stage
below-set_stage n next st [] h = tt
below-set_stage n next st (r ∷ rs) (p, h) = (ground arith, below-set_stage n next st rs h)

pub below-remove_run :
    (n next : ℕ) (rs : List StartupRun)
    → All (λ r. r.number < next) rs
    → All (λ r. r.number < next) (remove_run n rs)
unfolding remove_run
below-remove_run n next [] h = tt
below-remove_run n next (r ∷ rs) (p, h) = elim (Bool-cases (r.number == n)) [
  | inl y ↦ rw y (below-remove_run n next rs h)
  | inr n' ↦ rw n' (p, below-remove_run n next rs h)
]

pub below-stage_of :
    (n next : ℕ) (st : Stage) (rs : List StartupRun)
    → All (λ r. r.number < next) rs
    → stage_of n rs ≡ some st
    → n < next
unfolding stage_of
below-stage_of n next st [] h e = cc
below-stage_of n next st (r ∷ rs) (p, h) e = ground (arith, below-stage_of n next st rs h)
