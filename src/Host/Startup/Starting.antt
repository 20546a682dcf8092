-- ===== src/Host/Startup/Starting.antt =====
-- No sidecar of zenith-extension/src/extension.ts is left starting for ever, and no two startups run
-- on one port.
use zenith_extension.Prelude.{
  ℕ, suc, ◌<◌, ◌≡◌, ◌≢◌, Bool, true, false, Option, none, some, List, [], ◌∷◌, ◌==◌, ==_iff, All,
  All-map, ◌∙◌, if◌then◌else◌, Bool-cases, inl, inr, arith,
}
use zenith_extension.Prelude.Text.{Text, text_eq}
use zenith_extension.Host.{Phase}
use zenith_extension.Host.Startup.Runs.{
  stage_of, UniquePorts, stage_of-set_stage, stage_of-set_stage_self, stage_of-remove_run,
  UniquePorts-set_stage, UniquePorts-remove_run, below-set_stage, below-remove_run, below-stage_of,
}
use zenith_extension.Host.Ports.{Probe, found, exhausted, out_of_fuel}
use zenith_extension.Host.Startup.{
  Stage, resolving, connecting, stuck, StartupRun, HandleEntry, Sidecars, nothing_started, entry_of,
  delete_entry, has_port, remove_run, start_on, start_at, choose_and_start, ensure_phase,
  ensure_entry, ensure_sidecar, is_source_project, set_stage, set_phase, StartupEvent, ensure,
  went_stale, port_chosen, resolved, resolve_failed, finished, status_failed, shutdown, fail_entry,
  startup_step,
}

-- A handle that is starting belongs to a startup that connects.
abbrev pub IsKept : List StartupRun → ℕ → HandleEntry → Type 0
IsKept ongoing next e =
    (e.number < next) × (e.phase ≡ Phase.starting → stage_of e.number ongoing ≡ some connecting)

pub record IsConsistent (s : Sidecars) : Type 0 where
  pub entries_kept : All (IsKept s.ongoing s.next_number) s.entries
  pub runs_below : All (λ r. r.number < s.next_number) s.ongoing
  pub ports_unique : UniquePorts s.ongoing

-- An event that can happen: a startup goes on from the stage where it is.
abbrev pub CanHappen : StartupEvent → Sidecars → Type 0
CanHappen (ensure root alive single base free) s = Unit
CanHappen (went_stale root) s = Unit
CanHappen (port_chosen root port) s = Unit
CanHappen (resolved r) s = stage_of r.number s.ongoing ≡ some resolving
CanHappen (resolve_failed r) s = stage_of r.number s.ongoing ≡ some resolving
CanHappen (finished r ok) s = stage_of r.number s.ongoing ≡ some connecting
CanHappen (status_failed root) s = Unit
CanHappen (shutdown root) s = Unit

pub data Reaches : Sidecars → Type 0 where
  at_start : Reaches nothing_started
  then_event :
      {s : Sidecars} → Reaches s → (e : StartupEvent) → CanHappen e s → Reaches (startup_step e s)

All-delete_entry :
    (P : HandleEntry → Type 0) (root : Text) (es : List HandleEntry)
    → All P es
    → All P (delete_entry root es)
unfolding delete_entry
All-delete_entry P root [] h = tt
All-delete_entry P root (e ∷ es) (p, h) = elim (Bool-cases (text_eq e.root root)) [
  | inl y ↦ rw y (All-delete_entry P root es h)
  | inr n ↦ rw n (p, All-delete_entry P root es h)
]

-- The lists of the entries after each operation.
fail_entry-IsKept :
    (ongoing : List StartupRun) (next : ℕ) (root : Text) (es : List HandleEntry)
    → All (IsKept ongoing next) es
    → All (IsKept ongoing next) (fail_entry root es)
unfolding fail_entry
fail_entry-IsKept ongoing next root [] h = tt
fail_entry-IsKept ongoing next root (e ∷ es) ((b, k), h) = elim (Bool-cases (text_eq e.root root)) [
  | inl y ↦ rw y ((b, λ p. cc), h)
  | inr n ↦ rw n ((b, k), fail_entry-IsKept ongoing next root es h)
]

-- A startup that ends leaves no handle starting, and the others alone.
set_phase-IsKept :
    (ongoing : List StartupRun) (next n : ℕ) (phase : Phase) (es : List HandleEntry)
    → phase ≢ Phase.starting
    → All (IsKept ongoing next) es
    → All (IsKept (remove_run n ongoing) next) (set_phase n phase es)
unfolding set_phase
set_phase-IsKept ongoing next n phase [] d h = tt
set_phase-IsKept ongoing next n phase (e ∷ es) d ((b, k), h) = elim (Bool-cases (e.number == n)) [
  | inl y ↦ rw y ((b, λ p. absurd (d p)), set_phase-IsKept ongoing next n phase es d h)
  | inr other ↦ rw other (
    (b, λ p. stage_of-remove_run n e.number ongoing (ground arith) ∙ k p),
    set_phase-IsKept ongoing next n phase es d h,
  )
]

differ :
    (ongoing : List StartupRun) (n m : ℕ)
    → stage_of n ongoing ≡ some resolving
    → stage_of m ongoing ≡ some connecting
    → (n == m) ≡ false
differ ongoing n m r c = elim (Bool-cases (n == m)) [
  | inl same ↦ absurd (both ((==_iff n m).0 same))
  | inr other ↦ other
]
  where
    both : n ≡ m → ⊥
    both e = let c' : stage_of n ongoing ≡ some connecting = rw e c in cc

-- A startup that goes on from resolving is none that a starting handle belongs to.
set_stage-IsKept :
    (ongoing : List StartupRun) (next n : ℕ) (st : Stage) (e : HandleEntry)
    → stage_of n ongoing ≡ some resolving
    → IsKept ongoing next e
    → IsKept (set_stage n st ongoing) next e
set_stage-IsKept ongoing next n st e r (b, k) =
    (b, λ p. stage_of-set_stage n e.number st ongoing (differ ongoing n e.number r (k p)) ∙ k p)

-- A startup with a new number changes no other.
new_run-IsKept :
    (ongoing : List StartupRun) (r : StartupRun) (e : HandleEntry)
    → IsKept ongoing r.number e
    → IsKept (r ∷ ongoing) (suc r.number) e
unfolding stage_of
new_run-IsKept ongoing r e (b, k) = (omega arith, λ p. ground (arith, k p))

start_on-IsConsistent :
    (root : Text) (port : ℕ) (s : Sidecars) → IsConsistent s → IsConsistent (start_on root port s)
unfolding start_on
start_on-IsConsistent root port s c = elim (Bool-cases (has_port port s.ongoing)) [
  | inl taken ↦ rw taken c
  | inr free ↦ rw free (record {
    entries_kept = All-map _ _ s.entries (new_run-IsKept s.ongoing _) c.entries_kept;
    runs_below = (omega arith, All-map _ _ s.ongoing (λ r h. omega (arith, h)) c.runs_below);
    ports_unique = (free, c.ports_unique);
  })
]

start_at-IsConsistent :
    (root : Text) (p : Probe) (s : Sidecars) → IsConsistent s → IsConsistent (start_at root p s)
start_at-IsConsistent root (found port) s c = start_on-IsConsistent root port s c
start_at-IsConsistent root exhausted s c = c
start_at-IsConsistent root out_of_fuel s c = c

delete-IsConsistent :
    (root : Text) (s : Sidecars)
    → IsConsistent s
    → IsConsistent (record s { entries = delete_entry root s.entries })
delete-IsConsistent root s c = record {
  entries_kept = All-delete_entry _ root s.entries c.entries_kept;
  runs_below = c.runs_below;
  ports_unique = c.ports_unique;
}

module _ (root : Text) (single : Bool) (base : ℕ) (free : ℕ → Bool) (s : Sidecars)
    (c : IsConsistent s) where
  ensure_ready :
      (alive : Bool)
      → IsConsistent (
          if alive
          then s
          else choose_and_start root single base free
              (record s { entries = delete_entry root s.entries }))
  unfolding choose_and_start
  ensure_ready true = c
  ensure_ready false = start_at-IsConsistent root _ _ (delete-IsConsistent root s c)

  choose-IsConsistent : IsConsistent (choose_and_start root single base free s)
  unfolding choose_and_start
  choose-IsConsistent = start_at-IsConsistent root _ s c

  ensure_phase-IsConsistent :
      (p : Phase) (alive : Bool) → IsConsistent (ensure_phase p root alive single base free s)
  unfolding ensure_phase
  ensure_phase-IsConsistent Phase.starting alive = c
  ensure_phase-IsConsistent Phase.ready alive = ensure_ready alive
  ensure_phase-IsConsistent Phase.error alive = choose-IsConsistent

  ensure_entry-IsConsistent :
      (e : Option HandleEntry) (alive : Bool)
      → IsConsistent (ensure_entry e root alive single base free s)
  unfolding ensure_entry
  ensure_entry-IsConsistent none alive = choose-IsConsistent
  ensure_entry-IsConsistent (some e) alive = ensure_phase-IsConsistent e.phase alive

  ensure_sidecar-IsConsistent :
      (alive : Bool) → IsConsistent (ensure_sidecar root alive single base free s)
  unfolding ensure_sidecar
  ensure_sidecar-IsConsistent alive = elim (Bool-cases (is_source_project root)) [
    | inl y ↦ rw y c
    | inr n ↦ rw n (ensure_entry-IsConsistent (entry_of root s.entries) alive)
  ]

phase_of : Bool → Phase
phase_of ok = if ok then Phase.ready else Phase.error

phase_of-ne : (ok : Bool) → phase_of ok ≢ Phase.starting
unfolding phase_of
phase_of-ne true e = cc
phase_of-ne false e = cc

startup_step-IsConsistent :
    (e : StartupEvent) (s : Sidecars)
    → CanHappen e s
    → IsConsistent s
    → IsConsistent (startup_step e s)
unfolding startup_step phase_of
startup_step-IsConsistent (ensure root alive single base free) s h c =
    ensure_sidecar-IsConsistent root single base free s c alive
startup_step-IsConsistent (went_stale root) s h c = delete-IsConsistent root s c
startup_step-IsConsistent (port_chosen root port) s h c = start_on-IsConsistent root port s c
startup_step-IsConsistent (resolved r) s h c = record {
  entries_kept = (
    (
      below-stage_of r.number s.next_number resolving s.ongoing c.runs_below h,
      λ p. stage_of-set_stage_self r.number connecting resolving s.ongoing h,
    ),
    All-delete_entry _ r.root s.entries (
        All-map _ _ s.entries
          (λ e k. set_stage-IsKept s.ongoing s.next_number r.number connecting e h k)
          c.entries_kept),
  );
  runs_below = below-set_stage r.number s.next_number connecting s.ongoing c.runs_below;
  ports_unique = UniquePorts-set_stage r.number connecting s.ongoing c.ports_unique;
}
startup_step-IsConsistent (resolve_failed r) s h c = record {
  entries_kept =
      All-map _ _ s.entries (λ e k. set_stage-IsKept s.ongoing s.next_number r.number stuck e h k)
        c.entries_kept;
  runs_below = below-set_stage r.number s.next_number stuck s.ongoing c.runs_below;
  ports_unique = UniquePorts-set_stage r.number stuck s.ongoing c.ports_unique;
}
startup_step-IsConsistent (finished r ok) s h c = record {
  entries_kept =
      set_phase-IsKept s.ongoing s.next_number r.number (phase_of ok) s.entries (phase_of-ne ok)
        c.entries_kept;
  runs_below = below-remove_run r.number s.next_number s.ongoing c.runs_below;
  ports_unique = UniquePorts-remove_run r.number s.ongoing c.ports_unique;
}
startup_step-IsConsistent (status_failed root) s h c = record {
  entries_kept = fail_entry-IsKept s.ongoing s.next_number root s.entries c.entries_kept;
  runs_below = c.runs_below;
  ports_unique = c.ports_unique;
}
startup_step-IsConsistent (shutdown root) s h c = delete-IsConsistent root s c

-- Whatever happens from the start on, in whatever order, a handle that is starting belongs to a
-- startup that is still connecting, and no two startups have the same port.
pub Reaches-IsConsistent : (s : Sidecars) → Reaches s → IsConsistent s
Reaches-IsConsistent _ at_start = record { entries_kept = tt; runs_below = tt; ports_unique = tt }
Reaches-IsConsistent _ (then_event {s = t} r e h) =
    startup_step-IsConsistent e t h (Reaches-IsConsistent t r)
