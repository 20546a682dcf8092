-- ===== src/Host/Startup.antt =====
-- `ensureSidecarForWorkspace` and `shutdownSidecarForWorkspace` of zenith-extension/src/extension.ts,
-- as a machine: a startup resolves its project, then makes the handle and connects, and other
-- requests come in between. A handle is an object, so it has an identity, the number of its startup.
pub mod Runs
pub mod Starting
mod Tests
use zenith_extension.Prelude.{
  ℕ, suc, ◌+◌, Bool, true, false, ◌&&◌, ◌||◌, Option, none, some, List, [], ◌∷◌, ◌==◌, map,
  if◌then◌else◌,
}
use zenith_extension.Prelude.Text.{Text, codes, text_eq}
use zenith_extension.Host.{Phase, Phase.starting, Phase.ready, Phase.error}
use zenith_extension.Host.Ports.{Probe, found, exhausted, out_of_fuel, get_available_port}
use zenith_extension.Hash.Hex.{lower_char}

-- How far a startup is. One whose project could not be resolved is never removed.
pub data Stage : Type 0 where
  resolving connecting stuck : Stage

pub record StartupRun : Type 0 where
  pub port : ℕ
  pub root : Text
  pub number : ℕ
  pub stage : Stage

pub record HandleEntry : Type 0 where
  pub root : Text
  pub number : ℕ
  pub phase : Phase

-- `activeSidecars`, `ongoingStartups` and the number of the next startup.
pub record Sidecars : Type 0 where
  pub entries : List HandleEntry
  pub ongoing : List StartupRun
  pub next_number : ℕ

abbrev pub nothing_started : Sidecars
nothing_started = record { entries = []; ongoing = []; next_number = 0 }

-- `s.includes(t)`
unfoldable pub starts_with : Text → Text → Bool
starts_with s [] = true
starts_with [] (d ∷ t) = false
starts_with (c ∷ s) (d ∷ t) = c == d && starts_with s t

unfoldable pub includes : Text → Text → Bool
unfolding starts_with
includes [] t = starts_with [] t
includes (c ∷ s) t = starts_with (c ∷ s) t || includes s t

-- The program's own source projects get no sidecar.
unfoldable pub is_source_project : Text → Bool
unfolding includes lower_char
is_source_project root =
    includes (map lower_char root) (codes "zenith-extension")
    || includes (map lower_char root) (codes "zenith-vite-plugin")

unfoldable pub entry_of : Text → List HandleEntry → Option HandleEntry
entry_of root [] = none
entry_of root (e ∷ es) = if text_eq e.root root then some e else entry_of root es

unfoldable pub delete_entry : Text → List HandleEntry → List HandleEntry
delete_entry root [] = []
delete_entry root (e ∷ es) =
    if text_eq e.root root then delete_entry root es else e ∷ delete_entry root es

unfoldable pub has_port : ℕ → List StartupRun → Bool
has_port port [] = false
has_port port (r ∷ rs) = r.port == port || has_port port rs

unfoldable pub remove_run : ℕ → List StartupRun → List StartupRun
remove_run number [] = []
remove_run number (r ∷ rs) =
    if r.number == number then remove_run number rs else r ∷ remove_run number rs

-- A startup on a port, unless there is one.
unfoldable pub start_on : Text → ℕ → Sidecars → Sidecars
unfolding has_port
start_on root port s = if has_port port s.ongoing then s else record s {
  ongoing =
      record { port = port; root = root; number = s.next_number; stage = resolving } ∷ s.ongoing;
  next_number = suc s.next_number;
}

abbrev pub start_at : Text → Probe → Sidecars → Sidecars
start_at root (found port) s = start_on root port s
start_at root exhausted s = s
start_at root out_of_fuel s = s

-- A single folder takes the port of the settings, another one the first free port from there on.
unfoldable pub choose_and_start : Text → (single : Bool) → ℕ → (ℕ → Bool) → Sidecars → Sidecars
unfolding start_on
choose_and_start root single base free s =
    start_at root (if single then found base else get_available_port free base) s

-- A ready sidecar is asked whether it is alive, and its entry deleted if not.
unfoldable pub ensure_phase :
    Phase → Text → (alive single : Bool) → ℕ → (ℕ → Bool) → Sidecars → Sidecars
unfolding choose_and_start delete_entry
ensure_phase Phase.starting root alive single base free s = s
ensure_phase Phase.ready root alive single base free s =
    if alive
    then s
    else choose_and_start root single base free (record s { entries = delete_entry root s.entries })
ensure_phase Phase.error root alive single base free s = choose_and_start root single base free s

unfoldable pub ensure_entry :
    Option HandleEntry → Text → (alive single : Bool) → ℕ → (ℕ → Bool) → Sidecars → Sidecars
unfolding ensure_phase choose_and_start
ensure_entry none root alive single base free s = choose_and_start root single base free s
ensure_entry (some e) root alive single base free s =
    ensure_phase e.phase root alive single base free s

-- `ensureSidecarForWorkspace`, up to the startup, where nothing else happens while it waits.
unfoldable pub ensure_sidecar : Text → (alive single : Bool) → ℕ → (ℕ → Bool) → Sidecars → Sidecars
unfolding ensure_entry entry_of is_source_project
ensure_sidecar root alive single base free s =
    if is_source_project root
    then s
    else ensure_entry (entry_of root s.entries) root alive single base free s

unfoldable pub set_stage : ℕ → Stage → List StartupRun → List StartupRun
set_stage number stage [] = []
set_stage number stage (r ∷ rs) =
    (if r.number == number then record r { stage = stage } else r) ∷ set_stage number stage rs

unfoldable pub set_phase : ℕ → Phase → List HandleEntry → List HandleEntry
set_phase number phase [] = []
set_phase number phase (e ∷ es) =
    (if e.number == number then record e { phase = phase } else e) ∷ set_phase number phase es

pub data StartupEvent : Type 0 where
  ensure : (root : Text) → (alive single : Bool) → (base : ℕ) → (free : ℕ → Bool) → StartupEvent
  -- A request that waits, for the status of a sidecar or for a free port, while other events happen:
  -- the status call fails, and the port is found.
  went_stale : Text → StartupEvent
  port_chosen : (root : Text) → (port : ℕ) → StartupEvent
  -- The project of a startup is resolved, or an error ends it.
  resolved resolve_failed : StartupRun → StartupEvent
  -- The sidecar of a startup is connected, or an error is caught.
  finished : StartupRun → (ok : Bool) → StartupEvent
  -- A status call fails.
  status_failed : Text → StartupEvent
  shutdown : Text → StartupEvent

unfoldable pub fail_entry : Text → List HandleEntry → List HandleEntry
fail_entry root [] = []
fail_entry root (e ∷ es) =
    if text_eq e.root root then record e { phase = Phase.error } ∷ es else e ∷ fail_entry root es

unfoldable pub startup_step : StartupEvent → Sidecars → Sidecars
unfolding ensure_sidecar start_on set_stage set_phase delete_entry remove_run fail_entry
startup_step (ensure root alive single base free) s = ensure_sidecar root alive single base free s
startup_step (went_stale root) s = record s { entries = delete_entry root s.entries }
startup_step (port_chosen root port) s = start_on root port s
startup_step (resolved r) s = record s {
  entries =
      record { root = r.root; number = r.number; phase = Phase.starting }
      ∷ delete_entry r.root s.entries;
  ongoing = set_stage r.number connecting s.ongoing;
}
startup_step (resolve_failed r) s = record s { ongoing = set_stage r.number stuck s.ongoing }
startup_step (finished r ok) s = record s {
  entries = set_phase r.number (if ok then Phase.ready else Phase.error) s.entries;
  ongoing = remove_run r.number s.ongoing;
}
startup_step (status_failed root) s = record s { entries = fail_entry root s.entries }
startup_step (shutdown root) s = record s { entries = delete_entry root s.entries }
