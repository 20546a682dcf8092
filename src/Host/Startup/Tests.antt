-- ===== src/Host/Startup/Tests.antt =====
-- A busy port, and a workspace whose sidecar is being started.
use zenith_extension.Prelude.{ℕ, refl, Bool, true, ltb}
use zenith_extension.Prelude.Text.{Text, codes}
use zenith_extension.Host.Ports.{IsFirstFree, get_available_port, get_available_port-IsFirstFree}
use zenith_extension.Host.Startup.{
  resolving, StartupRun, Sidecars, nothing_started, StartupEvent, ensure, resolved, startup_step,
}
use zenith_extension.Host.Startup.Runs.{stage_of}
use zenith_extension.Host.Startup.Starting.{
  IsConsistent, Reaches, at_start, then_event, Reaches-IsConsistent,
}

abbrev is_free : ℕ → Bool
is_free port = ltb 8085 port

get_available_port-IsFirstFree_example : IsFirstFree is_free 8083 (get_available_port is_free 8083)
get_available_port-IsFirstFree_example = get_available_port-IsFirstFree is_free 8083

abbrev site : Text
site = codes "/work/site"

abbrev first_run : StartupRun
first_run = record { port = 8083; root = site; number = 0; stage = resolving }

abbrev asked : StartupEvent
asked = ensure site true true 8083 is_free

abbrev connecting_site : Sidecars
connecting_site = startup_step (resolved first_run) (startup_step asked nothing_started)

site_reached : Reaches connecting_site
unfolding startup_step stage_of
site_reached = then_event (then_event at_start asked tt) (resolved first_run) refl

Reaches-IsConsistent_example : IsConsistent connecting_site
Reaches-IsConsistent_example = Reaches-IsConsistent connecting_site site_reached
