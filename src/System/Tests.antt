-- ===== src/System/Tests.antt =====
-- A concrete notification that expires.
use zenith_extension.Prelude.{◌≡◌, List, [], ◌∷◌}
use zenith_extension.Prelude.Text.{codes}
use zenith_extension.System.{initial, Event, info, add_notification, toggle_preview, expired, run}
use zenith_extension.System.Notifications.{is_shown, shown_after, is_shown-run}

abbrev events : List Event
events =
    add_notification (codes "a1") info (codes "Saved") ∷ toggle_preview ∷ expired (codes "a1") ∷ []

is_shown-run_example :
    is_shown (codes "a1") (run events initial).notifications
    ≡ shown_after (codes "a1") (is_shown (codes "a1") initial.notifications) events
is_shown-run_example = is_shown-run (codes "a1") events initial
