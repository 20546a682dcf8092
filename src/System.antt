-- ===== src/System.antt =====
-- The system store of the webview (zenith-extension/webview-ui/src/stores/useSystemStore.ts). The
-- identifier of a notification, a random text, is an argument of `add_notification`; its timeout of
-- three seconds is the event `expired`.
pub mod Notifications
mod Tests
use zenith_extension.Prelude.{
  ℕ, Bool, true, false, not, Option, none, some, List, [], ◌∷◌, if◌then◌else◌, push,
}
use zenith_extension.Prelude.Text.{Text, codes, text_eq}

pub data Theme : Type 0 where
  dark light : Theme

pub data Level : Type 0 where
  info error success : Level

pub record Notification : Type 0 where
  pub id : Text
  pub level : Level
  pub message : Text

pub record State : Type 0 where
  pub connected_server : Option Text
  pub dev_server_url : Option Text
  pub detected_servers : List Text
  pub project_name : Text
  pub theme : Theme
  pub debug_mode : Bool
  pub is_space_pressed : Bool
  pub sandbox_port : ℕ
  pub latency : ℕ
  pub preview_mode : Bool
  pub notifications : List Notification

abbrev pub initial : State
initial = record {
  connected_server = none;
  dev_server_url = none;
  detected_servers = [];
  project_name = codes "Zenith Project";
  theme = dark;
  debug_mode = false;
  is_space_pressed = false;
  sandbox_port = 3111;
  latency = 0;
  preview_mode = false;
  notifications = [];
}

pub data Event : Type 0 where
  set_connected_server set_dev_server_url : Option Text → Event
  -- An update that is a function is applied, one that is a list is a constant function.
  set_detected_servers : (List Text → List Text) → Event
  set_project_name : Text → Event
  set_theme : Theme → Event
  toggle_debug_mode : Event
  set_is_space_pressed : Bool → Event
  set_sandbox_port set_latency : ℕ → Event
  set_preview_mode : Bool → Event
  toggle_preview : Event
  add_notification : Text → Level → Text → Event
  remove_notification : Text → Event
  -- The timeout of a notification fires.
  expired : Text → Event

-- `state.notifications.filter((n) => n.id !== id)`
unfoldable pub without : Text → List Notification → List Notification
without id [] = []
without id (n ∷ ns) = if text_eq n.id id then without id ns else n ∷ without id ns

unfoldable pub step : Event → State → State
unfolding without
step (set_connected_server url) s = record s { connected_server = url }
step (set_dev_server_url url) s = record s { dev_server_url = url }
step (set_detected_servers f) s = record s { detected_servers = f s.detected_servers }
step (set_project_name name) s = record s { project_name = name }
step (set_theme theme) s = record s { theme = theme }
step toggle_debug_mode s = record s { debug_mode = not s.debug_mode }
step (set_is_space_pressed b) s = record s { is_space_pressed = b }
step (set_sandbox_port port) s = record s { sandbox_port = port }
step (set_latency ms) s = record s { latency = ms }
step (set_preview_mode b) s = record s { preview_mode = b }
step toggle_preview s = record s { preview_mode = not s.preview_mode }
step (add_notification id level message) s = record s {
  notifications = push s.notifications (record { id = id; level = level; message = message });
}
step (remove_notification id) s = record s { notifications = without id s.notifications }
step (expired id) s = record s { notifications = without id s.notifications }

unfoldable pub run : List Event → State → State
unfolding step
run [] s = s
run (e ∷ es) s = run es (step e s)
