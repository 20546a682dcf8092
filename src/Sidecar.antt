-- ===== src/Sidecar.antt =====
-- The client side of `SidecarManager` in zenith-extension/src/sidecar.ts, as a machine over its calls
-- and the events of its sockets, process and timers. A socket has a number; which binary is found and
-- whether the port is in use are given with `start`.
pub mod Reconnect
mod Tests
use zenith_extension.Prelude.{
  ℕ, suc, ◌+◌, ◌-◌, Bool, true, false, ◌&&◌, ◌||◌, Option, none, some, List, [], ◌∷◌, ◌++◌, ltb,
  ◌==◌, map, if◌then◌else◌,
}
use zenith_extension.Prelude.Text.{Text, codes, text_eq}

abbrev pub max_reconnect_attempts : ℕ
max_reconnect_attempts = 5

-- The field `process`: none, a process, or one whose exit code is known already.
pub data Process : Type 0 where
  absent running exited : Process

pub record Socket : Type 0 where
  pub number : ℕ
  pub is_open : Bool

pub data Output : Type 0 where
  sent : (id : ℕ) → (method : Text) → Output
  -- The timeout that is set with a request, in milliseconds.
  timeout_set : (id milliseconds : ℕ) → Output
  resolved : ℕ → Output
  rejected : (id : ℕ) → (reason : Text) → Output
  -- The promise of a request that is not sent.
  refused : Text → Output
  dropped : Text → Output
  spawned : Output
  show_error : Text → Output
  connecting : ℕ → Output
  handled : Text → Output
  killed : Output

pub record Manager : Type 0 where
  pub process : Process
  pub ws : Option Socket
  pub next_socket : ℕ
  pub rpc_id : ℕ
  pub pending : List ℕ
  pub handlers : List Text
  pub reconnect_attempts : ℕ
  -- The timers that were set to connect again, ever.
  pub reconnects : ℕ
  pub outputs : List Output

abbrev pub new_manager : Manager
new_manager = record {
  process = absent;
  ws = none;
  next_socket = 0;
  rpc_id = 0;
  pending = [];
  handlers = [];
  reconnect_attempts = 0;
  reconnects = 0;
  outputs = [];
}

abbrev pub put : Output → Manager → Manager
put o s = record s { outputs = o ∷ s.outputs }

-- `RPC_TIMEOUTS[method] ?? RPC_TIMEOUTS["default"]`
unfoldable pub timeout_of : Text → ℕ
timeout_of method =
    if text_eq method (codes "auditor.check")
    then 5000
    else if text_eq method (codes "auditor.update_layout")
    then 3000
    else if text_eq method (codes "engine.stage")
    then 15000
    else 10000

abbrev pub make_socket : Manager → Manager
make_socket s = put (connecting s.next_socket) (record s {
  ws = some (record { number = s.next_socket; is_open = false });
  next_socket = suc s.next_socket;
})

-- `connectWebSocket`, which does nothing if the process has exited.
abbrev pub connect_for : Process → Manager → Manager
connect_for exited s = s
connect_for running s = make_socket s
connect_for absent s = make_socket s

unfoldable pub connect_web_socket : Manager → Manager
connect_web_socket s = connect_for s.process s

abbrev pub is_running : Process → Bool
is_running absent = false
is_running running = true
is_running exited = true

-- `start`, up to the pause after which a spawned process is connected.
unfoldable pub start : (in_use has_binary : Bool) → Manager → Manager
unfolding connect_web_socket
start in_use has_binary s =
    if in_use
    then connect_web_socket s
    else if is_running s.process
    then s
    else if has_binary
    then put spawned (record s { process = running })
    else put (show_error (codes "Zenith: Sidecar binary not found. Running in offline mode.")) s

abbrev pub ready : Option Socket → Bool
ready none = false
ready (some k) = k.is_open

unfoldable pub send : Text → Manager → Manager
send method s =
    if ready s.ws
    then put (sent (suc s.rpc_id) method) (record s { rpc_id = suc s.rpc_id })
    else put (dropped method) s

unfoldable pub request : Text → Manager → Manager
unfolding timeout_of
request method s =
    if ready s.ws
    then put (sent (suc s.rpc_id) method) (
        put (timeout_set (suc s.rpc_id) (timeout_of method))
          (record s { rpc_id = suc s.rpc_id; pending = suc s.rpc_id ∷ s.pending }))
    else put (refused (codes "Sidecar not connected")) s

unfoldable pub has_id : ℕ → List ℕ → Bool
has_id id [] = false
has_id id (i ∷ ids) = i == id || has_id id ids

unfoldable pub remove_id : ℕ → List ℕ → List ℕ
remove_id id [] = []
remove_id id (i ∷ ids) = if i == id then remove_id id ids else i ∷ remove_id id ids

-- An answer or a timeout settles a pending request; a timeout's text leaves out method and time.
unfoldable pub settle_with : ℕ → Output → Manager → Manager
unfolding has_id remove_id
settle_with id o s =
    if has_id id s.pending then put o (record s { pending = remove_id id s.pending }) else s

abbrev pub answer_output : ℕ → Option Text → Output
answer_output id none = resolved id
answer_output id (some e) = rejected id e

unfoldable pub has_handler : Text → List Text → Bool
has_handler m [] = false
has_handler m (n ∷ ns) = text_eq n m || has_handler m ns

-- The 'close' event: all pending requests are rejected, and a new connection is planned.
unfoldable pub on_socket_close : Manager → Manager
on_socket_close s =
    let t : Manager = record s {
      ws = none;
      pending = [];
      outputs = map (λ id. rejected id (codes "Sidecar disconnected")) s.pending ++ s.outputs;
    } in
    if ltb s.reconnect_attempts max_reconnect_attempts
    then record t { reconnect_attempts = s.reconnect_attempts + 1; reconnects = s.reconnects + 1 }
    else t

abbrev pub open_socket : ℕ → Option Socket → Option Socket
open_socket n none = none
open_socket n (some k) = if k.number == n then some (record k { is_open = true }) else some k

-- `dispose`: the pending requests are forgotten, not settled.
unfoldable pub dispose_manager : Manager → Manager
dispose_manager s = record s {
  ws = none;
  process = absent;
  pending = [];
  handlers = [];
  outputs = if is_running s.process then killed ∷ s.outputs else s.outputs;
}

pub data Signal : Type 0 where
  started : (in_use has_binary : Bool) → Signal
  -- The pause after the spawn, or a timer to connect again, is over.
  connect_now : Signal
  sent_message requested on_method notified : Text → Signal
  responded : (id : ℕ) → (error : Option Text) → Signal
  timed_out : ℕ → Signal
  opened : ℕ → Signal
  closed process_exits exit_event disposed : Signal

unfoldable pub signal_step : Signal → Manager → Manager
unfolding start connect_web_socket send request settle_with on_socket_close dispose_manager
    has_handler
signal_step (started in_use has_binary) s = start in_use has_binary s
signal_step connect_now s = connect_web_socket s
signal_step (sent_message method) s = send method s
signal_step (requested method) s = request method s
signal_step (on_method method) s = record s { handlers = method ∷ s.handlers }
signal_step (notified method) s =
    if has_handler method s.handlers then put (handled method) s else s
signal_step (responded id error) s = settle_with id (answer_output id error) s
signal_step (timed_out id) s = settle_with id (rejected id (codes "RPC timeout")) s
signal_step (opened n) s = record s { ws = open_socket n s.ws; reconnect_attempts = 0 }
signal_step closed s = on_socket_close s
signal_step process_exits s = record s { process = if is_running s.process then exited else absent }
signal_step exit_event s = record s { process = absent; ws = none }
signal_step disposed s = dispose_manager s

unfoldable pub signal_run : List Signal → Manager → Manager
unfolding signal_step
signal_run [] s = s
signal_run (e ∷ es) s = signal_run es (signal_step e s)
