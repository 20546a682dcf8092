-- ===== src/Host.antt =====
-- The extension host (zenith-extension/src/extension.ts): what it keeps for each workspace, what it
-- sends, and the operations that its handlers are made of. A handler runs alone, from a message to
-- its end; what it awaits is answered by the environment, from everything that was done before.
pub mod Sync
pub mod Commands
pub mod Router
pub mod Silent
pub mod Answers
pub mod Offline
pub mod TextEdit
pub mod Ports
pub mod Startup
mod Tests
use zenith_extension.Prelude.{ℕ, Bool, Option, none, some, List, [], ◌∷◌, if◌then◌else◌}
use zenith_extension.Prelude.Text.{Text, codes, text_eq}

pub data Phase : Type 0 where
  starting ready error : Phase

-- `SidecarHandle`, with the ports of its `SidecarManager`.
pub record Handle : Type 0 where
  pub phase : Phase
  pub staged_count : ℕ
  pub latency : ℕ
  pub framework : Text
  pub port : ℕ
  pub sandbox_port : ℕ

-- What an intent asks for. `given` is an intent that the webview made.
pub data Body : Type 0 where
  given : (kind element property value : Text) → Body
  text_change : (element text : Text) → Body
  property_change : (element property value : Text) → Body
  structural_change : (operation element payload : Text) → Body
  duplicate_node delete_node : Text → Body
  reorder : (parent : Text) → (old_order new_order : List Text) → Body
  group_node : (node container_tag : Text) → Body

-- The timestamp 0 stands for a missing one: the code only tests whether it is truthy.
pub record Intent : Type 0 where
  pub body : Body
  pub timestamp : ℕ

-- The calls of the sidecar, by method. `stage_universal` is called with a transaction and without.
pub data Call : Type 0 where
  status undo redo harden_wal persist heal commit_all toggle_surgical : Call
  stage : Text → Intent → Call
  stage_batch : (transaction id : Text) → List (Text × Text) → Call
  stage_universal : (transaction : Option Text) → (signature property value root : Text) → Call
  commit_element : Text → Call

-- What the host reads of an answer.
pub data Value : Type 0 where
  null other : Value
  counted : ℕ → Value
  truth : Bool → Value

pub data Response : Type 0 where
  ok : Value → Response
  failed : Text → Response

pub data LogLevel : Type 0 where
  success info warn error : LogLevel

-- The messages `<kind>Result`.
pub data ResultKind : Type 0 where
  stage commit undo redo duplicate delete move group harden_wal heal : ResultKind

-- The payload of `zenithForwardToFrame`.
pub data Frame : Type 0 where
  patch_style : (id property value : Text) → Frame
  batch_patch : (id opacity pointer_events : Text) → Frame
  select : Text → Frame
  deep_audit request_tree : Frame

pub data Post : Type 0 where
  log : LogLevel → Text → Post
  -- Without an error it is a success.
  result : ResultKind → Option Text → Post
  status : (connected : Bool) → (staged_count : ℕ) → Post
  workspace_status : (connected : Bool) → (root : Text) → (staged_count : ℕ) → Post
  polled_status : (port latency : ℕ) → (root : Text) → (staged_count : ℕ) → Post
  forward : Frame → Post
  structural_success : (operation old_id new_id : Text) → Post
  session_healed session_committed : ℕ → Post
  tree_update : Text → Post
  surgical_mode_set : Bool → Post

-- What the host does to the outside, in one trace.
pub data Effect : Type 0 where
  rpc : (root : Text) → Call → Effect
  -- `webview.postMessage`, to the webview that asked
  post : Post → Effect
  -- `broadcastToWebviews`
  broadcast : Post → Effect
  to_panels to_sidebar to_other_panels : Post → Effect
  show_error show_warning show_information : Text → Effect
  -- a call or command of the editor, or a command of this extension where nothing waits for it
  execute : Text → Effect
  configure : Text → Bool → Effect

pub data Background : Type 0 where
  plain warning error : Background

pub record Bar : Type 0 where
  pub text : Text
  pub tooltip : Text
  pub background : Background

-- `activeSidecars`, `healingWorkspaces`, the status bar, and the trace, the latest effect first.
pub record State : Type 0 where
  pub sidecars : List (Text × Handle)
  pub healing : List Text
  pub bar : Bar
  pub trace : List Effect

-- What the host is given: the workspace of the webview, the one that `resolveTargetWorkspace(true)`
-- finds, the answers of the sidecars, fresh identifiers, the time, and `path.basename`.
pub record Env : Type 0 where
  pub root : Text
  pub target : Option Text
  pub answer : List Effect → Text → Call → Response
  pub uuid : List Effect → Text
  pub now : List Effect → ℕ
  pub basename : Text → Text

pub data Outcome (A : Type 0) : Type 0 where
  done : A → State → Outcome A
  thrown : Text → State → Outcome A

abbrev pub M : Type 0 → Type 0
M A = Env → State → Outcome A

abbrev pub and_then : {A B : Type 0} → Outcome A → (A → State → Outcome B) → Outcome B
and_then (done a t) f = f a t
and_then (thrown e t) f = thrown e t

abbrev pub or_else : {A : Type 0} → Outcome A → (Text → State → Outcome A) → Outcome A
or_else (done a t) h = done a t
or_else (thrown e t) h = h e t

infixl 5 ◌>>=◌ ◌>>◌
unfoldable pub ◌>>=◌ : {A B : Type 0} → M A → (A → M B) → M B
◌>>=◌ m f env s = and_then (m env s) (λ a. f a env)

abbrev pub ◌>>◌ : {B : Type 0} → M (Unit {0}) → M B → M B
m >> k = m >>= λ _. k

unfoldable pub pure : {A : Type 0} → A → M A
pure a env s = done a s

unfoldable pub throw : {A : Type 0} → Text → M A
throw e env s = thrown e s

-- `try { m } catch (e) { h(e.message) }`
unfoldable pub catch : {A : Type 0} → M A → (Text → M A) → M A
catch m h env s = or_else (m env s) (λ e. h e env)

unfoldable pub emit : Effect → M (Unit {0})
emit e env s = done tt (record s { trace = e ∷ s.trace })

-- `activeSidecars.get(root)`
unfoldable pub lookup : Text → List (Text × Handle) → Option Handle
lookup root [] = none
lookup root ((r, h) ∷ m) = if text_eq r root then some h else lookup root m

-- An assignment to a field of the handle in the map.
unfoldable pub adjust : Text → (Handle → Handle) → List (Text × Handle) → List (Text × Handle)
adjust root f [] = []
adjust root f ((r, h) ∷ m) = if text_eq r root then (r, f h) ∷ m else (r, h) ∷ adjust root f m

unfoldable pub handle_of : Text → M (Option Handle)
unfolding lookup
handle_of root env s = done (lookup root s.sidecars) s

unfoldable pub modify : Text → (Handle → Handle) → M (Unit {0})
unfolding adjust
modify root f env s = done tt (record s { sidecars = adjust root f s.sidecars })

unfoldable pub settle_response : Response → State → Outcome Value
settle_response (ok v) s = done v s
settle_response (failed e) s = thrown e s

-- `await handle.rpc.call(...)`
unfoldable pub call : Text → Call → M Value
unfolding settle_response
call root c env s =
    settle_response (env.answer s.trace root c) (record s { trace = rpc root c ∷ s.trace })

-- The arguments that a call takes from the environment.
unfoldable pub workspace : M Text
workspace env s = done env.root s

unfoldable pub target_workspace : M (Option Text)
target_workspace env s = done env.target s

unfoldable pub fresh_uuid : M Text
fresh_uuid env s = done (env.uuid s.trace) s

unfoldable pub time : M ℕ
time env s = done (env.now s.trace) s

-- `handle.stagedCount`, as it is now.
abbrev pub count_of : Option Handle → ℕ
count_of none = 0
count_of (some h) = h.staged_count

unfoldable pub staged_now : Text → M ℕ
unfolding lookup
staged_now root env s = done (count_of (lookup root s.sidecars)) s

abbrev pub not_connected : Text
not_connected = codes "Not connected to sidecar"

-- `if (!handle) throw new Error('Not connected to sidecar')`
unfoldable pub required : Option Handle → M Handle
unfolding throw pure
required none = throw not_connected
required (some h) = pure h

abbrev pub connected_handle : M Handle
connected_handle = do root ← workspace; h ← handle_of root; required h
