-- ===== src/Host/Offline.antt =====
-- `handleWebviewMessage` of zenith-extension/src/extension.ts where the workspace has no sidecar.
use zenith_extension.Prelude.{◌≡◌, refl, ◌∙◌, Bool, true, false, Option, none, some, List, [], ◌∷◌}
use zenith_extension.Prelude.Text.{Text}
use zenith_extension.Host.{
  Handle, Intent, Call, Post, Effect, rpc, post, to_panels, to_sidebar, to_other_panels, execute,
  show_error, State, Env, Outcome, done, thrown, M, ◌>>=◌, and_then, or_else, catch, emit, pure,
  throw, workspace, handle_of, fresh_uuid, time, staged_now, target_workspace, required,
  connected_handle, lookup,
}
use zenith_extension.Host.Silent.{state_of}
use zenith_extension.Host.Commands.{
  on_target, on_root, on_handle, stage_command, heal_command, commit_command,
}
use zenith_extension.Host.Router.{Request, handle_message}
use zenith_extension.Host.Router.Staging.{
  Visual, required_intent, status_if, stage_visual, on_stage, edit_text, on_text_edit,
  patch_element, on_patch_style, apply_batch, on_batch_patch, stage_universal, on_universal_stage,
}
use zenith_extension.Host.Router.Structure.{
  first_id, stage_result, on_duplicate_node, on_delete_node, on_move_node, on_group_nodes, operate,
  on_structural_operation,
}
use zenith_extension.Host.Router.Editor.{
  editor_call, show_trace_log, on_open_trace_log, on_jump_to_source, on_open_new_instance,
}
use zenith_extension.Host.Router.Session.{
  show_visibility, on_commit, on_undo, on_redo, on_harden_wal, on_heal_session, on_commit_all,
  on_toggle_visibility, on_bridge_log, on_request_select, on_run_deep_audit, on_request_tree,
  on_tree_update,
}

-- The calls of sidecars, the latest one first.
abbrev pub call_in : Effect → List (Text × Call) → List (Text × Call)
call_in (rpc root c) cs = (root, c) ∷ cs
call_in _ cs = cs

unfoldable pub calls : List Effect → List (Text × Call)
calls [] = []
calls (e ∷ es) = call_in e (calls es)

-- Neither the webview's workspace nor the one that the commands act on has a sidecar.
pub record IsOffline (env : Env) (s : State) : Type 0 where
  pub at_root : lookup env.root s.sidecars ≡ none
  pub at_target : (t : Text) → env.target ≡ some t → lookup t s.sidecars ≡ none

-- Offline, no call is made, and it stays offline.
record QuietOf (env : Env) (s t : State) : Type 0 where
  offline : IsOffline env t
  no_call : calls t.trace ≡ calls s.trace

record Quiet {A : Type 0} (m : M A) : Type 0 where
  at : (env : Env) (s : State) → IsOffline env s → QuietOf env s (state_of (m env s))

same : {env : Env} {s : State} → IsOffline env s → QuietOf env s s
same h = record { offline = h; no_call = refl }

QuietOf-trans : {env : Env} {s t u : State} → QuietOf env s t → QuietOf env t u → QuietOf env s u
QuietOf-trans h k = record { offline = k.offline; no_call = k.no_call ∙ h.no_call }

module _ {A B : Type 0} where
  Quiet-after :
      (f : A → M B) (env : Env) (s : State) (o : Outcome A)
      → QuietOf env s (state_of o)
      → ((a : A) → Quiet (f a))
      → QuietOf env s (state_of (and_then o (λ a. f a env)))
  Quiet-after f env s (done a t) h k = QuietOf-trans h ((k a).at env t h.offline)
  Quiet-after f env s (thrown e t) h k = h

  Quiet-bind : (m : M A) (f : A → M B) → Quiet m → ((a : A) → Quiet (f a)) → Quiet (m >>= f)
  unfolding ◌>>=◌
  Quiet-bind m f h k = record { at = λ env s p. Quiet-after f env s (m env s) (h.at env s p) k }

module _ {A : Type 0} where
  Quiet-handled :
      (h : Text → M A) (env : Env) (s : State) (o : Outcome A)
      → QuietOf env s (state_of o)
      → ((e : Text) → Quiet (h e))
      → QuietOf env s (state_of (or_else o (λ e. h e env)))
  Quiet-handled h env s (done a t) p k = p
  Quiet-handled h env s (thrown e t) p k = QuietOf-trans p ((k e).at env t p.offline)

  Quiet-catch :
      (m : M A) (h : Text → M A) → Quiet m → ((e : Text) → Quiet (h e)) → Quiet (catch m h)
  unfolding catch
  Quiet-catch m h p k = record { at = λ env s q. Quiet-handled h env s (m env s) (p.at env s q) k }

  -- A handler that wants a handle throws.
  Quiet-connected : (f : Handle → M A) → Quiet (connected_handle >>= f)
  unfolding ◌>>=◌ workspace handle_of required
  Quiet-connected f = record { at = λ env s p. rw (p.at_root, required) (same p) }

  Quiet-pure : (a : A) → Quiet (pure a)
  unfolding pure
  Quiet-pure a = record { at = λ env s p. same p }

  Quiet-throw : (e : Text) → Quiet (throw {A = A} e)
  unfolding throw
  Quiet-throw e = record { at = λ env s p. same p }

  no_handle :
      (a : A) (f : Text → Handle → M A) (t : Option Text) (env : Env) (s : State)
      → IsOffline env s
      → ((root : Text) → t ≡ some root → lookup root s.sidecars ≡ none)
      → QuietOf env s (state_of (on_root a f t env s))
  unfolding on_root on_handle pure ◌>>=◌ handle_of
  no_handle a f none env s p h = same p
  no_handle a f (some root) env s p h = rw (h root refl, on_handle) (same p)

  -- A command finds no handle to act on.
  Quiet-on_target : (a : A) (f : Text → Handle → M A) → Quiet (on_target a f)
  unfolding on_target ◌>>=◌ target_workspace
  Quiet-on_target a f = record { at = λ env s p. no_handle a f env.target env s p p.at_target }

abbrev IsCallFree : Effect → Type 0
IsCallFree e = (cs : List (Text × Call)) → call_in e cs ≡ cs

Quiet-emit : (e : Effect) → IsCallFree e → Quiet (emit e)
unfolding emit calls
Quiet-emit e h = record {
  at = λ env s p. record {
    offline = record { at_root = p.at_root; at_target = p.at_target };
    no_call = h (calls s.trace);
  };
}

Quiet-post : (p : Post) → Quiet (emit (post p))
Quiet-post p = Quiet-emit (post p) (λ cs. refl)

Quiet-panels : (p : Post) → Quiet (emit (to_panels p))
Quiet-panels p = Quiet-emit (to_panels p) (λ cs. refl)

Quiet-sidebar : (p : Post) → Quiet (emit (to_sidebar p))
Quiet-sidebar p = Quiet-emit (to_sidebar p) (λ cs. refl)

Quiet-others : (p : Post) → Quiet (emit (to_other_panels p))
Quiet-others p = Quiet-emit (to_other_panels p) (λ cs. refl)

Quiet-execute : (t : Text) → Quiet (emit (execute t))
Quiet-execute t = Quiet-emit (execute t) (λ cs. refl)

Quiet-workspace : Quiet workspace
unfolding workspace
Quiet-workspace = record { at = λ env s p. same p }

Quiet-handle_of : (root : Text) → Quiet (handle_of root)
unfolding handle_of
Quiet-handle_of root = record { at = λ env s p. same p }

Quiet-fresh_uuid : Quiet fresh_uuid
unfolding fresh_uuid
Quiet-fresh_uuid = record { at = λ env s p. same p }

Quiet-time : Quiet time
unfolding time
Quiet-time = record { at = λ env s p. same p }

Quiet-staged_now : (root : Text) → Quiet (staged_now root)
unfolding staged_now
Quiet-staged_now root = record { at = λ env s p. same p }

Quiet-stage_command : (i : Intent) → Quiet (stage_command i)
unfolding stage_command
Quiet-stage_command i = Quiet-on_target _ _

Quiet-heal_command : Quiet heal_command
unfolding heal_command
Quiet-heal_command = Quiet-on_target _ _

Quiet-commit_command : (id : Text) → Quiet (commit_command id)
unfolding commit_command
Quiet-commit_command id = Quiet-on_target _ _

ruleset quiet_rules = (
  Quiet-connected, Quiet-bind, Quiet-catch, Quiet-pure, Quiet-throw, Quiet-post, Quiet-panels,
  Quiet-sidebar, Quiet-others, Quiet-execute, Quiet-workspace, Quiet-handle_of, Quiet-fresh_uuid,
  Quiet-time, Quiet-staged_now, Quiet-stage_command, Quiet-heal_command, Quiet-commit_command,
)

Quiet-required_intent : (v : Option Visual) → Quiet (required_intent v)
unfolding required_intent
Quiet-required_intent none = Quiet-throw _
Quiet-required_intent (some v) = Quiet-pure v

Quiet-first_id : (ids : Option (List Text)) → Quiet (first_id ids)
unfolding first_id
Quiet-first_id none = Quiet-throw _
Quiet-first_id (some []) = Quiet-pure []
Quiet-first_id (some (id ∷ ids)) = Quiet-pure id

Quiet-status_if : (root : Text) (h : Option Handle) → Quiet (status_if root h)
unfolding status_if
Quiet-status_if root none = Quiet-pure tt
Quiet-status_if root (some h) = search quiet_rules depth 10

Quiet-show_visibility : (id : Text) (b : Bool) (h : Option Handle) → Quiet (show_visibility id b h)
unfolding show_visibility
Quiet-show_visibility id b none = Quiet-pure tt
Quiet-show_visibility id b (some h) = Quiet-post _

Quiet-show_error : (t : Text) → Quiet (emit (show_error t))
Quiet-show_error t = Quiet-emit (show_error t) (λ cs. refl)

Quiet-editor_call : (name : Text) (failure : Option Text) → Quiet (editor_call name failure)
unfolding editor_call
Quiet-editor_call name none = Quiet-execute name
Quiet-editor_call name (some e) = Quiet-throw e

Quiet-show_trace_log :
    (root : Text) (b : Bool) (failure : Option Text) → Quiet (show_trace_log root b failure)
unfolding show_trace_log
Quiet-show_trace_log [] b failure = Quiet-pure tt
Quiet-show_trace_log (c ∷ s) true failure = Quiet-editor_call _ failure
Quiet-show_trace_log (c ∷ s) false failure = Quiet-show_error _

Quiet-on_jump_to_source :
    (file opening showing : Option Text) → Quiet (on_jump_to_source file opening showing)
unfolding on_jump_to_source
Quiet-on_jump_to_source none opening showing = Quiet-pure tt
Quiet-on_jump_to_source (some []) opening showing = Quiet-pure tt
Quiet-on_jump_to_source (some (c ∷ s)) opening showing =
    search (quiet_rules, Quiet-editor_call) depth 10

quiet : (r : Request) → Quiet (handle_message r)
unfolding handle_message on_stage stage_visual on_text_edit edit_text on_patch_style patch_element
    on_batch_patch apply_batch on_universal_stage stage_universal stage_result on_duplicate_node
    on_delete_node on_move_node on_group_nodes on_structural_operation operate on_commit on_undo
    on_redo on_harden_wal on_heal_session on_commit_all on_toggle_visibility on_bridge_log
    on_request_select on_run_deep_audit on_request_tree on_tree_update on_open_trace_log
    on_open_new_instance
quiet (Request.stage intent) = search (quiet_rules, Quiet-required_intent, Quiet-status_if) depth 30
quiet (Request.group_nodes ids tag) = search (quiet_rules, Quiet-first_id) depth 30
quiet (Request.toggle_visibility id b) = search (quiet_rules, Quiet-show_visibility) depth 30
quiet (Request.open_trace_log b failure) = search (quiet_rules, Quiet-show_trace_log) depth 30
quiet (Request.jump_to_source file opening showing) = Quiet-on_jump_to_source file opening showing
quiet (Request.open_new_instance failure) = Quiet-editor_call _ failure
quiet _ = search quiet_rules depth 30

-- Where neither the workspace of the webview nor the one that the commands act on has a sidecar, none
-- of the messages of `Request` makes a call of a sidecar, of these or of any other workspace.
pub handle_message-calls :
    (r : Request) (env : Env) (s : State)
    → lookup env.root s.sidecars ≡ none
    → ((t : Text) → env.target ≡ some t → lookup t s.sidecars ≡ none)
    → calls (state_of (handle_message r env s)).trace ≡ calls s.trace
handle_message-calls r env s h k =
    ((quiet r).at env s (record { at_root = h; at_target = k })).no_call
