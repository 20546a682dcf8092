-- ===== src/Host/Router.antt =====
-- `handleWebviewMessage` of zenith-extension/src/extension.ts, for the messages of `Request`.
pub mod Staging
pub mod Structure
pub mod Session
pub mod Editor
use zenith_extension.Prelude.{Bool, Option, List}
use zenith_extension.Prelude.Text.{Text, codes}
use zenith_extension.Host.{LogLevel, M, execute, emit, pure}
use zenith_extension.Host.Router.Staging.{
  Visual, PatchMessage, on_stage, on_text_edit, on_patch_style, on_batch_patch, on_universal_stage,
}
use zenith_extension.Host.Router.Structure.{
  on_duplicate_node, on_delete_node, on_move_node, on_group_nodes, on_structural_operation,
}
use zenith_extension.Host.Router.Editor.{on_open_trace_log, on_jump_to_source, on_open_new_instance}
use zenith_extension.Host.Router.Session.{
  on_commit, on_undo, on_redo, on_harden_wal, on_heal_session, on_commit_all, on_toggle_visibility,
  on_bridge_log, on_request_select, on_run_deep_audit, on_request_tree, on_tree_update,
}

-- The messages of a webview, by their commands. Five are left out: `ready`, `manualConnect` and
-- `connect`, which detect the project or start a sidecar, and `popOut` and `detectDevServer`, which
-- act after the handler has returned.
pub data Request : Type 0 where
  stage : Option Visual → Request
  commit : Text → Request
  undo redo harden_wal heal_session commit_all toggle_surgical toggle_lock run_deep_audit
        request_tree :
      Request
  duplicate_node delete_node : Text → Request
  move_node : (parent : Text) → (old_order new_order : List Text) → Request
  group_nodes : (ids : Option (List Text)) → (container_tag : Text) → Request
  bridge_log : Text → LogLevel → Request
  request_select : Text → Request
  toggle_visibility : Text → (is_hidden : Bool) → Request
  text_edit : (id content new_text : Text) → Request
  tree_update : Text → Request
  structural_operation : (operation id payload new_id : Text) → Request
  patch_style : PatchMessage → Request
  batch_patch : (id signature : Text) → List (Text × Text) → Request
  universal_stage : (signature property value : Text) → Request
  open_trace_log : (is_there : Bool) → Option Text → Request
  jump_to_source : Option Text → (opening showing : Option Text) → Request
  open_new_instance : Option Text → Request

unfoldable pub handle_message : Request → M (Unit {0})
handle_message (stage intent) = on_stage intent
handle_message (commit id) = on_commit id
handle_message undo = on_undo
handle_message redo = on_redo
handle_message harden_wal = on_harden_wal
handle_message heal_session = on_heal_session
handle_message commit_all = on_commit_all
handle_message toggle_surgical = emit (execute (codes "zenith.surgicalMode.toggle"))
handle_message toggle_lock = pure tt
handle_message run_deep_audit = on_run_deep_audit
handle_message request_tree = on_request_tree
handle_message (duplicate_node id) = on_duplicate_node id
handle_message (delete_node id) = on_delete_node id
handle_message (move_node parent old_order new_order) = on_move_node parent old_order new_order
handle_message (group_nodes ids tag) = on_group_nodes ids tag
handle_message (bridge_log text level) = on_bridge_log text level
handle_message (request_select id) = on_request_select id
handle_message (toggle_visibility id is_hidden) = on_toggle_visibility id is_hidden
handle_message (text_edit id content new_text) = on_text_edit id content new_text
handle_message (tree_update tree) = on_tree_update tree
handle_message (structural_operation operation id payload new_id) =
    on_structural_operation operation id payload new_id
handle_message (patch_style m) = on_patch_style m
handle_message (batch_patch id signature styles) = on_batch_patch id signature styles
handle_message (universal_stage signature property value) =
    on_universal_stage signature property value
handle_message (open_trace_log is_there failure) = on_open_trace_log is_there failure
handle_message (jump_to_source file opening showing) = on_jump_to_source file opening showing
handle_message (open_new_instance failure) = on_open_new_instance failure
