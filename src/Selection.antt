-- ===== src/Selection.antt =====
-- The selection store of the webview: useSelectionStore.ts with selectionSlice.ts, ghostSlice.ts and
-- dndSlice.ts of zenith-extension/webview-ui/src/stores. `Action` lists the entries of `actions`;
-- an action takes the state to the next one and to the messages that it sends.
pub mod Store
pub mod Slices
pub mod History
pub mod Invariant
pub mod Undo
mod Tests
use zenith_extension.Prelude.{ℕ, Bool, Option, none, some, List, [], ◌∷◌, ◌++◌}
use zenith_extension.Prelude.Int.{ℤ}
use zenith_extension.Prelude.Text.{Text}
use zenith_extension.Styles.{Styles}
use zenith_extension.Selection.Store.{
  Rect, ElementInfo, FiberInfo, HierarchyItem, Signature, InteractionState, Message, State, Outcome,
}
use zenith_extension.Selection.Slices.{
  select, select_universal, set_rect, set_active_state, set_editing_text, set_dragging, set_hover,
  start_dragging, set_drop_target, stop_dragging,
}
use zenith_extension.Selection.History.{
  toggle_live_save, set_staged_count, patch_style, preview_style, preview_batch, patch_batch,
  delete_node, duplicate_node, move_node, reparent_nodes, update_text, group_nodes, undo, redo,
  commit_all, clear_commits, jump_to_history, discard_local_changes, request_heal,
}

-- A call of an action. The calls that read the clock carry its value.
pub data Action : Type 0 where
  do_select :
      Option Text
      → ElementInfo
      → Option Rect
      → Styles
      → List HierarchyItem
      → Option FiberInfo
      → Action
  do_select_universal : Signature → Rect → Styles → Action
  do_set_rect : Option Rect → Action
  do_set_active_state : InteractionState → Action
  do_set_editing_text : Bool → Action
  do_set_dragging : Bool → Action
  do_set_hover : Option Rect → Option Text → Action
  do_start_dragging : Text → Action
  do_set_drop_target : Option Text → ℤ → Option Rect → Option Rect → Bool → Action
  do_stop_dragging : Action
  do_toggle_live_save : Action
  do_set_staged_count : ℕ → Action
  do_patch_style : Text → Text → ℕ → Action
  do_preview_style : Text → Text → Action
  do_preview_batch : Styles → Action
  do_patch_batch : Styles → ℕ → Action
  do_delete_node : Text → Action
  do_duplicate_node : Text → Action
  do_move_node : Text → Text → List Text → List Text → Action
  do_reparent_nodes : Text → Text → ℤ → Action
  do_update_text : Text → Text → Action
  do_group_nodes : List Text → Text → Action
  do_undo do_redo : Action
  do_commit_all : ℕ → Action
  do_clear_commits : Action
  do_jump_to_history : ℤ → Action
  do_discard_local_changes : Action
  do_request_heal : Text → Action

unfoldable pub step : Action → State → Option Outcome
unfolding undo redo
step (do_select id info rect styles stack fiber) s =
    some (select id info rect styles stack fiber s, [])
step (do_select_universal signature rect styles) s =
    some (select_universal signature rect styles s, [])
step (do_set_rect rect) s = some (set_rect rect s, [])
step (do_set_active_state a) s = some (set_active_state a s, [])
step (do_set_editing_text b) s = some (set_editing_text b s, [])
step (do_set_dragging b) s = some (set_dragging b s, [])
step (do_set_hover rect tag) s = some (set_hover rect tag s, [])
step (do_start_dragging id) s = some (start_dragging id s, [])
step (do_set_drop_target id index rect insertion invalid) s =
    some (set_drop_target id index rect insertion invalid s, [])
step do_stop_dragging s = some (stop_dragging s, [])
step do_toggle_live_save s = some (toggle_live_save s, [])
step (do_set_staged_count n) s = some (set_staged_count n s, [])
step (do_patch_style property value now) s = some (patch_style property value now s)
step (do_preview_style property value) s = some (preview_style property value s)
step (do_preview_batch styles) s = some (preview_batch styles s)
step (do_patch_batch styles now) s = some (patch_batch styles now s)
step (do_delete_node id) s = some (delete_node id s)
step (do_duplicate_node id) s = some (duplicate_node id s)
step (do_move_node id parent old new) s = some (move_node id parent old new s)
step (do_reparent_nodes id parent index) s = some (reparent_nodes id parent index s)
step (do_update_text id text) s = some (update_text id text s)
step (do_group_nodes ids tag) s = some (group_nodes ids tag s)
step do_undo s = undo s
step do_redo s = redo s
step (do_commit_all now) s = some (commit_all now s)
step do_clear_commits s = some (clear_commits s)
step (do_jump_to_history index) s = jump_to_history index s
step do_discard_local_changes s = some (discard_local_changes s, [])
step (do_request_heal source) s = some (request_heal source s)

-- A run of actions with all that it sends, `none` if one of them throws.
unfoldable pub run : List Action → State → Option Outcome
unfolding step
run [] s = some (s, [])
run (a ∷ more) s = elim (step a s) [
  | none ↦ none
  | some (s', sent) ↦ elim (run more s') [
    | none ↦ none
    | some (s'', later) ↦ some (s'', sent ++ later)
  ]
]
