-- ===== src/Selection/Slices.antt =====
-- The actions of selectionSlice.ts, ghostSlice.ts and dndSlice.ts of
-- zenith-extension/webview-ui/src/stores, with the two that useSelectionStore.ts extends.
use zenith_extension.Prelude.{Bool, false, true, Option, none, some, List, []}
use zenith_extension.Prelude.Int.{ℤ, negsuc}
use zenith_extension.Prelude.Text.{Text}
use zenith_extension.Styles.{Styles, normalize_styles}
use zenith_extension.Selection.Store.{
  Rect, ElementInfo, FiberInfo, HierarchyItem, Signature, InteractionState, base, State,
}

-- `setSelected`, which clears the ghost signature
unfoldable pub select :
    Option Text
    → ElementInfo
    → Option Rect
    → Styles
    → List HierarchyItem
    → Option FiberInfo
    → State
    → State
unfolding normalize_styles
select id info rect styles stack fiber s = record s {
  selected_id = id;
  element_info = some info;
  rect = rect;
  computed_styles = normalize_styles styles;
  current_stack = stack;
  fiber_info = fiber;
  active_state = base;
  element_signature = none;
}

-- `setSelectedUniversal`, which clears the selection. The styles it is given are not kept.
unfoldable pub select_universal : Signature → Rect → Styles → State → State
select_universal signature rect styles s = record s {
  element_signature = some signature;
  hover_rect = some rect;
  is_dragging = false;
  selected_id = none;
  element_info = none;
  current_stack = [];
  fiber_info = none;
}

unfoldable pub set_rect : Option Rect → State → State
set_rect rect s = record s { rect = rect }

unfoldable pub set_active_state : InteractionState → State → State
set_active_state active_state s = record s { active_state = active_state }

unfoldable pub set_editing_text : Bool → State → State
set_editing_text is_editing_text s = record s { is_editing_text = is_editing_text }

unfoldable pub set_dragging : Bool → State → State
set_dragging is_dragging s = record s { is_dragging = is_dragging }

unfoldable pub set_hover : Option Rect → Option Text → State → State
set_hover hover_rect tag s = record s { hover_rect = hover_rect; hover_tag = tag }

unfoldable pub start_dragging : Text → State → State
start_dragging identifier s = record s {
  is_dragging = true;
  dragged_identifier = some identifier;
  drop_target_id = none;
  drop_target_rect = none;
  insertion_rect = none;
  insertion_index = negsuc 0;
  is_drop_target_invalid = false;
}

unfoldable pub set_drop_target : Option Text → ℤ → Option Rect → Option Rect → Bool → State → State
set_drop_target id index rect insertion is_invalid s = record s {
  drop_target_id = id;
  insertion_index = index;
  drop_target_rect = rect;
  insertion_rect = insertion;
  is_drop_target_invalid = is_invalid;
}

-- `stopDragging`, which keeps `dropTargetRect`
unfoldable pub stop_dragging : State → State
stop_dragging s = record s {
  is_dragging = false;
  dragged_identifier = none;
  drop_target_id = none;
  insertion_rect = none;
  insertion_index = negsuc 0;
  is_drop_target_invalid = false;
}
