-- ===== src/Selection/Store.antt =====
-- The state of the selection store (zenith-extension/webview-ui/src/stores/types.ts,
-- useSelectionStore.ts and its slices), and the messages that its actions send. `measurementData` and
-- `auditIssues`, which no action reads or writes, are left out. Coordinates are only kept, never
-- computed with; integers stand for them.
use zenith_extension.Prelude.{ℕ, Bool, false, Option, none, List, []}
use zenith_extension.Prelude.Int.{ℤ, negsuc}
use zenith_extension.Prelude.Text.{Text}
use zenith_extension.Styles.{Styles}

pub record Rect : Type 0 where
  pub x : ℤ
  pub y : ℤ
  pub width : ℤ
  pub height : ℤ
  pub layout_width : Option ℤ
  pub layout_height : Option ℤ
  pub rotation : Option ℤ

pub record ElementInfo : Type 0 where
  pub id : Text
  pub tag_name : Text

pub record SourcePlace : Type 0 where
  pub file_name : Text
  pub line_number : ℕ
  pub column_number : ℕ

pub record FiberInfo : Type 0 where
  pub name : Text
  pub source : Option SourcePlace
  -- The name of the owner and its source.
  pub owner : Option (Text × Option SourcePlace)

pub record HierarchyItem : Type 0 where
  pub id : Text
  pub tag_name : Text
  pub class_name : Text
  pub component_name : Option Text

pub record Signature : Type 0 where
  pub tag : Text
  pub classes : List Text
  pub text_content : Text
  pub xpath : Text

pub data InteractionState : Type 0 where
  base hover focus active disabled : InteractionState

-- `Record<InteractionState, Record<string, string>>`
pub record StateStyles : Type 0 where
  pub of_base : Styles
  pub of_hover : Styles
  pub of_focus : Styles
  pub of_active : Styles
  pub of_disabled : Styles

pub record HistoryEntry : Type 0 where
  pub label : Text
  pub styles : Option Styles
  pub timestamp : ℕ

pub record State : Type 0 where
  -- selectionSlice.ts
  pub selected_id : Option Text
  pub element_info : Option ElementInfo
  pub fiber_info : Option FiberInfo
  pub rect : Option Rect
  pub computed_styles : Styles
  pub active_state : InteractionState
  pub current_stack : List HierarchyItem
  pub is_editing_text : Bool
  -- ghostSlice.ts
  pub element_signature : Option Signature
  pub hover_rect : Option Rect
  pub hover_tag : Option Text
  pub is_dragging : Bool
  -- dndSlice.ts
  pub dragged_identifier : Option Text
  pub drop_target_id : Option Text
  pub drop_target_rect : Option Rect
  pub insertion_rect : Option Rect
  pub insertion_index : ℤ
  pub is_drop_target_invalid : Bool
  -- useSelectionStore.ts
  pub state_styles : StateStyles
  pub live_save : Bool
  pub staged_count : ℕ
  pub history : List HistoryEntry
  pub history_index : ℤ

abbrev pub no_state_styles : StateStyles
no_state_styles = record {
  of_base = [];
  of_hover = [];
  of_focus = [];
  of_active = [];
  of_disabled = [];
}

abbrev pub initial : State
initial = record {
  selected_id = none;
  element_info = none;
  fiber_info = none;
  rect = none;
  computed_styles = [];
  active_state = base;
  current_stack = [];
  is_editing_text = false;
  element_signature = none;
  hover_rect = none;
  hover_tag = none;
  is_dragging = false;
  dragged_identifier = none;
  drop_target_id = none;
  drop_target_rect = none;
  insertion_rect = none;
  insertion_index = negsuc 0;
  is_drop_target_invalid = false;
  state_styles = no_state_styles;
  live_save = false;
  staged_count = 0;
  history = [];
  history_index = negsuc 0;
}

-- Why a batch of styles is sent: `interactionState`, `isUndo`, `isRedo`, `isJump`.
pub data Reason : Type 0 where
  edited_in : InteractionState → Reason
  undone redone jumped : Reason

-- What is posted to the extension host, and the two preview events of the window.
pub data Message : Type 0 where
  style_patched : Option Text → Option Signature → Text → Text → InteractionState → Message
  batch_patched : Option Text → Option Signature → Styles → Reason → Message
  node_deleted node_duplicated : Text → Message
  node_moved : Text → Text → List Text → List Text → Message
  nodes_reparented : Text → Text → ℤ → Message
  text_updated : Text → Text → Message
  nodes_grouped : List Text → Text → Message
  all_committed : Message
  session_healed : Text → Message
  style_previewed : Option Text → Text → Text → Message
  batch_previewed : Option Text → Styles → Message

abbrev pub Outcome : Type 0
Outcome = State × List Message
