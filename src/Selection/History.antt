-- ===== src/Selection/History.antt =====
-- The actions of zenith-extension/webview-ui/src/stores/useSelectionStore.ts: style changes with
-- their history, structural operations, undo and redo. `none` is a TypeError: the entry that is read
-- does not exist.
use zenith_extension.Prelude.{
  ℕ, zero, suc, ◌+◌, ◌-◌, Bool, true, false, not, Option, none, some, List, [], ◌∷◌, ◌++◌, map,
  length, take, drop, push, get_elem?, ltb, if◌then◌else◌,
}
use zenith_extension.Prelude.Int.{ℤ, pos, negsuc, sub_ℕ, ltb_ℤ}
use zenith_extension.Prelude.Text.{Text, codes, text_eq}
use zenith_extension.Prelude.Decimal.{decimal}
use zenith_extension.Styles.{Styles, insert, merge}
use zenith_extension.Selection.Store.{
  InteractionState, base, hover, focus, active, disabled, StateStyles, HistoryEntry, State,
  no_state_styles, Reason, edited_in, undone, redone, jumped, style_patched, batch_patched,
  node_deleted, node_duplicated, node_moved, nodes_reparented, text_updated, nodes_grouped,
  all_committed, session_healed, style_previewed, batch_previewed, Outcome,
}

-- `MAX_HISTORY_LENGTH`
abbrev pub max_history_length : ℕ
max_history_length = 50

-- `index + 1`
abbrev pub next_index : ℤ → ℤ
next_index (pos n) = pos (suc n)
next_index (negsuc zero) = pos 0
next_index (negsuc (suc n)) = negsuc n

-- `list.length - 1`
abbrev pub last_index {ℓ} : {A : Type ℓ} → List A → ℤ
last_index xs = sub_ℕ (length xs) 1

-- `list.slice(0, end)`
abbrev pub slice_to {ℓ} : {A : Type ℓ} → ℤ → List A → List A
slice_to (pos n) xs = take n xs
slice_to (negsuc n) xs = take (length xs - suc n) xs

-- `list[index]`
abbrev pub entry_at {ℓ} : {A : Type ℓ} → ℤ → List A → Option A
entry_at (pos n) xs = get_elem? xs n
entry_at (negsuc n) xs = none

-- `list.slice(-max)` where the list is longer
unfoldable pub keep_last {ℓ} : {A : Type ℓ} → ℕ → List A → List A
keep_last max xs = if ltb max (length xs) then drop (length xs - max) xs else xs

-- The history with a new entry behind the current one.
unfoldable pub extend_history : HistoryEntry → ℤ → List HistoryEntry → List HistoryEntry
unfolding keep_last
extend_history e index history =
    keep_last max_history_length (push (slice_to (next_index index) history) e)

-- `{ ...stateStyles, [activeState]: { ...stateStyles[activeState], ... } }`
unfoldable pub change_styles : InteractionState → (Styles → Styles) → StateStyles → StateStyles
change_styles base f m = record m { of_base = f m.of_base }
change_styles hover f m = record m { of_hover = f m.of_hover }
change_styles focus f m = record m { of_focus = f m.of_focus }
change_styles active f m = record m { of_active = f m.of_active }
change_styles disabled f m = record m { of_disabled = f m.of_disabled }

-- `stateStyles[state]`
unfoldable pub styles_in : InteractionState → StateStyles → Styles
styles_in base m = m.of_base
styles_in hover m = m.of_hover
styles_in focus m = m.of_focus
styles_in active m = m.of_active
styles_in disabled m = m.of_disabled

-- The change of the state that `patchStyle` and `patchBatch` share.
unfoldable pub record_change : Text → (Styles → Styles) → ℕ → ℕ → State → State
unfolding extend_history change_styles
record_change label f staged now s =
    let styles = f s.computed_styles in
    let entry : HistoryEntry = record { label = label; styles = some styles; timestamp = now } in
    let history = extend_history entry s.history_index s.history in
    record s {
      computed_styles = styles;
      state_styles = change_styles s.active_state f s.state_styles;
      history = history;
      history_index = last_index history;
      staged_count = s.staged_count + staged;
    }

-- `patchStyle`
unfoldable pub patch_style : Text → Text → ℕ → State → Outcome
unfolding record_change
patch_style property value now s =
    let label = codes "Set " ++ property ++ codes " to " ++ value in
    (
      record_change label (insert property value) 1 now s,
      style_patched s.selected_id s.element_signature property value s.active_state ∷ [],
    )

-- `keys.join(', ')`
abbrev comma_separated : List Text → Text
comma_separated [] = []
comma_separated (key ∷ []) = key
comma_separated (key ∷ next ∷ keys) = key ++ codes ", " ++ comma_separated (next ∷ keys)

unfoldable pub batch_label : Styles → Text
batch_label styles =
    let n = length styles in
    if ltb 2 n
    then codes "Batch update " ++ decimal n ++ codes " styles"
    else codes "Update " ++ comma_separated (map (λ kv. kv.0) styles)

-- `patchBatch`
unfoldable pub patch_batch : Styles → ℕ → State → Outcome
unfolding record_change batch_label
patch_batch styles now s = (
  record_change (batch_label styles) (λ old. merge old styles) (length styles) now s,
  batch_patched s.selected_id s.element_signature styles (edited_in s.active_state) ∷ [],
)

unfoldable pub preview_style : Text → Text → State → Outcome
preview_style property value s = (
  record s { computed_styles = insert property value s.computed_styles },
  style_previewed s.selected_id property value ∷ [],
)

unfoldable pub preview_batch : Styles → State → Outcome
preview_batch styles s = if s.is_dragging then (s, []) else (
  record s { computed_styles = merge s.computed_styles styles },
  batch_previewed s.selected_id styles ∷ [],
)

abbrev pub is_id : Option Text → Text → Bool
is_id none id = false
is_id (some a) id = text_eq a id

unfoldable pub delete_node : Text → State → Outcome
delete_node id s = (
  (if is_id s.selected_id id then record s { selected_id = none; rect = none } else s),
  node_deleted id ∷ [],
)

unfoldable pub duplicate_node : Text → State → Outcome
duplicate_node id s = (s, node_duplicated id ∷ [])

unfoldable pub move_node : Text → Text → List Text → List Text → State → Outcome
move_node id parent old_order new_order s = (s, node_moved id parent old_order new_order ∷ [])

unfoldable pub reparent_nodes : Text → Text → ℤ → State → Outcome
reparent_nodes id parent index s = (s, nodes_reparented id parent index ∷ [])

unfoldable pub update_text : Text → Text → State → Outcome
update_text id text s = (s, text_updated id text ∷ [])

unfoldable pub group_nodes : List Text → Text → State → Outcome
group_nodes ids tag s = (s, nodes_grouped ids tag ∷ [])

abbrev pub or_empty : Option Styles → Styles
or_empty none = []
or_empty (some styles) = styles

-- The current entry becomes that at an index: the common part of `undo`, `redo` and `jumpToHistory`.
unfoldable pub go_to : Reason → ℤ → State → Option Outcome
go_to reason index s = elim (entry_at index s.history) [
  | none ↦ none
  | some e ↦ some (
    record s { computed_styles = or_empty e.styles; history_index = index },
    batch_patched s.selected_id s.element_signature (or_empty e.styles) reason ∷ [],
  )
]

unfoldable pub undo : State → Option Outcome
unfolding go_to
undo s = elim s.history_index [ pos (suc n) ↦ go_to undone (pos n) s | _ ↦ some (s, []) ]

unfoldable pub redo : State → Option Outcome
unfolding go_to
redo s =
    if ltb_ℤ s.history_index (last_index s.history)
    then go_to redone (next_index s.history_index) s
    else some (s, [])

-- `get().selectedId ? ... : ...`
abbrev pub is_selected : Option Text → Bool
is_selected none = false
is_selected (some []) = false
is_selected (some (c ∷ id)) = true

unfoldable pub commit_all : ℕ → State → Outcome
commit_all now s =
    let baseline : HistoryEntry = record {
      label = codes "Baseline";
      styles = some s.computed_styles;
      timestamp = now;
    } in
    (
      record s {
        staged_count = 0;
        history = if is_selected s.selected_id then baseline ∷ [] else [];
        history_index = if is_selected s.selected_id then pos 0 else negsuc 0;
      },
      all_committed ∷ [],
    )

unfoldable pub clear_commits : State → Outcome
clear_commits s = (s, [])

-- `index >= 0 && index < history.length`
unfoldable pub jump_to_history : ℤ → State → Option Outcome
unfolding go_to
jump_to_history (pos n) s =
    if ltb n (length s.history) then go_to jumped (pos n) s else some (s, [])
jump_to_history (negsuc n) s = some (s, [])

unfoldable pub discard_local_changes : State → State
discard_local_changes s = record s {
  staged_count = 0;
  history = [];
  history_index = negsuc 0;
  computed_styles = [];
  state_styles = no_state_styles;
}

unfoldable pub toggle_live_save : State → State
toggle_live_save s = record s { live_save = not s.live_save }

unfoldable pub set_staged_count : ℕ → State → State
set_staged_count count s = record s { staged_count = count }

unfoldable pub request_heal : Text → State → Outcome
request_heal source s = (s, session_healed source ∷ [])
