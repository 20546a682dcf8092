-- ===== src/Selection/Invariant.antt =====
-- What every action of the selection store keeps: a bounded history with its current entry inside,
-- and at most one of a selected element and a selected signature.
use zenith_extension.Prelude.{
  ℕ, zero, suc, ◌+◌, ◌-◌, ◌≤◌, ◌<◌, min, ◌≡◌, refl, Option, none, some, List, [], ◌∷◌, ◌⊎◌, inl,
  inr, arith, length, push, ltb, if◌then◌else◌, Bool-cases, length-take, length-drop,
  get_elem?_total,
}
use zenith_extension.Prelude.Int.{ℤ, pos, negsuc, ltb_ℤ}
use zenith_extension.Prelude.Text.{Text}
use zenith_extension.Styles.{Styles, insert, merge}
use zenith_extension.Selection.Store.{
  State, initial, HistoryEntry, Message, Outcome, Reason, undone, redone, jumped,
}
use zenith_extension.Selection.Slices.{
  select, select_universal, set_rect, set_active_state, set_editing_text, set_dragging, set_hover,
  start_dragging, set_drop_target, stop_dragging,
}
use zenith_extension.Selection.History.{
  max_history_length, next_index, last_index, keep_last, extend_history, record_change,
  toggle_live_save, set_staged_count, patch_style, preview_style, preview_batch, patch_batch,
  delete_node, duplicate_node, move_node, reparent_nodes, update_text, group_nodes, go_to, undo,
  redo, commit_all, clear_commits, jump_to_history, discard_local_changes, request_heal,
  is_selected, is_id,
}
use zenith_extension.Selection.{
  Action, step, run, do_select, do_select_universal, do_set_rect, do_set_active_state,
  do_set_editing_text, do_set_dragging, do_set_hover, do_start_dragging, do_set_drop_target,
  do_stop_dragging, do_toggle_live_save, do_set_staged_count, do_patch_style, do_preview_style,
  do_preview_batch, do_patch_batch, do_delete_node, do_duplicate_node, do_move_node,
  do_reparent_nodes, do_update_text, do_group_nodes, do_undo, do_redo, do_commit_all,
  do_clear_commits, do_jump_to_history, do_discard_local_changes, do_request_heal,
}

-- The index is that of an entry, or -1 where there is none.
abbrev pub IsCurrent {ℓ} : {A : Type ℓ} → ℤ → List A → Type 0
IsCurrent (pos n) xs = n < length xs
IsCurrent (negsuc n) xs = (n ≡ 0) × (length xs ≡ 0)

abbrev pub IsValid : State → Type 0
IsValid s =
    (length s.history ≤ max_history_length)
    × IsCurrent s.history_index s.history
    × ((s.selected_id ≡ none) ⊎ (s.element_signature ≡ none))

pub length-push {ℓ} : {A : Type ℓ} (xs : List A) (x : A) → length (push xs x) ≡ length xs + 1
length-push [] x = refl
length-push (y ∷ xs) x = ground (arith, length-push xs x)

pub length-keep_last {ℓ} :
    {A : Type ℓ} (max : ℕ) (xs : List A) → length (keep_last max xs) ≡ min max (length xs)
unfolding keep_last
length-keep_last max xs = ground (arith, length-drop (length xs - max) xs)

-- The entries in front of a new one.
abbrev pub kept_length : ℤ → ℕ
kept_length (pos n) = suc n
kept_length (negsuc n) = 0

pub next_index-IsCurrent {ℓ} :
    {A : Type ℓ} (i : ℤ) (xs : List A)
    → IsCurrent i xs
    → (next_index i ≡ pos (kept_length i)) × (kept_length i ≤ length xs)
next_index-IsCurrent (pos n) xs h = (refl, ground arith)
next_index-IsCurrent (negsuc zero) xs h = (refl, ground arith)
next_index-IsCurrent (negsuc (suc n)) xs (h, _) = ground arith

pub length-extend_history :
    (e : HistoryEntry) (i : ℤ) (h : List HistoryEntry)
    → IsCurrent i h
    → length (extend_history e i h) ≡ min max_history_length (kept_length i + 1)
unfolding extend_history
length-extend_history e i h c =
    let (n, l) = next_index-IsCurrent i h c in
    rw (n, length-keep_last, length-push, length-take) (ground (arith, l))

pub last_index_of_suc {ℓ} :
    {A : Type ℓ} (xs : List A) (n : ℕ) → length xs ≡ suc n → last_index xs ≡ pos n
last_index_of_suc xs n h = rw h (ground arith)

abbrev pub Succeeds : Option Outcome → Type 0
Succeeds o = (s : State) × (sent : List Message) × (o ≡ some (s, sent)) × IsValid s

IsCurrent-last_index {ℓ} :
    {A : Type ℓ} (xs : List A) (n : ℕ) → length xs ≡ suc n → IsCurrent (last_index xs) xs
IsCurrent-last_index xs n h = rw (last_index_of_suc xs n h) (ground (arith, h))

record_change-IsValid :
    (label : Text) (f : Styles → Styles) (staged now : ℕ) (s : State)
    → IsValid s
    → IsValid (record_change label f staged now s)
unfolding record_change
record_change-IsValid label f staged now s (b, c, x) =
    let e : HistoryEntry = record {
      label = label;
      styles = some (f s.computed_styles);
      timestamp = now;
    } in
    let l = length-extend_history e s.history_index s.history c in
    (
      rw l (ground arith),
      IsCurrent-last_index (extend_history e s.history_index s.history)
          (min 49 (kept_length s.history_index)) (rw l (ground arith)),
      x,
    )

go_to-Succeeds :
    (reason : Reason) (n : ℕ) (s : State)
    → n < length s.history
    → IsValid s
    → Succeeds (go_to reason (pos n) s)
unfolding go_to
go_to-Succeeds reason n s h (b, c, x) =
    let (entry, found) = get_elem?_total s.history n h in rw (found, go_to) (_, _, refl, (b, h, x))

pub undo-eq : (n : ℕ) (s : State) → s.history_index ≡ pos (suc n) → undo s ≡ go_to undone (pos n) s
unfolding undo
undo-eq n s e = rw (e, undo)

pub undo-eq-first : (s : State) → s.history_index ≡ pos 0 → undo s ≡ some (s, [])
unfolding undo
undo-eq-first s e = simp (e, undo)

undo-eq-none : (n : ℕ) (s : State) → s.history_index ≡ negsuc n → undo s ≡ some (s, [])
unfolding undo
undo-eq-none n s e = simp (e, undo)

undo-Succeeds : (s : State) → IsValid s → Succeeds (undo s)
undo-Succeeds s (b, c, x) = from s.history_index refl
  where
    below : (n : ℕ) → s.history_index ≡ pos n → n < length s.history
    below n e = rw e at c

    from : (i : ℤ) → s.history_index ≡ i → Succeeds (undo s)
    from (pos (suc n)) e =
        rw (undo-eq n s e) (go_to-Succeeds undone n s (omega (arith, below (suc n) e)) (b, c, x))
    from (pos zero) e = rw (undo-eq-first s e) (_, _, refl, (b, c, x))
    from (negsuc n) e = rw (undo-eq-none n s e) (_, _, refl, (b, c, x))

ltb_ℤ-last_index {ℓ} :
    {A : Type ℓ} (i : ℤ) (xs : List A)
    → IsCurrent i xs
    → ltb_ℤ i (last_index xs) ≡ ltb (kept_length i) (length xs)
ltb_ℤ-last_index (pos n) xs h = ground arith
ltb_ℤ-last_index (negsuc zero) xs (_, h) = rw h refl
ltb_ℤ-last_index (negsuc (suc n)) xs (h, _) = ground arith

-- `redo` by the number of entries up to the current one.
pub redo-eq :
    (s : State)
    → IsCurrent s.history_index s.history
    → redo s ≡ (
        if ltb (kept_length s.history_index) (length s.history)
        then go_to redone (pos (kept_length s.history_index)) s
        else some (s, []))
unfolding redo
redo-eq s c =
    rw
      (
        ltb_ℤ-last_index s.history_index s.history c,
        (next_index-IsCurrent s.history_index s.history c).0,
      )
      refl

redo-Succeeds : (s : State) → IsValid s → Succeeds (redo s)
redo-Succeeds s (b, c, x) =
    rw (redo-eq s c) (elim (Bool-cases (ltb (kept_length s.history_index) (length s.history))) [
      | inl y ↦
          rw y (go_to-Succeeds redone (kept_length s.history_index) s (ground (arith, y)) (b, c, x))
      | inr n ↦ rw n (_, _, refl, (b, c, x))
    ])

jump_to_history-Succeeds : (i : ℤ) (s : State) → IsValid s → Succeeds (jump_to_history i s)
unfolding jump_to_history
jump_to_history-Succeeds (negsuc n) s v = (_, _, refl, v)
jump_to_history-Succeeds (pos n) s v = elim (Bool-cases (ltb n (length s.history))) [
  | inl y ↦ rw (y, jump_to_history) (go_to-Succeeds jumped n s (ground (arith, y)) v)
  | inr x ↦ rw (x, jump_to_history) (_, _, refl, v)
]

delete_node-IsValid : (id : Text) (s : State) → IsValid s → IsValid (delete_node id s).0
unfolding delete_node
delete_node-IsValid id s (b, c, x) = elim (Bool-cases (is_id s.selected_id id)) [
  | inl y ↦ rw y (b, c, inl refl)
  | inr n ↦ rw n (b, c, x)
]

commit_all-IsValid : (now : ℕ) (s : State) → IsValid s → IsValid (commit_all now s).0
unfolding commit_all
commit_all-IsValid now s (b, c, x) = elim (Bool-cases (is_selected s.selected_id)) [
  | inl y ↦ rw y (omega arith, omega arith, x)
  | inr n ↦ rw n (omega arith, (refl, refl), x)
]

preview_batch-IsValid :
    (styles : Styles) (s : State) → IsValid s → IsValid (preview_batch styles s).0
unfolding preview_batch
preview_batch-IsValid styles s v = elim (Bool-cases s.is_dragging) [
  | inl y ↦ rw y v
  | inr n ↦ rw n v
]

-- From a valid state no action throws, and each leads to a valid state: the history has 50 entries
-- at most, the current index is that of an entry or -1 if there is none, and no element and
-- signature are selected at once.
pub step-IsValid : (a : Action) (s : State) → IsValid s → Succeeds (step a s)
unfolding step select select_universal patch_style patch_batch preview_style
step-IsValid (do_select id info rect styles stack fiber) s (b, c, x) =
    (_, _, refl, (b, c, inr refl))
step-IsValid (do_select_universal signature rect styles) s (b, c, x) =
    (_, _, refl, (b, c, inl refl))
step-IsValid (do_set_rect rect) s v = unfold set_rect in (_, _, refl, v)
step-IsValid (do_set_active_state a) s v = unfold set_active_state in (_, _, refl, v)
step-IsValid (do_set_editing_text b) s v = unfold set_editing_text in (_, _, refl, v)
step-IsValid (do_set_dragging b) s v = unfold set_dragging in (_, _, refl, v)
step-IsValid (do_set_hover rect tag) s v = unfold set_hover in (_, _, refl, v)
step-IsValid (do_start_dragging id) s v = unfold start_dragging in (_, _, refl, v)
step-IsValid (do_set_drop_target id index rect insertion invalid) s v =
    unfold set_drop_target in (_, _, refl, v)
step-IsValid do_stop_dragging s v = unfold stop_dragging in (_, _, refl, v)
step-IsValid do_toggle_live_save s v = unfold toggle_live_save in (_, _, refl, v)
step-IsValid (do_set_staged_count n) s v = unfold set_staged_count in (_, _, refl, v)
step-IsValid (do_patch_style property value now) s v =
    (_, _, refl, record_change-IsValid _ (insert property value) 1 now s v)
step-IsValid (do_preview_style property value) s v = (_, _, refl, v)
step-IsValid (do_preview_batch styles) s v = (_, _, refl, preview_batch-IsValid styles s v)
step-IsValid (do_patch_batch styles now) s v =
    (_, _, refl, record_change-IsValid _ (λ old. merge old styles) (length styles) now s v)
step-IsValid (do_delete_node id) s v = (_, _, refl, delete_node-IsValid id s v)
step-IsValid (do_duplicate_node id) s v = unfold duplicate_node in (_, _, refl, v)
step-IsValid (do_move_node id parent old new) s v = unfold move_node in (_, _, refl, v)
step-IsValid (do_reparent_nodes id parent index) s v = unfold reparent_nodes in (_, _, refl, v)
step-IsValid (do_update_text id text) s v = unfold update_text in (_, _, refl, v)
step-IsValid (do_group_nodes ids tag) s v = unfold group_nodes in (_, _, refl, v)
step-IsValid do_undo s v = undo-Succeeds s v
step-IsValid do_redo s v = redo-Succeeds s v
step-IsValid (do_commit_all now) s v = (_, _, refl, commit_all-IsValid now s v)
step-IsValid do_clear_commits s v = unfold clear_commits in (_, _, refl, v)
step-IsValid (do_jump_to_history index) s v = jump_to_history-Succeeds index s v
step-IsValid do_discard_local_changes s (b, c, x) =
    unfold discard_local_changes in (_, _, refl, (omega arith, (refl, refl), x))
step-IsValid (do_request_heal source) s v = unfold request_heal in (_, _, refl, v)

run-Succeeds : (actions : List Action) (s : State) → IsValid s → Succeeds (run actions s)
unfolding run
run-Succeeds [] s v = (_, _, refl, v)
run-Succeeds (a ∷ actions) s v =
    let (s', sent, e, w) = step-IsValid a s v in
    let (s'', later, f, u) = run-Succeeds actions s' w in rw (e, run) (rw (f, run) (_, _, refl, u))

-- Whatever actions are called from the initial state, none throws, and then the history has 50
-- entries at most, the current index is that of an entry or -1 if there is none, and no element and
-- signature are selected at once.
pub run-IsValid : (actions : List Action) → Succeeds (run actions initial)
run-IsValid actions = run-Succeeds actions initial (omega arith, (refl, refl), inl refl)
