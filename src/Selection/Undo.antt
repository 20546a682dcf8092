-- ===== src/Selection/Undo.antt =====
-- What `undo`, `redo` and `jumpToHistory` of useSelectionStore.ts
-- (zenith-extension/webview-ui/src/stores) restore, and what a style change does.
use mathlib.Core.Option.{some-injective}
use zenith_extension.Prelude.{
  ℕ, suc, ◌+◌, ◌-◌, ◌≤◌, ◌<◌, min, ◌≡◌, refl, ap, ◌∙◌, sym, true, false, some, List, [], ◌∷◌, arith,
  length, take, push, get_elem?, ltb, Bool-cases, inl, inr, length-take, get_elem?_total,
  get_elem?-take, get_elem?-drop, get_elem?-append_left, ap₂,
}
use zenith_extension.Prelude.Int.{ℤ, pos, negsuc}
use zenith_extension.Prelude.Text.{Text}
use zenith_extension.Styles.{Styles, lookup, insert, merge}
use zenith_extension.Styles.Laws.{lookup-merge, or_else, last_value}
use zenith_extension.Selection.Store.{
  State, HistoryEntry, Message, Reason, undone, redone, jumped, batch_patched, InteractionState,
  base, hover, focus, active, disabled, StateStyles,
}
use zenith_extension.Selection.History.{
  max_history_length, entry_at, keep_last, extend_history, change_styles, styles_in, record_change,
  patch_style, patch_batch, go_to, undo, redo, jump_to_history, or_empty,
}
use zenith_extension.Selection.Invariant.{
  IsValid, kept_length, length-push, length-extend_history, last_index_of_suc, undo-eq,
  undo-eq-first, redo-eq,
}

-- The current entry holds the styles that the store shows.
abbrev pub IsSynced : State → Type 0
IsSynced s =
    (e : HistoryEntry) × (entry_at s.history_index s.history ≡ some e)
    × (or_empty e.styles ≡ s.computed_styles)

abbrev at_entry : State → HistoryEntry → ℤ → State
at_entry s e index = record s { computed_styles = or_empty e.styles; history_index = index }

go_to-eq :
    (reason : Reason) (n : ℕ) (s : State) (e : HistoryEntry)
    → get_elem? s.history n ≡ some e
    → go_to reason (pos n) s
      ≡ some (
        at_entry s e (pos n),
        batch_patched s.selected_id s.element_signature (or_empty e.styles) reason ∷ [],
      )
unfolding go_to
go_to-eq reason n s e h = rw (h, go_to)

at_entry_same :
    (s : State) (e : HistoryEntry) (i : ℤ)
    → or_empty e.styles ≡ s.computed_styles
    → s.history_index ≡ i
    → at_entry s e i ≡ s
at_entry_same s e i h k = ap₂ (λ a j. record s { computed_styles = a; history_index = j }) h (sym k)

redo-at_entry :
    (n : ℕ) (s : State) (e e' : HistoryEntry)
    → get_elem? s.history (suc n) ≡ some e
    → suc n < length s.history
    → redo (at_entry s e' (pos n))
      ≡ some (
        at_entry s e (pos (suc n)),
        batch_patched s.selected_id s.element_signature (or_empty e.styles) redone ∷ [],
      )
redo-at_entry n s e e' found h =
    let t : State = at_entry s e' (pos n) in
    let small : n < length s.history = omega arith in
    let more : ltb (suc n) (length s.history) ≡ true = ground arith in
    redo-eq t small ∙ rw more (go_to-eq redone (suc n) t e found)

-- In a valid state whose current entry is not the first and holds the shown styles, undoing
-- succeeds, and redoing then succeeds and leads back to that state.
pub redo-undo :
    (n : ℕ) (s : State)
    → IsValid s
    → s.history_index ≡ pos (suc n)
    → IsSynced s
    → (s' : State) × (sent later : List Message) × (undo s ≡ some (s', sent))
      × (redo s' ≡ some (s, later))
redo-undo n s (b, c, x) e (entry, found, styles) =
    let inside : suc n < length s.history = rw e at c in
    let (first, p) = get_elem?_total s.history n (omega arith) in
    let here : get_elem? s.history (suc n) ≡ some entry = rw e at found in
    (
      at_entry s first (pos n),
      _,
      _,
      undo-eq n s e ∙ go_to-eq undone n s first p,
      redo-at_entry n s entry first here inside
          ∙ ap
              (λ t. some (
                t,
                batch_patched s.selected_id s.element_signature (or_empty entry.styles) redone ∷ [],
              ))
              (at_entry_same s entry (pos (suc n)) styles e),
    )

get_elem?-keep_last {ℓ} :
    {A : Type ℓ} (max : ℕ) (xs : List A) (i : ℕ)
    → get_elem? (keep_last max xs) i ≡ get_elem? xs (length xs - max + i)
unfolding keep_last
get_elem?-keep_last max xs i = elim (Bool-cases (ltb max (length xs))) [
  | inl y ↦ rw y (get_elem?-drop (length xs - max) xs i _ refl)
  | inr n ↦ rw n (ap (get_elem? xs) (ground (arith, n)))
]

get_elem?-extend_history :
    (e : HistoryEntry) (n : ℕ) (h : List HistoryEntry)
    → n < length h
    → length h ≤ max_history_length
    → get_elem? (extend_history e (pos n) h) (min 48 n) ≡ get_elem? h n
unfolding extend_history
get_elem?-extend_history e n h l m =
    let kept = push (take (suc n) h) e in
    let size : length (take (suc n) h) ≡ suc n = length-take (suc n) h ∙ ground arith in
    let place : length kept - 50 + min 48 n ≡ n =
      rw (length-push (take (suc n) h) e, size) (ground arith) in
    get_elem?-keep_last max_history_length kept (min 48 n)
    ∙ ap (get_elem? kept) place
    ∙ get_elem?-append_left (take (suc n) h) (e ∷ []) n (rw size (ground arith))
    ∙ get_elem?-take (suc n) h n (ground arith)

abbrev pub IsUndone : State → State → Type 0
IsUndone t s =
    (s' : State) × (sent : List Message) × (undo t ≡ some (s', sent))
    × (s'.computed_styles ≡ s.computed_styles)

undo-record_change :
    (label : Text) (f : Styles → Styles) (staged now : ℕ) (n : ℕ) (s : State)
    → IsValid s
    → s.history_index ≡ pos n
    → IsSynced s
    → IsUndone (record_change label f staged now s) s
unfolding record_change
undo-record_change label f staged now n s (b, c, x) e (entry, found, styles) =
    let t : State = record_change label f staged now s in
    let inside : n < length s.history = rw e at c in
    let here : get_elem? s.history n ≡ some entry = rw e at found in
    let new : HistoryEntry = record {
      label = label;
      styles = some (f s.computed_styles);
      timestamp = now;
    } in
    let size : length t.history ≡ min 50 (kept_length s.history_index + 1) =
      length-extend_history new s.history_index s.history c in
    let same : t.history ≡ extend_history new (pos n) s.history =
      ap (λ i. extend_history new i s.history) e in
    let index : t.history_index ≡ pos (suc (min 48 n)) =
      last_index_of_suc t.history (suc (min 48 n)) (size ∙ rw e (ground (arith, b, inside))) in
    let old : get_elem? t.history (min 48 n) ≡ some entry =
      ap (λ h. get_elem? h (min 48 n)) same
      ∙ get_elem?-extend_history new n s.history inside b
      ∙ here in
    (
      at_entry t entry (pos (min 48 n)),
      _,
      undo-eq (min 48 n) t index ∙ go_to-eq undone (min 48 n) t entry old,
      styles,
    )

-- In a valid state whose current entry holds the shown styles, a call of `patchStyle` or
-- `patchBatch`, also one that pushes the oldest entry out of the history, can be undone, and then
-- the store shows the styles from before the call.
pub undo-patch :
    (property value : Text) (styles : Styles) (now n : ℕ) (s : State)
    → IsValid s
    → s.history_index ≡ pos n
    → IsSynced s
    → IsUndone (patch_style property value now s).0 s × IsUndone (patch_batch styles now s).0 s
unfolding patch_style patch_batch
undo-patch property value styles now n s v e y = (
  undo-record_change _ (insert property value) 1 now n s v e y,
  undo-record_change _ (λ old. merge old styles) (length styles) now n s v e y,
)

-- In a valid state without history, undoing a call of `patchStyle` or `patchBatch` does nothing.
pub undo-first_patch :
    (property value : Text) (styles : Styles) (now : ℕ) (s : State)
    → IsValid s
    → s.history_index ≡ negsuc 0
    → (undo (patch_style property value now s).0 ≡ some ((patch_style property value now s).0, []))
      × (undo (patch_batch styles now s).0 ≡ some ((patch_batch styles now s).0, []))
unfolding patch_style patch_batch
undo-first_patch property value styles now s (b, c, x) e = (
  undo-eq-first _ (index _ (insert property value) 1),
  undo-eq-first _ (index _ (λ old. merge old styles) (length styles)),
)
  where
    index :
        (label : Text) (f : Styles → Styles) (staged : ℕ)
        → (record_change label f staged now s).history_index ≡ pos 0
    index label f staged =
        let new : HistoryEntry = record {
          label = label;
          styles = some (f s.computed_styles);
          timestamp = now;
        } in
        unfold record_change in
        last_index_of_suc (extend_history new s.history_index s.history) 0
          (length-extend_history new s.history_index s.history c ∙ rw e refl)

jump_to_history-eq :
    (n : ℕ) (s : State) (e : HistoryEntry)
    → get_elem? s.history n ≡ some e
    → n < length s.history
    → jump_to_history (pos n) s
      ≡ some (
        at_entry s e (pos n),
        batch_patched s.selected_id s.element_signature (or_empty e.styles) jumped ∷ [],
      )
unfolding jump_to_history
jump_to_history-eq n s e found h =
    let inside : ltb n (length s.history) ≡ true = ground arith in
    rw inside (go_to-eq jumped n s e found)

jump_to_history-outside :
    (n : ℕ) (s : State)
    → ltb n (length s.history) ≡ false
    → jump_to_history (pos n) s ≡ some (s, [])
unfolding jump_to_history
jump_to_history-outside n s h = rw h

-- A jump to an entry of the history leads to the same outcome whichever entry was jumped to before.
pub jump_to_history-jump_to_history :
    (i j : ℕ) (s s' : State) (sent : List Message)
    → jump_to_history (pos i) s ≡ some (s', sent)
    → j < length s.history
    → jump_to_history (pos j) s' ≡ jump_to_history (pos j) s
jump_to_history-jump_to_history i j s s' sent h l = elim (Bool-cases (ltb i (length s.history))) [
  | inr n ↦
      ap (jump_to_history (pos j))
        (ap (λ p. p.0) (some-injective _ _ (sym h ∙ jump_to_history-outside i s n)))
  | inl y ↦
      let inside : i < length s.history = ground (arith, y) in
      let (e, p) = get_elem?_total s.history i inside in
      let (e', q) = get_elem?_total s.history j l in
      let same : s' ≡ at_entry s e (pos i) =
        ap (λ p. p.0) (some-injective _ _ (sym h ∙ jump_to_history-eq i s e p inside)) in
      ap (jump_to_history (pos j)) same
      ∙ jump_to_history-eq j (at_entry s e (pos i)) e' q l
      ∙ sym (jump_to_history-eq j s e' q l)
]

styles_in-change_styles :
    (a : InteractionState) (f : Styles → Styles) (m : StateStyles)
    → styles_in a (change_styles a f m) ≡ f (styles_in a m)
unfolding styles_in change_styles
styles_in-change_styles base f m = refl
styles_in-change_styles hover f m = refl
styles_in-change_styles focus f m = refl
styles_in-change_styles active f m = refl
styles_in-change_styles disabled f m = refl

-- After `patchBatch` both the shown styles and those of the active interaction state have, under
-- each key, the last value that the batch gives it, and the old value under every other key.
pub lookup-patch_batch :
    (key : Text) (styles : Styles) (now : ℕ) (s : State)
    → (lookup key (patch_batch styles now s).0.computed_styles
        ≡ or_else (last_value key styles) (lookup key s.computed_styles))
      × (lookup key (styles_in s.active_state (patch_batch styles now s).0.state_styles)
          ≡ or_else (last_value key styles) (lookup key (styles_in s.active_state s.state_styles)))
unfolding patch_batch record_change
lookup-patch_batch key styles now s = (
  lookup-merge key s.computed_styles styles,
  rw (styles_in-change_styles s.active_state (λ old. merge old styles) s.state_styles)
      (lookup-merge key (styles_in s.active_state s.state_styles) styles),
)
