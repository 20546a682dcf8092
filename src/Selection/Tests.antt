-- ===== src/Selection/Tests.antt =====
-- The properties of the selection store at concrete inputs: an element is selected, committed as the
-- baseline, and changed.
use zenith_extension.Prelude.{◌≡◌, refl, some, List, [], ◌∷◌, inr, arith}
use zenith_extension.Prelude.Int.{pos, negsuc}
use zenith_extension.Prelude.Text.{Text, codes}
use zenith_extension.Styles.{Styles, lookup}
use zenith_extension.Styles.Laws.{or_else, last_value}
use zenith_extension.Selection.Store.{State, initial, HistoryEntry, Message}
use zenith_extension.Selection.History.{
  patch_style, patch_batch, undo, redo, go_to, jump_to_history, styles_in,
}
use zenith_extension.Selection.{
  run, do_patch_style, do_patch_batch, do_commit_all, do_undo, do_redo, do_discard_local_changes,
}
use zenith_extension.Selection.Invariant.{IsValid, Succeeds, run-IsValid}
use zenith_extension.Selection.Undo.{
  IsSynced, IsUndone, redo-undo, undo-patch, undo-first_patch, jump_to_history-jump_to_history,
  lookup-patch_batch,
}

abbrev entry : Text → HistoryEntry
entry color = record {
  label = codes "Set color";
  styles = some ((codes "color", color) ∷ []);
  timestamp = 7;
}

abbrev edited : State
edited = record initial {
  selected_id = some (codes "src/App.tsx:div.0");
  computed_styles = (codes "color", codes "red") ∷ [];
  history = entry (codes "blue") ∷ entry (codes "red") ∷ [];
  history_index = pos 1;
}

edited-IsValid : IsValid edited
edited-IsValid = (omega arith, omega arith, inr refl)

edited-IsSynced : IsSynced edited
edited-IsSynced = (entry (codes "red"), refl, refl)

abbrev big : Styles
big = (codes "fontSize", codes "20px") ∷ (codes "color", codes "green") ∷ []

run-IsValid_example : Succeeds (
    run
      (do_patch_style (codes "color") (codes "red") 1
        ∷ do_patch_batch big 2
        ∷ do_undo
        ∷ do_redo
        ∷ do_commit_all 3
        ∷ do_discard_local_changes
        ∷ [])
      initial)
run-IsValid_example = run-IsValid (
    do_patch_style (codes "color") (codes "red") 1
    ∷ do_patch_batch big 2
    ∷ do_undo
    ∷ do_redo
    ∷ do_commit_all 3
    ∷ do_discard_local_changes
    ∷ [])

redo-undo_example :
    (s : State) × (sent later : List Message) × (undo edited ≡ some (s, sent))
    × (redo s ≡ some (edited, later))
redo-undo_example = redo-undo 0 edited edited-IsValid refl edited-IsSynced

undo-patch_example :
    IsUndone (patch_style (codes "color") (codes "green") 9 edited).0 edited
    × IsUndone (patch_batch big 9 edited).0 edited
undo-patch_example =
    undo-patch (codes "color") (codes "green") big 9 1 edited edited-IsValid refl edited-IsSynced

abbrev fresh : State
fresh = record edited { history = []; history_index = negsuc 0 }

fresh-IsValid : IsValid fresh
fresh-IsValid = (omega arith, (refl, refl), inr refl)

undo-first_patch_example :
    (undo (patch_style (codes "color") (codes "green") 9 fresh).0
      ≡ some ((patch_style (codes "color") (codes "green") 9 fresh).0, []))
    × (undo (patch_batch big 9 fresh).0 ≡ some ((patch_batch big 9 fresh).0, []))
undo-first_patch_example =
    undo-first_patch (codes "color") (codes "green") big 9 fresh fresh-IsValid refl

abbrev jumped_back : State
jumped_back = record edited {
  computed_styles = (codes "color", codes "blue") ∷ [];
  history_index = pos 0;
}

jump_to_history-jump_to_history_example :
    jump_to_history (pos 1) jumped_back ≡ jump_to_history (pos 1) edited
unfolding jump_to_history go_to
jump_to_history-jump_to_history_example =
    jump_to_history-jump_to_history 0 1 edited jumped_back _ refl (omega arith)

lookup-patch_batch_example :
    (lookup (codes "color") (patch_batch big 9 edited).0.computed_styles
      ≡ or_else (last_value (codes "color") big) (lookup (codes "color") edited.computed_styles))
    × (lookup
          (codes "color")
          (styles_in edited.active_state (patch_batch big 9 edited).0.state_styles)
        ≡ or_else
            (last_value (codes "color") big)
            (lookup (codes "color") (styles_in edited.active_state edited.state_styles)))
lookup-patch_batch_example = lookup-patch_batch (codes "color") big 9 edited
