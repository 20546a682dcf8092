-- ===== src/Host/Router/Editor.antt =====
-- The messages that open something in the editor, of `handleWebviewMessage` in
-- zenith-extension/src/extension.ts. Whether a file is there and with which error a call of the editor
-- ends is given with the message.
use zenith_extension.Prelude.{Bool, true, false, Option, none, some, [], ◌∷◌}
use zenith_extension.Prelude.Text.{Text, codes}
use zenith_extension.Host.{execute, show_error, M, ◌>>=◌, ◌>>◌, pure, throw, emit, workspace}

-- A call of the editor that is waited for, with the error that it ends with.
unfoldable pub editor_call : Text → Option Text → M (Unit {0})
editor_call name none = emit (execute name)
editor_call name (some e) = throw e

unfoldable pub show_trace_log : Text → (is_there : Bool) → Option Text → M (Unit {0})
unfolding editor_call
show_trace_log [] is_there failure = pure tt
show_trace_log (c ∷ s) true failure = editor_call (codes "showTextDocument") failure
show_trace_log (c ∷ s) false failure =
    emit (show_error (codes "Zenith trace log not found yet. Try performing an action first."))

-- `openTraceLog`
unfoldable pub on_open_trace_log : (is_there : Bool) → Option Text → M (Unit {0})
unfolding show_trace_log
on_open_trace_log is_there failure = do root ← workspace; show_trace_log root is_there failure

-- `zenithJumpToSource`, by `source?.fileName`.
unfoldable pub on_jump_to_source : Option Text → (opening showing : Option Text) → M (Unit {0})
unfolding editor_call
on_jump_to_source none opening showing = pure tt
on_jump_to_source (some []) opening showing = pure tt
on_jump_to_source (some (c ∷ s)) opening showing = do
  editor_call (codes "openTextDocument") opening
  editor_call (codes "showTextDocument") showing
  emit (execute (codes "revealLine"))

-- `openNewInstance`
unfoldable pub on_open_new_instance : Option Text → M (Unit {0})
unfolding editor_call
on_open_new_instance failure = editor_call (codes "ZenithPanel.createOrShow") failure
