-- ===== src/Host/Router/Session.antt =====
-- The messages about the staged session and those that are passed on, of `handleWebviewMessage` in
-- zenith-extension/src/extension.ts.
use zenith_extension.Prelude.{Bool, true, Option, none, some, [], ◌++◌, if◌then◌else◌}
use zenith_extension.Prelude.Text.{Text, codes}
use zenith_extension.Host.{
  Handle, Call, LogLevel, ResultKind, log, result, status, forward, batch_patch, select, deep_audit,
  request_tree, tree_update, post, to_panels, to_sidebar, to_other_panels, M, ◌>>=◌, ◌>>◌, pure,
  catch, emit, handle_of, call, workspace, connected_handle,
}
use zenith_extension.Host.Commands.{heal_command, commit_command}

abbrev pub fail : ResultKind → Text → M (Unit {0})
fail kind e = emit (post (result kind (some e)))

-- `commit`
unfoldable pub on_commit : Text → M (Unit {0})
on_commit id =
    catch (do commit_command id; emit (post (result ResultKind.commit none)))
      (fail ResultKind.commit)

-- A call without parameters, and what is posted after it.
abbrev pub call_then : Call → M (Unit {0}) → M (Unit {0})
call_then c next = do root ← workspace; h ← connected_handle; v ← call root c; next

-- `undo`
unfoldable pub on_undo : M (Unit {0})
on_undo =
    catch (call_then Call.undo (emit (post (result ResultKind.undo none)))) (fail ResultKind.undo)

-- `redo`
unfoldable pub on_redo : M (Unit {0})
on_redo =
    catch (call_then Call.redo (emit (post (result ResultKind.redo none)))) (fail ResultKind.redo)

-- `hardenWal`
unfoldable pub on_harden_wal : M (Unit {0})
on_harden_wal =
    catch
      (call_then Call.harden_wal do
        emit (post (result ResultKind.harden_wal none))
        emit (post (log LogLevel.success (codes "WAL Hardened: Log truncated successfully"))))
      (λ e. do
        fail ResultKind.harden_wal e
        emit (post (log LogLevel.error (codes "WAL Hardening failed: " ++ e))))

-- `healSession`
unfoldable pub on_heal_session : M (Unit {0})
on_heal_session =
    catch
      (do
        h ← connected_handle
        emit (post (log LogLevel.warn (codes "[EXT] Triggering Autonomous Heal RPC...")))
        heal_command
        emit (post (result ResultKind.heal none))
        emit (post (log LogLevel.success (codes "System Healed: Staging layer reset."))))
      (fail ResultKind.heal)

-- `commitAll`
unfoldable pub on_commit_all : M (Unit {0})
on_commit_all =
    catch
      (do
        commit_command []
        emit (post (status true 0))
        emit (post (log LogLevel.success (codes "All changes committed to source code!"))))
      λ e. emit (post (log LogLevel.error (codes "Commit failed: " ++ e)))

-- `toggleVisibility`
unfoldable pub show_visibility : Text → Bool → Option Handle → M (Unit {0})
show_visibility id is_hidden none = pure tt
show_visibility id is_hidden (some h) = emit (
    post (
      forward (
        batch_patch id (if is_hidden then codes "0" else codes "1")
          (if is_hidden then codes "none" else codes "auto"))))

unfoldable pub on_toggle_visibility : Text → Bool → M (Unit {0})
unfolding show_visibility
on_toggle_visibility id is_hidden = do
  root ← workspace
  h ← handle_of root
  show_visibility id is_hidden h

-- `zenithBridgeLog`
unfoldable pub on_bridge_log : Text → LogLevel → M (Unit {0})
on_bridge_log text level = emit (post (log level (codes "[BRIDGE] " ++ text)))

-- `requestSelect`
unfoldable pub on_request_select : Text → M (Unit {0})
on_request_select id = emit (post (forward (select id)))

-- `runDeepAudit`
unfoldable pub on_run_deep_audit : M (Unit {0})
on_run_deep_audit = emit (post (forward deep_audit))

-- `zenithRequestTree`
unfoldable pub on_request_tree : M (Unit {0})
on_request_tree = emit (to_panels (forward request_tree))

-- `zenithTreeUpdate`
unfoldable pub on_tree_update : Text → M (Unit {0})
on_tree_update tree = do
  emit (to_sidebar (tree_update tree))
  emit (to_other_panels (tree_update tree))
