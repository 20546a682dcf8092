-- ===== src/Host/Router/Structure.antt =====
-- The messages that change the structure of the page, of `handleWebviewMessage` in
-- zenith-extension/src/extension.ts: the cases that the `switch` reaches. Its second cases for the
-- same commands are never reached.
use zenith_extension.Prelude.{true, Option, none, some, List, [], ◌∷◌, ◌++◌}
use zenith_extension.Prelude.Text.{Text, codes}
use zenith_extension.Host.{
  Body, structural_change, duplicate_node, delete_node, reorder, group_node, LogLevel, ResultKind,
  log, result, status, forward, request_tree, structural_success, post, M, ◌>>=◌, ◌>>◌, pure, throw,
  catch, emit, time, workspace, connected_handle,
}
use zenith_extension.Host.Sync.{sync_status, update_status_bar}
use zenith_extension.Host.Commands.{stage_command}

-- The frame of the four handlers: stage an intent made now, and post how it went.
unfoldable pub stage_result : ResultKind → M Body → M (Unit {0})
stage_result kind make =
    catch
      (do
        b ← make
        now ← time
        r ← stage_command (record { body = b; timestamp = now })
        emit (post (result kind none)))
      λ e. emit (post (result kind (some e)))

-- `duplicateNode`
unfoldable pub on_duplicate_node : Text → M (Unit {0})
unfolding stage_result
on_duplicate_node id = stage_result ResultKind.duplicate (pure (duplicate_node id))

-- `deleteNode`
unfoldable pub on_delete_node : Text → M (Unit {0})
unfolding stage_result
on_delete_node id = stage_result ResultKind.delete (pure (delete_node id))

-- `moveNode`
unfoldable pub on_move_node : Text → (old_order new_order : List Text) → M (Unit {0})
unfolding stage_result
on_move_node parent old_order new_order =
    stage_result ResultKind.move (pure (reorder parent old_order new_order))

-- `message.ids[0]`, where the message may lack the field.
unfoldable pub first_id : Option (List Text) → M Text
first_id none = throw (codes "Cannot read properties of undefined (reading '0')")
first_id (some []) = pure []
first_id (some (id ∷ ids)) = pure id

-- `groupNodes`
unfoldable pub on_group_nodes : Option (List Text) → Text → M (Unit {0})
unfolding stage_result first_id
on_group_nodes ids tag =
    stage_result ResultKind.group do id ← first_id ids; pure (group_node id tag)

unfoldable pub operate : (operation id payload new_id : Text) → M (Unit {0})
operate operation id payload new_id = do
  root ← workspace
  h ← connected_handle
  r ← stage_command (record { body = structural_change operation id payload; timestamp = 0 })
  count ← sync_status root
  update_status_bar (some root)
  emit (post (structural_success operation id new_id))
  emit (post (forward request_tree))
  emit (post (status true count))

-- `structuralOperation`; `new_id` is the field of that name of the payload.
unfoldable pub on_structural_operation : (operation id payload new_id : Text) → M (Unit {0})
unfolding operate
on_structural_operation operation id payload new_id =
    catch (operate operation id payload new_id)
      (λ e. emit (post (log LogLevel.error (codes "Structural operation failed: " ++ e))))
