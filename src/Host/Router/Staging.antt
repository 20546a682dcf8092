-- ===== src/Host/Router/Staging.antt =====
-- The messages that stage changes of an element, of `handleWebviewMessage` in
-- zenith-extension/src/extension.ts. A text that the message lacks is the empty text, which the code
-- treats in the same way.
use zenith_extension.Prelude.{
  ℕ, ◌+◌, Bool, true, ◌||◌, Option, none, some, List, [], ◌∷◌, ◌++◌, if◌then◌else◌,
}
use zenith_extension.Prelude.Text.{Text, codes, text_eq}
use zenith_extension.Host.{
  Handle, Body, given, text_change, property_change, Intent, Call, LogLevel, ResultKind, log,
  result, status, forward, patch_style, post, M, ◌>>=◌, ◌>>◌, pure, throw, catch, emit, handle_of,
  modify, call, workspace, fresh_uuid, staged_now, connected_handle,
}
use zenith_extension.Host.Sync.{sync_status, wait_for_staged_count, update_status_bar}
use zenith_extension.Host.Commands.{stage_command}

-- `a || b`
abbrev pub or_text : Text → Text → Text
or_text [] b = b
or_text (c ∷ a) b = c ∷ a

abbrev pub untimed : Body → Intent
untimed b = record { body = b; timestamp = 0 }

-- `handle.stagedCount++`
abbrev pub count_up : Text → M (Unit {0})
count_up root = modify root (λ h. record h { staged_count = h.staged_count + 1 })

abbrev pub log_error : Text → Text → M (Unit {0})
log_error text e = emit (post (log LogLevel.error (text ++ e)))

-- `message.intent` of `stage`
pub record Visual : Type 0 where
  pub kind : Text
  pub element : Text
  pub property : Text
  pub value : Text

unfoldable pub required_intent : Option Visual → M Visual
required_intent none = throw (codes "Missing intent")
required_intent (some v) = pure v

unfoldable pub status_if : Text → Option Handle → M (Unit {0})
status_if root none = pure tt
status_if root (some h) = do n ← staged_now root; emit (post (status true n))

unfoldable pub stage_visual : Option Handle → Option Visual → M (Unit {0})
unfolding required_intent status_if
stage_visual h intent = do
  root ← workspace
  v ← required_intent intent
  generated ← fresh_uuid
  emit (post (forward (patch_style (or_text v.element generated) v.property v.value)))
  r ← stage_command (untimed (given v.kind v.element v.property v.value))
  status_if root h
  emit (post (result ResultKind.stage none))

-- `stage`
unfoldable pub on_stage : Option Visual → M (Unit {0})
unfolding stage_visual
on_stage intent = do
  root ← workspace
  h ← handle_of root
  catch (stage_visual h intent) (λ e. emit (post (result ResultKind.stage (some e))))

-- What follows the second wait: the changes are committed to the disk.
unfoldable pub persist_text : Text → ℕ → M (Unit {0})
persist_text root count = do
  modify root (λ h. record h { staged_count = count })
  v ← call root Call.persist
  emit (post (log LogLevel.success (codes "Auto-Committed text edit to disk.")))
  update_status_bar (some root)
  modify root (λ h. record h { staged_count = 0 })
  emit (post (status true 0))

unfoldable pub edit_text : Text → Text → Text → M (Unit {0})
unfolding persist_text
edit_text id content new_text = do
  root ← workspace
  h ← connected_handle
  r ← stage_command (untimed (text_change id (or_text content new_text)))
  staged ← staged_now root
  count ← wait_for_staged_count root (staged + 1)
  persist_text root count

-- `zenithTextEdit`
unfoldable pub on_text_edit : (id content new_text : Text) → M (Unit {0})
unfolding edit_text
on_text_edit id content new_text =
    catch (edit_text id content new_text) (log_error (codes "Text edit failed: "))

pub record PatchMessage : Type 0 where
  -- `message.type === 'zenithTextEdit'`
  pub is_text_edit : Bool
  pub intent : Option Intent
  pub zenith_id : Text
  pub element : Text
  pub signature : Text
  pub property : Text
  pub value : Text
  pub new_text : Text

abbrev pub intent_or : Option Intent → Intent → Intent
intent_or none i = i
intent_or (some own) i = own

-- `rpcIntent`
unfoldable pub patch_intent : PatchMessage → Intent
patch_intent m = intent_or m.intent (
    if m.is_text_edit || text_eq m.property (codes "textContent")
    then untimed (text_change m.zenith_id (or_text m.new_text m.value))
    else untimed (property_change m.zenith_id m.property m.value))

-- An element with an ID is staged by its intent, another one by its signature, if it has one.
unfoldable pub stage_patch : PatchMessage → Text → Text → (id signature : Text) → M (Unit {0})
stage_patch m root tx (c ∷ id) signature = do r ← stage_command (patch_intent m); pure tt
stage_patch m root tx [] (c ∷ signature) = do
  v ← call root (Call.stage_universal (some tx) (c ∷ signature) m.property m.value root)
  pure tt
stage_patch m root tx [] [] = pure tt

unfoldable pub patch_element : PatchMessage → M (Unit {0})
unfolding patch_intent stage_patch
patch_element m = do
  root ← workspace
  tx ← fresh_uuid
  h ← connected_handle
  stage_patch m root tx (or_text m.zenith_id m.element) m.signature
  count ← sync_status root
  update_status_bar (some root)
  emit (post (status true count))

-- `patchStyle`
unfoldable pub on_patch_style : PatchMessage → M (Unit {0})
unfolding patch_element
on_patch_style m = catch (patch_element m) (log_error (codes "Failed to stage design: "))

-- One call and one count for each style.
unfoldable pub stage_styles : Text → Text → Text → List (Text × Text) → M (Unit {0})
stage_styles root tx signature [] = pure tt
stage_styles root tx signature ((property, value) ∷ styles) = do
  v ← call root (Call.stage_universal (some tx) signature property value root)
  count_up root
  stage_styles root tx signature styles

unfoldable pub stage_batch : Text → Text → (id signature : Text) → List (Text × Text) → M (Unit {0})
stage_batch root tx (c ∷ id) signature styles = do
  v ← call root (Call.stage_batch tx (c ∷ id) styles)
  count_up root
stage_batch root tx [] (c ∷ signature) styles = stage_styles root tx (c ∷ signature) styles
stage_batch root tx [] [] styles = pure tt

unfoldable pub apply_batch : (id signature : Text) → List (Text × Text) → M (Unit {0})
unfolding stage_styles stage_batch
apply_batch id signature styles = do
  root ← workspace
  h ← connected_handle
  tx ← fresh_uuid
  stage_batch root tx id signature styles
  update_status_bar (some root)
  n ← staged_now root
  emit (post (status true n))
  emit (
      post
        (log LogLevel.success (codes "Batch update applied to " ++ or_text id (codes "selection"))))

-- `zenithBatchPatch`
unfoldable pub on_batch_patch : (id signature : Text) → List (Text × Text) → M (Unit {0})
unfolding apply_batch
on_batch_patch id signature styles =
    catch (apply_batch id signature styles) (log_error (codes "Batch patch failed: "))

unfoldable pub stage_universal : (signature property value : Text) → M (Unit {0})
stage_universal signature property value = do
  root ← workspace
  h ← connected_handle
  v ← call root (Call.stage_universal none signature property value root)
  count_up root
  update_status_bar (some root)
  n ← staged_now root
  emit (post (status true n))

-- `universalStage`
unfoldable pub on_universal_stage : (signature property value : Text) → M (Unit {0})
unfolding stage_universal
on_universal_stage signature property value =
    catch (stage_universal signature property value) (log_error (codes "Universal stage failed: "))
