-- ===== src/Host/Commands.antt =====
-- The commands `zenith.engine.stage`, `zenith.engine.heal`, `zenith.engine.commit` and
-- `zenith.surgicalMode.toggle` of zenith-extension/src/extension.ts.
use zenith_extension.Prelude.{
  ℕ, zero, suc, ◌+◌, ◌-◌, ◌==◌, Bool, true, false, ◌||◌, Option, none, some, List, [], ◌∷◌, ◌++◌,
  if◌then◌else◌,
}
use zenith_extension.Prelude.Text.{Text, codes, text_eq}
use zenith_extension.Host.{
  Handle, Intent, Call, Value, other, counted, truth, broadcast, workspace_status, session_healed,
  session_committed, surgical_mode_set, show_error, show_warning, show_information, configure,
  State, M, ◌>>=◌, ◌>>◌, pure, catch, throw, emit, handle_of, modify, call, target_workspace,
  fresh_uuid, time, done,
}
use zenith_extension.Host.Sync.{sync_status, wait_for_staged_count, update_status_bar}

-- A command for the handle of the workspace that the user works in; without one it does nothing.
unfoldable pub on_handle : {A : Type 0} → A → (Text → Handle → M A) → Text → Option Handle → M A
on_handle a f root none = pure a
on_handle a f root (some h) = f root h

unfoldable pub on_root : {A : Type 0} → A → (Text → Handle → M A) → Option Text → M A
unfolding on_handle
on_root a f none = pure a
on_root a f (some root) = do h ← handle_of root; on_handle a f root h

unfoldable pub on_target : {A : Type 0} → A → (Text → Handle → M A) → M A
unfolding on_root
on_target a f = do t ← target_workspace; on_root a f t

-- An error is shown and thrown on.
unfoldable pub shown : {A : Type 0} → Text → M A → M A
shown text m = catch m λ e. do emit (show_error (text ++ e)); throw e

-- `intent.timestamp || Date.now()`
unfoldable pub stamped : ℕ → Intent → Intent
stamped now i = record i { timestamp = if i.timestamp == 0 then now else i.timestamp }

unfoldable pub stage_intent : Intent → Text → Handle → M (Option (Text × ℕ))
unfolding stamped
stage_intent i root h = do
  tx ← fresh_uuid
  now ← time
  v ← call root (Call.stage tx (stamped now i))
  count ← wait_for_staged_count root (h.staged_count + 1)
  update_status_bar (some root)
  pure (some (tx, count))

-- `zenith.engine.stage`: the transaction and the count, if the intent was sent.
unfoldable pub stage_command : Intent → M (Option (Text × ℕ))
unfolding stage_intent
stage_command i =
    on_target none (λ root h. shown (codes "Zenith Stage Failed: ") (stage_intent i root h))

-- The loop that polls until the sidecar has nothing staged.
unfoldable pub verify_heal : ℕ → Text → M Bool
verify_heal zero root = pure false
verify_heal (suc n) root = do
  count ← sync_status root
  if count == 0 then pure true else verify_heal n root

unfoldable pub heal_outcome : Text → Bool → M (Unit {0})
heal_outcome root settled = do
  if settled
      then pure tt
      else emit (
          show_warning
            (codes "Zenith: Heal partially blocked by Windows file-lock. Mutations might persist."))
  modify root (λ h. record h { staged_count = 0 })
  emit (broadcast (session_healed 0))
  update_status_bar (some root)
  if settled
      then emit (show_information (codes "Zenith: System Healed. Staging layer has been reset."))
      else pure tt

unfoldable pub lock_healing : Text → M (Unit {0})
lock_healing root env s = done tt (record s { healing = root ∷ s.healing })

unfoldable pub heal_handle : Text → Handle → M (Unit {0})
unfolding verify_heal heal_outcome lock_healing shown
heal_handle root h = shown (codes "Healing failed: ") do
  lock_healing root
  v ← call root Call.heal
  settled ← verify_heal 3 root
  heal_outcome root settled

unfoldable pub has_root : Text → List Text → Bool
has_root root [] = false
has_root root (r ∷ rs) = text_eq r root || has_root root rs

unfoldable pub remove_root : Text → List Text → List Text
remove_root root [] = []
remove_root root (r ∷ rs) = if text_eq r root then remove_root root rs else r ∷ remove_root root rs

unfoldable pub is_healing : Text → M Bool
unfolding has_root
is_healing root env s = done (has_root root s.healing) s

-- A second heal of a workspace is ignored while the first one holds the lock.
unfoldable pub guarded_heal : Text → Handle → M (Unit {0})
unfolding heal_handle is_healing
guarded_heal root h = do blocked ← is_healing root; if blocked then pure tt else heal_handle root h

-- `zenith.engine.heal`
unfoldable pub heal_command : M (Unit {0})
unfolding guarded_heal
heal_command = on_target tt guarded_heal

-- The timer one second after a heal.
unfoldable pub release_heal : Text → State → State
unfolding remove_root
release_heal root s = record s { healing = remove_root root s.healing }

abbrev pub commit_call : Text → Call
commit_call [] = Call.commit_all
commit_call (c ∷ id) = Call.commit_element (c ∷ id)

-- The count after a commit of everything, or of one element; the count stops at 0.
abbrev pub after_commit : Text → ℕ → ℕ
after_commit [] n = 0
after_commit (c ∷ id) n = n - 1

unfoldable pub announce_commit : Text → M (Unit {0})
announce_commit [] = emit (broadcast (session_committed 0))
announce_commit (c ∷ id) = pure tt

unfoldable pub commit_handle : Text → Text → Handle → M (Unit {0})
commit_handle id root h = do
  v ← call root (commit_call id)
  modify root (λ h. record h { staged_count = after_commit id h.staged_count })
  announce_commit id
  update_status_bar (some root)
  emit (broadcast (workspace_status true root (after_commit id h.staged_count)))

-- `zenith.engine.commit`; the empty ID stands for everything.
unfoldable pub commit_command : Text → M (Unit {0})
unfolding commit_handle
commit_command id =
    on_target tt (λ root h. shown (codes "Zenith Commit Failed: ") (commit_handle id root h))

unfoldable pub is_enabled : Value → Bool
is_enabled Value.null = false
is_enabled other = true
is_enabled (counted n) = true
is_enabled (truth b) = b

unfoldable pub toggle_handle : Text → Handle → M (Unit {0})
unfolding is_enabled
toggle_handle root h = do
  v ← call root Call.toggle_surgical
  emit (configure (codes "surgicalMode") (is_enabled v))
  emit (
      show_information (
        codes "Zenith Surgical Mode: "
        ++ (if is_enabled v then codes "ENABLED ✓" else codes "DISABLED ✗")))
  emit (broadcast (surgical_mode_set (is_enabled v)))

-- `zenith.surgicalMode.toggle`, where an error is shown and not thrown on.
unfoldable pub toggle_command : M (Unit {0})
unfolding toggle_handle
toggle_command = on_target tt (λ root h.
    catch (toggle_handle root h) λ e. emit (show_error (codes "Surgical toggle failed: " ++ e)))
