-- ===== src/Host/Silent.antt =====
-- Computations of the extension host that post no answer, a message `<kind>Result`, and the commands of
-- zenith-extension/src/extension.ts among them.
use zenith_extension.Prelude.{
  ℕ, zero, suc, ◌≡◌, refl, ◌∙◌, Bool, true, false, Option, none, some, List, [], ◌∷◌, if◌then◌else◌,
}
use zenith_extension.Prelude.Text.{Text}
use zenith_extension.Host.{
  Phase, Handle, Intent, Call, Response, ok, failed, ResultKind, Post, result, Effect, post,
  broadcast, show_error, show_warning, show_information, State, Env, Outcome, done, thrown, M,
  ◌>>=◌, pure, throw, handle_of, modify, workspace, target_workspace, fresh_uuid, time, staged_now,
  required, not_connected, catch, emit, call, settle_response, and_then, or_else,
}
use zenith_extension.Host.Sync.{
  max_attempts, sync_status, poll_phase, poll_handle, received, lost, poll, answered, wait_loop,
  wait_for_staged_count, update_status_bar,
}
use zenith_extension.Host.Commands.{
  stage_intent, on_handle, lock_healing, is_healing, announce_commit, stage_command, verify_heal,
  heal_outcome, heal_handle, guarded_heal, heal_command, commit_handle, commit_command, on_target,
  on_root, shown,
}

-- The answers among the messages to the webview that asked: their kinds and errors.
abbrev pub Answer : Type 0
Answer = ResultKind × Option Text

abbrev pub answer_of : Post → Option Answer
answer_of (result kind e) = some (kind, e)
answer_of _ = none

abbrev pub answer_in : Effect → Option Answer
answer_in (post p) = answer_of p
answer_in _ = none

abbrev pub add_answer : Option Answer → List Answer → List Answer
add_answer none rest = rest
add_answer (some a) rest = a ∷ rest

-- The latest one first.
unfoldable pub answers : List Effect → List Answer
answers [] = []
answers (e ∷ es) = add_answer (answer_in e) (answers es)

abbrev pub state_of : {A : Type 0} → Outcome A → State
state_of (done a t) = t
state_of (thrown e t) = t

pub record Silent {A : Type 0} (m : M A) : Type 0 where
  pub at : (env : Env) (s : State) → answers (state_of (m env s)).trace ≡ answers s.trace

-- The rules by which a computation is silent.
module _ {A B : Type 0} where
  after_first :
      (f : A → M B) (env : Env) (o : Outcome A) (n : List Answer)
      → answers (state_of o).trace ≡ n
      → ((a : A) → Silent (f a))
      → answers (state_of (and_then o (λ a. f a env))).trace ≡ n
  after_first f env (done a t) n h k = (k a).at env t ∙ h
  after_first f env (thrown e t) n h k = h

  pub Silent-bind : (m : M A) (f : A → M B) → Silent m → ((a : A) → Silent (f a)) → Silent (m >>= f)
  unfolding ◌>>=◌
  Silent-bind m f h k = record { at = λ env s. after_first f env (m env s) _ (h.at env s) k }

module _ {A : Type 0} where
  handled :
      (h : Text → M A) (env : Env) (o : Outcome A) (n : List Answer)
      → answers (state_of o).trace ≡ n
      → ((e : Text) → Silent (h e))
      → answers (state_of (or_else o (λ e. h e env))).trace ≡ n
  handled h env (done a t) n p k = p
  handled h env (thrown e t) n p k = (k e).at env t ∙ p

  pub Silent-catch :
      (m : M A) (h : Text → M A) → Silent m → ((e : Text) → Silent (h e)) → Silent (catch m h)
  unfolding catch
  Silent-catch m h p k = record { at = λ env s. handled h env (m env s) _ (p.at env s) k }

  pub Silent-pure : (a : A) → Silent (pure a)
  unfolding pure
  Silent-pure a = record { at = λ env s. refl }

  pub Silent-throw : (e : Text) → Silent (throw {A = A} e)
  unfolding throw
  Silent-throw e = record { at = λ env s. refl }

  pub Silent-if : (b : Bool) (m n : M A) → Silent m → Silent n → Silent (if b then m else n)
  Silent-if true m n p q = p
  Silent-if false m n p q = q

pub Silent-emit : (e : Effect) → answer_in e ≡ none → Silent (emit e)
unfolding answers emit
Silent-emit e h = record { at = λ env s. rw (h, add_answer) refl }

replied :
    (r : Response) (s : State) → answers (state_of (settle_response r s)).trace ≡ answers s.trace
unfolding settle_response
replied (ok v) s = refl
replied (failed e) s = refl

pub Silent-call : (root : Text) (c : Call) → Silent (call root c)
unfolding call answers
Silent-call root c = record { at = λ env s. replied (env.answer s.trace root c) _ }

pub Silent-modify : (root : Text) (f : Handle → Handle) → Silent (modify root f)
unfolding modify
Silent-modify root f = record { at = λ env s. refl }

pub Silent-handle_of : (root : Text) → Silent (handle_of root)
unfolding handle_of
Silent-handle_of root = record { at = λ env s. refl }

pub Silent-workspace : Silent workspace
unfolding workspace
Silent-workspace = record { at = λ env s. refl }

pub Silent-target_workspace : Silent target_workspace
unfolding target_workspace
Silent-target_workspace = record { at = λ env s. refl }

pub Silent-fresh_uuid : Silent fresh_uuid
unfolding fresh_uuid
Silent-fresh_uuid = record { at = λ env s. refl }

pub Silent-time : Silent time
unfolding time
Silent-time = record { at = λ env s. refl }

pub Silent-staged_now : (root : Text) → Silent (staged_now root)
unfolding staged_now
Silent-staged_now root = record { at = λ env s. refl }

pub Silent-required : (h : Option Handle) → Silent (required h)
unfolding required
Silent-required none = Silent-throw not_connected
Silent-required (some h) = Silent-pure h

pub Silent-update_status_bar : (root : Option Text) → Silent (update_status_bar root)
unfolding update_status_bar
Silent-update_status_bar root = record { at = λ env s. refl }

-- The emissions of the commands.
pub Silent-broadcast : (p : Post) → Silent (emit (broadcast p))
Silent-broadcast p = Silent-emit (broadcast p) refl

pub Silent-error : (t : Text) → Silent (emit (show_error t))
Silent-error t = Silent-emit (show_error t) refl

pub Silent-warning : (t : Text) → Silent (emit (show_warning t))
Silent-warning t = Silent-emit (show_warning t) refl

pub Silent-information : (t : Text) → Silent (emit (show_information t))
Silent-information t = Silent-emit (show_information t) refl

pub ruleset silent_rules = (
  Silent-bind, Silent-catch, Silent-pure, Silent-throw, Silent-if, Silent-call, Silent-modify,
  Silent-handle_of, Silent-workspace, Silent-target_workspace, Silent-fresh_uuid, Silent-time,
  Silent-staged_now, Silent-required, Silent-update_status_bar, Silent-broadcast, Silent-error,
  Silent-warning, Silent-information,
)

-- Polling.
Silent-poll : (root : Text) (h : Handle) → Silent (poll root h)
unfolding poll answered received lost
Silent-poll root h = search (silent_rules) depth 30

Silent-poll_phase : (root : Text) (h : Handle) (p : Phase) → Silent (poll_phase root h p)
unfolding poll_phase
Silent-poll_phase root h Phase.ready = Silent-poll root h
Silent-poll_phase root h Phase.starting = Silent-pure 0
Silent-poll_phase root h Phase.error = Silent-pure 0

Silent-poll_handle : (root : Text) (h : Option Handle) → Silent (poll_handle root h)
unfolding poll_handle
Silent-poll_handle root none = Silent-pure 0
Silent-poll_handle root (some h) = Silent-poll_phase root h h.phase

pub Silent-sync_status : (root : Text) → Silent (sync_status root)
unfolding sync_status
Silent-sync_status root = search (silent_rules, Silent-poll_handle) depth 30

pub Silent-wait_loop : (n : ℕ) (root : Text) (m c : ℕ) → Silent (wait_loop n root m c)
unfolding wait_loop
Silent-wait_loop zero root m c = Silent-pure c
Silent-wait_loop (suc n) root m c =
    search (silent_rules, Silent-sync_status, Silent-wait_loop n) depth 30

pub Silent-wait_for_staged_count : (root : Text) (m : ℕ) → Silent (wait_for_staged_count root m)
unfolding wait_for_staged_count
Silent-wait_for_staged_count root m = Silent-wait_loop max_attempts root m 0

-- The commands.
Silent-lock_healing : (root : Text) → Silent (lock_healing root)
unfolding lock_healing
Silent-lock_healing root = record { at = λ env s. refl }

Silent-is_healing : (root : Text) → Silent (is_healing root)
unfolding is_healing
Silent-is_healing root = record { at = λ env s. refl }

module _ {A : Type 0} (a : A) (f : Text → Handle → M A)
    (k : (root : Text) (h : Handle) → Silent (f root h)) where
  Silent-on_handle : (root : Text) (h : Option Handle) → Silent (on_handle a f root h)
  unfolding on_handle
  Silent-on_handle root none = Silent-pure a
  Silent-on_handle root (some h) = k root h

  Silent-on_root : (t : Option Text) → Silent (on_root a f t)
  unfolding on_root
  Silent-on_root none = Silent-pure a
  Silent-on_root (some root) = search (silent_rules, Silent-on_handle) depth 30

  Silent-on_target : Silent (on_target a f)
  unfolding on_target
  Silent-on_target = search (silent_rules, Silent-on_root) depth 30

module _ {A : Type 0} where
  Silent-shown : (text : Text) (m : M A) → Silent m → Silent (shown text m)
  unfolding shown
  Silent-shown text m h =
      Silent-catch m _ h λ e. Silent-bind _ _ (Silent-error _) (λ _. Silent-throw e)

pub Silent-stage_command : (i : Intent) → Silent (stage_command i)
unfolding stage_command stage_intent
Silent-stage_command i =
    search (silent_rules, Silent-on_target, Silent-shown, Silent-wait_for_staged_count) depth 30

Silent-verify_heal : (n : ℕ) (root : Text) → Silent (verify_heal n root)
unfolding verify_heal
Silent-verify_heal zero root = Silent-pure false
Silent-verify_heal (suc n) root =
    search (silent_rules, Silent-sync_status, Silent-verify_heal n) depth 30

Silent-heal_outcome : (root : Text) (b : Bool) → Silent (heal_outcome root b)
unfolding heal_outcome
Silent-heal_outcome root b = search (silent_rules) depth 30

pub Silent-heal_command : Silent heal_command
unfolding heal_command guarded_heal heal_handle
Silent-heal_command =
    search
      (
        silent_rules, Silent-on_target, Silent-shown, Silent-lock_healing, Silent-is_healing,
        Silent-verify_heal, Silent-heal_outcome,
      )
      depth 30

Silent-announce_commit : (id : Text) → Silent (announce_commit id)
unfolding announce_commit
Silent-announce_commit [] = search (silent_rules) depth 30
Silent-announce_commit (c ∷ id) = search (silent_rules) depth 30

pub Silent-commit_command : (id : Text) → Silent (commit_command id)
unfolding commit_command commit_handle
Silent-commit_command id =
    search (silent_rules, Silent-on_target, Silent-shown, Silent-announce_commit) depth 30
