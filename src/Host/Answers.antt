-- ===== src/Host/Answers.antt =====
-- How the handlers of `handleWebviewMessage` (zenith-extension/src/extension.ts) that answer with a
-- `<kind>Result` do so.
use zenith_extension.Prelude.{ℕ, ◌≡◌, refl, true, Option, none, some, List, [], ◌∷◌}
use mathlib.Core.Path.{subst}
use mathlib.Core.Option.{some-injective}
use zenith_extension.Prelude.Text.{Text}
use zenith_extension.Host.{
  Handle, LogLevel, ResultKind, Post, log, result, status, forward, Frame, post, State, Env,
  Outcome, done, thrown, M, ◌>>=◌, ◌>>◌, and_then, or_else, catch, emit, workspace, handle_of,
  lookup,
}
use zenith_extension.Host.Silent.{
  Answer, answer_in, answers, state_of, Silent, silent_rules, Silent-emit, Silent-pure,
  Silent-throw, Silent-stage_command, Silent-heal_command, Silent-commit_command,
}
use zenith_extension.Host.Router.{Request, handle_message}
use zenith_extension.Host.Router.Staging.{
  Visual, required_intent, status_if, stage_visual, on_stage,
}
use zenith_extension.Host.Router.Structure.{
  first_id, stage_result, on_duplicate_node, on_delete_node, on_move_node, on_group_nodes,
}
use zenith_extension.Host.Router.Session.{
  fail, on_commit, on_undo, on_redo, on_harden_wal, on_heal_session,
}

-- The answer that a message gets, if any.
unfoldable pub kind_of : Request → Option ResultKind
kind_of (Request.stage intent) = some ResultKind.stage
kind_of (Request.commit id) = some ResultKind.commit
kind_of Request.undo = some ResultKind.undo
kind_of Request.redo = some ResultKind.redo
kind_of Request.harden_wal = some ResultKind.harden_wal
kind_of Request.heal_session = some ResultKind.heal
kind_of (Request.duplicate_node id) = some ResultKind.duplicate
kind_of (Request.delete_node id) = some ResultKind.delete
kind_of (Request.move_node parent old_order new_order) = some ResultKind.move
kind_of (Request.group_nodes ids tag) = some ResultKind.group
kind_of _ = none

-- One success is answered if the computation returns, and nothing if it throws.
abbrev OnceOf : {A : Type 0} → ResultKind → List Answer → Outcome A → Type 0
OnceOf k before (done a t) = answers t.trace ≡ (k, none) ∷ before
OnceOf k before (thrown e t) = answers t.trace ≡ before

record Once {A : Type 0} (k : ResultKind) (m : M A) : Type 0 where
  at : (env : Env) (s : State) → OnceOf k (answers s.trace) (m env s)

-- It returns, with one answer.
abbrev AnsweredOf : ResultKind → List Answer → Outcome (Unit {0}) → Type 0
AnsweredOf k before o =
    (t : State) × (e : Option Text) × (o ≡ done tt t) × (answers t.trace ≡ (k, e) ∷ before)

record Answered (k : ResultKind) (m : M (Unit {0})) : Type 0 where
  at : (env : Env) (s : State) → AnsweredOf k (answers s.trace) (m env s)

module _ {A B : Type 0} (k : ResultKind) where
  Once-after :
      (f : A → M B) (env : Env) (o : Outcome A) (before : List Answer)
      → answers (state_of o).trace ≡ before
      → ((a : A) → Once k (f a))
      → OnceOf k before (and_then o (λ a. f a env))
  Once-after f env (done a t) before h g = rw (← h) ((g a).at env t)
  Once-after f env (thrown e t) before h g = h

  Once-bind : (m : M A) (f : A → M B) → Silent m → ((a : A) → Once k (f a)) → Once k (m >>= f)
  unfolding ◌>>=◌
  Once-bind m f h g = record { at = λ env s. Once-after f env (m env s) _ (h.at env s) g }

module _ (k : ResultKind) where
  Once-post : Once k (emit (post (result k none)))
  unfolding emit answers
  Once-post = record { at = λ env s. refl }

  Once-post_then :
      (p : Post) → answer_in (post p) ≡ none → Once k (emit (post (result k none)) >> emit (post p))
  unfolding emit answers ◌>>=◌
  Once-post_then p h = record { at = λ env s. rw h refl }

  caught :
      (h : Text → M (Unit {0})) (env : Env) (o : Outcome (Unit {0})) (before : List Answer)
      → OnceOf k before o
      → ((e : Text) → Answered k (h e))
      → AnsweredOf k before (or_else o (λ e. h e env))
  caught h env (done tt t) before p g = (t, none, refl, p)
  caught h env (thrown e t) before p g = rw (← p) ((g e).at env t)

  Answered-catch :
      (m : M (Unit {0})) (h : Text → M (Unit {0}))
      → Once k m
      → ((e : Text) → Answered k (h e))
      → Answered k (catch m h)
  unfolding catch
  Answered-catch m h p g = record { at = λ env s. caught h env (m env s) _ (p.at env s) g }

  Answered-fail : (e : Text) → Answered k (fail k e)
  unfolding emit answers
  Answered-fail e = record { at = λ env s. (_, some e, refl, refl) }

  Answered-fail_then :
      (e : Text) (p : Post) → answer_in (post p) ≡ none → Answered k (fail k e >> emit (post p))
  unfolding emit answers ◌>>=◌
  Answered-fail_then e p h = record { at = λ env s. (_, some e, refl, rw h refl) }

  Answered-workspace :
      (f : Text → M (Unit {0}))
      → ((root : Text) → Answered k (f root))
      → Answered k (workspace >>= f)
  unfolding ◌>>=◌ workspace
  Answered-workspace f h = record { at = λ env s. (h env.root).at env s }

  Answered-handle_of :
      (root : Text) (f : Option Handle → M (Unit {0}))
      → ((h : Option Handle) → Answered k (f h))
      → Answered k (handle_of root >>= f)
  unfolding ◌>>=◌ handle_of
  Answered-handle_of root f h = record { at = λ env s. (h (lookup root s.sidecars)).at env s }

Silent-log : (l : LogLevel) (t : Text) → Silent (emit (post (log l t)))
Silent-log l t = Silent-emit _ refl

Silent-forward : (f : Frame) → Silent (emit (post (forward f)))
Silent-forward f = Silent-emit _ refl

Silent-required_intent : (v : Option Visual) → Silent (required_intent v)
unfolding required_intent
Silent-required_intent none = Silent-throw _
Silent-required_intent (some v) = Silent-pure v

Silent-first_id : (ids : Option (List Text)) → Silent (first_id ids)
unfolding first_id
Silent-first_id none = Silent-throw _
Silent-first_id (some []) = Silent-pure []
Silent-first_id (some (id ∷ ids)) = Silent-pure id

Silent-status : (n : ℕ) → Silent (emit (post (status true n)))
Silent-status n = Silent-emit _ refl

Silent-status_if : (root : Text) (h : Option Handle) → Silent (status_if root h)
unfolding status_if
Silent-status_if root none = Silent-pure tt
Silent-status_if root (some h) = search (silent_rules, Silent-status) depth 10

log_no_answer : (l : LogLevel) (t : Text) → answer_in (post (log l t)) ≡ none
log_no_answer l t = refl

ruleset answer_rules = (
  silent_rules, Silent-log, Silent-forward, Silent-required_intent, Silent-first_id,
  Silent-status_if, Silent-stage_command, Silent-heal_command, Silent-commit_command, Once-bind,
  Once-post, Once-post_then, Answered-catch, Answered-fail, Answered-fail_then, log_no_answer,
  Answered-workspace, Answered-handle_of,
)

on_stage-Answered : (v : Option Visual) → Answered ResultKind.stage (on_stage v)
unfolding on_stage stage_visual
on_stage-Answered v = search answer_rules depth 30

on_commit-Answered : (id : Text) → Answered ResultKind.commit (on_commit id)
unfolding on_commit
on_commit-Answered id = search answer_rules depth 30

on_undo-Answered : Answered ResultKind.undo on_undo
unfolding on_undo
on_undo-Answered = search answer_rules depth 30

on_redo-Answered : Answered ResultKind.redo on_redo
unfolding on_redo
on_redo-Answered = search answer_rules depth 30

on_harden_wal-Answered : Answered ResultKind.harden_wal on_harden_wal
unfolding on_harden_wal
on_harden_wal-Answered = search answer_rules depth 30

on_heal_session-Answered : Answered ResultKind.heal on_heal_session
unfolding on_heal_session
on_heal_session-Answered = search answer_rules depth 30

on_duplicate_node-Answered : (id : Text) → Answered ResultKind.duplicate (on_duplicate_node id)
unfolding on_duplicate_node stage_result
on_duplicate_node-Answered id = search answer_rules depth 30

on_delete_node-Answered : (id : Text) → Answered ResultKind.delete (on_delete_node id)
unfolding on_delete_node stage_result
on_delete_node-Answered id = search answer_rules depth 30

on_move_node-Answered : (p : Text) (a b : List Text) → Answered ResultKind.move (on_move_node p a b)
unfolding on_move_node stage_result
on_move_node-Answered p a b = search answer_rules depth 30

on_group_nodes-Answered :
    (ids : Option (List Text)) (tag : Text) → Answered ResultKind.group (on_group_nodes ids tag)
unfolding on_group_nodes stage_result
on_group_nodes-Answered ids tag = search answer_rules depth 30

of_kind : {m : M (Unit {0})} {j k : ResultKind} → some j ≡ some k → Answered j m → Answered k m
of_kind {m} {j} {k} h p = subst (λ i. Answered i m) (some-injective j k h) p

answered : (r : Request) (k : ResultKind) → kind_of r ≡ some k → Answered k (handle_message r)
unfolding kind_of handle_message
answered (Request.stage intent) k h = of_kind h (on_stage-Answered intent)
answered (Request.commit id) k h = of_kind h (on_commit-Answered id)
answered Request.undo k h = of_kind h on_undo-Answered
answered Request.redo k h = of_kind h on_redo-Answered
answered Request.harden_wal k h = of_kind h on_harden_wal-Answered
answered Request.heal_session k h = of_kind h on_heal_session-Answered
answered (Request.duplicate_node id) k h = of_kind h (on_duplicate_node-Answered id)
answered (Request.delete_node id) k h = of_kind h (on_delete_node-Answered id)
answered (Request.move_node parent old_order new_order) k h =
    of_kind h (on_move_node-Answered parent old_order new_order)
answered (Request.group_nodes ids tag) k h = of_kind h (on_group_nodes-Answered ids tag)
answered _ k h = cc

-- A message that is answered with a `<kind>Result` gets exactly one, of its kind, and its handler
-- returns, whatever the sidecar and the commands do: no error escapes it.
pub handle_message-answers :
    (r : Request) (k : ResultKind) (env : Env) (s : State)
    → kind_of r ≡ some k
    → (t : State) × (e : Option Text) × (handle_message r env s ≡ done tt t)
      × (answers t.trace ≡ (k, e) ∷ answers s.trace)
handle_message-answers r k env s h = (answered r k h).at env s
