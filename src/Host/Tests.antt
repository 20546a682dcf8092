-- ===== src/Host/Tests.antt =====
-- A host with one sidecar that counts, and one without.
use zenith_extension.Prelude.{ℕ, suc, ◌+◌, ◌≤◌, ◌≡◌, refl, Option, some, List, [], ◌∷◌}
use zenith_extension.Prelude.Text.{Text, codes, text_eq}
use zenith_extension.Host.{
  Phase.ready, Handle, Call, Response, ok, failed, other, counted, ResultKind, Effect, rpc, plain,
  State, Env, done, lookup,
}
use zenith_extension.Host.Silent.{answers, state_of}
use zenith_extension.Host.Answers.{kind_of, handle_message-answers}
use zenith_extension.Host.Sync.{wait_for_staged_count}
use zenith_extension.Host.Sync.Polling.{call_count, IsCounting}
use zenith_extension.Host.Sync.Attempts.{wait_for_staged_count-bounded}
use zenith_extension.Host.TextEdit.{on_text_edit-asks}
use zenith_extension.Host.Offline.{calls, handle_message-calls}
use zenith_extension.Host.Router.{Request, handle_message}
use zenith_extension.Host.Router.Staging.{Visual, on_text_edit}

abbrev site : Text
site = codes "/work/site"

-- What is staged, from the calls so far.
staged_by : Call → ℕ → ℕ
staged_by (Call.stage tx i) n = suc n
staged_by Call.commit_all n = 0
staged_by Call.persist n = 0
staged_by _ n = n

unfoldable staged : List Effect → ℕ
unfolding staged_by
staged [] = 0
staged (rpc root c ∷ es) = staged_by c (staged es)
staged (_ ∷ es) = staged es

abbrev reply : List Effect → Text → Call → Response
reply es root Call.status = ok (counted (staged es))
reply es root Call.undo = failed (codes "nothing to undo")
reply es root _ = ok other

abbrev env : Env
env = record {
  root = site;
  target = some site;
  answer = reply;
  uuid = λ es. codes "0b6e";
  now = λ es. 7;
  basename = λ path. codes "site";
}

abbrev handle : Handle
handle = record {
  phase = ready;
  staged_count = 0;
  latency = 0;
  framework = codes "Vite";
  port = 8083;
  sandbox_port = 3111;
}

abbrev host : State
host = record {
  sidecars = (site, handle) ∷ [];
  healing = [];
  bar = record { text = []; tooltip = []; background = plain };
  trace = [];
}

abbrev empty_host : State
empty_host = record host { sidecars = [] }

abbrev visual : Visual
visual = record {
  kind = codes "PropertyChange";
  element = codes "z-1";
  property = codes "color";
  value = codes "red";
}

handle_message-answers_example :
    (t : State) × (e : Option Text) × (handle_message Request.undo env host ≡ done tt t)
    × (answers t.trace ≡ (ResultKind.undo, e) ∷ answers [])
unfolding kind_of
handle_message-answers_example = handle_message-answers Request.undo ResultKind.undo env host refl

handle_message-calls_example :
    calls (state_of (handle_message (Request.stage (some visual)) env empty_host)).trace ≡ calls []
unfolding lookup text_eq
handle_message-calls_example =
    handle_message-calls (Request.stage (some visual)) env empty_host refl (λ t e. refl)

wait_for_staged_count-bounded_example :
    (c : ℕ) × (t : State) × (wait_for_staged_count site 3 env host ≡ done c t)
    × (call_count t.trace ≤ 20 + call_count [])
wait_for_staged_count-bounded_example = wait_for_staged_count-bounded env site 3 host

abbrev counting : IsCounting env site staged
unfolding staged
counting = record {
  answers_count = λ es. refl;
  status_keeps = λ es. refl;
  broadcast_keeps = λ p es. refl;
}

on_text_edit-asks_example :
    22 + call_count []
    ≤ call_count (state_of (on_text_edit (codes "z-1") (codes "Hi") [] env host)).trace
unfolding lookup text_eq
on_text_edit-asks_example =
    on_text_edit-asks env staged counting (λ es tx i. (other, refl)) refl (codes "z-1") (codes "Hi")
      [] host handle refl refl
