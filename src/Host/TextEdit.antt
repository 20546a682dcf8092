-- ===== src/Host/TextEdit.antt =====
-- How long a text edit waits (`zenithTextEdit` in `handleWebviewMessage` of
-- zenith-extension/src/extension.ts).
use zenith_extension.Prelude.{
  ℕ, suc, ◌+◌, ◌≤◌, ◌≡◌, refl, ◌∙◌, false, Option, none, some, List, ◌∷◌, leb, arith,
}
use zenith_extension.Prelude.Text.{Text, codes}
use zenith_extension.Host.{
  Phase.ready, text_change, Handle, Intent, Call, Response, ok, failed, Value, Effect, rpc, State,
  Env, Outcome, done, thrown, M, ◌>>=◌, pure, emit, catch, modify, call, time, fresh_uuid,
  workspace, target_workspace, handle_of, staged_now, required, lookup, settle_response, and_then,
  or_else,
}
use zenith_extension.Host.Silent.{state_of}
use zenith_extension.Host.Sync.{bar_at, update_status_bar}
use zenith_extension.Host.Sync.Polling.{
  call_count, IsReady, IsCounting, waited, rounds, wait_loop-ready, wait_loop-few,
}
use zenith_extension.Host.Commands.{
  stamped, stage_command, stage_intent, on_target, on_root, on_handle, shown,
}
use zenith_extension.Host.Router.Staging.{
  log_error, persist_text, edit_text, on_text_edit, untimed, or_text,
}

-- Computations after which the trace has no fewer calls.
record Grows {A : Type 0} (m : M A) : Type 0 where
  at : (env : Env) (s : State) → call_count s.trace ≤ call_count (state_of (m env s)).trace

module _ {A B : Type 0} where
  grown :
      (f : A → M B) (env : Env) (o : Outcome A) (n : ℕ)
      → n ≤ call_count (state_of o).trace
      → ((a : A) → Grows (f a))
      → n ≤ call_count (state_of (and_then o (λ a. f a env))).trace
  grown f env (done a t) n h k = omega (arith, h, (k a).at env t)
  grown f env (thrown e t) n h k = h

  Grows-bind : (m : M A) (f : A → M B) → Grows m → ((a : A) → Grows (f a)) → Grows (m >>= f)
  unfolding ◌>>=◌
  Grows-bind m f h k = record { at = λ env s. grown f env (m env s) _ (h.at env s) k }

module _ {A : Type 0} where
  grown_else :
      (h : Text → M A) (env : Env) (o : Outcome A) (n : ℕ)
      → n ≤ call_count (state_of o).trace
      → ((e : Text) → Grows (h e))
      → n ≤ call_count (state_of (or_else o (λ e. h e env))).trace
  grown_else h env (done a t) n p k = p
  grown_else h env (thrown e t) n p k = omega (arith, p, (k e).at env t)

  Grows-catch :
      (m : M A) (h : Text → M A) → Grows m → ((e : Text) → Grows (h e)) → Grows (catch m h)
  unfolding catch
  Grows-catch m h p k = record { at = λ env s. grown_else h env (m env s) _ (p.at env s) k }

Grows-emit : (e : Effect) → Grows (emit e)
unfolding emit call_count
Grows-emit e = record { at = λ env s. omega arith }

called :
    (r : Response) (s : State)
    → call_count s.trace ≤ call_count (state_of (settle_response r s)).trace
unfolding settle_response
called (ok v) s = omega arith
called (failed e) s = omega arith

Grows-call : (root : Text) (c : Call) → Grows (call root c)
unfolding call call_count
Grows-call root c = record {
  at = λ env s.
      omega (arith, called (env.answer s.trace root c) (record s { trace = rpc root c ∷ s.trace }));
}

Grows-modify : (root : Text) (f : Handle → Handle) → Grows (modify root f)
unfolding modify
Grows-modify root f = record { at = λ env s. omega arith }

Grows-update_status_bar : (root : Option Text) → Grows (update_status_bar root)
unfolding update_status_bar
Grows-update_status_bar root = record { at = λ env s. omega arith }

ruleset grow_rules =
    (Grows-bind, Grows-catch, Grows-emit, Grows-call, Grows-modify, Grows-update_status_bar)

persisted : (root : Text) (n : ℕ) (t : Text) → Grows (catch (persist_text root n) (log_error t))
unfolding persist_text
persisted root n t = search grow_rules depth 20

targeted :
    {A : Type 0} (a : A) (f : Text → Handle → M A) (env : Env) (s : State) {t : Option Text}
    {root : Text} (o : Outcome A)
    → t ≡ some root
    → on_handle a f root (lookup root s.sidecars) env s ≡ o
    → on_root a f t env s ≡ o
unfolding on_root ◌>>=◌ handle_of
targeted a f env s o e h = rw e h

too_few : (g m n : ℕ) → g ≡ n → m ≡ n → leb (g + 1) m ≡ false
too_few g m n p q = ground arith

two_more : (a b n minimum count : ℕ) → a ≡ rounds n minimum count + suc b → 2 + b ≤ a
two_more a b n minimum count h = ground arith

-- A sidecar that is ready, counts, and takes what is staged.
module _ (env : Env) (staged : List Effect → ℕ) (counting : IsCounting env env.root staged)
    (stages : (es : List Effect) (tx : Text) (i : Intent)
      → (v : Value) × (env.answer es env.root (Call.stage tx i) ≡ ok v))
    (acts_on_root : env.target ≡ some env.root) where
  record HasStaged (i : Intent) (s t : State) (g : Handle) : Type 0 where
    staged_as : Option (Text × ℕ)
    returned : stage_command i env s ≡ done staged_as t
    is_ready : IsReady env.root t g
    count_read : leb (g.staged_count + 1) (staged t.trace) ≡ false
    asked : 2 + call_count s.trace ≤ call_count t.trace

  stage_command-ready :
      (i : Intent) (s : State) (h : Handle)
      → IsReady env.root s h
      → (t : State) × (g : Handle) × HasStaged i s t g
  unfolding stage_command on_target on_root shown stage_intent ◌>>=◌ target_workspace handle_of
      fresh_uuid time call pure catch update_status_bar call_count
  stage_command-ready i s h r =
      let tx : Text = env.uuid s.trace in
      let intent : Intent = stamped (env.now s.trace) i in
      let (v, e) = stages s.trace tx intent in
      let s' : State = record s { trace = rpc env.root (Call.stage tx intent) ∷ s.trace } in
      let (t, g, w) =
        wait_loop-ready env env.root staged counting 19 (h.staged_count + 1) 0 s' h
          (record { found = r.found; phase_ready = r.phase_ready }) in
      (
        record t { bar = bar_at env.basename t.sidecars (some env.root) },
        g,
        record {
          staged_as = some (tx, staged s'.trace);
          returned =
              targeted none _ _ _ _ acts_on_root
                (rw (r.found, on_handle) (rw (e, settle_response) (rw (waited w, and_then) refl)));
          is_ready = record {
            found = w.synced.is_ready.found;
            phase_ready = w.synced.is_ready.phase_ready;
          };
          count_read = too_few _ _ _ w.synced.count_read w.synced.unchanged;
          asked =
              two_more _ (call_count s.trace) 19 (h.staged_count + 1) (staged s'.trace)
                (w.asked ∙ omega arith);
        },
      )

  edit_text-waits :
      (id content new_text : Text) (s : State) (h : Handle)
      → IsReady env.root s h
      → (t : State) × (n : ℕ) × (edit_text id content new_text env s
          ≡ persist_text env.root n env t)
        × (22 + call_count s.trace ≤ call_count t.trace)
  unfolding edit_text ◌>>=◌ workspace handle_of required pure staged_now
  edit_text-waits id content new_text s h r =
      let (t, g, k) =
        stage_command-ready (untimed (text_change id (or_text content new_text))) s h r in
      let (u, f, w) =
        wait_loop-few env env.root staged counting 19 (g.staged_count + 1) 0 t g k.is_ready
          k.count_read in
      (
        u,
        staged t.trace,
        rw (r.found, required)
            (rw (k.returned, and_then) (rw k.is_ready.found (rw (waited w, and_then) refl))),
        omega (arith, k.asked, w.asked),
      )

  -- If the commands act on the workspace of the webview, and its sidecar is ready, always answers with
  -- the count of what is staged, which no poll and no broadcast changes, and takes what is staged,
  -- then a text edit asks it at least 22 times: staging reads the new count, so the second wait, for
  -- one more than that, makes all of its 20 attempts.
  pub on_text_edit-asks :
      (id content new_text : Text) (s : State) (h : Handle)
      → lookup env.root s.sidecars ≡ some h
      → h.phase ≡ ready
      → 22 + call_count s.trace
        ≤ call_count (state_of (on_text_edit id content new_text env s)).trace
  unfolding on_text_edit catch
  on_text_edit-asks id content new_text s h e p =
      let (t, n, q, k) =
        edit_text-waits id content new_text s h (record { found = e; phase_ready = p }) in
      rw q (omega (arith, k, (persisted env.root n (codes "Text edit failed: ")).at env t))
