-- ===== src/Host/Sync/Polling.antt =====
-- What polling a sidecar finds (`syncSidecarStatus` and `waitForStagedCount` of
-- zenith-extension/src/extension.ts), and how often it asks.
use zenith_extension.Prelude.{
  ℕ, zero, suc, ◌+◌, ◌-◌, ◌≡◌, refl, ap, ◌∙◌, true, false, some, List, [], ◌∷◌, leb, if◌then◌else◌,
  Bool-cases, inl, inr, arith,
}
use mathlib.Core.Option
use zenith_extension.Prelude.Text.{Text}
use zenith_extension.Host.{
  Phase.ready, Handle, Call, ok, counted, Post, polled_status, Effect, rpc, broadcast, State, Env,
  done, ◌>>=◌, pure, emit, catch, modify, call, time, handle_of, lookup, adjust, settle_response,
  and_then,
}
use zenith_extension.Host.Sync.{
  reported, received, answered, poll, poll_phase, poll_handle, sync_status, wait_loop,
  wait_for_staged_count,
}

-- The calls of sidecars in a trace.
abbrev pub call_in : Effect → ℕ
call_in (rpc root c) = 1
call_in _ = 0

unfoldable pub call_count : List Effect → ℕ
call_count [] = 0
call_count (e ∷ es) = call_in e + call_count es

pub lookup-adjust :
    (root : Text) (f : Handle → Handle) (m : List (Text × Handle))
    → lookup root (adjust root f m) ≡ Option.map f (lookup root m)
unfolding lookup adjust
lookup-adjust root f [] = refl
lookup-adjust root f ((r, g) ∷ m) = ground (arith, lookup-adjust root f m)

-- The sidecar answers the count of what is staged, which asking does not change.
pub record IsCounting (env : Env) (root : Text) (staged : List Effect → ℕ) : Type 0 where
  pub answers_count : (es : List Effect) → env.answer es root Call.status ≡ ok (counted (staged es))
  pub status_keeps : (es : List Effect) → staged (rpc root Call.status ∷ es) ≡ staged es
  pub broadcast_keeps : (p : Post) (es : List Effect) → staged (broadcast p ∷ es) ≡ staged es

-- The handle is there and ready.
pub record IsReady (root : Text) (s : State) (h : Handle) : Type 0 where
  pub found : lookup root s.sidecars ≡ some h
  pub phase_ready : h.phase ≡ ready

-- The handle has the count that the sidecar had in an earlier state.
pub record IsSynced (root : Text) (staged : List Effect → ℕ) (s t : State) (h : Handle)
    : Type 0 where
  pub is_ready : IsReady root t h
  pub count_read : h.staged_count ≡ staged s.trace
  pub unchanged : staged t.trace ≡ staged s.trace

-- A wait of at most `suc n` attempts has read the count of the sidecar, in so many attempts.
pub record HasWaited (env : Env) (root : Text) (staged : List Effect → ℕ) (n minimum c attempts : ℕ)
    (s t : State) (h : Handle) : Type 0 where
  pub returned : wait_loop (suc n) root minimum c env s ≡ done (staged s.trace) t
  pub synced : IsSynced root staged s t h
  pub asked : call_count t.trace ≡ attempts + call_count s.trace

abbrev pub rounds : ℕ → ℕ → ℕ → ℕ
rounds n minimum count = if leb minimum count then 1 else suc n

pub waited :
    {env : Env} {root : Text} {staged : List Effect → ℕ} {minimum attempts : ℕ} {s t : State}
    {h : Handle}
    → HasWaited env root staged 19 minimum 0 attempts s t h
    → wait_for_staged_count root minimum env s ≡ done (staged s.trace) t
unfolding wait_for_staged_count
waited w = w.returned

-- A sidecar that is ready and counts.
module _ (env : Env) (root : Text) (staged : List Effect → ℕ)
    (counting : IsCounting env root staged) where
  pub sync_status-ready :
      (s : State) (h : Handle)
      → IsReady root s h
      → (t : State) × (g : Handle) × (sync_status root env s ≡ done (staged s.trace) t)
        × IsSynced root staged s t g
        × (call_count t.trace ≡ suc (call_count s.trace))
  unfolding sync_status poll_handle poll_phase poll answered received reported ◌>>=◌ handle_of time
      catch call settle_response modify emit pure call_count
  sync_status-ready s h r = (
    record s {
      sidecars =
          adjust root
            (λ g. record g {
              latency = env.now (rpc root Call.status ∷ s.trace) - env.now s.trace;
              staged_count = staged s.trace;
            })
            s.sidecars;
      trace =
          broadcast (
            polled_status h.port (env.now (rpc root Call.status ∷ s.trace) - env.now s.trace) root
              (staged s.trace))
          ∷ rpc root Call.status
          ∷ s.trace;
    },
    record h {
      latency = env.now (rpc root Call.status ∷ s.trace) - env.now s.trace;
      staged_count = staged s.trace;
    },
    rw (r.found, poll_handle)
        (rw (r.phase_ready, poll_phase)
          (rw (counting.answers_count s.trace, settle_response) refl)),
    record {
      is_ready = record {
        found = rw (lookup-adjust root _ s.sidecars) (rw r.found refl);
        phase_ready = r.phase_ready;
      };
      count_read = refl;
      unchanged = counting.broadcast_keeps _ _ ∙ counting.status_keeps s.trace;
    },
    omega arith,
  )

  wait_loop-enough :
      (n minimum c : ℕ) (s : State) (h : Handle)
      → IsReady root s h
      → leb minimum (staged s.trace) ≡ true
      → (t : State) × (g : Handle) × HasWaited env root staged n minimum c 1 s t g
  unfolding wait_loop ◌>>=◌ pure
  wait_loop-enough n minimum c s h r enough =
      let (t, g, e, y, k) = sync_status-ready s h r in
      (
        t,
        g,
        record {
          returned = rw (e, and_then) (rw enough refl);
          synced = y;
          asked = omega (arith, k);
        },
      )

  pub wait_loop-few :
      (n minimum c : ℕ) (s : State) (h : Handle)
      → IsReady root s h
      → leb minimum (staged s.trace) ≡ false
      → (t : State) × (g : Handle) × HasWaited env root staged n minimum c (suc n) s t g
  unfolding wait_loop ◌>>=◌ pure
  wait_loop-few zero minimum c s h r few =
      let (t, g, e, y, k) = sync_status-ready s h r in
      (
        t,
        g,
        record { returned = rw (e, and_then) (rw few refl); synced = y; asked = omega (arith, k) },
      )
  wait_loop-few (suc n) minimum c s h r few =
      let (t, g, e, y, k) = sync_status-ready s h r in
      let (u, f, w) =
        wait_loop-few n minimum (staged s.trace) t g y.is_ready (rw y.unchanged few) in
      (
        u,
        f,
        record {
          returned = rw (e, and_then) (rw few (w.returned ∙ ap (λ a. done a u) y.unchanged));
          synced = record {
            is_ready = w.synced.is_ready;
            count_read = w.synced.count_read ∙ y.unchanged;
            unchanged = w.synced.unchanged ∙ y.unchanged;
          };
          asked = omega (arith, k, w.asked);
        },
      )

  -- Waiting takes one attempt if the sidecar has enough, and otherwise all of them.
  pub wait_loop-ready :
      (n minimum c : ℕ) (s : State) (h : Handle)
      → IsReady root s h
      → (t : State) × (g : Handle) × HasWaited env root staged n minimum c
          (rounds n minimum (staged s.trace))
          s
          t
          g
  wait_loop-ready n minimum c s h r = elim (Bool-cases (leb minimum (staged s.trace))) [
    | inl enough ↦ rw enough (wait_loop-enough n minimum c s h r enough)
    | inr few ↦ rw few (wait_loop-few n minimum c s h r few)
  ]
