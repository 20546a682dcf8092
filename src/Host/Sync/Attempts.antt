-- ===== src/Host/Sync/Attempts.antt =====
-- How often `waitForStagedCount` of zenith-extension/src/extension.ts asks any sidecar.
use zenith_extension.Prelude.{
  ℕ, zero, suc, ◌+◌, ◌-◌, ◌≤◌, ◌≡◌, refl, Option, none, some, leb, Bool-cases, inl, inr, arith,
}
use zenith_extension.Prelude.Text.{Text}
use zenith_extension.Host.{
  Phase, Handle, Call, Response, ok, failed, State, Env, Outcome, done, ◌>>=◌, pure, emit, catch,
  modify, call, time, handle_of, lookup, settle_response, and_then, or_else,
}
use zenith_extension.Host.Sync.{
  received, lost, answered, poll, poll_phase, poll_handle, sync_status, wait_loop,
  wait_for_staged_count, max_attempts,
}
use zenith_extension.Host.Sync.Polling.{call_count}

-- It returns, with at most `n` more calls.
record Asks (n : ℕ) (s : State) (o : Outcome ℕ) : Type 0 where
  count : ℕ
  last : State
  returned : o ≡ done count last
  bounded : call_count last.trace ≤ n + call_count s.trace

module _ (env : Env) (root : Text) where
  asked :
      (r : Response) (h : Handle) (start : ℕ) (s t : State)
      → call_count t.trace ≡ suc (call_count s.trace)
      → Asks 1 s (
          or_else
            (and_then
              (settle_response r t)
              (λ v u. received root h (env.now u.trace - start) v env u))
            (λ e. lost root env))
  unfolding settle_response received lost ◌>>=◌ modify emit pure call_count
  asked (ok v) h start s t k = record {
    count = _;
    last = _;
    returned = refl;
    bounded = omega (arith, k);
  }
  asked (failed e) h start s t k = record {
    count = _;
    last = _;
    returned = refl;
    bounded = omega (arith, k);
  }

  none_asked : (n : ℕ) (s : State) (c : ℕ) → Asks n s (pure c env s)
  unfolding pure
  none_asked n s c = record { count = c; last = s; returned = refl; bounded = omega arith }

  poll_phase-Asks : (h : Handle) (p : Phase) (s : State) → Asks 1 s (poll_phase root h p env s)
  unfolding poll_phase poll answered ◌>>=◌ time catch call call_count
  poll_phase-Asks h Phase.ready s =
      asked (env.answer s.trace root Call.status) h _ s _ (omega arith)
  poll_phase-Asks h Phase.starting s = none_asked 1 s 0
  poll_phase-Asks h Phase.error s = none_asked 1 s 0

  poll_handle-Asks : (h : Option Handle) (s : State) → Asks 1 s (poll_handle root h env s)
  unfolding poll_handle
  poll_handle-Asks none s = none_asked 1 s 0
  poll_handle-Asks (some h) s = poll_phase-Asks h h.phase s

  sync_status-Asks : (s : State) → Asks 1 s (sync_status root env s)
  unfolding sync_status ◌>>=◌ handle_of
  sync_status-Asks s = poll_handle-Asks (lookup root s.sidecars) s

  widen : {n : ℕ} {s : State} {o : Outcome ℕ} → Asks 1 s o → Asks (suc n) s o
  widen a = record {
    count = a.count;
    last = a.last;
    returned = a.returned;
    bounded = omega (arith, a.bounded);
  }

  wait_loop-Asks : (n minimum c : ℕ) (s : State) → Asks n s (wait_loop n root minimum c env s)
  unfolding wait_loop ◌>>=◌ pure
  wait_loop-Asks zero minimum c s = none_asked 0 s c
  wait_loop-Asks (suc n) minimum c s =
      let a = sync_status-Asks s in
      let b = wait_loop-Asks n minimum a.count a.last in
      elim (Bool-cases (leb minimum a.count)) [
        | inl enough ↦ record {
          count = a.count;
          last = a.last;
          returned = rw (a.returned, and_then) (rw enough refl);
          bounded = omega (arith, a.bounded);
        }
        | inr few ↦ record {
          count = b.count;
          last = b.last;
          returned = rw (a.returned, and_then) (rw few b.returned);
          bounded = omega (arith, a.bounded, b.bounded);
        }
      ]

  -- Waiting for a count returns, with at most 20 more calls, whatever the sidecar answers.
  pub wait_for_staged_count-bounded :
      (minimum : ℕ) (s : State)
      → (c : ℕ) × (t : State) × (wait_for_staged_count root minimum env s ≡ done c t)
        × (call_count t.trace ≤ 20 + call_count s.trace)
  unfolding wait_for_staged_count
  wait_for_staged_count-bounded minimum s =
      let a = wait_loop-Asks max_attempts minimum 0 s in (a.count, a.last, a.returned, a.bounded)
