-- ===== src/Host/Sync.antt =====
-- Polling a sidecar: `syncSidecarStatus`, `waitForStagedCount` and `updateStatusBar` of
-- zenith-extension/src/extension.ts.
pub mod Polling
pub mod Attempts
use zenith_extension.Prelude.{
  ℕ, zero, suc, ◌-◌, Bool, true, false, Option, none, some, List, [], ◌∷◌, ◌++◌, leb, ltb,
  if◌then◌else◌,
}
use zenith_extension.Prelude.Text.{Text, codes}
use zenith_extension.Prelude.Decimal.{decimal}
use zenith_extension.Host.{
  Phase, Phase.starting, Phase.ready, Handle, Call, Value, other, counted, truth, Post, broadcast,
  workspace_status, polled_status, Background, plain, warning, Bar, State, Env, M, ◌>>=◌, ◌>>◌,
  pure, catch, emit, handle_of, modify, call, time, lookup, done,
}

-- `typeof res.stagedCount === 'number' ? res.stagedCount : handle.stagedCount`
unfoldable pub reported : Value → ℕ → ℕ
reported (counted n) old = n
reported Value.null old = old
reported other old = old
reported (truth b) old = old

unfoldable pub received : Text → Handle → ℕ → Value → M ℕ
received root h latency v = do
  modify root (λ h. record h { latency = latency; staged_count = reported v h.staged_count })
  emit (broadcast (polled_status h.port latency root (reported v h.staged_count)))
  pure (reported v h.staged_count)

unfoldable pub lost : Text → M ℕ
lost root = do
  modify root (λ h. record h { phase = Phase.error })
  emit (broadcast (workspace_status false root 0))
  pure 0

unfoldable pub answered : Text → Handle → ℕ → M ℕ
unfolding received
answered root h start = do v ← call root Call.status; stop ← time; received root h (stop - start) v

unfoldable pub poll : Text → Handle → M ℕ
unfolding answered lost
poll root h = do start ← time; catch (answered root h start) (λ e. lost root)

unfoldable pub poll_phase : Text → Handle → Phase → M ℕ
unfolding poll
poll_phase root h Phase.ready = poll root h
poll_phase root h Phase.starting = pure 0
poll_phase root h Phase.error = pure 0

unfoldable pub poll_handle : Text → Option Handle → M ℕ
unfolding poll_phase
poll_handle root none = pure 0
poll_handle root (some h) = poll_phase root h h.phase

-- `syncSidecarStatus(root)`
unfoldable pub sync_status : Text → M ℕ
unfolding poll_handle
sync_status root = do h ← handle_of root; poll_handle root h

-- The loop of `waitForStagedCount`, from the attempts that are left and the last count.
unfoldable pub wait_loop : ℕ → Text → ℕ → ℕ → M ℕ
unfolding sync_status
wait_loop zero root minimum count = pure count
wait_loop (suc n) root minimum count = do
  c ← sync_status root
  if leb minimum c then pure c else wait_loop n root minimum c

abbrev pub max_attempts : ℕ
max_attempts = 20

-- `waitForStagedCount(root, expectedMinimum)`
unfoldable pub wait_for_staged_count : Text → ℕ → M ℕ
unfolding wait_loop
wait_for_staged_count root minimum = wait_loop max_attempts root minimum 0

-- The three cases of the `switch` of `updateStatusBar`; the tooltip and the text name the handle's
-- numbers.
unfoldable pub bar_of : (Text → Text) → Text → Handle → Phase → Bar
bar_of basename root h Phase.starting = record {
  text = codes "$(sync~spin) Zenith: Starting…";
  tooltip = codes "Starting sidecar for " ++ basename root;
  background = plain;
}
bar_of basename root h Phase.ready = record {
  text =
      if ltb 0 h.staged_count
      then codes "$(symbol-color) Zenith: " ++ decimal h.staged_count ++ codes " staged"
      else codes "$(symbol-color) Zenith: Ready";
  tooltip =
      h.framework ++ codes " · " ++ basename root ++ codes " · " ++ decimal h.latency ++ codes "ms";
  background = plain;
}
bar_of basename root h Phase.error = record {
  text = codes "$(error) Zenith: Error";
  tooltip = codes "Click to restart sidecar";
  background = Background.error;
}

abbrev pub bar_off : Bar
bar_off = record {
  text = codes "$(symbol-color) Zenith: Off";
  tooltip = codes "Click to start Zenith";
  background = warning;
}

abbrev pub bar_closed : Bar
bar_closed = record {
  text = codes "$(symbol-color) Zenith";
  tooltip = codes "Open a workspace to use Zenith";
  background = plain;
}

abbrev pub bar_for : (Text → Text) → Text → Option Handle → Bar
bar_for basename root none = bar_off
bar_for basename root (some h) = bar_of basename root h h.phase

abbrev pub bar_at : (Text → Text) → List (Text × Handle) → Option Text → Bar
bar_at basename m none = bar_closed
bar_at basename m (some []) = bar_closed
bar_at basename m (some (c ∷ r)) = bar_for basename (c ∷ r) (lookup (c ∷ r) m)

-- `updateStatusBar(workspaceRoot)`
unfoldable pub update_status_bar : Option Text → M (Unit {0})
unfolding bar_of
update_status_bar root env s = done tt (record s { bar = bar_at env.basename s.sidecars root })
