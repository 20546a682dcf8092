-- ===== src/Sidecar/Reconnect.antt =====
-- How often `SidecarManager` of zenith-extension/src/sidecar.ts connects again.
use zenith_extension.Prelude.{
  ℕ, ◌+◌, ◌≤◌, ◌≡◌, Bool, true, false, List, [], ◌∷◌, ltb, if◌then◌else◌, Bool-cases, inl, inr,
  refl, arith,
}
use zenith_extension.Prelude.Text.{Text}
use zenith_extension.Sidecar.{
  Process, absent, running, exited, connect_for, connect_web_socket, start, is_running, send,
  request, has_id, settle_with, has_handler, on_socket_close, dispose_manager, ready, Manager,
  new_manager, Signal, started, connect_now, sent_message, requested, on_method, notified,
  responded, timed_out, opened, closed, process_exits, exit_event, disposed, signal_step,
  signal_run, Output,
}

unfoldable pub is_opening : Signal → Bool
is_opening (opened n) = true
is_opening _ = false

-- What an event that is neither an opening nor a closing leaves alone.
record SameCounts (s t : Manager) : Type 0 where
  attempts : t.reconnect_attempts ≡ s.reconnect_attempts
  total : t.reconnects ≡ s.reconnects

connect-SameCounts : (s : Manager) (p : Process) → SameCounts s (connect_for p s)
connect-SameCounts s absent = record { attempts = refl; total = refl }
connect-SameCounts s running = record { attempts = refl; total = refl }
connect-SameCounts s exited = record { attempts = refl; total = refl }

-- A test does not matter where both branches leave the counts alone.
if-SameCounts :
    {s t u : Manager} (b : Bool)
    → SameCounts s t
    → SameCounts s u
    → SameCounts s (if b then t else u)
if-SameCounts true p q = p
if-SameCounts false p q = q

same : (s : Manager) → SameCounts s s
same s = record { attempts = refl; total = refl }

start-SameCounts : (s : Manager) (a b : Bool) → SameCounts s (start a b s)
unfolding start connect_web_socket
start-SameCounts s a b = if-SameCounts a (connect-SameCounts s s.process) (
    if-SameCounts (is_running s.process) (same s) (
      if-SameCounts b record { attempts = refl; total = refl }
        record { attempts = refl; total = refl }))

send-SameCounts : (s : Manager) (m : Text) → SameCounts s (send m s)
unfolding send
send-SameCounts s m =
    if-SameCounts (ready s.ws) record { attempts = refl; total = refl }
      record { attempts = refl; total = refl }

request-SameCounts : (s : Manager) (m : Text) → SameCounts s (request m s)
unfolding request
request-SameCounts s m =
    if-SameCounts (ready s.ws) record { attempts = refl; total = refl }
      record { attempts = refl; total = refl }

settle_with-SameCounts : (s : Manager) (id : ℕ) (o : Output) → SameCounts s (settle_with id o s)
unfolding settle_with
settle_with-SameCounts s id o =
    if-SameCounts (has_id id s.pending) record { attempts = refl; total = refl } (same s)

dispose-SameCounts : (s : Manager) → SameCounts s (dispose_manager s)
unfolding dispose_manager
dispose-SameCounts s = record { attempts = refl; total = refl }

-- What holds of a manager that has come from `s` without an opening: each timer was counted, and
-- the count is five at most.
record IsCounted (s t : Manager) : Type 0 where
  attempts : t.reconnect_attempts ≤ 5
  counted : t.reconnects + s.reconnect_attempts ≡ s.reconnects + t.reconnect_attempts

IsFew : Manager → Type 0
IsFew s = s.reconnect_attempts ≤ 5

SameCounts-IsCounted : {s t : Manager} → SameCounts s t → IsFew s → IsCounted s t
unfolding IsFew
SameCounts-IsCounted p h = record { attempts = omega arith; counted = omega arith }

on_socket_close-IsCounted : (s : Manager) → IsFew s → IsCounted s (on_socket_close s)
unfolding on_socket_close IsFew
on_socket_close-IsCounted s h = elim (Bool-cases (ltb s.reconnect_attempts 5)) [
  | inl f ↦ record { attempts = ground arith; counted = ground arith }
  | inr f ↦ record { attempts = ground arith; counted = ground arith }
]

-- Every event but an opening counts its timers.
signal_step-IsCounted :
    (e : Signal) (s : Manager) → is_opening e ≡ false → IsFew s → IsCounted s (signal_step e s)
unfolding signal_step is_opening connect_web_socket
signal_step-IsCounted (started a b) s o p = SameCounts-IsCounted (start-SameCounts s a b) p
signal_step-IsCounted connect_now s o p = SameCounts-IsCounted (connect-SameCounts s s.process) p
signal_step-IsCounted (sent_message m) s o p = SameCounts-IsCounted (send-SameCounts s m) p
signal_step-IsCounted (requested m) s o p = SameCounts-IsCounted (request-SameCounts s m) p
signal_step-IsCounted (on_method m) s o p =
    SameCounts-IsCounted record { attempts = refl; total = refl } p
signal_step-IsCounted (notified m) s o p =
    SameCounts-IsCounted
      (if-SameCounts (has_handler m s.handlers) record { attempts = refl; total = refl } (same s)) p
signal_step-IsCounted (responded id error) s o p =
    SameCounts-IsCounted (settle_with-SameCounts s id _) p
signal_step-IsCounted (timed_out id) s o p = SameCounts-IsCounted (settle_with-SameCounts s id _) p
signal_step-IsCounted (opened n) s o p = cc
signal_step-IsCounted closed s o p = on_socket_close-IsCounted s p
signal_step-IsCounted process_exits s o p =
    SameCounts-IsCounted record { attempts = refl; total = refl } p
signal_step-IsCounted exit_event s o p =
    SameCounts-IsCounted record { attempts = refl; total = refl } p
signal_step-IsCounted disposed s o p = SameCounts-IsCounted (dispose-SameCounts s) p

opened-IsFew : (e : Signal) (s : Manager) → is_opening e ≡ true → IsFew (signal_step e s)
unfolding IsFew is_opening signal_step
opened-IsFew (opened n) s y = omega arith
opened-IsFew _ s y = cc

-- No event lets the count pass five.
signal_step-IsFew : (e : Signal) (s : Manager) → IsFew s → IsFew (signal_step e s)
signal_step-IsFew e s p = elim (Bool-cases (is_opening e)) [
  | inl y ↦ opened-IsFew e s y
  | inr n ↦ unfold IsFew in (signal_step-IsCounted e s n p).attempts
]

signal_run-IsFew : (es : List Signal) (s : Manager) → IsFew s → IsFew (signal_run es s)
unfolding signal_run
signal_run-IsFew [] s p = p
signal_run-IsFew (e ∷ es) s p = signal_run-IsFew es (signal_step e s) (signal_step-IsFew e s p)

-- No socket opens.
unfoldable pub NoOpening : List Signal → Type 0
NoOpening [] = Unit
NoOpening (e ∷ es) = (is_opening e ≡ false) × NoOpening es

IsCounted-trans : {s t u : Manager} → IsCounted s t → IsCounted t u → IsCounted s u
IsCounted-trans p q = record { attempts = q.attempts; counted = omega arith }

signal_run-IsCounted :
    (es : List Signal) (s : Manager) → NoOpening es → IsFew s → IsCounted s (signal_run es s)
unfolding signal_run NoOpening
signal_run-IsCounted [] s o p = SameCounts-IsCounted (same s) p
signal_run-IsCounted (e ∷ es) s (o, os) p =
    IsCounted-trans (signal_step-IsCounted e s o p)
      (signal_run-IsCounted es (signal_step e s) os (signal_step-IsFew e s p))

IsCounted-few :
    {s t : Manager} → IsCounted s t → (t.reconnects ≤ s.reconnects + 5) × (t.reconnect_attempts ≤ 5)
IsCounted-few p = (omega arith, p.attempts)

-- From a new manager, whatever happens in whatever order, then as long as no socket opens at most
-- five more timers to connect again are set, and the counter of attempts never passes five. So there
-- are at most five before a socket opens first, and at most five after each time that one opens.
pub signal_run-reconnects :
    (before es : List Signal)
    → NoOpening es
    → ((signal_run es (signal_run before new_manager)).reconnects
        ≤ (signal_run before new_manager).reconnects + 5)
      × ((signal_run es (signal_run before new_manager)).reconnect_attempts ≤ 5)
signal_run-reconnects before es o = IsCounted-few (
    signal_run-IsCounted es (signal_run before new_manager) o
      (signal_run-IsFew before new_manager (unfold IsFew in omega arith)))
