-- ===== src/Rpc.antt =====
-- The pending requests of `RpcClient` (zenith-extension/src/rpc_client.ts): `call` behind the
-- connection, the listeners for messages and for the end of the connection, and the timers. The
-- promise of a call is a number; results and errors are their JSON texts. Connecting is left out:
-- `called` carries whether the socket is ready when the request is to be sent.
pub mod Settled
mod Tests
use zenith_extension.Prelude.{
  ℕ, ◌+◌, Bool, true, false, Option, none, some, List, [], ◌∷◌, ◌++◌, ◌==◌, map, if◌then◌else◌,
}
use zenith_extension.Prelude.Text.{Text}

-- `pendingRequests`: the promise of each pending request, by its ID.
abbrev pub Pending : Type 0
Pending = List (ℕ × ℕ)

pub record Client : Type 0 where
  pub id_counter : ℕ
  pub pending : Pending

abbrev pub new_client : Client
new_client = record { id_counter = 1; pending = [] }

pub data Reply : Type 0 where
  failed succeeded : Text → Reply

-- How a promise is settled.
pub data Settlement : Type 0 where
  resolved refused : Text → Settlement
  timed_out disconnected not_ready : Settlement

pub data Event : Type 0 where
  called : ℕ → Bool → Event
  -- A message with an ID arrives.
  replied : ℕ → Reply → Event
  -- The timer of the request with that ID fires.
  expired : ℕ → Event
  closed : Event

-- `pendingRequests.get(id)`
unfoldable pub find : ℕ → Pending → Option ℕ
find id [] = none
find id ((j, call) ∷ pending) = if j == id then some call else find id pending

-- `pendingRequests.set(id, ...)`
unfoldable pub set : ℕ → ℕ → Pending → Pending
set id call [] = (id, call) ∷ []
set id call ((j, other) ∷ pending) =
    if j == id then (id, call) ∷ pending else (j, other) ∷ set id call pending

-- `pendingRequests.delete(id)`; a key stands once.
unfoldable pub remove : ℕ → Pending → Pending
remove id [] = []
remove id ((j, call) ∷ pending) = if j == id then pending else (j, call) ∷ remove id pending

-- `call`, from the ID on
unfoldable pub on_call : ℕ → Bool → Client → Client × List (ℕ × Settlement)
unfolding set remove
on_call call is_ready s =
    let id = s.id_counter in
    if is_ready then (record { id_counter = id + 1; pending = set id call s.pending }, []) else (
      record { id_counter = id + 1; pending = remove id (set id call s.pending) },
      (call, not_ready) ∷ [],
    )

-- The request with an ID is settled, if it is pending.
unfoldable pub settle : ℕ → Settlement → Client → Client × List (ℕ × Settlement)
unfolding find remove
settle id how s = elim (find id s.pending) [
  | none ↦ (s, [])
  | some call ↦ (record s { pending = remove id s.pending }, (call, how) ∷ [])
]

abbrev pub settlement : Reply → Settlement
settlement (failed e) = refused e
settlement (succeeded v) = resolved v

-- `if (response.id && this.pendingRequests.has(response.id))`
unfoldable pub on_message : ℕ → Reply → Client → Client × List (ℕ × Settlement)
unfolding settle
on_message id reply s = if id == 0 then (s, []) else settle id (settlement reply) s

unfoldable pub on_close : Client → Client × List (ℕ × Settlement)
on_close s = (new_client, map (λ p. (p.1, disconnected)) s.pending)

unfoldable pub step : Event → Client → Client × List (ℕ × Settlement)
unfolding on_call on_message settle on_close
step (called call is_ready) s = on_call call is_ready s
step (replied id reply) s = on_message id reply s
step (expired id) s = settle id timed_out s
step closed s = on_close s

unfoldable pub run : List Event → Client → Client × List (ℕ × Settlement)
unfolding step
run [] s = (s, [])
run (e ∷ es) s =
    let (s', settled) = step e s in let (s'', later) = run es s' in (s'', settled ++ later)
