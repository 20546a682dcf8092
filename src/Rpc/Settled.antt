-- ===== src/Rpc/Settled.antt =====
-- Every promise of `RpcClient.call` (zenith-extension/src/rpc_client.ts) is settled once or pending.
use zenith_extension.Prelude.{
  ℕ, ◌+◌, ◌<◌, ◌≤◌, ◌≡◌, refl, sym, ap, ◌∙◌, Bool, true, false, some, List, [], ◌∷◌, ◌++◌, ◌==◌,
  map, if◌then◌else◌, arith, Bool-cases, Option-cases, inl, inr,
}
use zenith_extension.Rpc.{
  Pending, Client, new_client, Settlement, Event, called, replied, expired, closed, disconnected,
  timed_out, Reply, settlement, find, set, remove, on_call, settle, on_message, on_close, step, run,
}

abbrev once : ℕ → ℕ → ℕ
once x y = if x == y then 1 else 0

-- How often a promise is pending, settled, or made.
unfoldable pub count_pending : ℕ → Pending → ℕ
count_pending x [] = 0
count_pending x ((id, call) ∷ pending) = once x call + count_pending x pending

unfoldable pub count_settled : ℕ → List (ℕ × Settlement) → ℕ
count_settled x [] = 0
count_settled x ((call, how) ∷ settled) = once x call + count_settled x settled

unfoldable pub count_calls : ℕ → List Event → ℕ
count_calls x [] = 0
count_calls x (called call is_ready ∷ es) = once x call + count_calls x es
count_calls x (_ ∷ es) = count_calls x es

-- No pending ID is given again.
abbrev IsFresh : ℕ → Pending → Type 0
IsFresh counter [] = Unit
IsFresh counter ((id, call) ∷ pending) = (id < counter) × IsFresh counter pending

IsFresh-weaken : (k n : ℕ) (p : Pending) → k ≤ n → IsFresh k p → IsFresh n p
IsFresh-weaken k n [] h f = tt
IsFresh-weaken k n ((id, call) ∷ p) h (l, f) = (omega arith, IsFresh-weaken k n p h f)

set-IsFresh : (id call : ℕ) (p : Pending) → IsFresh id p → IsFresh (id + 1) (set id call p)
unfolding set
set-IsFresh id call [] f = (omega arith, tt)
set-IsFresh id call ((j, d) ∷ p) (l, f) = elim (Bool-cases (j == id)) [
  | inl y ↦ rw (y, set) (omega arith, IsFresh-weaken id (id + 1) p (omega arith) f)
  | inr n ↦ rw (n, set) (omega arith, set-IsFresh id call p f)
]

remove-IsFresh : (id k : ℕ) (p : Pending) → IsFresh k p → IsFresh k (remove id p)
unfolding remove
remove-IsFresh id k [] f = tt
remove-IsFresh id k ((j, d) ∷ p) (l, f) = elim (Bool-cases (j == id)) [
  | inl y ↦ rw (y, remove) f
  | inr n ↦ rw (n, remove) (l, remove-IsFresh id k p f)
]

find-set : (id call : ℕ) (p : Pending) → find id (set id call p) ≡ some call
unfolding find set
find-set id call [] = ground arith
find-set id call ((j, d) ∷ p) = ground (arith, find-set id call p)

count_pending-set :
    (x id call : ℕ) (p : Pending)
    → IsFresh id p
    → count_pending x (set id call p) ≡ once x call + count_pending x p
unfolding count_pending set
count_pending-set x id call [] f = refl
count_pending-set x id call ((j, d) ∷ p) (l, f) = ground (arith, l, count_pending-set x id call p f)

count_pending-remove :
    (x id call : ℕ) (p : Pending)
    → find id p ≡ some call
    → count_pending x p ≡ once x call + count_pending x (remove id p)
unfolding count_pending remove find
count_pending-remove x id call [] e = cc
count_pending-remove x id call ((j, d) ∷ p) e = ground (arith, e, count_pending-remove x id call p)

count_settled-append :
    (x : ℕ) (ss ts : List (ℕ × Settlement))
    → count_settled x (ss ++ ts) ≡ count_settled x ss + count_settled x ts
unfolding count_settled
count_settled-append x [] ts = ground arith
count_settled-append x ((c, how) ∷ ss) ts = ground (arith, count_settled-append x ss ts)

count_settled-disconnected :
    (x : ℕ) (p : Pending) → count_settled x (map (λ p. (p.1, disconnected)) p) ≡ count_pending x p
unfolding count_settled count_pending
count_settled-disconnected x [] = refl
count_settled-disconnected x ((id, c) ∷ p) = ap (λ n. once x c + n) (count_settled-disconnected x p)

abbrev IsValid : Client → Type 0
IsValid s = IsFresh s.id_counter s.pending

-- What a step leaves pending and settles is what was pending and what it adds.
abbrev Balances : ℕ → Client → ℕ → Client × List (ℕ × Settlement) → Type 0
Balances x s made after =
    IsValid after.0
    × (count_pending x s.pending + made ≡ count_pending x after.0.pending + count_settled x after.1)

settle-Balances :
    (x id : ℕ) (how : Settlement) (s : Client) → IsValid s → Balances x s 0 (settle id how s)
unfolding settle
settle-Balances x id how s f = elim (Option-cases (find id s.pending)) [
  | inl n ↦ rw (n, settle) (f, unfold count_settled in ground arith)
  | inr (c, y) ↦
      rw (y, settle)
        (
          remove-IsFresh id s.id_counter s.pending f,
          unfold count_settled in ground (arith, count_pending-remove x id c s.pending y),
        )
]

on_call-Balances :
    (x call : ℕ) (is_ready : Bool) (s : Client)
    → IsValid s
    → Balances x s (once x call) (on_call call is_ready s)
unfolding on_call count_settled
on_call-Balances x call true s f = (
  set-IsFresh s.id_counter call s.pending f,
  ground (arith, count_pending-set x s.id_counter call s.pending f),
)
on_call-Balances x call false s f =
    let id = s.id_counter in
    (
      remove-IsFresh id (id + 1) (set id call s.pending) (set-IsFresh id call s.pending f),
      ground (
        arith,
        count_pending-set x id call s.pending f,
        count_pending-remove x id call (set id call s.pending) (find-set id call s.pending),
      ),
    )

on_message-Balances :
    (x id : ℕ) (reply : Reply) (s : Client) → IsValid s → Balances x s 0 (on_message id reply s)
unfolding on_message
on_message-Balances x id reply s f = elim (Bool-cases (id == 0)) [
  | inl y ↦ rw y (f, unfold count_settled in refl)
  | inr n ↦ rw n (settle-Balances x id (settlement reply) s f)
]

on_close-Balances : (x : ℕ) (s : Client) → IsValid s → Balances x s 0 (on_close s)
unfolding on_close count_pending
on_close-Balances x s f = (tt, ground (arith, count_settled-disconnected x s.pending))

step-Balances :
    (x : ℕ) (e : Event) (s : Client) → IsValid s → Balances x s (count_calls x (e ∷ [])) (step e s)
unfolding step count_calls
step-Balances x (called call is_ready) s f =
    let (g, e) = on_call-Balances x call is_ready s f in (g, ground (arith, e))
step-Balances x (replied id reply) s f = on_message-Balances x id reply s f
step-Balances x (expired id) s f = settle-Balances x id timed_out s f
step-Balances x closed s f = on_close-Balances x s f

count_calls-cons :
    (x : ℕ) (e : Event) (es : List Event)
    → count_calls x (e ∷ es) ≡ count_calls x (e ∷ []) + count_calls x es
unfolding count_calls
count_calls-cons x (called call is_ready) es = ground arith
count_calls-cons x (replied id reply) es = ground arith
count_calls-cons x (expired id) es = ground arith
count_calls-cons x closed es = ground arith

run-Balances :
    (x : ℕ) (es : List Event) (s : Client) → IsValid s → Balances x s (count_calls x es) (run es s)
unfolding run
run-Balances x [] s f = (f, unfold count_calls count_settled in refl)
run-Balances x (e ∷ es) s f =
    let (g, first) = step-Balances x e s f in
    let (h, rest) = run-Balances x es (step e s).0 g in
    (
      h,
      ground (
        arith,
        first,
        rest,
        count_calls-cons x e es,
        count_settled-append x (step e s).1 (run es (step e s).0).1,
      ),
    )

count_pending-new : (x : ℕ) → count_pending x [] ≡ 0
unfolding count_pending
count_pending-new x = refl

-- Whatever events a new client sees, every promise has been made as often as it is pending and
-- settled together: a promise that was made once is either pending or settled once.
pub run-settled :
    (x : ℕ) (es : List Event)
    → count_calls x es
      ≡ count_pending x (run es new_client).0.pending + count_settled x (run es new_client).1
run-settled x es =
    let (_, e) = run-Balances x es new_client tt in ground (arith, e, count_pending-new x)

run-closed_client : (es : List Event) (s : Client) → (run (es ++ closed ∷ []) s).0 ≡ new_client
unfolding run on_close
run-closed_client [] s = refl
run-closed_client (e ∷ es) s = run-closed_client es (step e s).0

count_calls-closed :
    (x : ℕ) (es : List Event) → count_calls x (es ++ closed ∷ []) ≡ count_calls x es
unfolding count_calls
count_calls-closed x [] = refl
count_calls-closed x (e ∷ es) =
    count_calls-cons x e (es ++ closed ∷ [])
    ∙ ap (λ n. count_calls x (e ∷ []) + n) (count_calls-closed x es)
    ∙ sym (count_calls-cons x e es)

-- When the connection ends, whatever happened before, every promise has been settled as often as it
-- has been made.
pub run-closed :
    (x : ℕ) (es : List Event)
    → count_settled x (run (es ++ closed ∷ []) new_client).1 ≡ count_calls x es
run-closed x es =
    let all = run-settled x (es ++ closed ∷ []) in
    let none_left : count_pending x (run (es ++ closed ∷ []) new_client).0.pending ≡ 0 =
      ap (λ c. count_pending x c.pending) (run-closed_client es new_client) ∙ count_pending-new x in
    ground (arith, all, none_left, count_calls-closed x es)
