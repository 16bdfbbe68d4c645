-- ===== src/Queue/Drain.antt =====
-- Settled executions drain the queue of task-queue.ts.
use thinklocal_mcp.Base.{ℕ, zero, suc, ◌<◌, ◌≡◌, refl, ap, List, [], ◌∷◌, map, length, arith}
use thinklocal_mcp.Queue.{QueuedTask, TaskQueue, Outcome, threw, settle}
use thinklocal_mcp.Queue.Capacity.{Event, resolve, step, steps}
use thinklocal_mcp.Queue.Liveness.{IsLive, pending, settle-Keeps, steps-IsLive}

-- When an execution settles, how, and which one in flight.
pub record Settlement : Type 0 where
  pub now : ℕ
  pub outcome : Outcome
  pub place : ℕ

abbrev pub event_of : Settlement → Event
event_of r = resolve r.now r.outcome r.place

-- Each settles an execution that is in flight at its turn.
abbrev pub IsSchedule : TaskQueue → List Settlement → Type 0
IsSchedule s [] = Unit
IsSchedule s (r ∷ rs) =
    (r.place < length s.in_flight) × IsSchedule (settle r.now r.outcome r.place s) rs

length-nil : {A : Type 0} (xs : List A) → length xs ≡ 0 → xs ≡ []
length-nil [] h = refl
length-nil (x ∷ xs) h = absurd (omega (arith, h))

drained :
    (s : TaskQueue) (rs : List Settlement)
    → IsLive s
    → IsSchedule s rs
    → length rs ≡ pending s
    → ((steps s (map event_of rs)).queue ≡ []) × ((steps s (map event_of rs)).in_flight ≡ [])
unfolding steps step
drained s [] h v n =
    (length-nil s.queue (omega (arith, n)), length-nil s.in_flight (omega (arith, n)))
drained s (r ∷ rs) h (b, v) n =
    let (live, less) = settle-Keeps r.now r.outcome r.place s h b in
    drained (settle r.now r.outcome r.place s) rs live v (omega (arith, n, less))

-- While a task waits, the first execution in flight can settle.
awake_bound : (s : TaskQueue) (n : ℕ) → IsLive s → pending s ≡ suc n → 0 < length s.in_flight
awake_bound s n h p = go s.in_flight refl
  where
    go : (ts : List QueuedTask) → s.in_flight ≡ ts → 0 < length ts
    go [] e =
        let q = ap length (h.awake e) in let f = ap length e in absurd (omega (arith, q, f, p))
    go (t ∷ ts) e = omega arith

IsSchedule-exists :
    (n : ℕ) (s : TaskQueue)
    → IsLive s
    → pending s ≡ n
    → (rs : List Settlement) × IsSchedule s rs × (length rs ≡ n)
IsSchedule-exists zero s h p = ([], tt, refl)
IsSchedule-exists (suc n) s h p =
    let b = awake_bound s n h p in
    let (live, less) = settle-Keeps 0 (threw "") 0 s h b in
    let (rs, v, l) = IsSchedule-exists n (settle 0 (threw "") 0 s) live (omega (arith, p, less)) in
    (record { now = 0; outcome = threw ""; place = 0 } ∷ rs, (b, v), ap suc l)

-- From a live queue, such as an empty one with an executor and a slot, after any submissions,
-- cancellations and settlements: as many further settlements as there are tasks waiting or in flight can
-- happen, and whatever settlements of that number do happen, in any order and with any outcomes, they leave
-- nothing waiting and nothing in flight.
pub drains :
    (initial : TaskQueue) (es : List Event) (rs : List Settlement)
    → IsLive initial
    → IsSchedule (steps initial es) rs
    → length rs ≡ pending (steps initial es)
    → ((others : List Settlement) × IsSchedule (steps initial es) others
        × (length others ≡ pending (steps initial es)))
      × ((steps (steps initial es) (map event_of rs)).queue ≡ [])
      × ((steps (steps initial es) (map event_of rs)).in_flight ≡ [])
drains initial es rs h v n =
    let live = steps-IsLive initial es h in
    let (waiting, running) = drained (steps initial es) rs live v n in
    (IsSchedule-exists (pending (steps initial es)) (steps initial es) live refl, waiting, running)
