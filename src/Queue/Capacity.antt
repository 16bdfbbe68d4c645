-- ===== src/Queue/Capacity.antt =====
-- The limits of task-queue.ts: what the three collections hold, and that no slot stays free while
-- a task waits.
use thinklocal_mcp.Base.{
  ℕ, suc, ◌-◌, ◌≤◌, ◌≡◌, refl, String, false, List, [], ◌∷◌, ◌++◌, arith, leb, length, Bool-cases,
  Option-cases, inl, inr, ap, ◌∙◌, length-drop, str_eq, any, some,
}
use thinklocal_mcp.Base.Dict.{delete, size, size-set, size-delete-le}
use thinklocal_mcp.Queue.{
  QueuedTask, TaskQueue, Outcome, insert_task, start_first, process_next, enqueue, conclude, settle,
  cancel, remove_first, running, queued, set_executor, at, remove_at, trim, settled,
}
use thinklocal_mcp.Queue.Priority.{
  IsSorted, process_next-IsSorted, insert_task-IsSorted, remove_first-IsSorted,
}

-- What holds between two calls.
pub record IsSound (s : TaskQueue) : Type 0 where
  pub sorted : IsSorted s.queue
  pub queue_bounded : length s.queue ≤ s.max_queue_size
  pub running_bounded : size s.running ≤ s.max_concurrent
  pub completed_bounded : length s.completed ≤ 200
  pub idle : s.processing ≡ false

length-insert_task :
    (t : QueuedTask) (us : List QueuedTask) → length (insert_task t us) ≡ suc (length us)
unfolding insert_task
length-insert_task t [] = refl
length-insert_task t (u ∷ us) = ground (arith, length-insert_task t us)

remove_first-length-le :
    (id : String) (us : List QueuedTask) → length (remove_first id us) ≤ length us
remove_first-length-le id [] = omega arith
remove_first-length-le id (u ∷ us) = ground (arith, remove_first-length-le id us)

-- What `start_first` does to the sizes, and what it leaves alone.
record Sizes (s s' : TaskQueue) : Type 0 where
  queue_le : length s'.queue ≤ length s.queue
  running_le : size s'.running ≤ suc (size s.running)
  same_completed : length s'.completed ≡ length s.completed
  same_concurrent : s'.max_concurrent ≡ s.max_concurrent
  same_queue_size : s'.max_queue_size ≡ s.max_queue_size
  same_processing : s'.processing ≡ s.processing

start_first-Sizes :
    (now : ℕ) (q : List QueuedTask) (s : TaskQueue) → q ≡ s.queue → Sizes s (start_first now q s)
unfolding start_first
start_first-Sizes now [] s e = ground arith
start_first-Sizes now (t ∷ rest) s e =
    let task = record t { status = running; started_at = some now } in
    record {
      queue_le = omega (arith, ap length e);
      running_le = ground (arith, size-set t.id task s.running);
      same_completed = refl;
      same_concurrent = refl;
      same_queue_size = refl;
      same_processing = refl;
    }

-- `process_next` keeps the limits and shortens the queue, or leaves it.
process_next-Limits :
    (now : ℕ) (s : TaskQueue)
    → size s.running ≤ s.max_concurrent
    → let s' = process_next now s in
      (size s'.running ≤ s'.max_concurrent)
      × (length s'.queue ≤ length s.queue)
      × (length s'.completed ≡ length s.completed)
      × (s'.max_queue_size ≡ s.max_queue_size)
      × (s'.processing ≡ s.processing)
unfolding process_next
process_next-Limits now s h = ground (arith, start_first-Sizes now s.queue s refl)

enqueue-IsSound :
    (now : ℕ) (t : QueuedTask) (s : TaskQueue) → IsSound s → IsSound (enqueue now t s).0
unfolding enqueue
enqueue-IsSound now t s h = elim (Bool-cases (leb s.max_queue_size (length s.queue))) [
  | inl full ↦ rw full h
  | inr room ↦
      let queued_task = record t { enqueued_at = now; status = queued } in
      let s' = record s { queue = insert_task queued_task s.queue } in
      let fits : suc (length s.queue) ≤ s.max_queue_size = ground arith in
      let grown = length-insert_task queued_task s.queue in
      let (r, q, c, m, p) = process_next-Limits now s' h.running_bounded in
      rw room (record {
        sorted = process_next-IsSorted now s' (insert_task-IsSorted queued_task s.queue h.sorted);
        queue_bounded = omega arith;
        running_bounded = r;
        completed_bounded = omega (arith, h.completed_bounded);
        idle = p ∙ h.idle;
      })
]

length-trim : (done : List QueuedTask) → length (trim done) ≤ 200
length-trim done = ground (arith, length-drop (length done - 200) done)

conclude-IsSound :
    (now : ℕ) (o : Outcome) (t : QueuedTask) (s : TaskQueue)
    → IsSound s
    → IsSound (conclude now o t s)
unfolding conclude
conclude-IsSound now o t s h =
    let task = record (settled o t) { completed_at = some now } in
    let s' = record s {
      running = delete task.id s.running;
      completed = trim (s.completed ++ task ∷ []);
    } in
    let fewer = size-delete-le task.id s.running in
    let fits : size s'.running ≤ s'.max_concurrent = omega (arith, h.running_bounded) in
    let (r, q, c, m, p) = process_next-Limits now s' fits in
    record {
      sorted = process_next-IsSorted now s' h.sorted;
      queue_bounded = omega (arith, h.queue_bounded);
      running_bounded = r;
      completed_bounded = omega (arith, length-trim (s.completed ++ task ∷ []));
      idle = p ∙ h.idle;
    }

settle-IsSound :
    (now : ℕ) (o : Outcome) (i : ℕ) (s : TaskQueue) → IsSound s → IsSound (settle now o i s)
unfolding settle
settle-IsSound now o i s h = elim (Option-cases (at i s.in_flight)) [
  | inl e ↦ rw e h
  | inr (t, e) ↦
      rw e (
        conclude-IsSound now o t (record s { in_flight = remove_at i s.in_flight }) (same_limits h))
]
  where
    same_limits : IsSound s → IsSound (record s { in_flight = remove_at i s.in_flight })
    same_limits h = record {
      sorted = h.sorted;
      queue_bounded = h.queue_bounded;
      running_bounded = h.running_bounded;
      completed_bounded = h.completed_bounded;
      idle = h.idle;
    }

cancel-IsSound : (id : String) (s : TaskQueue) → IsSound s → IsSound (cancel id s).0
unfolding cancel
cancel-IsSound id s h = elim (Bool-cases (any (λ t. str_eq t.id id) s.queue)) [
  | inl e ↦ rw e (record {
    sorted = remove_first-IsSorted id s.queue h.sorted;
    queue_bounded = omega (arith, remove_first-length-le id s.queue, h.queue_bounded);
    running_bounded = h.running_bounded;
    completed_bounded = h.completed_bounded;
    idle = h.idle;
  })
  | inr e ↦ rw e h
]

-- The calls and the resumptions that change a queue.
pub data Event : Type 0 where
  submit : (now : ℕ) → QueuedTask → Event
  resolve : (now : ℕ) → Outcome → ℕ → Event
  withdraw : String → Event
  attach : Event

unfoldable pub step : TaskQueue → Event → TaskQueue
step s (submit now t) = (enqueue now t s).0
step s (resolve now o i) = settle now o i s
step s (withdraw id) = (cancel id s).0
step s attach = set_executor s

unfoldable pub steps : TaskQueue → List Event → TaskQueue
steps s [] = s
steps s (e ∷ es) = steps (step s e) es

step-IsSound : (s : TaskQueue) (e : Event) → IsSound s → IsSound (step s e)
unfolding step set_executor
step-IsSound s (submit now t) h = enqueue-IsSound now t s h
step-IsSound s (resolve now o i) h = settle-IsSound now o i s h
step-IsSound s (withdraw id) h = cancel-IsSound id s h
step-IsSound s attach h = record {
  sorted = h.sorted;
  queue_bounded = h.queue_bounded;
  running_bounded = h.running_bounded;
  completed_bounded = h.completed_bounded;
  idle = h.idle;
}

-- From a sound queue, in every interleaving of submissions, cancellations, settled executions and
-- executors that are set, the waiting tasks stand in descending priority and within the queue's
-- size, the map of running tasks holds at most `max_concurrent`, and at most 200 finished tasks are
-- kept.
pub limits_hold : (s : TaskQueue) (es : List Event) → IsSound s → IsSound (steps s es)
unfolding steps
limits_hold s [] h = h
limits_hold s (e ∷ es) h = limits_hold (step s e) es (step-IsSound s e h)
