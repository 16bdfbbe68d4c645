-- ===== src/Queue/Duplicates.antt =====
-- Task-queue.ts counts running tasks by id, so tasks that share an id escape the limit.
use thinklocal_mcp.Base.{
  ℕ, zero, suc, ◌+◌, ◌≤◌, ◌<◌, ◌≡◌, refl, true, false, List, [], ◌∷◌, ◌++◌, arith, leb, length,
  length-append, some, ◌⊎◌, inl, inr, ap, ◌∙◌, str_eq_refl,
}
use thinklocal_mcp.Base.Dict.{Dict, set, size}
use thinklocal_mcp.Queue.{
  QueuedTask, TaskQueue, insert_task, start_first, process_next, enqueue, running,
}

-- The same task is submitted `n` times.
unfoldable pub resubmit : ℕ → ℕ → QueuedTask → TaskQueue → TaskQueue
resubmit zero now t s = s
resubmit (suc n) now t s = resubmit n now t (enqueue now t s).0

-- A queue with a ready executor in which no task waits.
abbrev pub drained : ℕ → ℕ → Dict QueuedTask → List QueuedTask → TaskQueue
drained concurrent room runs flights = record {
  queue = [];
  running = runs;
  completed = [];
  max_concurrent = concurrent;
  max_queue_size = room;
  processing = false;
  has_executor = true;
  in_flight = flights;
}

abbrev started : ℕ → QueuedTask → QueuedTask
started now t = record t { enqueued_at = now; status = running; started_at = some now }

enqueue-drained :
    (concurrent room now : ℕ) (t : QueuedTask) (runs : Dict QueuedTask) (flights : List QueuedTask)
    → 0 < room
    → size runs < concurrent
    → (enqueue now t (drained concurrent room runs flights)).0
      ≡ drained concurrent room (set t.id (started now t) runs) (flights ++ started now t ∷ [])
unfolding enqueue process_next start_first insert_task
enqueue-drained concurrent room now t runs flights h k =
    let open_queue : leb room 0 ≡ false = ground arith in
    let open_slot : leb concurrent (size runs) ≡ false = ground arith in rw (open_queue, open_slot)

one_run :
    (now : ℕ) (t : QueuedTask) (runs : Dict QueuedTask)
    → (runs ≡ []) ⊎ (runs ≡ (t.id, started now t) ∷ [])
    → (size runs ≤ 1) × (set t.id (started now t) runs ≡ (t.id, started now t) ∷ [])
unfolding set size
one_run now t runs (inl e) = rw e (omega arith, refl)
one_run now t runs (inr e) = rw e (omega arith, rw (str_eq_refl t.id))

resubmit-suc :
    (n now : ℕ) (t : QueuedTask) (s : TaskQueue)
    → length (resubmit (suc n) now t s).in_flight
      ≡ length (resubmit n now t (enqueue now t s).0).in_flight
unfolding resubmit
resubmit-suc n now t s = refl

resubmit-drained :
    (n concurrent room now : ℕ) (t : QueuedTask) (runs : Dict QueuedTask)
    (flights : List QueuedTask)
    → 0 < room
    → 1 < concurrent
    → (runs ≡ []) ⊎ (runs ≡ (t.id, started now t) ∷ [])
    → length (resubmit n now t (drained concurrent room runs flights)).in_flight
      ≡ length flights + n
resubmit-drained zero concurrent room now t runs flights h k one = unfold resubmit in omega arith
resubmit-drained (suc n) concurrent room now t runs flights h k one =
    let (few, again) = one_run now t runs one in
    resubmit-suc n now t (drained concurrent room runs flights)
    ∙ ap (λ (s : TaskQueue). length (resubmit n now t s).in_flight)
        (enqueue-drained concurrent room now t runs flights h (omega arith))
    ∙ resubmit-drained n concurrent room now t (set t.id (started now t) runs)
        (flights ++ started now t ∷ []) h k (inr again)
    ∙ omega (arith, length-append flights (started now t ∷ []))

-- With two slots or more, `n` submissions of one task to an idle queue start `n` executions at once,
-- however small the limit.
pub duplicates_unlimited :
    (n concurrent room now : ℕ) (t : QueuedTask)
    → 0 < room
    → 1 < concurrent
    → length (resubmit n now t (drained concurrent room [] [])).in_flight ≡ n
duplicates_unlimited n concurrent room now t h k =
    resubmit-drained n concurrent room now t [] [] h k (inl refl) ∙ omega arith
