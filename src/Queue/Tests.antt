-- ===== src/Queue/Tests.antt =====
-- A queue at concrete submissions.
use thinklocal_mcp.Base.{
  ◌≡◌, refl, true, false, none, [], ◌∷◌, List, arith, length, map, String, ◌++◌, ◌≤◌, ◌<◌, All,
}
use thinklocal_mcp.Base.Dict.{set, get, delete, size}
use thinklocal_mcp.Queue.{
  QueuedTask, TaskQueue, normal, low, critical, TaskPriority, queued, returned, threw, enqueue,
  insert_task, process_next, start_first, settle, conclude, set_executor, cancel,
}
use thinklocal_mcp.Queue.Capacity.{IsSound, Event, submit, resolve, step, steps, limits_hold}
use thinklocal_mcp.Queue.Liveness.{IsLive, pending}
use thinklocal_mcp.Queue.Drain.{Settlement, IsSchedule, event_of, drains}
use thinklocal_mcp.Queue.Priority.{value, insert_task_place}
use thinklocal_mcp.Queue.Duplicates.{resubmit, drained, duplicates_unlimited}

abbrev task : String → TaskPriority → QueuedTask
task id priority = record {
  id = id;
  skill_id = "s";
  input = "{}";
  priority = priority;
  requester_id = "r";
  enqueued_at = 0;
  started_at = none;
  completed_at = none;
  status = queued;
  result = none;
  error = none;
}

runs : Unit {0}
unfolding steps step enqueue process_next start_first insert_task set get delete size settle
    conclude set_executor cancel
runs = tt

abbrev small : TaskQueue
small = record {
  queue = [];
  running = [];
  completed = [];
  max_concurrent = 1;
  max_queue_size = 5;
  processing = false;
  has_executor = true;
  in_flight = [];
}

abbrev history : List Event
history =
    submit 1 (task "a" low)
    ∷ submit 2 (task "b" low)
    ∷ submit 3 (task "c" critical)
    ∷ resolve 4 (returned none none) 0
    ∷ []

history_run :
    (map (λ t. t.id) (steps small history).queue ≡ "b" ∷ [])
    × (map (λ t. t.id) (steps small history).in_flight ≡ "c" ∷ [])
unfolding runs
history_run = (refl, refl)

small-IsSound : IsSound small
unfolding size
small-IsSound = ground arith

limits_hold_example : IsSound (steps small history)
limits_hold_example = limits_hold small history small-IsSound

duplicates_unlimited_example :
    length (resubmit 7 1 (task "a" normal) (drained 2 10 [] [])).in_flight ≡ 7
duplicates_unlimited_example =
    duplicates_unlimited 7 2 10 1 (task "a" normal) (omega arith) (omega arith)

small-IsLive : IsLive small
unfolding get
small-IsLive = record {
  attached = refl;
  idle = refl;
  slots = omega arith;
  owned = λ k h. cc;
  awake = λ h. refl;
}

abbrev rest : List Settlement
rest =
    record { now = 5; outcome = threw "x"; place = 0 }
    ∷ record { now = 6; outcome = returned none none; place = 0 }
    ∷ []

rest-IsSchedule :
    IsSchedule (steps small history) rest × (length rest ≡ pending (steps small history))
unfolding runs
rest-IsSchedule = ((omega arith, (omega arith, tt)), refl)

drains_example :
    ((others : List Settlement) × IsSchedule (steps small history) others
      × (length others ≡ pending (steps small history)))
    × ((steps (steps small history) (map event_of rest)).queue ≡ [])
    × ((steps (steps small history) (map event_of rest)).in_flight ≡ [])
drains_example = drains small history rest small-IsLive rest-IsSchedule.0 rest-IsSchedule.1

insert_task_place_example :
    (before after : List QueuedTask) × (task "a" normal ∷ task "b" low ∷ [] ≡ before ++ after)
    × (insert_task (task "c" normal) (task "a" normal ∷ task "b" low ∷ [])
        ≡ before ++ task "c" normal ∷ after)
    × All (λ u. 50 ≤ value u) before
    × All (λ u. value u < 50) after
insert_task_place_example =
    insert_task_place (task "c" normal) (task "a" normal ∷ task "b" low ∷ []) (omega arith)
