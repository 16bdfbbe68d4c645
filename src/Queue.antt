-- ===== src/Queue.antt =====
-- packages/daemon/src/task-queue.ts. An `await` of the executor is an element of `in_flight`: the
-- suspended rest of `processNext`, which holds its task; `settle` resumes one of them.
pub mod Priority
pub mod Capacity
pub mod Duplicates
pub mod Liveness
pub mod Drain
mod Tests
use thinklocal_mcp.Base.{
  ℕ, zero, suc, ◌+◌, ◌-◌, String, Json, Bool, true, false, Option, none, some, List, [], ◌∷◌, ◌++◌,
  if◌then◌else◌, ltb, leb, str_eq, length, drop, is_truthy, find, any, count,
}
use thinklocal_mcp.Base.Dict.{Dict, get, set, delete, size}

pub data TaskPriority : Type 0 where
  critical high normal low background : TaskPriority

abbrev pub priority_value : TaskPriority → ℕ
priority_value critical = 100
priority_value high = 75
priority_value normal = 50
priority_value low = 25
priority_value background = 0

pub data Status : Type 0 where
  queued running completed failed : Status

pub record QueuedTask : Type 0 where
  pub id : String
  pub skill_id : String
  pub input : Json
  pub priority : TaskPriority
  pub requester_id : String
  pub enqueued_at : ℕ
  pub started_at : Option ℕ
  pub completed_at : Option ℕ
  pub status : Status
  pub result : Option Json
  pub error : Option String

pub record TaskQueue : Type 0 where
  pub queue : List QueuedTask
  pub running : Dict QueuedTask
  pub completed : List QueuedTask
  pub max_concurrent : ℕ
  pub max_queue_size : ℕ
  pub processing : Bool
  pub has_executor : Bool
  pub in_flight : List QueuedTask

-- How the executor's promise settles.
pub data Outcome : Type 0 where
  returned : (result : Option Json) (error : Option String) → Outcome
  threw : String → Outcome

abbrev pub or_default : ℕ → Option ℕ → ℕ
or_default d none = d
or_default d (some n) = n

unfoldable pub new_queue : Option ℕ → Option ℕ → TaskQueue
new_queue max_concurrent max_queue_size = record {
  queue = [];
  running = [];
  completed = [];
  max_concurrent = or_default 5 max_concurrent;
  max_queue_size = or_default 100 max_queue_size;
  processing = false;
  has_executor = false;
  in_flight = [];
}

unfoldable pub set_executor : TaskQueue → TaskQueue
set_executor s = record s { has_executor = true }

-- `findIndex` and `push` or `splice`: before the first task of lower priority.
unfoldable pub insert_task : QueuedTask → List QueuedTask → List QueuedTask
insert_task t [] = t ∷ []
insert_task t (u ∷ us) =
    if ltb (priority_value u.priority) (priority_value t.priority)
    then t ∷ u ∷ us
    else u ∷ insert_task t us

unfoldable pub start_first : ℕ → List QueuedTask → TaskQueue → TaskQueue
start_first now [] s = s
start_first now (t ∷ rest) s =
    let task = record t { status = running; started_at = some now } in
    record s {
      queue = rest;
      running = set task.id task s.running;
      in_flight = s.in_flight ++ task ∷ [];
    }

-- `processNext` up to its `await`; the flag is set and cleared with no `await` in between.
unfoldable pub process_next : ℕ → TaskQueue → TaskQueue
unfolding start_first
process_next now s =
    if s.processing
    then s
    else if s.has_executor
    then if leb s.max_concurrent (size s.running) then s else start_first now s.queue s
    else s

unfoldable pub enqueue : ℕ → QueuedTask → TaskQueue → TaskQueue × Option String
enqueue now task s = if leb s.max_queue_size (length s.queue) then (s, none) else (
  process_next now (record s {
    queue = insert_task (record task { enqueued_at = now; status = queued }) s.queue;
  }),
  some task.id,
)

abbrev pub settled : Outcome → QueuedTask → QueuedTask
settled (returned result error) t = record t {
  status = if is_truthy error then failed else completed;
  result = result;
  error = error;
}
settled (threw message) t = record t { status = failed; error = some message }

-- `completed.slice(-200)` beyond 200 entries.
abbrev pub trim : List QueuedTask → List QueuedTask
trim done = if ltb 200 (length done) then drop (length done - 200) done else done

-- The rest of `processNext` after its `await`, for the task `t`.
unfoldable pub conclude : ℕ → Outcome → QueuedTask → TaskQueue → TaskQueue
conclude now outcome t s =
    let task = record (settled outcome t) { completed_at = some now } in
    process_next now
      (record s { running = delete task.id s.running; completed = trim (s.completed ++ task ∷ []) })

abbrev pub remove_at : ℕ → List QueuedTask → List QueuedTask
remove_at i [] = []
remove_at zero (t ∷ ts) = ts
remove_at (suc i) (t ∷ ts) = t ∷ remove_at i ts

abbrev pub at : ℕ → List QueuedTask → Option QueuedTask
at i [] = none
at zero (t ∷ ts) = some t
at (suc i) (t ∷ ts) = at i ts

abbrev pub resume : ℕ → Outcome → ℕ → TaskQueue → Option QueuedTask → TaskQueue
resume now outcome i s none = s
resume now outcome i s (some t) =
    conclude now outcome t (record s { in_flight = remove_at i s.in_flight })

-- The runtime resumes the `i`-th suspended call.
unfoldable pub settle : ℕ → Outcome → ℕ → TaskQueue → TaskQueue
settle now outcome i s = resume now outcome i s (at i s.in_flight)

abbrev pub remove_first : String → List QueuedTask → List QueuedTask
remove_first id [] = []
remove_first id (t ∷ ts) = if str_eq t.id id then ts else t ∷ remove_first id ts

unfoldable pub cancel : String → TaskQueue → TaskQueue × Bool
cancel id s =
    if any (λ t. str_eq t.id id) s.queue
    then (record s { queue = remove_first id s.queue }, true)
    else (s, false)

abbrev pub or_else : Option QueuedTask → Option QueuedTask → Option QueuedTask
or_else none o = o
or_else (some t) o = some t

unfoldable pub get_task : String → TaskQueue → Option QueuedTask
get_task id s =
    or_else (find (λ t. str_eq t.id id) s.queue)
      (or_else (get id s.running) (find (λ t. str_eq t.id id) s.completed))

abbrev pub is_completed : Status → Bool
is_completed completed = true
is_completed _ = false

abbrev pub is_failed : Status → Bool
is_failed failed = true
is_failed _ = false

pub record Stats : Type 0 where
  pub queued_tasks : ℕ
  pub running_tasks : ℕ
  pub completed_tasks : ℕ
  pub failed_tasks : ℕ
  pub max_concurrent : ℕ

unfoldable pub get_stats : TaskQueue → Stats
get_stats s = record {
  queued_tasks = length s.queue;
  running_tasks = size s.running;
  completed_tasks = count (λ (t : QueuedTask). is_completed t.status) s.completed;
  failed_tasks = count (λ (t : QueuedTask). is_failed t.status) s.completed;
  max_concurrent = s.max_concurrent;
}
