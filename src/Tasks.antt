-- ===== src/Tasks.antt =====
-- packages/daemon/src/tasks.ts: the delegated tasks of a node. `randomUUID()` and the clock are
-- arguments; the ten-second timer is the caller of `check_timeouts`. Logging is left out.
pub mod Lifecycle
mod Tests
use thinklocal_mcp.Base.{
  ℕ, ◌+◌, String, Json, Bool, true, false, not, Option, none, some, List, [], ◌∷◌, ◌&&◌, ◌||◌,
  if◌then◌else◌, ltb, ◌==◌, filter, str_eq,
}
use thinklocal_mcp.Base.Dict.{Dict, get, set, values}

pub data TaskState : Type 0 where
  requested accepted rejected completed failed timeout : TaskState

pub record Task : Type 0 where
  pub id : String
  pub correlation_id : String
  pub requester : String
  pub executor : Option String
  pub state : TaskState
  pub skill_id : String
  pub input : Json
  pub result : Option Json
  pub error : Option String
  pub created_at : ℕ
  pub deadline : Option ℕ
  pub updated_at : ℕ

pub record TaskManager : Type 0 where
  pub tasks : Dict Task
  pub correlation_index : Dict String

abbrev pub is_requested : TaskState → Bool
is_requested requested = true
is_requested _ = false

abbrev pub is_accepted : TaskState → Bool
is_accepted accepted = true
is_accepted _ = false

-- `deadlineMs ? … : null`: 0 sets no deadline.
abbrev deadline_of : ℕ → Option ℕ → Option ℕ
deadline_of now none = none
deadline_of now (some ms) = if ms == 0 then none else some (now + ms)

unfoldable pub create_request :
    (id : String) (now : ℕ) (requester skill_id : String) (input : Json) (deadline_ms : Option ℕ)
    → TaskManager
    → TaskManager × Task
create_request id now requester skill_id input deadline_ms m =
    let task : Task = record {
      id = id;
      correlation_id = id;
      requester = requester;
      executor = none;
      state = requested;
      skill_id = skill_id;
      input = input;
      result = none;
      error = none;
      created_at = now;
      deadline = deadline_of now deadline_ms;
      updated_at = now;
    } in
    (
      record { tasks = set id task m.tasks; correlation_index = set id id m.correlation_index },
      task,
    )

-- The four operations change a task that is there and in the right state, and return it.
abbrev pub change :
    (TaskState → Bool)
    → (Task → Task)
    → String
    → Option Task
    → TaskManager
    → TaskManager × Option Task
change allowed f task_id none m = (m, none)
change allowed f task_id (some t) m =
    if allowed t.state
    then (record m { tasks = set task_id (f t) m.tasks }, some (f t))
    else (m, none)

abbrev pub accepted_by : String → ℕ → Task → Task
accepted_by executor now t = record t {
  state = accepted;
  executor = some executor;
  updated_at = now;
}

abbrev pub rejected_for : String → ℕ → Task → Task
rejected_for reason now t = record t { state = rejected; error = some reason; updated_at = now }

abbrev pub completed_with : Json → ℕ → Task → Task
completed_with result now t = record t { state = completed; result = some result; updated_at = now }

abbrev pub failed_with : String → ℕ → Task → Task
failed_with error now t = record t { state = failed; error = some error; updated_at = now }

unfoldable pub accept : String → String → ℕ → TaskManager → TaskManager × Option Task
accept task_id executor now m =
    change is_requested (accepted_by executor now) task_id (get task_id m.tasks) m

unfoldable pub reject : String → String → ℕ → TaskManager → TaskManager × Option Task
reject task_id reason now m =
    change is_requested (rejected_for reason now) task_id (get task_id m.tasks) m

unfoldable pub complete : String → Json → ℕ → TaskManager → TaskManager × Option Task
complete task_id result now m =
    change is_accepted (completed_with result now) task_id (get task_id m.tasks) m

unfoldable pub fail : String → String → ℕ → TaskManager → TaskManager × Option Task
fail task_id error now m =
    change is_accepted (failed_with error now) task_id (get task_id m.tasks) m

pub get_task : String → TaskManager → Option Task
get_task task_id m = get task_id m.tasks

abbrev task_of : Option String → TaskManager → Option Task
task_of none m = none
task_of (some task_id) m = if str_eq task_id "" then none else get task_id m.tasks

pub get_task_by_correlation : String → TaskManager → Option Task
get_task_by_correlation correlation_id m = task_of (get correlation_id m.correlation_index) m

abbrev pub same_state : TaskState → TaskState → Bool
same_state requested requested = true
same_state accepted accepted = true
same_state rejected rejected = true
same_state completed completed = true
same_state failed failed = true
same_state timeout timeout = true
same_state _ _ = false

pub get_by_state : TaskState → TaskManager → List Task
get_by_state state m = filter (λ t. same_state t.state state) (values m.tasks)

pub get_all_tasks : TaskManager → List Task
get_all_tasks m = values m.tasks

pub get_active_tasks : TaskManager → List Task
get_active_tasks m = filter (λ t. is_requested t.state || is_accepted t.state) (values m.tasks)

abbrev pub is_overdue : Option ℕ → ℕ → Bool
is_overdue none now = false
is_overdue (some deadline) now = ltb deadline now

unfoldable pub expire : ℕ → Task → Task
expire now t =
    if is_overdue t.deadline now && (is_requested t.state || is_accepted t.state)
    then record t { state = timeout; error = some "Deadline exceeded"; updated_at = now }
    else t

unfoldable pub expire_all : ℕ → Dict Task → Dict Task
expire_all now [] = []
expire_all now ((k, t) ∷ m) = (k, expire now t) ∷ expire_all now m

unfoldable pub check_timeouts : ℕ → TaskManager → TaskManager
check_timeouts now m = record m { tasks = expire_all now m.tasks }
