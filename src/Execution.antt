-- ===== src/Execution.antt =====
-- packages/daemon/src/execution-state.ts. The table is a map from the primary key to the row; an
-- `UPDATE` with a guard on the old state is written with that guard. `randomUUID()` and the clock are
-- arguments. Columns that no operation writes are left out.
pub mod Lifecycle
mod Tests
use thinklocal_mcp.Base.{
  ℕ, suc, String, Bool, true, false, Option, none, some, List, [], ◌∷◌, if◌then◌else◌, count,
  filter, take, sort_desc, str_eq, ◌&&◌,
}
use thinklocal_mcp.Base.Dict.{Dict, get, set, values}

pub data LifecycleState : Type 0 where
  accepted running completed failed aborted : LifecycleState

pub data ExecutionType : Type 0 where
  task_request skill_execute message_reply : ExecutionType

pub record ExecutionRow : Type 0 where
  pub execution_id : String
  pub instance_uuid : String
  pub message_id : Option String
  pub lifecycle_state : LifecycleState
  pub execution_type : Option ExecutionType
  pub started_at : ℕ
  pub completed_at : Option ℕ
  pub updated_at : ℕ

abbrev pub Store : Type 0
Store = Dict ExecutionRow

abbrev pub inserted : String → ExecutionRow → Store → Option ExecutionRow → Option Store
inserted id row s none = some (set id row s)
inserted id row s (some old) = none

-- None if the primary key is taken, where the `INSERT` throws.
unfoldable pub create :
    (execution_id : String) (now : ℕ) (instance_uuid : String)
    → Option ExecutionType
    → (message_id : Option String) → Store
    → Option Store
create execution_id now instance_uuid execution_type message_id s =
    inserted execution_id
      (record {
        execution_id = execution_id;
        instance_uuid = instance_uuid;
        message_id = message_id;
        lifecycle_state = accepted;
        execution_type = execution_type;
        started_at = now;
        completed_at = none;
        updated_at = now;
      })
      s (get execution_id s)

-- The table `valid` of `transition`.
abbrev pub is_valid : LifecycleState → LifecycleState → Bool
is_valid accepted running = true
is_valid accepted aborted = true
is_valid running completed = true
is_valid running failed = true
is_valid running aborted = true
is_valid _ _ = false

abbrev pub same_state : LifecycleState → LifecycleState → Bool
same_state accepted accepted = true
same_state running running = true
same_state completed completed = true
same_state failed failed = true
same_state aborted aborted = true
same_state _ _ = false

abbrev pub is_end : LifecycleState → Bool
is_end completed = true
is_end failed = true
is_end aborted = true
is_end _ = false

-- `COALESCE(?, completed_at)`
abbrev coalesce : Option ℕ → Option ℕ → Option ℕ
coalesce none old = old
coalesce (some n) old = some n

unfoldable pub updated : LifecycleState → ℕ → ExecutionRow → ExecutionRow
updated new now r = record r {
  lifecycle_state = new;
  completed_at = coalesce (if is_end new then some now else none) r.completed_at;
  updated_at = now;
}

-- The `UPDATE … WHERE execution_id = ? AND lifecycle_state = ?` and its `changes > 0`.
abbrev update_row :
    String → LifecycleState → LifecycleState → ℕ → Store → Option ExecutionRow → Store × Bool
update_row id old new now s none = (s, false)
update_row id old new now s (some r) =
    if same_state r.lifecycle_state old then (set id (updated new now r) s, true) else (s, false)

unfoldable pub guarded_update : String → LifecycleState → LifecycleState → ℕ → Store → Store × Bool
guarded_update id old new now s = update_row id old new now s (get id s)

abbrev transition_from : String → LifecycleState → ℕ → Store → Option ExecutionRow → Store × Bool
transition_from id new now s none = (s, false)
transition_from id new now s (some current) =
    if is_valid current.lifecycle_state new
    then guarded_update id current.lifecycle_state new now s
    else (s, false)

unfoldable pub transition : String → LifecycleState → ℕ → Store → Store × Bool
transition execution_id new now s = transition_from execution_id new now s (get execution_id s)

pub count_by_state : Store → LifecycleState → ℕ
count_by_state s state = count (λ r. same_state r.lifecycle_state state) (values s)

abbrev pub in_state : Option LifecycleState → LifecycleState → Bool
in_state none s = true
in_state (some wanted) s = same_state s wanted

-- The default limit is 50.
pub list_by_instance :
    (instance_uuid : String) → Option LifecycleState → (limit : ℕ) → Store → List ExecutionRow
list_by_instance instance_uuid state limit s = take limit (
    sort_desc (λ r. r.updated_at)
      (filter
        (λ (r : ExecutionRow).
          str_eq r.instance_uuid instance_uuid && in_state state r.lifecycle_state)
        (values s)))
