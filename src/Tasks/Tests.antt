-- ===== src/Tasks/Tests.antt =====
-- One task from request to result.
use thinklocal_mcp.Base.{◌≡◌, refl, none, some, List, [], ◌∷◌}
use thinklocal_mcp.Base.Dict.{get}
use thinklocal_mcp.Tasks.{Task, TaskManager, rejected, create_request}
use thinklocal_mcp.Tasks.Lifecycle.{
  Event, create, accepts, completes, tick, rejects, steps, request-Fits, Fits,
}

abbrev start : TaskManager
start = record { tasks = []; correlation_index = [] }

abbrev history : List Event
history =
    create "t2" 6 "peer" "s" "{}" none
    ∷ accepts "t1" "me" 7
    ∷ rejects "t1" "late" 8
    ∷ completes "t1" "42" 9
    ∷ tick 1000
    ∷ []

request-Fits_example :
    (t : Task) × (get "t1"
        (steps (create_request "t1" 5 "peer" "s" "{}" (some 50) start).0 history).tasks
      ≡ some t)
    × Fits t
request-Fits_example =
    request-Fits "t1" "peer" "s" 5 "{}" (some 50) start history (refl, (tt, (tt, (tt, (tt, tt)))))

abbrev refused : Task
refused = record {
  id = "t1";
  correlation_id = "t1";
  requester = "peer";
  executor = none;
  state = rejected;
  skill_id = "s";
  input = "{}";
  result = none;
  error = some "no";
  created_at = 5;
  deadline = some 55;
  updated_at = 6;
}

abbrev holding : TaskManager
holding = record { tasks = ("t1", refused) ∷ []; correlation_index = ("t1", "t1") ∷ [] }
