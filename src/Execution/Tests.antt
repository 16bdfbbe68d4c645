-- ===== src/Execution/Tests.antt =====
-- One execution, with a stale update of another process.
use thinklocal_mcp.Base.{◌≡◌, ◌⊎◌, refl, false, none, some, List, [], ◌∷◌}
use thinklocal_mcp.Base.Dict.{get}
use thinklocal_mcp.Execution.{ExecutionRow, accepted, running, completed, failed, aborted}
use thinklocal_mcp.Execution.Lifecycle.{
  Event, transitions, stale, steps, steps_advance, IsDated, ◌⟶*◌,
}

abbrev row : ExecutionRow
row = record {
  execution_id = "e1";
  instance_uuid = "i";
  message_id = none;
  lifecycle_state = accepted;
  execution_type = none;
  started_at = 1;
  completed_at = none;
  updated_at = 1;
}

abbrev history : List Event
history =
    transitions "e1" running 2
    ∷ transitions "e1" completed 3
    ∷ stale "e1" running failed refl 4
    ∷ transitions "e1" aborted 5
    ∷ []

steps_advance_example :
    (r' : ExecutionRow) × (get "e1" (steps (("e1", row) ∷ []) history) ≡ some r')
    × (accepted ⟶* r'.lifecycle_state)
    × IsDated r'
    × ((r' ≡ row) ⊎ (false ≡ false))
unfolding get
steps_advance_example = steps_advance (("e1", row) ∷ []) history "e1" row refl refl
