-- ===== src/TaskChain/Tests.antt =====
-- A chain whose second step fails.
use thinklocal_mcp.Base.{
  ◌≡◌, refl, ℕ, String, true, false, Option, none, some, List, [], ◌∷◌, str_eq, if◌then◌else◌,
}
use thinklocal_mcp.TaskChain.{
  ChainStep, StepInput, Call, returned, partial, completed_entry, failed_entry, skipped_entry,
  skip_rest, execute_from, execute_chain,
}
use thinklocal_mcp.TaskChain.Shape.{Ran, chain-Ran}

abbrev step : String → ChainStep
step id = record {
  skill_id = id;
  input = none;
  target_agent = none;
  timeout_ms = none;
  only_on_success = none;
}

abbrev executor : String → StepInput → Option String → ℕ → Call
executor id input agent ms =
    if str_eq id "b"
    then returned (record { success = false; result = none; error = some "no" })
    else returned (record { success = true; result = some "1"; error = none })

abbrev always : ChainStep
always = record (step "d") { only_on_success = some false }

abbrev steps : List ChainStep
steps = step "a" ∷ step "b" ∷ step "c" ∷ always ∷ []

-- The step that does not wait for success is neither executed nor listed.
listed : execute_chain executor "x" steps ≡ record {
  chain_id = "x";
  status = partial;
  steps =
      completed_entry (step "a") (some "1")
      ∷ failed_entry (step "b") (some "no")
      ∷ skipped_entry (step "c")
      ∷ [];
}
unfolding execute_chain execute_from skip_rest
listed = refl

chain-Ran_example :
    let r = execute_chain executor "x" steps in
    Ran executor "x" 0 (some "null") steps r.status r.steps
chain-Ran_example = chain-Ran executor "x" steps
