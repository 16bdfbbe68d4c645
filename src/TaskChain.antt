-- ===== src/TaskChain.antt =====
-- packages/daemon/src/task-chain.ts: steps that each take the result of the one before. The executor and
-- the chain's random id are parameters; durations are left out.
pub mod Shape
mod Tests
use thinklocal_mcp.Base.{
  ℕ, suc, String, Json, Bool, true, false, Option, none, some, List, [], ◌∷◌, if◌then◌else◌,
}

pub record ChainStep : Type 0 where
  pub skill_id : String
  pub input : Option Json
  pub target_agent : Option String
  pub timeout_ms : Option ℕ
  pub only_on_success : Option Bool

-- The step's own fields, and those that the chain adds.
pub record StepInput : Type 0 where
  pub own : Option Json
  pub previous_result : Option Json
  pub chain_id : String
  pub step_index : ℕ

pub record ExecutorResult : Type 0 where
  pub success : Bool
  pub result : Option Json
  pub error : Option String

pub data Call : Type 0 where
  returned : ExecutorResult → Call
  threw : (message : String) → Call

pub data StepStatus : Type 0 where
  completed failed skipped : StepStatus

pub record StepEntry : Type 0 where
  pub skill_id : String
  pub status : StepStatus
  pub result : Option Json
  pub error : Option String

pub data ChainStatus : Type 0 where
  all_completed chain_failed partial : ChainStatus

pub record ChainResult : Type 0 where
  pub chain_id : String
  pub status : ChainStatus
  pub steps : List StepEntry

abbrev pub timeout_of : ChainStep → ℕ
timeout_of step = elim step.timeout_ms [ none ↦ 30000 | some ms ↦ ms ]

abbrev pub waits : ChainStep → Bool
waits step = elim step.only_on_success [ none ↦ true | some b ↦ b ]

abbrev pub skipped_entry : ChainStep → StepEntry
skipped_entry step = record {
  skill_id = step.skill_id;
  status = skipped;
  result = none;
  error = none;
}

-- The loop over the steps after a failed one.
unfoldable pub skip_rest : List ChainStep → List StepEntry
skip_rest [] = []
skip_rest (step ∷ steps) =
    let rest = skip_rest steps in if waits step then skipped_entry step ∷ rest else rest

abbrev pub completed_entry : ChainStep → Option Json → StepEntry
completed_entry step result = record {
  skill_id = step.skill_id;
  status = completed;
  result = result;
  error = none;
}

abbrev pub failed_entry : ChainStep → Option String → StepEntry
failed_entry step error = record {
  skill_id = step.skill_id;
  status = failed;
  result = none;
  error = error;
}

abbrev pub with_entry : StepEntry → ChainResult → ChainResult
with_entry e r = record r { steps = e ∷ r.steps }

module _ (executor : String → StepInput → Option String → ℕ → Call) (chain_id : String) where
  abbrev pub call : ChainStep → ℕ → Option Json → Call
  call step i last =
      executor step.skill_id
        (record { own = step.input; previous_result = last; chain_id = chain_id; step_index = i })
        step.target_agent (timeout_of step)

  abbrev pub ended : ChainStatus → List StepEntry → ChainResult
  ended status entries = record { chain_id = chain_id; status = status; steps = entries }

  -- The rest of the loop, from the result of its call on.
  abbrev pub after_call :
      ChainStep → List ChainStep → Call → (Option Json → ChainResult) → ChainResult
  after_call step steps (threw message) next =
      ended chain_failed (failed_entry step (some message) ∷ [])
  after_call step steps (returned r) next =
      if r.success
      then with_entry (completed_entry step r.result) (next r.result)
      else ended partial (failed_entry step r.error ∷ skip_rest steps)

  unfoldable pub execute_from : ℕ → Option Json → List ChainStep → ChainResult
  execute_from i last [] = ended all_completed []
  execute_from i last (step ∷ steps) =
      after_call step steps (call step i last) (λ result. execute_from (suc i) result steps)

  unfoldable pub execute_chain : List ChainStep → ChainResult
  execute_chain steps = execute_from 0 (some "null") steps
