-- ===== src/TaskChain/Shape.antt =====
-- What the result of a chain of task-chain.ts says of its steps.
use thinklocal_mcp.Base.{
  ◌≡◌, refl, ℕ, suc, ◌+◌, String, Json, Bool, true, false, Option, none, some, List, [], ◌∷◌, ◌++◌,
  map, length, Bool-cases, inl, inr, ◌⊎◌, if◌then◌else◌, arith, ap, subst, sym,
}
use thinklocal_mcp.TaskChain.{
  ChainStep, StepInput, ExecutorResult, Call, returned, threw, completed, failed, skipped,
  StepEntry, ChainStatus, all_completed, chain_failed, partial, ChainResult, skip_rest,
  skipped_entry, call, after_call, execute_from, execute_chain,
}

-- The entries of the steps after a failed one: in their order those that wait for success, which a
-- step does unless it says otherwise, each as skipped; the others have no entry.
pub data Skips : List ChainStep → List StepEntry → Type 0 where
  no_more : Skips [] []
  listed :
      {step : ChainStep} {later : List ChainStep} {entries : List StepEntry}
      → (step.only_on_success ≡ none) ⊎ (step.only_on_success ≡ some true)
      → Skips later entries
      → Skips (step ∷ later) (
          record { skill_id = step.skill_id; status = skipped; result = none; error = none }
          ∷ entries)
  left_out :
      {step : ChainStep} {later : List ChainStep} {entries : List StepEntry}
      → step.only_on_success ≡ some false
      → Skips later entries
      → Skips (step ∷ later) entries

skip_when :
    (step : ChainStep) (later : List ChainStep) (o : Option Bool)
    → step.only_on_success ≡ o
    → Skips (step ∷ later) (
        if elim o [ none ↦ true | some b ↦ b ]
        then skipped_entry step ∷ skip_rest later
        else skip_rest later)
    → Skips (step ∷ later) (skip_rest (step ∷ later))
unfolding skip_rest
skip_when step later o e h =
    subst
      (λ (k : Option Bool). Skips (step ∷ later) (
        if elim k [ none ↦ true | some b ↦ b ]
        then skipped_entry step ∷ skip_rest later
        else skip_rest later))
      (sym e) h

skip_one :
    (step : ChainStep) (later : List ChainStep) (o : Option Bool)
    → step.only_on_success ≡ o
    → Skips later (skip_rest later)
    → Skips (step ∷ later) (skip_rest (step ∷ later))
skip_one step later none e rest = skip_when step later none e (listed (inl e) rest)
skip_one step later (some true) e rest = skip_when step later (some true) e (listed (inr e) rest)
skip_one step later (some false) e rest = skip_when step later (some false) e (left_out e rest)

skip_rest-Skips : (later : List ChainStep) → Skips later (skip_rest later)
unfolding skip_rest
skip_rest-Skips [] = no_more
skip_rest-Skips (step ∷ later) =
    skip_one step later step.only_on_success refl (skip_rest-Skips later)

-- A step that succeeded, with its result.
abbrev pub Done : Type 0
Done = ChainStep × Option Json

abbrev pub done_entry : Done → StepEntry
done_entry (step, result) = record {
  skill_id = step.skill_id;
  status = completed;
  result = result;
  error = none;
}

-- The result that the next step is given: the last one, or the one before them all.
abbrev pub last_result : Option Json → List Done → Option Json
last_result before [] = before
last_result before ((step, result) ∷ done) = last_result result done

module _ (executor : String → StepInput → Option String → ℕ → Call) (chain_id : String) where
  -- What the executor does for the step with this index, given the previous result.
  abbrev pub Answers : ℕ → Option Json → ChainStep → Call → Type 0
  Answers i previous step answer =
      executor step.skill_id
        (record {
          own = step.input;
          previous_result = previous;
          chain_id = chain_id;
          step_index = i;
        })
        step.target_agent (elim step.timeout_ms [ none ↦ 30000 | some ms ↦ ms ])
      ≡ answer

  -- The steps are executed one after the other, each with the result of the one before, and succeed.
  pub data Succeed : ℕ → Option Json → List Done → Type 0 where
    none_done : {i : ℕ} {previous : Option Json} → Succeed i previous []
    one_done :
        {i : ℕ} {previous : Option Json} {step : ChainStep} {done : List Done}
        → (r : ExecutorResult) → Answers i previous step (returned r)
        → r.success ≡ true
        → Succeed (suc i) r.result done
        → Succeed i previous ((step, r.result) ∷ done)

  -- How a chain ends with the steps that are left, the first of which has this index.
  pub data Ends (i : ℕ) (previous : Option Json) (rest : List ChainStep) (status : ChainStatus)
      (entries : List StepEntry) : Type 0 where
    all_done :
        rest ≡ [] → status ≡ all_completed → entries ≡ [] → Ends i previous rest status entries
    answered_failure :
        (step : ChainStep) (later : List ChainStep) (r : ExecutorResult) (skips : List StepEntry)
        → rest ≡ step ∷ later
        → Answers i previous step (returned r)
        → r.success ≡ false
        → status ≡ partial
        → entries
          ≡ record { skill_id = step.skill_id; status = failed; result = none; error = r.error }
            ∷ skips
        → Skips later skips
        → Ends i previous rest status entries
    was_thrown :
        (step : ChainStep) (later : List ChainStep) (message : String)
        → rest ≡ step ∷ later
        → Answers i previous step (threw message)
        → status ≡ chain_failed
        → entries
          ≡ record {
            skill_id = step.skill_id;
            status = failed;
            result = none;
            error = some message;
          }
            ∷ []
        → Ends i previous rest status entries

  -- The steps are those done and the rest, and so are the entries.
  pub record Ran (i : ℕ) (previous : Option Json) (steps : List ChainStep) (status : ChainStatus)
      (entries : List StepEntry) : Type 0 where
    pub done : List Done
    pub rest : List ChainStep
    pub tail : List StepEntry
    pub steps_split : steps ≡ map (λ (d : Done). d.0) done ++ rest
    pub entries_split : entries ≡ map done_entry done ++ tail
    pub succeed : Succeed i previous done
    pub ending : Ends (i + length done) (last_result previous done) rest status tail

  Ran-stopped :
      {i : ℕ} {previous : Option Json} {steps : List ChainStep} {status : ChainStatus}
      {entries : List StepEntry}
      → Ends i previous steps status entries
      → Ran i previous steps status entries
  Ran-stopped {i} {previous} {steps} {status} {entries} e = record {
    done = [];
    rest = steps;
    tail = entries;
    steps_split = refl;
    entries_split = refl;
    succeed = none_done;
    ending =
        let same : i ≡ i + 0 = omega arith in
        subst (λ n. Ends n previous steps status entries) same e;
  }

  Ran-one_more :
      {i : ℕ} {previous : Option Json} {step : ChainStep} {steps : List ChainStep}
      {status : ChainStatus} {entries : List StepEntry} (r : ExecutorResult)
      → Answers i previous step (returned r)
      → r.success ≡ true
      → Ran (suc i) r.result steps status entries
      → Ran i previous (step ∷ steps) status (done_entry (step, r.result) ∷ entries)
  Ran-one_more {i} {previous} {step} {steps} {status} {entries} r e h ran = record {
    done = (step, r.result) ∷ ran.done;
    rest = ran.rest;
    tail = ran.tail;
    steps_split = ap (λ (ss : List ChainStep). step ∷ ss) ran.steps_split;
    entries_split =
        ap (λ (es : List StepEntry). done_entry (step, r.result) ∷ es) ran.entries_split;
    succeed = one_done r e h ran.succeed;
    ending =
        let same : suc i + length ran.done ≡ i + suc (length ran.done) = omega arith in
        subst (λ n. Ends n (last_result r.result ran.done) ran.rest status ran.tail) same
          ran.ending;
  }

  after-Ran :
      (i : ℕ) (previous : Option Json) (step : ChainStep) (steps : List ChainStep) (c : Call)
      (next : Option Json → ChainResult)
      → call executor chain_id step i previous ≡ c
      → ((result : Option Json) → Ran (suc i) result steps (next result).status (next result).steps)
      → let r = after_call executor chain_id step steps c next in
        Ran i previous (step ∷ steps) r.status r.steps
  after-Ran i previous step steps (threw message) next e k =
      Ran-stopped (was_thrown step steps message refl e refl refl)
  after-Ran i previous step steps (returned r) next e k = elim (Bool-cases r.success) [
    | inl y ↦ rw y (Ran-one_more r e y (k r.result))
    | inr n ↦
        rw n
          (Ran-stopped (answered_failure step steps r _ refl e n refl refl (skip_rest-Skips steps)))
  ]

  from-Ran :
      (i : ℕ) (previous : Option Json) (steps : List ChainStep)
      → let r = execute_from executor chain_id i previous steps in
        Ran i previous steps r.status r.steps
  unfolding execute_from
  from-Ran i previous [] = Ran-stopped (all_done refl refl refl)
  from-Ran i previous (step ∷ steps) =
      after-Ran i previous step steps (call executor chain_id step i previous) _ refl
        (λ result. from-Ran (suc i) result steps)

  -- A chain executes its steps in order, the step of index n with n and the result of the one before (null for
  -- the first), up to the first that does not succeed. Its entries are those of the steps that succeeded, with their results, and
  -- of the ending: nothing and status completed if none is left; the failed step with its error and status
  -- partial if it answers with a failure, and then, as skipped, exactly the later steps whose
  -- onlyOnSuccess is absent or true; the failed step alone and status failed if it throws.
  pub chain-Ran :
      (steps : List ChainStep)
      → let r = execute_chain executor chain_id steps in Ran 0 (some "null") steps r.status r.steps
  unfolding execute_chain
  chain-Ran steps = from-Ran 0 (some "null") steps
