-- ===== src/Tasks/Lifecycle.antt =====
-- The life of one delegated task of tasks.ts, whatever happens to the others.
use thinklocal_mcp.Base.{
  ℕ, ◌≡◌, refl, String, Json, Bool, true, false, Option, none, some, List, [], ◌∷◌, All, arith,
  str_eq, eq_iff, Bool-cases, Option-cases, inl, inr, ◌⊎◌, ap, ◌∙◌, sym, is_some, subst,
  str_eq_refl,
}
use thinklocal_mcp.Base.Dict.{Dict, get, get-set}
use thinklocal_mcp.Tasks.{
  TaskState, requested, accepted, rejected, completed, failed, timeout, Task, TaskManager,
  is_requested, is_accepted, create_request, change, accepted_by, rejected_for, completed_with,
  failed_with, accept, reject, complete, fail, expire, expire_all, check_timeouts,
}

pub data Event : Type 0 where
  create : (id : String) (now : ℕ) (requester skill_id : String) (input : Json) → Option ℕ → Event
  accepts : (task_id executor : String) (now : ℕ) → Event
  rejects : (task_id reason : String) (now : ℕ) → Event
  completes : (task_id : String) → Json → (now : ℕ) → Event
  fails : (task_id error : String) (now : ℕ) → Event
  tick : (now : ℕ) → Event

unfoldable pub step : TaskManager → Event → TaskManager
step m (create id now requester skill_id input d) =
    (create_request id now requester skill_id input d m).0
step m (accepts k executor now) = (accept k executor now m).0
step m (rejects k reason now) = (reject k reason now m).0
step m (completes k result now) = (complete k result now m).0
step m (fails k error now) = (fail k error now m).0
step m (tick now) = check_timeouts now m

unfoldable pub steps : TaskManager → List Event → TaskManager
steps m [] = m
steps m (e ∷ es) = steps (step m e) es

-- The fields fit the state: who executes, what came out, and why not.
pub record Fits (t : Task) : Type 0 where
  pub unassigned : t.state ≡ requested → t.executor ≡ none
  pub assigned :
      (t.state ≡ accepted) ⊎ (t.state ≡ completed) ⊎ (t.state ≡ failed) → is_some t.executor ≡ true
  pub resulted : is_some t.result ≡ true → t.state ≡ completed
  pub completed_result : t.state ≡ completed → is_some t.result ≡ true
  pub explained :
      (t.state ≡ rejected) ⊎ (t.state ≡ failed) ⊎ (t.state ≡ timeout) → is_some t.error ≡ true
  pub due : t.state ≡ timeout → is_some t.deadline ≡ true

abbrev pub IsFinal : TaskState → Type 0
IsFinal requested = ⊥
IsFinal accepted = ⊥
IsFinal _ = Unit

-- What one event may make of one task.
abbrev pub Moves : Task → Task → Type 0
Moves t t' = (IsFinal t.state → t' ≡ t) × (Fits t → Fits t')

Moves-refl : (t : Task) → Moves t t
Moves-refl t = (λ f. refl, λ h. h)

-- Each change is a move from the states in which it is allowed.
some_eq : {t u : Task} → some t ≡ some u → t ≡ u
some_eq h = cc

accepted_by-Moves :
    (e : String) (now : ℕ) (t : Task) → is_requested t.state ≡ true → Moves t (accepted_by e now t)
accepted_by-Moves e now t h = (λ f. ground arith, λ k. ground arith)

rejected_for-Moves :
    (e : String) (now : ℕ) (t : Task) → is_requested t.state ≡ true → Moves t (rejected_for e now t)
rejected_for-Moves e now t h = (λ f. ground arith, λ k. ground arith)

completed_with-Moves :
    (r : Json) (now : ℕ) (t : Task) → is_accepted t.state ≡ true → Moves t (completed_with r now t)
completed_with-Moves r now t h = (λ f. ground arith, λ k. ground arith)

failed_with-Moves :
    (e : String) (now : ℕ) (t : Task) → is_accepted t.state ≡ true → Moves t (failed_with e now t)
failed_with-Moves e now t h = (λ f. ground arith, λ k. ground arith)

expire-Moves : (now : ℕ) (t : Task) → Moves t (expire now t)
unfolding expire
expire-Moves now t = (λ f. ground arith, λ k. ground arith)

-- The task of `k` after an event on a manager where it is `t`.
abbrev pub Follows : String → Task → TaskManager → Type 0
Follows k t m' = (t' : Task) × (get k m'.tasks ≡ some t') × Moves t t'

change-Follows :
    (allowed : TaskState → Bool) (f : Task → Task)
    → ((t : Task) → allowed t.state ≡ true → Moves t (f t))
    → (j k : String) (t : Task) (m : TaskManager) → get k m.tasks ≡ some t
    → Follows k t (change allowed f j (get j m.tasks) m).0
change-Follows allowed f moves j k t m h = elim (Option-cases (get j m.tasks)) [
  | inl e ↦ rw e (t, h, Moves-refl t)
  | inr (u, e) ↦ elim (Bool-cases (allowed u.state)) [
    | inr no_change ↦ rw (e, no_change) (t, h, Moves-refl t)
    | inl permitted ↦ elim (Bool-cases (str_eq j k)) [
      | inl same ↦
          let eq : u ≡ t =
            some_eq (sym e ∙ ap (λ (i : String). get i m.tasks) ((eq_iff j k).0 same) ∙ h) in
          rw (e, permitted)
            (f u, rw (get-set, same), subst (λ x. Moves x (f u)) eq (moves u permitted))
      | inr other ↦ rw (e, permitted) (t, rw (get-set, other) h, Moves-refl t)
    ]
  ]
]

get-expire_all :
    (now : ℕ) (k : String) (m : Dict Task) (t : Task)
    → get k m ≡ some t
    → get k (expire_all now m) ≡ some (expire now t)
unfolding get expire_all
get-expire_all now k [] t h = cc
get-expire_all now k ((j, u) ∷ m) t h = elim (Bool-cases (str_eq j k)) [
  | inl same ↦ rw same (ap (λ x. some (expire now x)) (some_eq (rw same at h)))
  | inr other ↦ rw other (get-expire_all now k m t (rw other at h))
]

-- An event that does not create a task of this id.
abbrev pub Spares : String → Event → Type 0
Spares k (create id now requester skill_id input d) = str_eq id k ≡ false
Spares k _ = Unit

step-Follows :
    (k : String) (t : Task) (m : TaskManager) (e : Event)
    → get k m.tasks ≡ some t
    → Spares k e
    → Follows k t (step m e)
unfolding step accept reject complete fail check_timeouts create_request
step-Follows k t m (create id now requester skill_id input d) h other =
    (t, rw (get-set, other) h, Moves-refl t)
step-Follows k t m (accepts j e now) h _ =
    change-Follows is_requested (accepted_by e now) (accepted_by-Moves e now) j k t m h
step-Follows k t m (rejects j e now) h _ =
    change-Follows is_requested (rejected_for e now) (rejected_for-Moves e now) j k t m h
step-Follows k t m (completes j r now) h _ =
    change-Follows is_accepted (completed_with r now) (completed_with-Moves r now) j k t m h
step-Follows k t m (fails j e now) h _ =
    change-Follows is_accepted (failed_with e now) (failed_with-Moves e now) j k t m h
step-Follows k t m (tick now) h _ =
    (expire now t, get-expire_all now k m.tasks t h, expire-Moves now t)

-- A rejected, completed, failed or timed-out task stays exactly as it is under every sequence of
-- operations and timeouts, on it and on others, that does not create a task of its id.
pub final_task_stays :
    (k : String) (t : Task) (m : TaskManager) (es : List Event)
    → get k m.tasks ≡ some t
    → IsFinal t.state
    → All (Spares k) es
    → get k (steps m es).tasks ≡ some t
unfolding steps
final_task_stays k t m [] h f other = h
final_task_stays k t m (e ∷ es) h f (o, other) =
    let (t', h', moved) = step-Follows k t m e h o in
    final_task_stays k t (step m e) es (h' ∙ ap (λ (x : Task). some x) (moved.0 f)) f other

steps-Fits :
    (k : String) (t : Task) (m : TaskManager) (es : List Event)
    → get k m.tasks ≡ some t
    → Fits t
    → All (Spares k) es
    → (u : Task) × (get k (steps m es).tasks ≡ some u) × Fits u
unfolding steps
steps-Fits k t m [] h f other = (t, h, f)
steps-Fits k t m (e ∷ es) h f (o, other) =
    let (t', h', moved) = step-Follows k t m e h o in
    steps-Fits k t' (step m e) es h' (moved.1 f) other

-- A task of a new request, and its whole later life: whatever sequence of operations and timeouts
-- follows, as long as its id is not created again, it is known, has an executor once accepted, a
-- result exactly when completed, a reason when rejected, failed or timed out, and is timed out only
-- if it had a deadline.
pub request-Fits :
    (id requester skill_id : String) (now : ℕ) (input : Json) (d : Option ℕ) (m : TaskManager)
    (es : List Event)
    → All (Spares id) es
    → (t : Task) × (get id (steps (create_request id now requester skill_id input d m).0 es).tasks
        ≡ some t)
      × Fits t
unfolding create_request
request-Fits id requester skill_id now input d m es other =
    let t : Task = (create_request id now requester skill_id input d m).1 in
    steps-Fits id t _ es (rw (get-set, str_eq_refl id)) (ground arith) other
