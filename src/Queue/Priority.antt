-- ===== src/Queue/Priority.antt =====
-- The order of the waiting tasks of task-queue.ts.
use thinklocal_mcp.Base.{
  ℕ, ◌≤◌, ◌<◌, ◌≡◌, refl, String, List, [], ◌∷◌, ◌++◌, All, arith, ltb, ltb→lt, Bool-cases, inl,
  inr, str_eq, ap, subst,
}
use thinklocal_mcp.Queue.{
  QueuedTask, TaskQueue, priority_value, insert_task, process_next, remove_first, start_first,
}

abbrev pub value : QueuedTask → ℕ
value t = priority_value t.priority

-- No task waits behind one of lower priority.
abbrev pub IsSorted : List QueuedTask → Type 0
IsSorted [] = Unit
IsSorted (t ∷ ts) = All (λ u. value u ≤ value t) ts × IsSorted ts

insert_task-All :
    (n : ℕ) (t : QueuedTask) (us : List QueuedTask)
    → value t ≤ n
    → All (λ u. value u ≤ n) us
    → All (λ u. value u ≤ n) (insert_task t us)
unfolding insert_task
insert_task-All n t [] h a = (h, tt)
insert_task-All n t (u ∷ us) h (p, a) = elim (Bool-cases (ltb (value u) (value t))) [
  | inl e ↦ rw e (h, (p, a))
  | inr e ↦ rw e (p, insert_task-All n t us h a)
]

All-le :
    (m n : ℕ) (us : List QueuedTask) → m ≤ n → All (λ u. value u ≤ m) us → All (λ u. value u ≤ n) us
All-le m n [] h a = tt
All-le m n (u ∷ us) h (p, a) = (omega arith, All-le m n us h a)

pub insert_task-IsSorted :
    (t : QueuedTask) (us : List QueuedTask) → IsSorted us → IsSorted (insert_task t us)
unfolding insert_task
insert_task-IsSorted t [] s = (tt, tt)
insert_task-IsSorted t (u ∷ us) (a, s) = elim (Bool-cases (ltb (value u) (value t))) [
  | inl e ↦
      let h : value u < value t = ltb→lt _ _ e in
      rw e ((omega arith, All-le (value u) (value t) us (omega arith) a), (a, s))
  | inr e ↦ rw e (insert_task-All (value u) t us (ground arith) a, insert_task-IsSorted t us s)
]

below-All :
    (t u : QueuedTask) (us : List QueuedTask)
    → value u < value t
    → All (λ w. value w ≤ value u) us
    → All (λ w. value w < value t) us
below-All t u [] h a = tt
below-All t u (w ∷ us) h (p, a) = (omega arith, below-All t u us h a)

-- In a sorted queue the new task stands behind every task of its priority or a higher one and
-- before every task of a lower one.
pub insert_task_place :
    (t : QueuedTask) (us : List QueuedTask)
    → IsSorted us
    → (before after : List QueuedTask) × (us ≡ before ++ after)
      × (insert_task t us ≡ before ++ t ∷ after)
      × All (λ u. value t ≤ value u) before
      × All (λ u. value u < value t) after
unfolding insert_task
insert_task_place t [] s = ([], [], refl, refl, tt, tt)
insert_task_place t (u ∷ us) (a, s) = elim (Bool-cases (ltb (value u) (value t))) [
  | inl e ↦
      let h : value u < value t = ltb→lt _ _ e in
      ([], u ∷ us, refl, rw e, tt, (h, below-All t u us h a))
  | inr e ↦
      let (before, after, split, placed, over, under) = insert_task_place t us s in
      (
        u ∷ before,
        after,
        ap (λ (l : List QueuedTask). u ∷ l) split,
        rw e (ap (λ (l : List QueuedTask). u ∷ l) placed),
        (ground arith, over),
        under,
      )
]

remove_first-All :
    (n : ℕ) (id : String) (us : List QueuedTask)
    → All (λ u. value u ≤ n) us
    → All (λ u. value u ≤ n) (remove_first id us)
remove_first-All n id [] a = tt
remove_first-All n id (u ∷ us) (p, a) = elim (Bool-cases (str_eq u.id id)) [
  | inl e ↦ rw e a
  | inr e ↦ rw e (p, remove_first-All n id us a)
]

pub remove_first-IsSorted :
    (id : String) (us : List QueuedTask) → IsSorted us → IsSorted (remove_first id us)
remove_first-IsSorted id [] s = tt
remove_first-IsSorted id (u ∷ us) (a, s) = elim (Bool-cases (str_eq u.id id)) [
  | inl e ↦ rw e s
  | inr e ↦ rw e (remove_first-All (value u) id us a, remove_first-IsSorted id us s)
]

start_first-IsSorted :
    (now : ℕ) (q : List QueuedTask) (s : TaskQueue)
    → q ≡ s.queue
    → IsSorted q
    → IsSorted (start_first now q s).queue
unfolding start_first
start_first-IsSorted now [] s e h = subst IsSorted e h
start_first-IsSorted now (t ∷ rest) s e (a, h) = h

pub process_next-IsSorted :
    (now : ℕ) (s : TaskQueue) → IsSorted s.queue → IsSorted (process_next now s).queue
unfolding process_next
process_next-IsSorted now s h = ground (arith, start_first-IsSorted now s.queue s refl h)
