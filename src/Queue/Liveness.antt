-- ===== src/Queue/Liveness.antt =====
-- The queue of task-queue.ts never sleeps on waiting tasks: settled executions drain it.
use thinklocal_mcp.Base.{
  ℕ, zero, suc, ◌+◌, ◌≤◌, ◌<◌, ◌≡◌, refl, sym, ◌∙◌, ap, subst, String, Bool, true, false, some,
  List, [], ◌∷◌, ◌++◌, arith, leb→le, if◌then◌else◌, leb, length, length-append, Bool-cases,
  Option-cases, inl, inr, str_eq, str_eq_refl, any, ◌||◌,
}
use thinklocal_mcp.Base.Dict.{Dict, get, set, delete, size, has, get-set, get-delete}
use thinklocal_mcp.Queue.{
  QueuedTask, TaskQueue, Outcome, returned, threw, insert_task, start_first, process_next, enqueue,
  conclude, settle, cancel, remove_first, running, queued, set_executor, at, remove_at, trim,
  settled,
}
use thinklocal_mcp.Queue.Capacity.{Event, submit, resolve, withdraw, attach, step, steps}

abbrev pub runs_as : String → QueuedTask → Bool
runs_as k t = str_eq t.id k

-- What `process_next` needs: an executor, a slot, and that whatever counts as running is in flight.
record IsReady (s : TaskQueue) : Type 0 where
  attached : s.has_executor ≡ true
  idle : s.processing ≡ false
  slots : 1 ≤ s.max_concurrent
  owned : (k : String) → has k s.running ≡ true → any (runs_as k) s.in_flight ≡ true

-- Such a queue, and nothing waits while nothing is in flight.
pub record IsLive (s : TaskQueue) : Type 0 where
  pub attached : s.has_executor ≡ true
  pub idle : s.processing ≡ false
  pub slots : 1 ≤ s.max_concurrent
  pub owned : (k : String) → has k s.running ≡ true → any (runs_as k) s.in_flight ≡ true
  pub awake : s.in_flight ≡ [] → s.queue ≡ []

-- The tasks that wait or are in flight.
abbrev pub pending : TaskQueue → ℕ
pending s = length s.queue + length s.in_flight

IsLive-IsReady : (s : TaskQueue) → IsLive s → IsReady s
IsLive-IsReady s h = record {
  attached = h.attached;
  idle = h.idle;
  slots = h.slots;
  owned = h.owned;
}

awaken : (s : TaskQueue) → IsReady s → (s.in_flight ≡ [] → s.queue ≡ []) → IsLive s
awaken s h a = record {
  attached = h.attached;
  idle = h.idle;
  slots = h.slots;
  owned = h.owned;
  awake = a;
}

any-append :
    (p : QueuedTask → Bool) (xs ys : List QueuedTask) → any p (xs ++ ys) ≡ (any p xs || any p ys)
any-append p [] ys = refl
any-append p (x ∷ xs) ys = ground (arith, any-append p xs ys)

nobody_runs : (d : Dict QueuedTask) → ((k : String) → has k d ≡ true → false ≡ true) → size d ≡ 0
unfolding size get
nobody_runs [] h = refl
nobody_runs ((j, w) ∷ d) h = absurd (let no : false ≡ true = h j (rw (str_eq_refl j) refl) in cc)

full_awake :
    (s : TaskQueue)
    → IsReady s
    → s.max_concurrent ≤ size s.running
    → s.in_flight ≡ []
    → s.queue ≡ []
full_awake s h full e =
    let none_run = nobody_runs s.running (λ k r. sym (ap (any (runs_as k)) e) ∙ h.owned k r) in
    absurd (omega (arith, h.slots, full, none_run))

or_true : (b : Bool) → (b || true) ≡ true
or_true true = refl
or_true false = refl

has-set_ne :
    (s : TaskQueue) (task : QueuedTask) (k : String)
    → str_eq task.id k ≡ false
    → has k (set task.id task s.running) ≡ has k s.running
has-set_ne s task k e = rw (get-set task.id k task s.running, e) refl

started_owned :
    (s : TaskQueue) (task : QueuedTask) (k : String)
    → IsReady s
    → has k (set task.id task s.running) ≡ true
    → any (runs_as k) (s.in_flight ++ task ∷ []) ≡ true
started_owned s task k h r = elim (Bool-cases (str_eq task.id k)) [
  | inl e ↦
      rw (any-append (runs_as k) s.in_flight (task ∷ []), e) (or_true (any (runs_as k) s.in_flight))
  | inr e ↦
      rw
        (
          any-append (runs_as k) s.in_flight (task ∷ []),
          h.owned k (sym (has-set_ne s task k e) ∙ r),
        )
        refl
]

append_not_empty : (ts : List QueuedTask) (t : QueuedTask) → ts ++ t ∷ [] ≡ [] → ⊥
append_not_empty [] t e = cc
append_not_empty (u ∷ ts) t e = cc

-- Between two turns of the executor the number of tasks is kept, and nothing sleeps.
abbrev Keeps : TaskQueue → TaskQueue → Type 0
Keeps s s' = IsLive s' × (pending s' ≡ pending s)

start_first-Keeps :
    (now : ℕ) (s : TaskQueue) (q : List QueuedTask)
    → IsReady s
    → s.queue ≡ q
    → Keeps s (start_first now q s)
unfolding start_first
start_first-Keeps now s [] h e = (awaken s h (λ none_left. e), refl)
start_first-Keeps now s (t ∷ rest) h e =
    let task = record t { status = running; started_at = some now } in
    let grown = length-append s.in_flight (task ∷ []) in
    let same = ap length e in
    (
      record {
        attached = h.attached;
        idle = h.idle;
        slots = h.slots;
        owned = λ k r. started_owned s task k h r;
        awake = λ no. absurd (append_not_empty s.in_flight task no);
      },
      omega (arith, grown, same),
    )

next_Keeps :
    (busy attached full : Bool) (s x : TaskQueue)
    → busy ≡ false
    → attached ≡ true
    → (full ≡ true → Keeps s s)
    → (full ≡ false → Keeps s x)
    → Keeps s (if busy then s else if attached then if full then s else x else s)
next_Keeps true attached full s x b a f g = cc
next_Keeps false false full s x b a f g = cc
next_Keeps false true true s x b a f g = f refl
next_Keeps false true false s x b a f g = g refl

process_next-Keeps : (now : ℕ) (s : TaskQueue) → IsReady s → Keeps s (process_next now s)
unfolding process_next
process_next-Keeps now s h =
    next_Keeps s.processing s.has_executor (leb s.max_concurrent (size s.running)) s _ h.idle
      h.attached (λ full. (awaken s h (full_awake s h (leb→le _ _ full)), refl))
      (λ room. start_first-Keeps now s s.queue h refl)

any-remove_at :
    (p : QueuedTask → Bool) (i : ℕ) (ts : List QueuedTask) (t : QueuedTask)
    → at i ts ≡ some t
    → p t ≡ false
    → any p ts ≡ true
    → any p (remove_at i ts) ≡ true
any-remove_at p i [] t e n h = cc
any-remove_at p zero (u ∷ ts) t e n h =
    let same : u ≡ t = cc in let skipped : p u ≡ false = rw same n in rw skipped at h
any-remove_at p (suc i) (u ∷ ts) t e n h = ground (arith, any-remove_at p i ts t e n)

length-remove_at :
    (i : ℕ) (ts : List QueuedTask) (t : QueuedTask)
    → at i ts ≡ some t
    → suc (length (remove_at i ts)) ≡ length ts
length-remove_at i [] t e = cc
length-remove_at zero (u ∷ ts) t e = refl
length-remove_at (suc i) (u ∷ ts) t e = ap suc (length-remove_at i ts t e)

settled_id : (o : Outcome) (t : QueuedTask) → (settled o t).id ≡ t.id
settled_id (returned result error) t = refl
settled_id (threw message) t = refl

delete_owned :
    (id k : String) (s : TaskQueue) (i : ℕ) (t : QueuedTask)
    → IsReady s
    → at i s.in_flight ≡ some t
    → id ≡ t.id
    → has k (delete id s.running) ≡ true
    → any (runs_as k) (remove_at i s.in_flight) ≡ true
delete_owned id k s i t h e same r = elim (Bool-cases (str_eq id k)) [
  | inl y ↦ absurd (
      let gone : has k (delete id s.running) ≡ false = rw (get-delete id k s.running, y) refl in
      let no : true ≡ false = sym r ∙ gone in cc)
  | inr n ↦
      let kept : has k (delete id s.running) ≡ has k s.running =
        rw (get-delete id k s.running, n) refl in
      any-remove_at (runs_as k) i s.in_flight t e (subst (λ j. str_eq j k ≡ false) same n)
        (h.owned k (sym kept ∙ r))
]

conclude-Keeps :
    (now : ℕ) (o : Outcome) (i : ℕ) (t : QueuedTask) (s : TaskQueue)
    → IsLive s
    → at i s.in_flight ≡ some t
    → let s' = conclude now o t (record s { in_flight = remove_at i s.in_flight }) in
      IsLive s' × (suc (pending s') ≡ pending s)
unfolding conclude
conclude-Keeps now o i t s h e =
    let task = record (settled o t) { completed_at = some now } in
    let s' = record s {
      in_flight = remove_at i s.in_flight;
      running = delete task.id s.running;
      completed = trim (s.completed ++ task ∷ []);
    } in
    let (live, same) = process_next-Keeps now s' (record {
      attached = h.attached;
      idle = h.idle;
      slots = h.slots;
      owned = λ k r. delete_owned task.id k s i t (IsLive-IsReady s h) e (settled_id o t) r;
    }) in
    let fewer = length-remove_at i s.in_flight t e in (live, omega (arith, same, fewer))

at_bound : (i : ℕ) (ts : List QueuedTask) → i < length ts → (t : QueuedTask) × (at i ts ≡ some t)
at_bound i [] h = absurd (omega (arith, h))
at_bound zero (t ∷ ts) h = (t, refl)
at_bound (suc i) (t ∷ ts) h = at_bound i ts (omega (arith, h))

-- A settlement of a task in flight leaves one task less.
pub settle-Keeps :
    (now : ℕ) (o : Outcome) (i : ℕ) (s : TaskQueue)
    → IsLive s
    → i < length s.in_flight
    → IsLive (settle now o i s) × (suc (pending (settle now o i s)) ≡ pending s)
unfolding settle
settle-Keeps now o i s h b =
    let (t, e) = at_bound i s.in_flight b in rw e (conclude-Keeps now o i t s h e)

settle-IsLive :
    (now : ℕ) (o : Outcome) (i : ℕ) (s : TaskQueue) → IsLive s → IsLive (settle now o i s)
unfolding settle
settle-IsLive now o i s h = elim (Option-cases (at i s.in_flight)) [
  | inl e ↦ rw e h
  | inr (t, e) ↦ rw e (conclude-Keeps now o i t s h e).0
]

enqueue-IsLive : (now : ℕ) (t : QueuedTask) (s : TaskQueue) → IsLive s → IsLive (enqueue now t s).0
unfolding enqueue
enqueue-IsLive now t s h = elim (Bool-cases (leb s.max_queue_size (length s.queue))) [
  | inl full ↦ rw full h
  | inr room ↦
      let s' = record s {
        queue = insert_task (record t { enqueued_at = now; status = queued }) s.queue;
      } in
      rw room
        (process_next-Keeps now s'
          (record { attached = h.attached; idle = h.idle; slots = h.slots; owned = h.owned })).0
]

cancel-IsLive : (id : String) (s : TaskQueue) → IsLive s → IsLive (cancel id s).0
unfolding cancel
cancel-IsLive id s h = elim (Bool-cases (any (λ t. str_eq t.id id) s.queue)) [
  | inl e ↦ rw e (record {
    attached = h.attached;
    idle = h.idle;
    slots = h.slots;
    owned = h.owned;
    awake = λ n. ap (remove_first id) (h.awake n);
  })
  | inr e ↦ rw e h
]

step-IsLive : (s : TaskQueue) (e : Event) → IsLive s → IsLive (step s e)
unfolding step set_executor
step-IsLive s (submit now t) h = enqueue-IsLive now t s h
step-IsLive s (resolve now o i) h = settle-IsLive now o i s h
step-IsLive s (withdraw id) h = cancel-IsLive id s h
step-IsLive s attach h = record {
  attached = refl;
  idle = h.idle;
  slots = h.slots;
  owned = h.owned;
  awake = h.awake;
}

pub steps-IsLive : (s : TaskQueue) (es : List Event) → IsLive s → IsLive (steps s es)
unfolding steps
steps-IsLive s [] h = h
steps-IsLive s (e ∷ es) h = steps-IsLive (step s e) es (step-IsLive s e h)
