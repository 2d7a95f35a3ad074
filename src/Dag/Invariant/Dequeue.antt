-- ===== src/Dag/Invariant/Dequeue.antt =====
-- What `dequeue` hands out, and when it hands out nothing.
use knitting_crab.Prelude.{
  ℕ, ◌≡◌, ◌≤◌, ◌<◌, ◌⊎◌, refl, sym, ◌∙◌, subst, Bool, true, false, Option, none, some, List, [],
  ◌∷◌, lookup, insert, lookup-insert, has_key, length, contains, ◌==◌, ==_iff, arith, All, All-map,
  ap, Bool-cases, inl, inr,
}
use mathlib.Core.List.{Memᴰ}
use knitting_crab.Core.Priority.{as_u8}
use knitting_crab.Core.Task.{TaskId, TaskDescriptor}
use knitting_crab.Dag.Heap.{ReadyEntry, entry_le}
use knitting_crab.Dag.State.{Inner, TaskState, ready, running, completed, is_completed}
use knitting_crab.Dag.Dequeue.{start, fits, is_ready, judge, launch, age_entries, dequeue}
use knitting_crab.Dag.Waiting.{waiting-zero}
use knitting_crab.Dag.Greatest.{ids}
use knitting_crab.Dag.Choice.{starts, can_start, Chooses, idle, chosen, select-Chooses}
use knitting_crab.Dag.Invariant.{IsConsistent, IsQueued}
use knitting_crab.Dag.Invariant.Start.{
  SameWork, age_entries-SameWork, age_entries-ids, SameWork-IsConsistent, judge-start, launch-same,
  launch-IsConsistent,
}

-- The state and the entries that the loop of `dequeue` works on.
abbrev pub aged : ℕ → Inner → Inner
aged now s = (age_entries now s.ready_heap s).0

abbrev pub aged_entries : ℕ → Inner → List ReadyEntry
aged_entries now s = (age_entries now s.ready_heap s).1

pub judge-same : (s t : Inner) (e : ReadyEntry) → SameWork s t → judge t e ≡ judge s e
unfolding judge
judge-same s t e w = rw (w.same_states, w.same_tasks, w.same_pool)

Chooses-none :
    {s : Inner} {heap : List ReadyEntry} {held : TaskId → Bool} {r : Inner × Option TaskDescriptor}
    → Chooses s heap held r
    → r.1 ≡ none
    → All (λ f. can_start s f ≡ false) heap
Chooses-none (idle rest none_of keeps) e = none_of
Chooses-none (chosen e task rest j listed best keeps) h = cc

-- What is known of a task that the loop chose.
pub record Chosen (s : Inner) (heap : List ReadyEntry) (t : Inner) (task : TaskDescriptor)
    : Type 0 where
  pub entry : ReadyEntry
  pub rest : List ReadyEntry
  pub judged : judge s entry ≡ start task
  pub listed : Memᴰ entry heap
  pub best : All (λ f. can_start s f ≡ true → entry_le f entry ≡ true) heap
  pub left : t ≡ record (launch entry task s) { ready_heap = rest }

pub Chooses-some :
    {s : Inner} {heap : List ReadyEntry} {held : TaskId → Bool} {r : Inner × Option TaskDescriptor}
    (task : TaskDescriptor)
    → Chooses s heap held r
    → r.1 ≡ some task
    → Chosen s heap r.0 task
Chooses-some task (idle rest none_of keeps) h = cc
Chooses-some {s} {heap} task (chosen e task' rest j listed best keeps) h =
    let q : task' ≡ task = ground arith in
    record {
      entry = e;
      rest = rest;
      listed = listed;
      judged = subst (λ u. judge s e ≡ start u) q j;
      best = best;
      left = ap (λ u. record (launch e u s) { ready_heap = rest }) q;
    }

pub dequeue-Chooses :
    (now : ℕ) (s : Inner)
    → Chooses
        (aged now s)
        (aged_entries now s)
        (λ k. contains k (ids (aged_entries now s)))
        (dequeue now s)
unfolding dequeue
dequeue-Chooses now s =
    select-Chooses (length (aged_entries now s)) (aged_entries now s) [] (aged now s) (omega arith)

cannot_start :
    (s : Inner) (es : List ReadyEntry) (k : TaskId) (task : TaskDescriptor)
    → All (λ f. can_start s f ≡ false) es
    → contains k (ids es) ≡ true
    → lookup k s.states ≡ some ready
    → lookup k s.tasks ≡ some task
    → fits s.resource_pool task ≡ false
unfolding judge
cannot_start s [] k task h m a b = cc
cannot_start s (e ∷ es) k task h m a b = elim (Bool-cases (e.task_id == k)) [
  | inl f ↦
      let q : e.task_id ≡ k = (==_iff e.task_id k).0 f in
      let first : can_start s e ≡ false = h.0 in ground arith
  | inr f ↦ cannot_start s es k task h.1 (ground arith) a b
]

-- With an entry for each ready task, nothing is handed out only if nothing ready fits.
pub dequeue-none :
    (now : ℕ) (s : Inner) (k : TaskId) (task : TaskDescriptor)
    → IsQueued s
    → (dequeue now s).1 ≡ none
    → lookup k s.states ≡ some ready
    → lookup k s.tasks ≡ some task
    → fits s.resource_pool task ≡ false
dequeue-none now s k task queued h a b =
    let w = age_entries-SameWork now s.ready_heap s in
    let blocked_all = Chooses-none (dequeue-Chooses now s) h in
    let there : contains k (ids (aged_entries now s)) ≡ true =
      subst (λ xs. contains k xs ≡ true) (sym (age_entries-ids now s.ready_heap s))
        (queued k (rw a refl)) in
    subst (λ p. fits p task ≡ false) w.same_pool
      (cannot_start (aged now s) (aged_entries now s) k task blocked_all there
        (subst (λ m. lookup k m ≡ some ready) (sym w.same_states) a)
        (subst (λ m. lookup k m ≡ some task) (sym w.same_tasks) b))

-- `e` is at least `f` by effective priority, and by identifier where these are equal, if the task
-- of `f` is ready and fits the pool.
abbrev pub Outranked : Inner → ReadyEntry → ReadyEntry → Type 0
Outranked s e f =
    (u : TaskDescriptor)
    → lookup f.task_id s.states ≡ some ready
    → lookup f.task_id s.tasks ≡ some u
    → fits s.resource_pool u ≡ true
    → (as_u8 f.effective_priority < as_u8 e.effective_priority)
      ⊎ ((as_u8 f.effective_priority ≡ as_u8 e.effective_priority) × (f.task_id ≤ e.task_id))

entry_le-Outranked :
    (s : Inner) (e f : ReadyEntry) → (can_start s f ≡ true → entry_le f e ≡ true) → Outranked s e f
unfolding judge entry_le
entry_le-Outranked s e f h u in_state in_tasks fitting =
    let st : can_start s f ≡ true = rw (in_state, in_tasks, fitting, judge) refl in
    let le : entry_le f e ≡ true = h st in
    elim (Bool-cases (as_u8 f.effective_priority == as_u8 e.effective_priority)) [
      | inl same ↦ inr (ground arith, ground arith)
      | inr other ↦ inl (ground arith)
    ]

-- The task that a call hands out, and the state that it leaves.
pub record Hands (now : ℕ) (s t : Inner) (task : TaskDescriptor) : Type 0 where
  pub consistent : IsConsistent t
  pub was_ready : lookup task.task_id s.states ≡ some ready
  pub now_running : t.states ≡ insert task.task_id running s.states
  pub tasks_kept : t.tasks ≡ s.tasks
  pub deps_done :
      (d : TaskId) → contains d task.dependencies ≡ true → lookup d s.states ≡ some completed
  pub it_fits : fits s.resource_pool task ≡ true
  pub entry : ReadyEntry
  pub of_task : entry.task_id ≡ task.task_id
  pub listed : Memᴰ entry (aged_entries now s)
  pub best : All (Outranked s entry) (aged_entries now s)

is_completed_inv : (o : Option TaskState) → is_completed o ≡ true → o ≡ some completed
is_completed_inv o h = ground arith

judge-fits :
    (s : Inner) (e : ReadyEntry) (task : TaskDescriptor)
    → judge s e ≡ start task
    → fits s.resource_pool task ≡ true
unfolding judge
judge-fits s e task h = ground arith

module _ (now : ℕ) (s : Inner) (task : TaskDescriptor) (c : IsConsistent s) where
  Chosen-Hands : (t : Inner) → Chosen (aged now s) (aged_entries now s) t task → Hands now s t task
  Chosen-Hands t ch =
      let w = age_entries-SameWork now s.ready_heap s in
      let e = ch.entry in
      let judged : judge s e ≡ start task = sym (judge-same s (aged now s) e w) ∙ ch.judged in
      let (in_state, in_tasks) = judge-start s e task judged in
      let name : task.task_id ≡ e.task_id = c.graph.named e.task_id task in_tasks in
      let (e1, e2, e3, e4) = launch-same e task (aged now s) in
      let none_open = c.progress.started e.task_id task in_tasks (rw in_state refl) in
      record {
        consistent = subst IsConsistent (sym ch.left) (
            let l = launch-IsConsistent (aged now s) e task ch.judged (SameWork-IsConsistent w c) in
            record { graph = l.graph; progress = l.progress });
        was_ready = rw name in_state;
        now_running = rw (ch.left) (
            e3
            ∙ ap (insert e.task_id running) w.same_states
            ∙ ap (λ k. insert k running s.states) (sym name));
        tasks_kept = rw (ch.left) (e1 ∙ w.same_tasks);
        deps_done = λ d m.
            is_completed_inv (lookup d s.states)
              (waiting-zero s.states task.dependencies d none_open m);
        it_fits = judge-fits s e task judged;
        entry = e;
        of_task = sym name;
        listed = ch.listed;
        best =
            All-map (aged_entries now s)
              (λ f h.
                entry_le-Outranked s e f
                  λ st. h (subst (λ v. starts v ≡ true) (sym (judge-same s (aged now s) f w)) st))
              ch.best;
      }

-- In a consistent state, the task that `dequeue` hands out was ready, had all its dependencies
-- completed, fits the pool, and has an entry in the aged heap which is at least every entry of a
-- ready task that fits the pool, by effective priority and then by identifier. It is running afterwards, no other state and no task has
-- changed, and the state stays consistent.
pub dequeue-some :
    (now : ℕ) (s : Inner) (task : TaskDescriptor)
    → IsConsistent s
    → (dequeue now s).1 ≡ some task
    → Hands now s (dequeue now s).0 task
dequeue-some now s task c h =
    Chosen-Hands now s task c (dequeue now s).0 (Chooses-some task (dequeue-Chooses now s) h)

-- A call that hands out nothing changes no task and no state.
Chooses-same :
    {s : Inner} {heap : List ReadyEntry} {held : TaskId → Bool} {r : Inner × Option TaskDescriptor}
    → Chooses s heap held r
    → r.1 ≡ none
    → (r.0.tasks ≡ s.tasks) × (r.0.states ≡ s.states)
Chooses-same (idle rest none_of keeps) e = (refl, refl)
Chooses-same (chosen e task rest j listed best keeps) h = cc

pub dequeue-same :
    (now : ℕ) (s : Inner)
    → (dequeue now s).1 ≡ none
    → ((dequeue now s).0.tasks ≡ s.tasks) × ((dequeue now s).0.states ≡ s.states)
dequeue-same now s h =
    let w = age_entries-SameWork now s.ready_heap s in
    let (a, b) = Chooses-same (dequeue-Chooses now s) h in (a ∙ w.same_tasks, b ∙ w.same_states)

-- The queue after a call.
Chooses-IsQueued :
    (s : Inner) (heap : List ReadyEntry) (r : Inner × Option TaskDescriptor)
    → ((k : TaskId) → is_ready (lookup k s.states) ≡ true → has_key k s.tasks ≡ true)
    → ((k : TaskId) → is_ready (lookup k s.states) ≡ true → contains k (ids heap) ≡ true)
    → Chooses s heap (λ k. contains k (ids heap)) r
    → IsQueued r.0
Chooses-IsQueued s heap r tracked queued (idle rest none_of keeps) k h =
    keeps k (ground (arith, tracked k h)) (queued k h)
Chooses-IsQueued s heap r tracked queued (chosen e task rest j listed best keeps) k h =
    let (e1, e2, e3, e4) = launch-same e task s in
    let other : ((e.task_id == k) ≡ false) × (is_ready (lookup k s.states) ≡ true) =
      ground (arith, lookup-insert e.task_id k running s.states) in
    keeps k (ground (arith, tracked k other.1)) other.0 (queued k other.1)

pub dequeue-IsQueued :
    (now : ℕ) (s : Inner) → IsConsistent s → IsQueued s → IsQueued (dequeue now s).0
unfolding has_key
dequeue-IsQueued now s c q =
    let w = age_entries-SameWork now s.ready_heap s in
    Chooses-IsQueued (aged now s) (aged_entries now s) (dequeue now s)
      (λ k h. rw (w.same_tasks) (ground (arith, c.progress.tracked k, w.same_states)))
      (λ k h.
        subst (λ xs. contains k xs ≡ true) (sym (age_entries-ids now s.ready_heap s))
          (q k (subst (λ m. is_ready (lookup k m) ≡ true) w.same_states h)))
      (dequeue-Chooses now s)

Chooses-IsConsistent :
    (s : Inner) (heap : List ReadyEntry) (held : TaskId → Bool) (r : Inner × Option TaskDescriptor)
    → IsConsistent s
    → Chooses s heap held r
    → IsConsistent r.0
Chooses-IsConsistent s heap held r c (idle rest none_of keeps) = record {
  graph = c.graph;
  progress = c.progress;
}
Chooses-IsConsistent s heap held r c (chosen e task rest j listed best keeps) =
    let l = launch-IsConsistent s e task j c in record { graph = l.graph; progress = l.progress }

pub dequeue-IsConsistent : (now : ℕ) (s : Inner) → IsConsistent s → IsConsistent (dequeue now s).0
dequeue-IsConsistent now s c =
    Chooses-IsConsistent (aged now s) (aged_entries now s) _ (dequeue now s)
      (SameWork-IsConsistent (age_entries-SameWork now s.ready_heap s) c) (dequeue-Chooses now s)
