-- ===== src/Dag/Invariant/Finish.antt =====
-- `complete` keeps the invariant, and the degrees that it lowers are never zero.
use knitting_crab.Prelude.{
  ℕ, suc, zero, ◌-◌, ◌≡◌, refl, sym, subst, ◌∙◌, ap, true, false, some, List, [], ◌∷◌, lookup,
  insert, lookup-insert, has_key, contains, arith, Bool-cases, ==_refl, inl, inr,
}
use mathlib.Core.List.{Memᴰ}
use knitting_crab.Core.Task.{TaskId, TaskDescriptor}
use knitting_crab.Core.Error.{ok, returns}
use knitting_crab.Dag.Policy.{new_metadata}
use knitting_crab.Dag.State.{Inner, ready, running, completed, successors_of}
use knitting_crab.Dag.Enqueue.{ready_entry}
use knitting_crab.Dag.Finish.{release_running, is_pending, unblock_one, unblock, finish, complete}
use knitting_crab.Dag.Invariant.{Distinct, IsGraph, IsProgress, IsConsistent, HasEntry}
use knitting_crab.Dag.Invariant.Lower.{
  Lowers, lowered-Lowers, readied-Lowers, Lowers-refl, Lowers-next,
}
use knitting_crab.Dag.Invariant.Progress.{
  state-known, IsProgress-state, IsProgress-complete, IsProgress-lower,
}

-- A step that neither adds a task nor an edge, and leaves `xs` to be unblocked.
pub record Advances (xs : List TaskId) (s s' : Inner) : Type 0 where
  pub same_tasks : s'.tasks ≡ s.tasks
  pub same_successors : s'.successors ≡ s.successors
  pub progress : IsProgress xs s.tasks s'.states s'.in_degree
  pub kept :
      (k : TaskId) → is_pending (lookup k s.states) ≡ false → lookup k s'.states ≡ lookup k s.states
  pub queue : (k : TaskId) → HasEntry s k → HasEntry s' k

module _ (now : ℕ) (x : TaskId) (xs : List TaskId) (s : Inner) (t : TaskDescriptor)
    (e : lookup x s.tasks ≡ some t) (p : IsProgress (x ∷ xs) s.tasks s.states s.in_degree)
    (once : contains x xs ≡ false) where
  lowered : ℕ → Inner
  lowered left = record s { in_degree = insert x left s.in_degree }

  readied : ℕ → Inner
  readied left = record s {
    in_degree = insert x left s.in_degree;
    states = insert x ready s.states;
    metadata = insert x (new_metadata t.priority now) s.metadata;
    ready_heap = ready_entry t.priority x ∷ s.ready_heap;
  }

  lowered-Advances :
      (left : ℕ) → lookup x s.in_degree ≡ some (suc left) → Advances xs s (lowered left)
  unfolding lowered
  lowered-Advances left d = record {
    same_tasks = refl;
    same_successors = refl;
    progress = IsProgress-lower p once left d;
    kept = λ k h. refl;
    queue = λ k h. h;
  }

  readied-Advances :
      lookup x s.in_degree ≡ some (suc zero)
      → is_pending (lookup x s.states) ≡ true
      → Advances xs s (readied zero)
  unfolding readied is_pending has_key
  readied-Advances d h = record {
    same_tasks = refl;
    same_successors = refl;
    progress =
        IsProgress-state (IsProgress-lower p once zero d) x ready (ground arith) (ground arith) refl
          λ t' e' _. let (n, found, bound) = p.counted x t' e' in ground arith;
    kept = λ k old. ground (arith, lookup-insert x k ready s.states);
    queue = λ k h r. ground (arith, lookup-insert x k ready s.states, h);
  }

  unblock_one-Advances :
      (left : ℕ)
      → lookup x s.in_degree ≡ some (suc left)
      → (s' : Inner) × (unblock_one now x s ≡ some s') × Advances xs s s' × Lowers (x ∷ []) s s'
  unblock_one-Advances zero d = elim (Bool-cases (is_pending (lookup x s.states))) [
    | inl h ↦ (
      readied zero,
      unfold unblock_one readied in ground arith,
      readied-Advances d h,
      unfold readied in readied-Lowers x s now t e d,
    )
    | inr h ↦ (
      lowered zero,
      unfold unblock_one lowered in ground arith,
      lowered-Advances zero d,
      unfold lowered in lowered-Lowers x s zero d (λ z. h),
    )
  ]
  unblock_one-Advances (suc left) d = (
    lowered (suc left),
    unfold unblock_one lowered in ground arith,
    lowered-Advances (suc left) d,
    unfold lowered in lowered-Lowers x s (suc left) d (λ z. absurd (omega arith)),
  )

  -- The degree of a debtor is not zero.
  degree_positive : (left : ℕ) × (lookup x s.in_degree ≡ some (suc left))
  degree_positive = let (n, found, bound) = p.counted x t e in (n - 1, ground arith)

  unblock_one_lem :
      (s' : Inner) × (unblock_one now x s ≡ some s') × Advances xs s s' × Lowers (x ∷ []) s s'
  unblock_one_lem = unblock_one-Advances degree_positive.0 degree_positive.1

-- A round, and then the other rounds.
unblock_next :
    (now : ℕ) (x : TaskId) (xs : List TaskId) (s s1 : Inner)
    → unblock_one now x s ≡ some s1
    → Advances xs s s1
    → Lowers (x ∷ []) s s1
    → contains x xs ≡ false
    → (s2 : Inner) × (unblock now xs s1 ≡ some s2) × Advances [] s1 s2 × Lowers xs s1 s2
    → (s2 : Inner) × (unblock now (x ∷ xs) s ≡ some s2) × Advances [] s s2 × Lowers (x ∷ xs) s s2
unfolding unblock
unblock_next now x xs s s1 e1 a1 l1 once (s2, e2, a2, l2) = (
  s2,
  rw (e1, unblock) e2,
  record {
    same_tasks = a2.same_tasks ∙ a1.same_tasks;
    same_successors = a2.same_successors ∙ a1.same_successors;
    progress = subst (λ m. IsProgress [] m s2.states s2.in_degree) a1.same_tasks a2.progress;
    kept = λ k h. a2.kept k (rw (a1.kept k h) h) ∙ a1.kept k h;
    queue = λ k h. a2.queue k (a1.queue k h);
  },
  Lowers-next x xs s s1 s2 once a1.same_tasks l1 l2,
)

-- The loop lowers each degree once.
unblock_lem :
    (now : ℕ) (xs : List TaskId) (s : Inner)
    → ((x : TaskId) → contains x xs ≡ true → (t : TaskDescriptor) × (lookup x s.tasks ≡ some t))
    → Distinct xs
    → IsProgress xs s.tasks s.states s.in_degree
    → (s' : Inner) × (unblock now xs s ≡ some s') × Advances [] s s' × Lowers xs s s'
unfolding unblock
unblock_lem now [] s task d p = (
  s,
  refl,
  record {
    same_tasks = refl;
    same_successors = refl;
    progress = p;
    kept = λ k h. refl;
    queue = λ k h. h;
  },
  Lowers-refl s,
)
unblock_lem now (x ∷ xs) s task d p =
    let (t, e) = task x (ground arith) in
    let (s1, e1, a1, l1) = unblock_one_lem now x xs s t e p d.0 in
    unblock_next now x xs s s1 e1 a1 l1 d.0 (
      unblock_lem now xs s1
        (λ y m.
          subst (λ m'. (t' : TaskDescriptor) × (lookup y m' ≡ some t')) (sym a1.same_tasks)
            (task y (ground arith)))
        d.1 (subst (λ m. IsProgress xs m s1.states s1.in_degree) (sym a1.same_tasks) a1.progress))

-- The state that `unblock` starts from.
settled : TaskId → Inner → Inner
settled id s = release_running id (record s { states = insert id completed s.states })

settled-same :
    (id : TaskId) (s : Inner)
    → let t = settled id s in
      (t.tasks ≡ s.tasks)
      × (t.successors ≡ s.successors)
      × (t.states ≡ insert id completed s.states)
      × (t.in_degree ≡ s.in_degree)
      × (t.ready_heap ≡ s.ready_heap)
unfolding settled release_running
settled-same id s = ground arith

finish-settled :
    (id : TaskId) (now : ℕ) (s t : Inner)
    → unblock now (successors_of id (settled id s).successors) (settled id s) ≡ some t
    → finish id now s ≡ returns t (ok tt)
unfolding finish settled
finish-settled id now s t h = rw (h, finish)

settled-Advances :
    (id : TaskId) (s t : Inner)
    → IsGraph s.tasks s.successors
    → Advances [] (settled id s) t
    → IsConsistent t
      × (lookup id t.states ≡ some completed)
      × ((k : TaskId) → HasEntry s k → HasEntry t k)
settled-Advances id s t g a =
    let (e1, e2, e3, e4, e5) = settled-same id s in
    (
      record {
        graph = rw (a.same_tasks, e1, a.same_successors, e2) g;
        progress = subst (λ m. IsProgress [] m t.states t.in_degree) (sym a.same_tasks) a.progress;
      },
      a.kept id (
            rw (e3, lookup-insert id id completed s.states, ==_refl id) (unfold is_pending in refl))
          ∙ rw (e3, lookup-insert id id completed s.states, ==_refl id) refl,
      λ k h.
          a.queue k
            (rw (e3, e5) λ r. h (let f = lookup-insert id k completed s.states in ground arith)),
    )

-- Only the state of `id` is changed, to completed.
abbrev pub marked : TaskId → Inner → Inner
marked id s = record s { states = insert id completed s.states }

settled-Lowers :
    (id : TaskId) (xs : List TaskId) (s t : Inner)
    → Lowers xs (settled id s) t
    → Lowers xs (marked id s) t
settled-Lowers id xs s t l =
    let (e1, e2, e3, e4, e5) = settled-same id s in
    record {
      below = λ k m. let (n, a, b) = l.below k m in (n, ap (lookup k) (sym e4) ∙ a, b);
      last = λ k m d p.
          let (woken, pushed) = l.last k m (ap (lookup k) e4 ∙ d) (ap (lookup k) e3 ∙ p) in
          (woken, λ u found. pushed u (ap (lookup k) e1 ∙ found));
      more = λ k n m d. l.more k n m (ap (lookup k) e4 ∙ d) ∙ ap (lookup k) e3;
      others = λ k m. let (a, b) = l.others k m in (a ∙ ap (lookup k) e3, b ∙ ap (lookup k) e4);
      heap_kept = λ e m. l.heap_kept e (subst (Memᴰ e) (sym e5) m);
    }

-- The state after a completion.
pub record Completes (id : TaskId) (s t : Inner) : Type 0 where
  pub consistent : IsConsistent t
  pub tasks_kept : t.tasks ≡ s.tasks
  pub done : lookup id t.states ≡ some completed
  pub freed : Lowers (successors_of id s.successors) (marked id s) t
  pub settled_kept :
      (k : TaskId)
      → is_pending (lookup k (marked id s).states) ≡ false
      → lookup k t.states ≡ lookup k (marked id s).states
  pub entries_kept : (k : TaskId) → HasEntry s k → HasEntry t k

pub complete-running :
    (id : TaskId) (now : ℕ) (s : Inner)
    → IsConsistent s
    → lookup id s.states ≡ some running
    → (t : Inner) × (complete id now s ≡ returns t (ok tt)) × Completes id s t
unfolding complete
complete-running id now s c h =
    let (e1, e2, e3, e4, e5) = settled-same id s in
    let g : IsGraph (settled id s).tasks (settled id s).successors = rw (e1, e2) c.graph in
    let p : IsProgress (successors_of id s.successors) s.tasks (insert id completed s.states)
        s.in_degree =
      IsProgress-complete c.graph c.progress id (state-known c.progress id running h) (ground arith)
        (ground arith) in
    let (t, e, a, l) =
      unblock_lem now (successors_of id (settled id s).successors) (settled id s)
        (λ x m. let (t', found, _) = g.linked id x m in (t', found)) (g.distinct id)
        (rw (e1, e2, e3, e4) p) in
    let (c', done, q) = settled-Advances id s t c.graph a in
    (
      t,
      rw (h, complete) (finish-settled id now s t e),
      record {
        consistent = c';
        tasks_kept = a.same_tasks ∙ e1;
        done = done;
        freed =
            settled-Lowers id (successors_of id s.successors) s t
              (subst (λ m. Lowers (successors_of id m) (settled id s) t) e2 l);
        settled_kept =
            λ k old. a.kept k (ap (λ m. is_pending (lookup k m)) e3 ∙ old) ∙ ap (lookup k) e3;
        entries_kept = q;
      },
    )
