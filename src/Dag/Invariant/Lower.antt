-- ===== src/Dag/Invariant/Lower.antt =====
-- What the loop of `complete` does to the degrees, the states and the heap.
use knitting_crab.Prelude.{
  ℕ, suc, zero, ◌≡◌, refl, sym, subst, ◌∙◌, ap, true, false, some, List, [], ◌∷◌, lookup, insert,
  lookup-insert, contains, arith, ==_iff, Bool-cases, inl, inr,
}
use mathlib.Core.List.{Memᴰ}
use knitting_crab.Core.Task.{TaskId, TaskDescriptor}
use knitting_crab.Dag.Policy.{new_metadata}
use knitting_crab.Dag.Heap.{ReadyEntry}
use knitting_crab.Dag.State.{Inner, pending, ready}
use knitting_crab.Dag.Finish.{is_pending}
use knitting_crab.Dag.Enqueue.{ready_entry}

-- The entry of a task that is pushed with its own priority.
abbrev pub entry_of : TaskDescriptor → TaskId → ReadyEntry
entry_of task id = record {
  original_priority = task.priority;
  effective_priority = task.priority;
  task_id = id;
}

-- The task is ready in `s'`, with an entry of its own priority.
abbrev pub Woken : TaskId → Inner → Inner → Type 0
Woken k s s' =
    (lookup k s'.states ≡ some ready)
    × ((u : TaskDescriptor) → lookup k s.tasks ≡ some u → Memᴰ (entry_of u k) s'.ready_heap)

-- The tasks `xs` lose one open dependency each, and nothing else changes.
pub record Lowers (xs : List TaskId) (s s' : Inner) : Type 0 where
  pub below :
      (k : TaskId)
      → contains k xs ≡ true
      → (n : ℕ) × (lookup k s.in_degree ≡ some (suc n)) × (lookup k s'.in_degree ≡ some n)
  pub last :
      (k : TaskId)
      → contains k xs ≡ true
      → lookup k s.in_degree ≡ some 1
      → lookup k s.states ≡ some pending
      → Woken k s s'
  pub more :
      (k : TaskId) (n : ℕ)
      → contains k xs ≡ true
      → lookup k s.in_degree ≡ some (suc (suc n))
      → lookup k s'.states ≡ lookup k s.states
  pub others :
      (k : TaskId)
      → contains k xs ≡ false
      → (lookup k s'.states ≡ lookup k s.states) × (lookup k s'.in_degree ≡ lookup k s.in_degree)
  pub heap_kept : (e : ReadyEntry) → Memᴰ e s.ready_heap → Memᴰ e s'.ready_heap

is_first : (k x : TaskId) → contains k (x ∷ []) ≡ true → x ≡ k
is_first k x m = (==_iff x k).0 (ground arith)

module _ (x : TaskId) (s : Inner) where
  -- A round that leaves the state of `x`.
  pub lowered-Lowers :
      (left : ℕ)
      → lookup x s.in_degree ≡ some (suc left)
      → (left ≡ zero → is_pending (lookup x s.states) ≡ false)
      → Lowers (x ∷ []) s (record s { in_degree = insert x left s.in_degree })
  unfolding is_pending
  lowered-Lowers left d idle = record {
    below = λ k m.
        let q = is_first k x m in
        (
          left,
          subst (λ j. lookup j s.in_degree ≡ some (suc left)) q d,
          ground (arith, lookup-insert x k left s.in_degree),
        );
    last = λ k m one waits.
        let q = is_first k x m in
        let one' : lookup x s.in_degree ≡ some 1 =
          subst (λ j. lookup j s.in_degree ≡ some 1) (sym q) one in
        let waits' : lookup x s.states ≡ some pending =
          subst (λ j. lookup j s.states ≡ some pending) (sym q) waits in
        let zero_left : left ≡ zero = ground arith in
        let not_waiting : is_pending (lookup x s.states) ≡ false = idle zero_left in
        absurd (ground arith);
    more = λ k n m e. refl;
    others = λ k m. (refl, ground (arith, lookup-insert x k left s.in_degree));
    heap_kept = λ e m. m;
  }

  -- A round that makes `x` ready.
  pub readied-Lowers :
      (now : ℕ) (t : TaskDescriptor)
      → lookup x s.tasks ≡ some t
      → lookup x s.in_degree ≡ some (suc zero)
      → Lowers (x ∷ []) s (record s {
        in_degree = insert x zero s.in_degree;
        states = insert x ready s.states;
        metadata = insert x (new_metadata t.priority now) s.metadata;
        ready_heap = ready_entry t.priority x ∷ s.ready_heap;
      })
  readied-Lowers now t at d = record {
    below = λ k m.
        let q = is_first k x m in
        (
          zero,
          subst (λ j. lookup j s.in_degree ≡ some (suc zero)) q d,
          ground (arith, lookup-insert x k zero s.in_degree),
        );
    last = λ k m one waits.
        let q = is_first k x m in
        (
          ground (arith, lookup-insert x k ready s.states),
          λ u found.
              let same : u ≡ t = ground arith in
              Memᴰ.head (ap (λ v. entry_of v k) same ∙ ap (entry_of t) (sym q)),
        );
    more = λ k n m e.
        let q = is_first k x m in
        let e' : lookup x s.in_degree ≡ some (suc (suc n)) =
          subst (λ j. lookup j s.in_degree ≡ some (suc (suc n))) (sym q) e in
        absurd (ground arith);
    others = λ k m. (
      ground (arith, lookup-insert x k ready s.states),
      ground (arith, lookup-insert x k zero s.in_degree),
    );
    heap_kept = λ e m. Memᴰ.tail m;
  }

pub Lowers-refl : (s : Inner) → Lowers [] s s
Lowers-refl s = record {
  below = λ k m. cc;
  last = λ k m. cc;
  more = λ k n m. cc;
  others = λ k m. (refl, refl);
  heap_kept = λ e m. m;
}

-- A round, and then the others.
pub Lowers-next :
    (x : TaskId) (xs : List TaskId) (s s1 s2 : Inner)
    → contains x xs ≡ false
    → s1.tasks ≡ s.tasks
    → Lowers (x ∷ []) s s1
    → Lowers xs s1 s2
    → Lowers (x ∷ xs) s s2
Lowers-next x xs s s1 s2 once same a b = record {
  below = λ k m. elim (Bool-cases (contains k (x ∷ []))) [
    | inl h ↦
        let (n, d, d1) = a.below k h in
        let q = is_first k x h in
        let later = b.others k (subst (λ j. contains j xs ≡ false) q once) in (n, d, later.1 ∙ d1)
    | inr h ↦
        let (n, d, d1) = b.below k (ground arith) in
        let now_ = a.others k h in (n, sym (now_.1) ∙ d, d1)
  ];
  last = λ k m d p. elim (Bool-cases (contains k (x ∷ []))) [
    | inl h ↦
        let (woken, pushed) = a.last k h d p in
        let q = is_first k x h in
        let later = b.others k (subst (λ j. contains j xs ≡ false) q once) in
        (later.0 ∙ woken, λ u found. b.heap_kept (entry_of u k) (pushed u found))
    | inr h ↦
        let (kept, kept_degree) = a.others k h in
        let (woken, pushed) = b.last k (ground arith) (kept_degree ∙ d) (kept ∙ p) in
        (woken, λ u found. pushed u (rw same found))
  ];
  more = λ k n m d. elim (Bool-cases (contains k (x ∷ []))) [
    | inl h ↦
        let q = is_first k x h in
        let later = b.others k (subst (λ j. contains j xs ≡ false) q once) in
        later.0 ∙ a.more k n h d
    | inr h ↦
        let (kept, kept_degree) = a.others k h in b.more k n (ground arith) (kept_degree ∙ d) ∙ kept
  ];
  others = λ k m.
      let (kept, kept_degree) = a.others k (ground arith) in
      let (kept', kept_degree') = b.others k (ground arith) in
      (kept' ∙ kept, kept_degree' ∙ kept_degree);
  heap_kept = λ e m. b.heap_kept e (a.heap_kept e m);
}
