-- ===== src/Dag/Invariant/Requeue.antt =====
-- `requeue` keeps the invariant: a new attempt number changes no dependency.
use knitting_crab.Prelude.{
  ℕ, ◌≡◌, refl, sym, ◌∙◌, subst, true, false, Option, some, List, [], Map, lookup, insert,
  lookup-insert, has_key, contains, ◌==◌, ==_iff, arith, Bool-cases, Option-cases, inl, inr,
}
use knitting_crab.Core.Task.{TaskId, TaskDescriptor}
use knitting_crab.Dag.State.{Inner, TaskState, ready, running, is_started, is_completed}
use knitting_crab.Dag.Dequeue.{set_attempt, is_running, requeue}
use knitting_crab.Dag.Rank.{rank, rank-insert}
use knitting_crab.Dag.Invariant.{IsGraph, IsProgress, IsConsistent, IsQueued}
use knitting_crab.Dag.Invariant.Progress.{state-known, IsProgress-state}
use knitting_crab.Dag.Invariant.Admit.{has_key-insert, found-has_key}

module _ (id : TaskId) (old new : TaskDescriptor) (tasks : Map TaskDescriptor)
    (at : lookup id tasks ≡ some old) (same_id : new.task_id ≡ old.task_id)
    (same_deps : new.dependencies ≡ old.dependencies) where
  -- What stands in the new map stood in the old one, with the same dependencies.
  back :
      (k : TaskId) (t : TaskDescriptor)
      → lookup k (insert id new tasks) ≡ some t
      → (t' : TaskDescriptor) × (lookup k tasks ≡ some t')
        × (t.dependencies ≡ t'.dependencies)
        × (t.task_id ≡ t'.task_id)
  back k t e = elim (Bool-cases (id == k)) [
    | inl same ↦
        let q : id ≡ k = (==_iff id k).0 same in
        let new_t : new ≡ t = ground (arith, lookup-insert id k new tasks) in
        (
          old,
          subst (λ j. lookup j tasks ≡ some old) q at,
          subst (λ u. u.dependencies ≡ old.dependencies) new_t same_deps,
          subst (λ u. u.task_id ≡ old.task_id) new_t same_id,
        )
    | inr other ↦ (t, ground (arith, lookup-insert id k new tasks), refl, refl)
  ]

  has_key_same : (k : TaskId) → has_key k (insert id new tasks) ≡ has_key k tasks
  has_key_same k = elim (Bool-cases (id == k)) [
    | inl same ↦
        let q : id ≡ k = (==_iff id k).0 same in
        ground (
          arith,
          has_key-insert id k new tasks,
          subst (λ j. has_key j tasks ≡ true) q (found-has_key id old tasks at),
        )
    | inr other ↦ ground (arith, has_key-insert id k new tasks)
  ]

  rank_same : (k : TaskId) → has_key k tasks ≡ true → rank k (insert id new tasks) ≡ rank k tasks
  rank_same k h = rank-insert id k new tasks (has_key_same k ∙ h)

  replaced-IsGraph :
      {successors : Map (List TaskId)}
      → IsGraph tasks successors
      → IsGraph (insert id new tasks) successors
  replaced-IsGraph g = record {
    named = λ k t e. let (t', e', d, i) = back k t e in i ∙ g.named k t' e';
    known = λ k t d e m.
        let (t', e', ds, i) = back k t e in
        let (known_d, less) = g.known k t' d e' (subst (λ xs. contains d xs ≡ true) ds m) in
        (
          has_key_same d ∙ known_d,
          omega (arith, rank_same d known_d, rank_same k (found-has_key k t' tasks e')),
        );
    linked = λ d x m.
        let (t, e, dep) = g.linked d x m in
        elim (Bool-cases (id == x)) [
          | inl same ↦
              let q : id ≡ x = (==_iff id x).0 same in
              let old_t : old ≡ t = ground (arith, subst (λ j. lookup j tasks ≡ some old) q at) in
              (
                new,
                ground (arith, lookup-insert id x new tasks),
                subst (λ xs. contains d xs ≡ true) (sym same_deps)
                    (subst (λ u. contains d u.dependencies ≡ true) (sym old_t) dep),
              )
          | inr other ↦ (t, ground (arith, lookup-insert id x new tasks), dep)
        ];
    linked_back = λ k t d e m.
        let (t', e', ds, i) = back k t e in
        g.linked_back k t' d e' (subst (λ xs. contains d xs ≡ true) ds m);
    distinct = g.distinct;
  }

  replaced-IsProgress :
      {states : Map TaskState} {degrees : Map ℕ}
      → IsProgress [] tasks states degrees
      → IsProgress [] (insert id new tasks) states degrees
  replaced-IsProgress {states} p = record {
    tracked = λ k. has_key_same k ∙ p.tracked k;
    counted = λ k t e.
        let (t', e', ds, i) = back k t e in
        let (n, found, bound) = p.counted k t' e' in (n, found, rw ds bound);
    started = λ k t e h. let (t', e', ds, i) = back k t e in rw ds (p.started k t' e' h);
  }

pub set_attempt-IsConsistent :
    (id : TaskId) (attempt : ℕ) (s : Inner)
    → IsConsistent s
    → IsConsistent (set_attempt id attempt s)
unfolding set_attempt
set_attempt-IsConsistent id attempt s c = elim (Option-cases (lookup id s.tasks)) [
  | inl e ↦ rw (e, set_attempt) c
  | inr (t, e) ↦
      rw (e, set_attempt)
        (record {
          graph =
              replaced-IsGraph id t (record t { attempt = attempt }) s.tasks e refl refl c.graph;
          progress =
              replaced-IsProgress id t (record t { attempt = attempt }) s.tasks e refl refl
                c.progress;
        })
]

-- A running task goes back to the ready ones; any other call leaves the states as they are.
pub requeue-IsConsistent :
    (id : TaskId) (attempt now : ℕ) (s : Inner)
    → IsConsistent s
    → IsConsistent (requeue id attempt now s)
unfolding requeue
requeue-IsConsistent id attempt now s c =
    let s' = set_attempt id attempt s in
    let c' = set_attempt-IsConsistent id attempt s c in
    elim (Bool-cases (is_running (lookup id s'.states))) [
      | inr h ↦ rw (h, requeue) c'
      | inl h ↦
          rw (h, requeue)
            (record {
              graph = c'.graph;
              progress =
                  IsProgress-state c'.progress id ready
                    (state-known c'.progress id running (is_running_inv _ h)) (done_false _ h) refl
                    (λ t e _. c'.progress.started id t e (start_true _ h));
            })
    ]
  where
    is_running_inv : (o : Option TaskState) → is_running o ≡ true → o ≡ some running
    is_running_inv o h = unfold is_running in ground arith

    done_false : (o : Option TaskState) → is_running o ≡ true → is_completed o ≡ false
    done_false o h = unfold is_running in ground arith

    start_true : (o : Option TaskState) → is_running o ≡ true → is_started o ≡ true
    start_true o h = unfold is_running in ground arith

pub requeue-IsQueued :
    (id : TaskId) (attempt now : ℕ) (s : Inner) → IsQueued s → IsQueued (requeue id attempt now s)
unfolding requeue set_attempt
requeue-IsQueued id attempt now s q k = ground (arith, q k, lookup-insert id k ready s.states)
