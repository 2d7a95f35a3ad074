-- ===== src/Dag/Choice.antt =====
-- What the loop of `dequeue` chooses: a greatest entry among those whose tasks can start.
use knitting_crab.Prelude.{
  ℕ, zero, suc, ◌≤◌, ◌≡◌, refl, ◌∙◌, sym, subst, Bool, true, false, ◌&&◌, ◌||◌, Option, none, some,
  List, [], ◌∷◌, ◌++◌, lookup, has_key, length, contains, ◌==◌, ==_iff, arith, All, All-map,
  Bool-cases, Option-cases, inl, inr, ◌⊎◌,
}
use mathlib.Core.List.{Memᴰ}
use knitting_crab.Core.Task.{TaskId, TaskDescriptor}
use knitting_crab.Dag.Heap.{ReadyEntry, entry_le, pop}
use knitting_crab.Dag.State.{Inner}
use knitting_crab.Dag.Dequeue.{Verdict, stale, blocked, start, is_ready, judge, launch, select}
use knitting_crab.Dag.Greatest.{ids, pop-Pops, pop-All, pop-none}

abbrev pub starts : Verdict → Bool
starts (start task) = true
starts _ = false

-- The entry's task is ready and fits.
abbrev pub can_start : Inner → ReadyEntry → Bool
can_start s e = starts (judge s e)

-- A ready task of the graph.
abbrev pub live : Inner → TaskId → Bool
live s k = is_ready (lookup k s.states) && has_key k s.tasks

pub data Chooses (s : Inner) (heap : List ReadyEntry) (held : TaskId → Bool)
    : Inner × Option TaskDescriptor → Type 0 where
  idle :
      (rest : List ReadyEntry)
      → All (λ f. can_start s f ≡ false) heap
      → ((k : TaskId) → live s k ≡ true → held k ≡ true → contains k (ids rest) ≡ true)
      → Chooses s heap held (record s { ready_heap = rest }, none)
  chosen :
      (e : ReadyEntry) (task : TaskDescriptor) (rest : List ReadyEntry)
      → judge s e ≡ start task
      → Memᴰ e heap
      → All (λ f. can_start s f ≡ true → entry_le f e ≡ true) heap
      → ((k : TaskId)
          → live s k ≡ true
          → (e.task_id == k) ≡ false
          → held k ≡ true
          → contains k (ids rest) ≡ true)
      → Chooses s heap held (record (launch e task s) { ready_heap = rest }, some task)

ids-append :
    (k : TaskId) (xs ys : List ReadyEntry)
    → contains k (ids (xs ++ ys)) ≡ (contains k (ids xs) || contains k (ids ys))
ids-append k [] ys = refl
ids-append k (x ∷ xs) ys = ground (arith, ids-append k xs ys)

Verdict-cases :
    (v : Verdict) → (v ≡ stale) ⊎ ((v ≡ blocked) ⊎ ((t : TaskDescriptor) × (v ≡ start t)))
Verdict-cases stale = inl refl
Verdict-cases blocked = inr (inl refl)
Verdict-cases (start t) = inr (inr (t, refl))

-- A stale entry is not that of a ready task.
stale-live :
    (s : Inner) (e : ReadyEntry) (k : TaskId)
    → judge s e ≡ stale
    → live s k ≡ true
    → (e.task_id == k) ≡ false
unfolding judge has_key
stale-live s e k h l = elim (Bool-cases (e.task_id == k)) [
  | inr f ↦ f
  | inl f ↦ let q : e.task_id ≡ k = (==_iff e.task_id k).0 f in ground arith
]

-- A popped entry and those that it leaves stood in the heap.
pop-Memᴰ :
    (f : ReadyEntry) (heap : List ReadyEntry) (e : ReadyEntry) (rest : List ReadyEntry)
    → pop heap ≡ some (e, rest)
    → (f ≡ e) ⊎ Memᴰ f rest
    → Memᴰ f heap
pop-Memᴰ f heap e rest p h = elim h [
  | inl q ↦ subst (λ g. Memᴰ g heap) (sym q) all_in.0
  | inr m ↦ All-Memᴰ f rest all_in.1 m
]
  where
    All-self :
        (whole xs : List ReadyEntry)
        → ((g : ReadyEntry) → Memᴰ g xs → Memᴰ g whole)
        → All (λ g. Memᴰ g whole) xs
    All-self whole [] into = tt
    All-self whole (x ∷ xs) into =
        (into x (Memᴰ.head refl), All-self whole xs (λ g m. into g (Memᴰ.tail m)))

    All-Memᴰ :
        (g : ReadyEntry) (xs : List ReadyEntry)
        → All (λ k. Memᴰ k heap) xs
        → Memᴰ g xs
        → Memᴰ g heap
    All-Memᴰ g [] hs m = elim m [ ]
    All-Memᴰ g (x ∷ xs) hs (Memᴰ.head q) = subst (λ k. Memᴰ k heap) (sym q) hs.0
    All-Memᴰ g (x ∷ xs) hs (Memᴰ.tail m) = All-Memᴰ g xs hs.1 m

    all_in : Memᴰ e heap × All (λ g. Memᴰ g heap) rest
    all_in = (pop-All (λ g. Memᴰ g heap) heap e rest p).0 (All-self heap heap (λ g m. m))

-- An entry that cannot start is popped, and the loop goes on.
Chooses-pop :
    (s : Inner) (heap : List ReadyEntry) (e : ReadyEntry) (rest : List ReadyEntry)
    (held held' : TaskId → Bool) {r : Inner × Option TaskDescriptor}
    → pop heap ≡ some (e, rest)
    → can_start s e ≡ false
    → ((k : TaskId) → live s k ≡ true → held k ≡ true → held' k ≡ true)
    → Chooses s rest held' r
    → Chooses s heap held r
Chooses-pop s heap e rest held held' p no_start weaker (idle left none_of keeps) =
    idle left ((pop-All (λ f. can_start s f ≡ false) heap e rest p).1 (no_start, none_of))
      (λ k l h. keeps k l (weaker k l h))
Chooses-pop s heap e rest held held' p no_start weaker (chosen f task left j listed best keeps) =
    chosen f task left j (pop-Memᴰ f heap e rest p (inr listed))
      ((pop-All (λ g. can_start s g ≡ true → entry_le g f ≡ true) heap e rest p).1
        ((λ h. cc), best))
      (λ k l d h. keeps k l d (weaker k l h))

-- The loop from a heap, with the entries that it has skipped.
pub select-Chooses :
    (fuel : ℕ) (heap skipped : List ReadyEntry) (s : Inner)
    → length heap ≤ fuel
    → Chooses s heap
        (λ k. contains k (ids skipped) || contains k (ids heap))
        (select fuel heap skipped s)
unfolding select
select-Chooses zero [] skipped s l = idle (skipped ++ []) tt (λ k _ h. ids-append k skipped [] ∙ h)
select-Chooses zero (x ∷ heap) skipped s l = absurd (omega arith)
select-Chooses (suc fuel) heap skipped s l = elim (Option-cases (pop heap)) [
  | inl e ↦
      rw (e, select)
        (idle (skipped ++ heap) (rw (pop-none heap e) tt) (λ k _ h. ids-append k skipped heap ∙ h))
  | inr ((e, rest), p) ↦
      let pops = pop-Pops heap e rest p in
      elim (Verdict-cases (judge s e)) [
        | inl v ↦
            rw (p, v, select)
              (Chooses-pop s heap e rest _ _ p (rw v refl)
                (λ k lv h. ground (arith, pops.same_ids k, stale-live s e k v lv))
                (select-Chooses fuel rest skipped s (omega (arith, pops.smaller))))
        | inr (inl v) ↦
            rw (p, v, select)
              (Chooses-pop s heap e rest _ _ p (rw v refl)
                (λ k lv h. ground (arith, pops.same_ids k))
                (select-Chooses fuel rest (e ∷ skipped) s (omega (arith, pops.smaller))))
        | inr (inr (task, v)) ↦
            rw (p, v, select)
              (chosen e task (skipped ++ rest) v (pop-Memᴰ e heap e rest p (inl refl))
                (All-map heap (λ f h _. h) pops.greatest)
                (λ k lv other h. ground (arith, pops.same_ids k, ids-append k skipped rest)))
      ]
]
