-- ===== src/Dag/Greatest.antt =====
-- `pop` takes a greatest entry, and keeps the others.
use knitting_crab.Prelude.{
  suc, ◌≤◌, ◌≡◌, ◌↔◌, refl, sym, subst, true, false, ◌||◌, none, some, List, [], ◌∷◌, length,
  contains, ◌==◌, arith, All, Bool-cases, inl, inr,
}
use knitting_crab.Core.Priority.{as_u8}
use knitting_crab.Core.Task.{TaskId}
use knitting_crab.Dag.Heap.{ReadyEntry, entry_le, take_max, pop}

-- The tasks that stand in the heap.
abbrev pub ids : List ReadyEntry → List TaskId
ids [] = []
ids (e ∷ es) = e.task_id ∷ ids es

entry_le_refl : (e : ReadyEntry) → entry_le e e ≡ true
unfolding entry_le
entry_le_refl e = ground arith

entry_le-total : (e f : ReadyEntry) → entry_le e f ≡ false → entry_le f e ≡ true
unfolding entry_le
entry_le-total e f h = ground arith

entry_le_trans :
    (e f g : ReadyEntry) → entry_le e f ≡ true → entry_le f g ≡ true → entry_le e g ≡ true
unfolding entry_le
entry_le_trans e f g h k = ground arith

pub entry_le-priority :
    (e f : ReadyEntry)
    → entry_le e f ≡ true
    → as_u8 e.effective_priority ≤ as_u8 f.effective_priority
unfolding entry_le
entry_le-priority e f h = ground arith

-- One round: the greater of two entries goes on, and the other stays.
take_max_up :
    (e f : ReadyEntry) (es : List ReadyEntry)
    → entry_le e f ≡ true
    → take_max e (f ∷ es) ≡ ((take_max f es).0, e ∷ (take_max f es).1)
unfolding take_max
take_max_up e f es h = rw (h, take_max)

take_max_down :
    (e f : ReadyEntry) (es : List ReadyEntry)
    → entry_le e f ≡ false
    → take_max e (f ∷ es) ≡ ((take_max e es).0, f ∷ (take_max e es).1)
unfolding take_max
take_max_down e f es h = rw (h, take_max)

-- The first part of `r` is at least `e` and all of the second.
abbrev Tops : ReadyEntry → ReadyEntry × List ReadyEntry → Type 0
Tops e r = (entry_le e r.0 ≡ true) × All (λ f. entry_le f r.0 ≡ true) r.1

take_max-Tops : (e : ReadyEntry) (es : List ReadyEntry) → Tops e (take_max e es)
take_max-Tops e [] = unfold take_max in (entry_le_refl e, tt)
take_max-Tops e (f ∷ es) = elim (Bool-cases (entry_le e f)) [
  | inl h ↦
      let (top, rest) = take_max-Tops f es in
      let first : entry_le e (take_max f es).0 ≡ true =
        entry_le_trans e f (take_max f es).0 h top in
      subst (Tops e) (sym (take_max_up e f es h)) (first, (first, rest))
  | inr h ↦
      let (top, rest) = take_max-Tops e es in
      subst (Tops e) (sym (take_max_down e f es h))
        (top, (entry_le_trans f e (take_max e es).0 (entry_le-total e f h) top, rest))
]

module _ {ℓ} (P : ReadyEntry → Type ℓ) where
  take_max-All :
      (e : ReadyEntry) (es : List ReadyEntry)
      → P e
      → All P es
      → P (take_max e es).0 × All P (take_max e es).1
  unfolding take_max
  take_max-All e [] p ps = (p, tt)
  take_max-All e (f ∷ es) p ps = elim (Bool-cases (entry_le e f)) [
    | inl h ↦ let (a, b) = take_max-All f es ps.0 ps.1 in rw (h, take_max) (a, (p, b))
    | inr h ↦ let (a, b) = take_max-All e es p ps.1 in rw (h, take_max) (a, (ps.0, b))
  ]

  take_max-All_back :
      (e : ReadyEntry) (es : List ReadyEntry)
      → P (take_max e es).0
      → All P (take_max e es).1
      → P e × All P es
  unfolding take_max
  take_max-All_back e [] p ps = (p, tt)
  take_max-All_back e (f ∷ es) p ps = elim (Bool-cases (entry_le e f)) [
    | inl h ↦
        let p' : P (take_max f es).0 = rw (h, take_max) at p in
        let ps' : P e × All P (take_max f es).1 = rw (h, take_max) at ps in
        let (a, b) = take_max-All_back f es p' ps'.1 in (ps'.0, (a, b))
    | inr h ↦
        let p' : P (take_max e es).0 = rw (h, take_max) at p in
        let ps' : P f × All P (take_max e es).1 = rw (h, take_max) at ps in
        let (a, b) = take_max-All_back e es p' ps'.1 in (a, (ps'.0, b))
  ]

take_max-length : (e : ReadyEntry) (es : List ReadyEntry) → length (take_max e es).1 ≡ length es
unfolding take_max
take_max-length e [] = refl
take_max-length e (f ∷ es) = ground (arith, take_max-length f es, take_max-length e es)

take_max-ids :
    (k : TaskId) (e : ReadyEntry) (es : List ReadyEntry)
    → ((take_max e es).0.task_id == k || contains k (ids (take_max e es).1))
      ≡ (e.task_id == k || contains k (ids es))
unfolding take_max
take_max-ids k e [] = refl
take_max-ids k e (f ∷ es) = ground (arith, take_max-ids k f es, take_max-ids k e es)

-- All that the loop of `dequeue` needs of a pop.
pub record Pops (heap : List ReadyEntry) (e : ReadyEntry) (rest : List ReadyEntry) : Type 0 where
  pub smaller : length heap ≡ suc (length rest)
  pub greatest : All (λ f. entry_le f e ≡ true) heap
  pub same_ids : (k : TaskId) → (e.task_id == k || contains k (ids rest)) ≡ contains k (ids heap)

pub pop-Pops :
    (heap : List ReadyEntry) (e : ReadyEntry) (rest : List ReadyEntry)
    → pop heap ≡ some (e, rest)
    → Pops heap e rest
unfolding pop
pop-Pops [] e rest h = cc
pop-Pops (x ∷ xs) e rest h =
    let a : (take_max x xs).0 ≡ e = ground arith in
    let b : (take_max x xs).1 ≡ rest = ground arith in
    rw (← a, ← b)
      (record {
        smaller = omega (arith, take_max-length x xs);
        greatest =
            take_max-All_back (λ f. entry_le f (take_max x xs).0 ≡ true) x xs
              (entry_le_refl (take_max x xs).0) (take_max-Tops x xs).1;
        same_ids = λ k. take_max-ids k x xs;
      })

pub pop-All {ℓ} :
    (P : ReadyEntry → Type ℓ) (heap : List ReadyEntry) (e : ReadyEntry) (rest : List ReadyEntry)
    → pop heap ≡ some (e, rest)
    → All P heap ↔ (P e × All P rest)
unfolding pop
pop-All P [] e rest h = cc
pop-All P (x ∷ xs) e rest h =
    let a : (take_max x xs).0 ≡ e = ground arith in
    let b : (take_max x xs).1 ≡ rest = ground arith in
    rw (← a, ← b) ((λ p. take_max-All P x xs p.0 p.1), (λ p. take_max-All_back P x xs p.0 p.1))

pub pop-none : (heap : List ReadyEntry) → pop heap ≡ none → heap ≡ []
unfolding pop
pop-none [] h = refl
pop-none (x ∷ xs) h = cc
