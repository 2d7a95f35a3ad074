-- ===== src/TimeSlice/Round.antt =====
-- A full round of turns, and a hundred turns of a scheduler's own queue.
use knitting_crab.Prelude.{
  ℕ, zero, suc, ◌+◌, ◌%◌, ◌<◌, ◌≡◌, refl, sym, ap, subst, ◌∙◌, Option, none, some, List, [], ◌∷◌,
  ◌++◌, length, get_elem?, length-append, ◌==◌, if◌then◌else◌, u64_mod, arith,
}
use native.Mathlib.Nat.{mod-eq_of_lt, mod_self}
use knitting_crab.Core.Priority.{Priority, low, normal, high, critical, as_u8, weight_percentage}
use knitting_crab.TimeSlice.{SchedulerState, new_state, priority_at, advance, next_priority}

-- The priorities of some turns, and the state after them.
abbrev pub put_first :
    Priority → Option (SchedulerState × List Priority) → Option (SchedulerState × List Priority)
put_first p none = none
put_first p (some (s, ps)) = some (s, p ∷ ps)

unfoldable pub turns : ℕ → SchedulerState → Option (SchedulerState × List Priority)
unfolding next_priority
turns zero s = some (s, [])
turns (suc n) s = elim (next_priority s) [ none ↦ none | some (t, p) ↦ put_first p (turns n t) ]

get_elem?-append :
    (xs ys : List Priority) (y : Priority) → get_elem? (xs ++ y ∷ ys) (length xs) ≡ some y
get_elem?-append [] ys y = refl
get_elem?-append (x ∷ xs) ys y = get_elem?-append xs ys y

priority_at-some :
    (q : List Priority) (i : ℕ) (s : SchedulerState) (y : Priority)
    → get_elem? q i ≡ some y
    → priority_at q i s ≡ some (advance s, y)
unfolding priority_at
priority_at-some [] i s y h = cc
priority_at-some (x ∷ xs) i s y h = rw (h, priority_at) refl

next_priority_lem :
    (s : SchedulerState) (xs ys : List Priority) (y : Priority)
    → s.queue ≡ xs ++ y ∷ ys
    → s.current_index ≡ length xs
    → next_priority s ≡ some (advance s, y)
unfolding next_priority
next_priority_lem s xs ys y q i = priority_at-some s.queue s.current_index s y (
    ap (λ r. get_elem? r s.current_index) q
    ∙ ap (get_elem? (xs ++ y ∷ ys)) i
    ∙ get_elem?-append xs ys y)

-- The last position leads to a new round, any other to the next position.
advance_last :
    (s : SchedulerState)
    → s.current_index + 1 ≡ length s.queue
    → advance s ≡ record s { current_index = 0; round_counter = (s.round_counter + 1) % u64_mod }
unfolding advance
advance_last s e =
    let z : (s.current_index + 1) % length s.queue ≡ 0 =
      subst (λ n. n % length s.queue ≡ 0) (sym e) (mod_self (length s.queue)) in
    ground arith

advance_inside :
    (s : SchedulerState)
    → s.current_index + 1 < length s.queue
    → advance s ≡ record s { current_index = s.current_index + 1 }
unfolding advance
advance_inside s l = let z = mod-eq_of_lt l in ground arith

turns_step :
    (n : ℕ) (s t : SchedulerState) (p : Priority)
    → next_priority s ≡ some (t, p)
    → turns (suc n) s ≡ put_first p (turns n t)
unfolding turns
turns_step n s t p h = rw (h, turns) refl

append_one : (xs ys : List Priority) (y : Priority) → (xs ++ y ∷ []) ++ ys ≡ xs ++ y ∷ ys
append_one [] ys y = refl
append_one (x ∷ xs) ys y = ap (λ zs. x ∷ zs) (append_one xs ys y)

-- From the position at which the rest of the queue begins.
turns-rest :
    (s : SchedulerState) (xs ys : List Priority) (y : Priority)
    → s.queue ≡ xs ++ y ∷ ys
    → s.current_index ≡ length xs
    → turns (length (y ∷ ys)) s
      ≡ some
          (record s { current_index = 0; round_counter = (s.round_counter + 1) % u64_mod }, y ∷ ys)
unfolding turns
turns-rest s xs [] y q i =
    let n : length s.queue ≡ length (xs ++ y ∷ []) = ap (λ r. length r) q in
    turns_step 0 s (advance s) y (next_priority_lem s xs [] y q i)
    ∙ ap (λ t. some (t, y ∷ []))
        (advance_last s (omega (arith, n, i, length-append {0} xs (y ∷ []))))
turns-rest s xs (z ∷ zs) y q i =
    let n : length s.queue ≡ length (xs ++ y ∷ z ∷ zs) = ap (λ r. length r) q in
    turns_step (suc (length zs)) s (advance s) y (next_priority_lem s xs (z ∷ zs) y q i)
    ∙ ap (λ t. put_first y (turns (suc (length zs)) t))
        (advance_inside s (omega (arith, n, i, length-append {0} xs (y ∷ z ∷ zs))))
    ∙ ap (put_first y) (
        turns-rest (record s { current_index = s.current_index + 1 }) (xs ++ y ∷ []) zs z
          (q ∙ sym (append_one xs (z ∷ zs) y)) (omega (arith, i, length-append {0} xs (y ∷ []))))

-- From the start of a round, as many turns as the queue is long hand out the queue in its order,
-- and lead to the start of the next round.
pub turns-round :
    (s : SchedulerState)
    → 0 < length s.queue
    → s.current_index ≡ 0
    → turns (length s.queue) s
      ≡ some
          (record s { current_index = 0; round_counter = (s.round_counter + 1) % u64_mod }, s.queue)
turns-round s l i = go s.queue refl
  where
    go :
        (q : List Priority)
        → s.queue ≡ q
        → turns (length q) s
          ≡ some
              (record s { current_index = 0; round_counter = (s.round_counter + 1) % u64_mod }, q)
    go [] e = let n : length s.queue ≡ 0 = ap (λ r. length r) e in grind arith
    go (y ∷ ys) e = turns-rest s [] ys y e i

-- How often a priority stands in a list.
pub count : Priority → List Priority → ℕ
unfolding as_u8
count p [] = 0
count p (x ∷ xs) = (if as_u8 x == as_u8 p then 1 else 0) + count p xs

count-new_state : (p : Priority) → count p new_state.queue ≡ weight_percentage p
unfolding count new_state weight_percentage
count-new_state low = refl
count-new_state normal = refl
count-new_state high = refl
count-new_state critical = refl

new_state_length : length new_state.queue ≡ 100
unfolding new_state
new_state_length = refl

-- From the start of a round of a scheduler's own queue, a hundred turns give each priority as many
-- turns as its percentage.
pub turns-weight_percentage :
    (p : Priority) (s : SchedulerState)
    → s.queue ≡ new_state.queue
    → s.current_index ≡ 0
    → (ps : List Priority) × (turns 100 s
        ≡ some
            (record s { current_index = 0; round_counter = (s.round_counter + 1) % u64_mod }, ps))
      × (count p ps ≡ weight_percentage p)
turns-weight_percentage p s q i =
    let n : length s.queue ≡ 100 = ap (λ r. length r) q ∙ new_state_length in
    (
      s.queue,
      subst
          (λ k.
            turns k s
            ≡ some (
              record s { current_index = 0; round_counter = (s.round_counter + 1) % u64_mod },
              s.queue,
            ))
          n (turns-round s (omega (arith, n)) i),
      ap (count p) q ∙ count-new_state p,
    )
