-- ===== src/Dag/Invariant/Link.antt =====
-- The reversed edges of a new task, and their undo.
use knitting_crab.Prelude.{
  ◌≡◌, refl, true, false, not, none, some, List, [], ◌∷◌, Map, lookup, insert, lookup-insert,
  contains, contains-retain, retain, if◌then◌else◌, ◌==◌, arith, Bool-cases, Option-cases, inl, inr,
}
use knitting_crab.Core.Task.{TaskId}
use knitting_crab.Dag.State.{successors_of}
use knitting_crab.Dag.Enqueue.{set_insert, set_remove, link, unlink}
use knitting_crab.Dag.Invariant.{Distinct}

pub successors_of-insert :
    (k d : TaskId) (xs : List TaskId) (m : Map (List TaskId))
    → successors_of d (insert k xs m) ≡ (if k == d then xs else successors_of d m)
unfolding successors_of
successors_of-insert k d xs m = ground (arith, lookup-insert k d xs m)

set_insert_idem : (x : TaskId) (xs : List TaskId) → set_insert x (set_insert x xs) ≡ set_insert x xs
unfolding set_insert
set_insert_idem x xs = ground arith

retain_absent :
    (x : TaskId) (xs : List TaskId) → contains x xs ≡ false → retain (λ y. not (y == x)) xs ≡ xs
retain_absent x [] h = refl
retain_absent x (y ∷ ys) h = ground (arith, retain_absent x ys)

set_remove_idem : (x : TaskId) (xs : List TaskId) → set_remove x (set_remove x xs) ≡ set_remove x xs
unfolding set_remove
set_remove_idem x xs =
    retain_absent x (retain (λ y. not (y == x)) xs)
      (rw (contains-retain x (λ y. not (y == x)) xs) (ground arith))

set_remove-set_insert :
    (x : TaskId) (xs : List TaskId) → contains x xs ≡ false → set_remove x (set_insert x xs) ≡ xs
unfolding set_remove set_insert
set_remove-set_insert x xs h = ground (arith, retain_absent x xs)

-- After `link` the new task stands among the successors of each of its dependencies.
pub link_lem :
    (id : TaskId) (ds : List TaskId) (m : Map (List TaskId)) (d : TaskId)
    → successors_of d (link id ds m)
      ≡ (if contains d ds then set_insert id (successors_of d m) else successors_of d m)
unfolding link
link_lem id [] m d = refl
link_lem id (dep ∷ ds) m d =
    let m1 = insert dep (set_insert id (successors_of dep m)) m in
    ground (
      arith,
      link_lem id ds m1 d,
      successors_of-insert dep d (set_insert id (successors_of dep m)) m,
      set_insert_idem id (successors_of d m),
    )

unlink_lem :
    (id : TaskId) (ds : List TaskId) (m : Map (List TaskId)) (d : TaskId)
    → successors_of d (unlink id ds m)
      ≡ (if contains d ds then set_remove id (successors_of d m) else successors_of d m)
unfolding unlink
unlink_lem id [] m d = refl
unlink_lem id (dep ∷ ds) m d = elim (Option-cases (lookup dep m)) [
  | inl e ↦ rw (e, unlink) (ground (arith, unlink_lem id ds m d, absent e))
  | inr (xs, e) ↦
      rw (e, unlink)
        (ground (
          arith,
          unlink_lem id ds (insert dep (set_remove id xs) m) d,
          successors_of-insert dep d (set_remove id xs) m,
          set_remove_idem id xs,
          held xs e,
        ))
]
  where
    absent : lookup dep m ≡ none → dep ≡ d → set_remove id (successors_of d m) ≡ successors_of d m
    absent e q = unfold successors_of set_remove in ground arith

    held : (xs : List TaskId) → lookup dep m ≡ some xs → successors_of dep m ≡ xs
    held xs e = unfold successors_of in ground arith

-- The undo of a link that was new.
pub unlink-link :
    (id : TaskId) (ds : List TaskId) (m : Map (List TaskId)) (d : TaskId)
    → contains id (successors_of d m) ≡ false
    → successors_of d (unlink id ds (link id ds m)) ≡ successors_of d m
unlink-link id ds m d h = ground (
  arith,
  unlink_lem id ds (link id ds m) d,
  link_lem id ds m d,
  set_remove-set_insert id (successors_of d m),
)

pub contains-set_insert :
    (x y : TaskId) (xs : List TaskId)
    → contains y (set_insert x xs) ≡ (if x == y then true else contains y xs)
unfolding set_insert
contains-set_insert x y xs = ground arith

pub set_insert-Distinct : (x : TaskId) (xs : List TaskId) → Distinct xs → Distinct (set_insert x xs)
unfolding set_insert
set_insert-Distinct x xs d = elim (Bool-cases (contains x xs)) [
  | inl h ↦ rw (h, set_insert) d
  | inr h ↦ rw (h, set_insert) (h, d)
]
