-- ===== src/Dag/Waiting.antt =====
-- The number of distinct dependencies that have not completed, and how it moves with the states.
use knitting_crab.Prelude.{
  ℕ, suc, ◌+◌, ◌≤◌, ◌≡◌, refl, Bool, true, false, ◌||◌, some, List, [], ◌∷◌, Map, lookup, insert,
  lookup-insert, contains, length, if◌then◌else◌, arith,
}
use knitting_crab.Core.Task.{TaskId}
use knitting_crab.Dag.State.{TaskState, completed, is_completed}

abbrev pub is_done : Map TaskState → TaskId → Bool
is_done states x = is_completed (lookup x states)

pub waiting : Map TaskState → List TaskId → ℕ
waiting states [] = 0
waiting states (x ∷ xs) =
    let rest = waiting states xs in if is_done states x || contains x xs then rest else suc rest

pub waiting-le-length : (states : Map TaskState) (xs : List TaskId) → waiting states xs ≤ length xs
unfolding waiting
waiting-le-length states [] = omega arith
waiting-le-length states (x ∷ xs) = ground (arith, waiting-le-length states xs)

-- With nothing to wait for, every dependency has completed.
pub waiting-zero :
    (states : Map TaskState) (xs : List TaskId) (x : TaskId)
    → waiting states xs ≡ 0
    → contains x xs ≡ true
    → is_done states x ≡ true
unfolding waiting
waiting-zero states [] x h m = cc
waiting-zero states (y ∷ ys) x h m =
    ground (arith, waiting-zero states ys x, waiting-zero states ys y)

-- The number depends only on which dependencies have completed.
pub waiting-congr :
    (s t : Map TaskState) (xs : List TaskId)
    → ((x : TaskId) → is_done s x ≡ is_done t x)
    → waiting s xs ≡ waiting t xs
unfolding waiting
waiting-congr s t [] h = refl
waiting-congr s t (x ∷ xs) h = ground (arith, h x, waiting-congr s t xs h)

-- A new state for a task that neither was nor becomes completed changes nothing.
pub is_done-insert :
    (s : Map TaskState) (k : TaskId) (v : TaskState)
    → is_done s k ≡ false
    → is_completed (some v) ≡ false
    → (x : TaskId) → is_done s x ≡ is_done (insert k v s) x
is_done-insert s k v old new x = rw (lookup-insert k x v s) (ground arith)

-- A task that completes is taken off every list that it stands on.
pub waiting_complete :
    (s : Map TaskState) (k : TaskId) (xs : List TaskId)
    → is_done s k ≡ false
    → waiting (insert k completed s) xs + (if contains k xs then 1 else 0) ≡ waiting s xs
unfolding waiting
waiting_complete s k [] h = refl
waiting_complete s k (x ∷ xs) h =
    ground (arith, lookup-insert k x completed s, waiting_complete s k xs h)

pub waiting-all :
    (s : Map TaskState) (xs : List TaskId)
    → ((x : TaskId) → contains x xs ≡ true → is_done s x ≡ true)
    → waiting s xs ≡ 0
unfolding waiting
waiting-all s [] h = refl
waiting-all s (x ∷ xs) h = ground (arith, h x, waiting-all s xs (λ y m. h y (ground arith)))
