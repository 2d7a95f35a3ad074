-- ===== src/Leases/Store.antt =====
-- The trait `LeaseStore`, and what a store that always answers promises beyond it.
use knitting_crab.Prelude.{List, [], ◌∷◌, true, ◌⊎◌, ◌≡◌, Option, none, some, ◌==◌, if◌then◌else◌}
use knitting_crab.Core.Task.{TaskId}
use knitting_crab.Core.Error.{Result, ok, err, already_leased, lease_not_found}
use knitting_crab.Leases.{Lease, is_active}

-- The lease is on the list.
abbrev pub Listed : Lease → List Lease → Type 0
Listed l [] = ⊥
Listed l (x ∷ xs) = (x ≡ l) ⊎ Listed l xs

-- The operations on a store of type `S`. Any of them may fail, and a look may change the store too,
-- as one that asks another machine does.
pub record LeaseStore (S : Type 0) : Type 0 where
  pub insert_lease : Lease → S → S × Result (Unit {0})
  pub get : TaskId → S → S × Result (Option Lease)
  pub update : Lease → S → S × Result (Unit {0})
  pub remove_lease : TaskId → S → S × Result (Unit {0})
  pub active_leases : S → S × Result (List Lease)

-- A store that holds at most one lease for a task, and that no operation on it fails but for a
-- lease that is there already or is missing. The store in memory is one; a store behind a network
-- is not.
pub record IsReliable {S : Type 0} (store : LeaseStore S) : Type 0 where
  pub find : TaskId → S → Option Lease
  pub insert-new :
      (l : Lease) (s : S) → find l.task_id s ≡ none → (store.insert_lease l s).1 ≡ ok tt
  pub insert-find :
      (l : Lease) (s : S) (k : TaskId)
      → find l.task_id s ≡ none
      → find k (store.insert_lease l s).0 ≡ (if l.task_id == k then some l else find k s)
  pub insert-leased :
      (l o : Lease) (s : S)
      → find l.task_id s ≡ some o
      → store.insert_lease l s ≡ (s, err already_leased)
  pub get-find : (k : TaskId) (s : S) → store.get k s ≡ (s, ok (find k s))
  pub update-ok : (l o : Lease) (s : S) → find l.task_id s ≡ some o → (store.update l s).1 ≡ ok tt
  pub update-find :
      (l o : Lease) (s : S) (k : TaskId)
      → find l.task_id s ≡ some o
      → find k (store.update l s).0 ≡ (if l.task_id == k then some l else find k s)
  pub update-missing :
      (l : Lease) (s : S) → find l.task_id s ≡ none → store.update l s ≡ (s, err lease_not_found)
  pub remove-find :
      (k j : TaskId) (s : S)
      → find j (store.remove_lease k s).0 ≡ (if k == j then none else find j s)
  pub active-listed :
      (s : S)
      → (ls : List Lease) × (store.active_leases s ≡ (s, ok ls))
        × ((k : TaskId) (l : Lease) → find k s ≡ some l → is_active l.state ≡ true → Listed l ls)
