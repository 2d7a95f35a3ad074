-- ===== src/Leases/Laws.antt =====
-- Leasing and the transitions of a lease, over any store that keeps the promises of the trait.
use knitting_crab.Prelude.{ℕ, ◌≡◌, ap, ◌∙◌, false, Option, none, some, ◌==◌}
use knitting_crab.Core.Task.{TaskId}
use knitting_crab.Core.Error.{ok, err, lease_not_found}
use knitting_crab.Leases.{completed, failed, cancelled, Lease, renew_lease}
use knitting_crab.Leases.Store.{LeaseStore, IsReliable}
use knitting_crab.Leases.Manager.{change_found, renew, complete, fail, cancel}

module _ {S : Type 0} (store : LeaseStore S) (reliable : IsReliable store) where
  -- The store holds `l` for the task of `l`, and every other task has what it had.
  pub record Holds (l : Lease) (s t : S) : Type 0 where
    pub at_task : reliable.find l.task_id t ≡ some l
    pub elsewhere : (k : TaskId) → (l.task_id == k) ≡ false → reliable.find k t ≡ reliable.find k s

  change_found-none :
      (f : Lease → Lease) (task : TaskId) (s : S)
      → reliable.find task s ≡ none
      → change_found store f (store.get task s) ≡ (s, err lease_not_found)
  unfolding change_found
  change_found-none f task s h =
      ap (change_found store f) (reliable.get-find task s ∙ ap (λ o. (s, ok o)) h)

  -- Without a lease each of the four is refused and changes nothing.
  pub transitions_missing :
      (from_std : ℕ → Option ℕ) (task : TaskId) (attempts ttl now : ℕ) (s : S)
      → reliable.find task s ≡ none
      → (complete store task s ≡ (s, err lease_not_found))
        × (fail store task attempts s ≡ (s, err lease_not_found))
        × (cancel store task s ≡ (s, err lease_not_found))
        × (renew store from_std task ttl now s ≡ (s, err lease_not_found))
  unfolding complete fail cancel renew
  transitions_missing from_std task attempts ttl now s h = (
    change_found-none (λ o. record o { state = completed }) task s h,
    change_found-none (λ o. record o { state = failed attempts }) task s h,
    change_found-none (λ o. record o { state = cancelled }) task s h,
    change_found-none (renew_lease from_std now ttl) task s h,
  )
