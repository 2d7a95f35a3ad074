-- ===== src/Leases/Examples.antt =====
-- The lease theorems on the store in memory.
use knitting_crab.Prelude.{
  ℕ, ◌≡◌, refl, sym, ap, ◌∙◌, Bool, true, false, Option, ◌==◌, ==_iff, none, some, List, [], ◌∷◌,
  if◌then◌else◌, has_key, lookup,
}
use mathlib.Core.Option
use knitting_crab.Core.Error.{ok}
use knitting_crab.Leases.{active, Lease}
use knitting_crab.Leases.InMemory.{InMemoryLeaseStore, in_memory, in_memory-IsReliable}
use knitting_crab.Leases.Manager.{collect_expired}
use knitting_crab.Leases.Collect.{ended, IsFiled, collect_expired_lem}
use knitting_crab.Leases.Race.{race, race_not_exclusive}

abbrev lease : ℕ → Lease
lease id = record {
  lease_id = id;
  task_id = 5;
  worker_id = 1;
  state = active;
  acquired_at = 10;
  expires_at = 20;
  attempt = 0;
}

abbrev one_lease : InMemoryLeaseStore
one_lease = (5, lease 100) ∷ []

one_lease-IsFiled : IsFiled in_memory in_memory-IsReliable one_lease
unfolding in_memory-IsReliable
one_lease-IsFiled k l h = filed (5 == k) refl h
  where
    task_of_found : Option Lease → ℕ
    task_of_found none = 5
    task_of_found (some o) = o.task_id

    filed :
        (b : Bool) → (5 == k) ≡ b → (if b then some (lease 100) else none) ≡ some l → l.task_id ≡ k
    filed true e g = sym (ap task_of_found g) ∙ (==_iff 5 k).0 e
    filed false e g = cc

collect_expired_lem_example :
    ((ls : List Lease) × ((collect_expired in_memory 25 one_lease).1 ≡ ok ls))
    × ((k : ℕ)
        → in_memory-IsReliable.find k (collect_expired in_memory 25 one_lease).0
          ≡ Option.map (ended 25) (in_memory-IsReliable.find k one_lease))
collect_expired_lem_example =
    collect_expired_lem in_memory in_memory-IsReliable 25 one_lease one_lease-IsFiled

abbrev no_leases : InMemoryLeaseStore
no_leases = []

race_not_exclusive_example :
    ((race (has_key 5 no_leases) (lease 100 ∷ lease 101 ∷ []) no_leases).1 ≡ true)
    × (lookup 5 (race (has_key 5 no_leases) (lease 100 ∷ lease 101 ∷ []) no_leases).0
        ≡ some (lease 101))
race_not_exclusive_example =
    race_not_exclusive 5 (lease 100 ∷ lease 101 ∷ []) no_leases (refl, (refl, tt))
      (unfold has_key in refl)
