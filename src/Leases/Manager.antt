-- ===== src/Leases/Manager.antt =====
-- `LeaseManager` of crates/worker/src/lease_manager.rs, over any store.
use knitting_crab.Prelude.{ℕ, ◌&&◌, Option, none, some, List, [], ◌∷◌, if◌then◌else◌}
use knitting_crab.Core.Task.{TaskId}
use knitting_crab.Core.Error.{Result, ok, err, lease_not_found}
use knitting_crab.Leases.{
  completed, failed, expired, cancelled, Lease, is_expired, renew_lease, is_active,
}
use knitting_crab.Leases.Store.{LeaseStore}

module _ {S : Type 0} (store : LeaseStore S) where
  unfoldable pub acquire : Lease → S → S × Result (Unit {0})
  acquire l s = store.insert_lease l s

  -- The shape of four methods: the lease of the task, changed and stored again.
  unfoldable pub change_found : (Lease → Lease) → S × Result (Option Lease) → S × Result (Unit {0})
  change_found f (s, err e) = (s, err e)
  change_found f (s, ok none) = (s, err lease_not_found)
  change_found f (s, ok (some l)) = store.update (f l) s

  unfoldable pub renew : (ℕ → Option ℕ) → TaskId → ℕ → ℕ → S → S × Result (Unit {0})
  unfolding change_found renew_lease
  renew from_std task ttl now s = change_found (renew_lease from_std now ttl) (store.get task s)

  unfoldable pub complete : TaskId → S → S × Result (Unit {0})
  unfolding change_found
  complete task s = change_found (λ l. record l { state = completed }) (store.get task s)

  unfoldable pub fail : TaskId → ℕ → S → S × Result (Unit {0})
  unfolding change_found
  fail task attempts s = change_found (λ l. record l { state = failed attempts }) (store.get task s)

  unfoldable pub cancel : TaskId → S → S × Result (Unit {0})
  unfolding change_found
  cancel task s = change_found (λ l. record l { state = cancelled }) (store.get task s)

  unfoldable pub remove : TaskId → S → S × Result (Unit {0})
  remove task s = store.remove_lease task s

  -- What is collected of a lease that the store has been told to end.
  abbrev pub ended_lease : Lease → S × Result (Unit {0}) → S × Result (Option Lease)
  ended_lease l (s, ok u) = (s, ok (some l))
  ended_lease l (s, err e) = (s, err e)

  -- The second look at a lease that has expired, and its end.
  unfoldable pub expire_found : ℕ → S × Result (Option Lease) → S × Result (Option Lease)
  unfolding is_expired
  expire_found now (s, err e) = (s, err e)
  expire_found now (s, ok none) = (s, ok none)
  expire_found now (s, ok (some l)) =
      let ended : Lease = record l { state = expired } in
      if is_active l.state && is_expired now l
      then ended_lease ended (store.update ended s)
      else (s, ok none)

  abbrev pub push_some : Option Lease → List Lease → List Lease
  push_some none ls = ls
  push_some (some l) ls = l ∷ ls

  abbrev pub add_collected : Option Lease → S × Result (List Lease) → S × Result (List Lease)
  add_collected o (s, ok ls) = (s, ok (push_some o ls))
  add_collected o (s, err e) = (s, err e)

  -- The rest of the loop, which an error ends.
  abbrev pub go_on :
      (S → S × Result (List Lease)) → S × Result (Option Lease) → S × Result (List Lease)
  go_on rest (s, ok o) = add_collected o (rest s)
  go_on rest (s, err e) = (s, err e)

  -- The loop of `collect_expired` over the active leases, whose clock readings are all `now`.
  unfoldable pub collect_loop : ℕ → List Lease → S → S × Result (List Lease)
  unfolding expire_found
  collect_loop now [] s = (s, ok [])
  collect_loop now (l ∷ ls) s =
      let rest : S → S × Result (List Lease) = λ t. collect_loop now ls t in
      if is_expired now l then go_on rest (expire_found now (store.get l.task_id s)) else rest s

  unfoldable pub collect_from : ℕ → S × Result (List Lease) → S × Result (List Lease)
  unfolding collect_loop
  collect_from now (s, err e) = (s, err e)
  collect_from now (s, ok ls) = collect_loop now ls s

  unfoldable pub collect_expired : ℕ → S → S × Result (List Lease)
  unfolding collect_from
  collect_expired now s = collect_from now (store.active_leases s)
