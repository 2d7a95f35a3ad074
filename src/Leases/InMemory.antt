-- ===== src/Leases/InMemory.antt =====
-- `InMemoryLeaseStore` of crates/worker/src/lease_manager.rs: leases by task. `insert` is two steps,
-- a look for the key and what follows it; for a caller that runs alone they are one, as are those
-- of `update`.
use knitting_crab.Prelude.{
  refl, ap, ◌∙◌, Bool, true, [], ◌∷◌, Bool-cases, inl, inr, ◌≡◌, ◌==◌, none, some, Option, List,
  Map, lookup, insert, remove, has_key, retain, map, if◌then◌else◌, lookup-insert, lookup-remove,
  arith,
}
use knitting_crab.Core.Task.{TaskId}
use knitting_crab.Core.Error.{Result, ok, err, already_leased, lease_not_found}
use knitting_crab.Leases.{Lease, is_active}
use knitting_crab.Leases.Store.{LeaseStore, IsReliable, Listed}

abbrev pub InMemoryLeaseStore : Type 0
InMemoryLeaseStore = Map Lease

-- Once the key has been looked for, with that answer, by which time others may have inserted it.
abbrev pub insert_checked :
    Bool → Lease → InMemoryLeaseStore → InMemoryLeaseStore × Result (Unit {0})
insert_checked found l s = if found then (s, err already_leased) else (insert l.task_id l s, ok tt)

-- Of a caller that runs alone.
unfoldable pub insert_lease : Lease → InMemoryLeaseStore → InMemoryLeaseStore × Result (Unit {0})
insert_lease l s = insert_checked (has_key l.task_id s) l s

unfoldable pub get_lease : TaskId → InMemoryLeaseStore → Result (Option Lease)
get_lease k s = ok (lookup k s)

unfoldable pub update_lease : Lease → InMemoryLeaseStore → InMemoryLeaseStore × Result (Unit {0})
update_lease l s =
    if has_key l.task_id s then (insert l.task_id l s, ok tt) else (s, err lease_not_found)

unfoldable pub remove_lease : TaskId → InMemoryLeaseStore → InMemoryLeaseStore × Result (Unit {0})
remove_lease k s = (remove k s, ok tt)

-- In the order of iteration.
unfoldable pub active_leases : InMemoryLeaseStore → List Lease
active_leases s = retain (λ l. is_active l.state) (map (λ e. e.1) s)

pub insert_lease-find :
    (l : Lease) (s : InMemoryLeaseStore) (k : TaskId)
    → lookup l.task_id s ≡ none
    → lookup k (insert_lease l s).0 ≡ (if l.task_id == k then some l else lookup k s)
unfolding insert_lease has_key
insert_lease-find l s k h = ground (arith, lookup-insert l.task_id k l s)

pub update_lease-find :
    (l o : Lease) (s : InMemoryLeaseStore) (k : TaskId)
    → lookup l.task_id s ≡ some o
    → lookup k (update_lease l s).0 ≡ (if l.task_id == k then some l else lookup k s)
unfolding update_lease has_key
update_lease-find l o s k h = ground (arith, lookup-insert l.task_id k l s)

cons-Listed :
    (p : Lease → Bool) (x : Lease) (xs : List Lease) (l : Lease)
    → Listed l (retain p xs)
    → Listed l (retain p (x ∷ xs))
cons-Listed p x xs l h = elim (Bool-cases (p x)) [
  | inl keep ↦ rw (keep) (inr h)
  | inr drop ↦ rw (drop) h
]

pub lookup-Listed :
    (s : InMemoryLeaseStore) (k : TaskId) (l : Lease)
    → lookup k s ≡ some l
    → is_active l.state ≡ true
    → Listed l (retain (λ l. is_active l.state) (map (λ e. e.1) s))
unfolding lookup
lookup-Listed [] k l h a = cc
lookup-Listed ((j, x) ∷ s) k l h a = elim (Bool-cases (j == k)) [
  | inl here ↦
      let same : x ≡ l = ground arith in
      let live : is_active x.state ≡ true = ap (λ l. is_active l.state) same ∙ a in
      rw (live) (inl same)
  | inr there ↦
      cons-Listed (λ l. is_active l.state) x (map (λ e. e.1) s) l
        (lookup-Listed s k l (let e : lookup k s ≡ some l = ground arith in e) a)
]

unfoldable pub in_memory : LeaseStore InMemoryLeaseStore
unfolding has_key insert_lease get_lease update_lease remove_lease active_leases
in_memory = record {
  insert_lease = insert_lease;
  get = λ k s. (s, get_lease k s);
  update = update_lease;
  remove_lease = remove_lease;
  active_leases = λ s. (s, ok (active_leases s));
}

unfoldable pub in_memory-IsReliable : IsReliable in_memory
unfolding in_memory has_key insert_lease get_lease update_lease remove_lease active_leases
in_memory-IsReliable = record {
  find = lookup;
  insert-new = λ l s h. rw (h) refl;
  insert-find = insert_lease-find;
  insert-leased = λ l o s h. rw (h) refl;
  get-find = λ k s. refl;
  update-ok = λ l o s h. rw (h) refl;
  update-find = update_lease-find;
  update-missing = λ l s h. rw (h) refl;
  remove-find = λ k j s. lookup-remove k j s;
  active-listed = λ s. (active_leases s, refl, lookup-Listed s);
}
