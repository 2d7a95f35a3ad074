-- ===== src/Leases/Race.antt =====
-- Callers of `insert` for one task, on the store in memory, that all look before any of them inserts.
use knitting_crab.Prelude.{
  ◌≡◌, refl, sym, subst, Bool, true, false, ◌&&◌, Option, none, some, List, [], ◌∷◌, All, lookup,
  insert, lookup-insert, has_key, arith,
}
use knitting_crab.Core.Task.{TaskId}
use knitting_crab.Core.Error.{Result, ok, err}
use knitting_crab.Leases.{Lease}
use knitting_crab.Leases.InMemory.{InMemoryLeaseStore, insert_checked}

succeeded : Result (Unit {0}) → Bool
succeeded (ok u) = true
succeeded (err e) = false

-- The callers go on one after the other with the same answer: the store, and whether all succeed.
unfoldable pub race : Bool → List Lease → InMemoryLeaseStore → InMemoryLeaseStore × Bool
unfolding succeeded insert
race found [] s = (s, true)
race found (l ∷ ls) s =
    let (s1, r) = insert_checked found l s in
    let (s2, all) = race found ls s1 in (s2, succeeded r && all)

-- The lease of the last caller, or what the store held.
abbrev pub last_or : Option Lease → List Lease → Option Lease
last_or o [] = o
last_or o (l ∷ ls) = last_or (some l) ls

race_from :
    (k : TaskId) (ls : List Lease) (s : InMemoryLeaseStore) (o : Option Lease)
    → All (λ l. l.task_id ≡ k) ls
    → lookup k s ≡ o
    → ((race false ls s).1 ≡ true) × (lookup k (race false ls s).0 ≡ last_or o ls)
unfolding race succeeded
race_from k [] s o same h = (refl, h)
race_from k (l ∷ ls) s o same h =
    race_from k ls (insert l.task_id l s) (some l) same.1
      (let e = lookup-insert l.task_id k l s in let q : l.task_id ≡ k = same.0 in ground arith)

-- When a task has no lease, and any callers all look before the first of them inserts a lease for
-- it, every one of them succeeds, and the store holds the lease of the last one only.
pub race_not_exclusive :
    (k : TaskId) (ls : List Lease) (s : InMemoryLeaseStore)
    → All (λ l. l.task_id ≡ k) ls
    → has_key k s ≡ false
    → ((race (has_key k s) ls s).1 ≡ true)
      × (lookup k (race (has_key k s) ls s).0 ≡ last_or none ls)
unfolding has_key
race_not_exclusive k ls s same h =
    let e : lookup k s ≡ none = ground arith in
    subst (λ b. ((race b ls s).1 ≡ true) × (lookup k (race b ls s).0 ≡ last_or none ls)) (sym h)
      (race_from k ls s none same e)
