-- ===== src/Worker/Steady.antt =====
-- Properties of the leases that the operations on a store keep, but for a removal, through the heartbeat and the
-- collection of expired leases.
use knitting_crab.Prelude.{
  ℕ, ◌≡◌, refl, sym, subst, Option, none, some, List, [], ◌∷◌, Bool-cases, inl, inr, ◌&&◌,
}
use knitting_crab.Core.Task.{TaskId}
use knitting_crab.Core.Error.{Result, ok, err}
use knitting_crab.Leases.{Lease, LeaseState, renew_lease, is_active, is_expired}
use knitting_crab.Leases.Manager
use knitting_crab.Leases.Manager.{
  change_found, ended_lease, add_collected, go_on, expire_found, collect_loop, collect_from,
  collect_expired,
}
use knitting_crab.Worker.{WorkerRuntime}
use knitting_crab.Worker.Runtime.{renew_found}

module _ {Q S R E X : Type 0} (rt : WorkerRuntime Q S R E X) where
  -- A property of the leases that every operation keeps but a removal, which the runtime never makes.
  pub record IsSteady (L : S → Type 0) : Type 0 where
    pub inserts : (l : Lease) (s : S) → L s → L (rt.lease_store.insert_lease l s).0
    pub reads : (id : TaskId) (s : S) → L s → L (rt.lease_store.get id s).0
    pub lists : (s : S) → L s → L (rt.lease_store.active_leases s).0
    pub updates : (l : Lease) (s : S) → L s → L (rt.lease_store.update l s).0

  pub change_found-keeps :
      (L : S → Type 0) (f : Lease → Lease) (found : S × Result (Option Lease))
      → IsSteady L
      → L found.0
      → L (change_found rt.lease_store f found).0
  unfolding change_found
  change_found-keeps L f (s, err e) k h = h
  change_found-keeps L f (s, ok none) k h = h
  change_found-keeps L f (s, ok (some l)) k h = k.updates (f l) s h

  pub renew_found-keeps :
      (L : S → Type 0) (id now : ℕ) (found : S × Result (Option Lease))
      → IsSteady L
      → L found.0
      → L (renew_found rt id now found)
  unfolding renew_found Manager.renew
  renew_found-keeps L id now (s, ok none) k h = h
  renew_found-keeps L id now (s, ok (some l)) k h =
      change_found-keeps L (renew_lease rt.from_std now rt.config.lease_ttl)
        (rt.lease_store.get id s) k (k.reads id s h)
  renew_found-keeps L id now (s, err e) k h =
      change_found-keeps L (renew_lease rt.from_std now rt.config.lease_ttl)
        (rt.lease_store.get id s) k (k.reads id s h)

  ended_lease-fst :
      (l : Lease) (r : S × Result (Unit {0})) → (ended_lease rt.lease_store l r).0 ≡ r.0
  ended_lease-fst l (s, ok u) = refl
  ended_lease-fst l (s, err e) = refl

  expire_found-keeps :
      (now : ℕ) (found : S × Result (Option Lease)) (L : S → Type 0) (i : IsSteady L)
      → L found.0
      → L (expire_found rt.lease_store now found).0
  unfolding expire_found
  expire_found-keeps now (s, err e) L i h = h
  expire_found-keeps now (s, ok none) L i h = h
  expire_found-keeps now (s, ok (some l)) L i h =
      let ended : Lease = record l { state = LeaseState.expired } in
      elim (Bool-cases (is_active l.state && is_expired now l)) [
        | inl live ↦ rw (live) (
            subst L (sym (ended_lease-fst ended (rt.lease_store.update ended s)))
              (i.updates ended s h))
        | inr dead ↦ rw (dead) h
      ]

  add_collected-fst :
      (o : Option Lease) (r : S × Result (List Lease)) → (add_collected rt.lease_store o r).0 ≡ r.0
  add_collected-fst o (s, ok ls) = refl
  add_collected-fst o (s, err e) = refl

  go_on-keeps :
      (rest : S → S × Result (List Lease)) (r : S × Result (Option Lease)) (L : S → Type 0)
      (i : IsSteady L)
      → L r.0
      → ((s : S) → L s → L (rest s).0)
      → L (go_on rt.lease_store rest r).0
  go_on-keeps rest (s, ok o) L i h f = subst L (sym (add_collected-fst o (rest s))) (f s h)
  go_on-keeps rest (s, err e) L i h f = h

  collect_loop-keeps :
      (now : ℕ) (ls : List Lease) (s : S) (L : S → Type 0) (i : IsSteady L)
      → L s
      → L (collect_loop rt.lease_store now ls s).0
  unfolding collect_loop
  collect_loop-keeps now [] s L i h = h
  collect_loop-keeps now (l ∷ ls) s L i h =
      let rest : (t : S) → L t → L (collect_loop rt.lease_store now ls t).0 =
        λ t g. collect_loop-keeps now ls t L i g in
      elim (Bool-cases (is_expired now l)) [
        | inl late ↦ rw (late) (
            go_on-keeps (λ t. collect_loop rt.lease_store now ls t)
              (expire_found rt.lease_store now (rt.lease_store.get l.task_id s)) L i
              (expire_found-keeps now (rt.lease_store.get l.task_id s) L i (i.reads l.task_id s h))
              rest)
        | inr early ↦ rw (early) (rest s h)
      ]

  pub collect_from-keeps :
      (now : ℕ) (r : S × Result (List Lease)) (L : S → Type 0) (i : IsSteady L)
      → L r.0
      → L (collect_from rt.lease_store now r).0
  unfolding collect_from
  collect_from-keeps now (s, err e) L i h = h
  collect_from-keeps now (s, ok ls) L i h = collect_loop-keeps now ls s L i h
