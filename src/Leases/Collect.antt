-- ===== src/Leases/Collect.antt =====
-- Which leases `collect_expired` changes.
use knitting_crab.Prelude.{
  ℕ, ◌≡◌, refl, sym, ap, subst, ◌∙◌, Bool, true, false, ◌&&◌, Option, none, some, List, [], ◌∷◌,
  ◌==◌, ==_iff, ◌⊎◌, inl, inr, Bool-cases, Option-cases, if◌then◌else◌, arith,
}
use mathlib.Core.Option
use knitting_crab.Core.Task.{TaskId}
use knitting_crab.Core.Error.{Result, ok, err}
use knitting_crab.Leases.{expired, Lease, is_expired, is_active}
use knitting_crab.Leases.Store.{LeaseStore, IsReliable, Listed}
use knitting_crab.Leases.Manager.{
  ended_lease, expire_found, push_some, add_collected, go_on, collect_loop, collect_from,
  collect_expired,
}

-- A lease after a collection at `now`.
unfoldable pub ended : ℕ → Lease → Lease
unfolding is_expired
ended now l = if is_active l.state && is_expired now l then (record l { state = expired }) else l

ended_idem : (now : ℕ) (l : Lease) → ended now (ended now l) ≡ ended now l
unfolding ended
ended_idem now l = ground arith

module _ {S : Type 0} (store : LeaseStore S) (reliable : IsReliable store) where
  -- Each lease is filed under its own task.
  abbrev pub IsFiled : S → Type 0
  IsFiled s = (k : TaskId) (l : Lease) → reliable.find k s ≡ some l → l.task_id ≡ k

  -- What the end of one lease does to the store.
  record Expires (now : ℕ) (id : TaskId) (s : S) (r : S × Result (Option Lease)) : Type 0 where
    collected : Option Lease
    succeeds : r.1 ≡ ok collected
    at_task : reliable.find id r.0 ≡ Option.map (ended now) (reliable.find id s)
    elsewhere : (k : TaskId) → (id == k) ≡ false → reliable.find k r.0 ≡ reliable.find k s

  expire_found-none :
      (now : ℕ) (id : TaskId) (s : S)
      → reliable.find id s ≡ none
      → Expires now id s (expire_found store now (store.get id s))
  unfolding expire_found
  expire_found-none now id s h =
      rw (reliable.get-find id s, h)
        (record {
          collected = none;
          succeeds = refl;
          at_task = rw (h) refl;
          elsewhere = λ k n. refl;
        })

  ended_lease-ok :
      (l : Lease) (r : S × Result (Unit {0}))
      → r.1 ≡ ok tt
      → ended_lease store l r ≡ (r.0, ok (some l))
  ended_lease-ok l (s, ok u) h = refl
  ended_lease-ok l (s, err e) h = cc

  ended-live :
      (now : ℕ) (l : Lease)
      → (is_active l.state && is_expired now l) ≡ true
      → ended now l ≡ record l { state = expired }
  unfolding ended
  ended-live now l h = rw (h) refl

  ended-dead :
      (now : ℕ) (l : Lease) → (is_active l.state && is_expired now l) ≡ false → ended now l ≡ l
  unfolding ended
  ended-dead now l h = rw (h) refl

  -- The lease is live and has expired: the update ends it.
  update-Expires :
      (now : ℕ) (id : TaskId) (s : S) (l : Lease)
      → reliable.find id s ≡ some l
      → l.task_id ≡ id
      → (is_active l.state && is_expired now l) ≡ true
      → let e : Lease = record l { state = expired } in
        Expires now id s (ended_lease store e (store.update e s))
  update-Expires now id s l h same live =
      let e : Lease = record l { state = expired } in
      let there : reliable.find e.task_id s ≡ some l = ap (λ k. reliable.find k s) same ∙ h in
      let r = ended_lease-ok e (store.update e s) (reliable.update-ok e l s there) in
      let found =
        λ (k : TaskId). ap (λ x. reliable.find k x.0) r ∙ reliable.update-find e l s k there in
      let yes : (e.task_id == id) ≡ true = (==_iff e.task_id id).1 same in
      record {
        collected = some e;
        succeeds = ap (λ x. x.1) r;
        at_task =
            found id
            ∙ ap (λ b. if b then some e else reliable.find id s) yes
            ∙ ap some (sym (ended-live now l live))
            ∙ ap (Option.map (ended now)) (sym h);
        elsewhere = λ k n.
            found k ∙ ap (λ b. if b then some e else reliable.find k s) (ap (λ j. j == k) same ∙ n);
      }

  expire_found-some :
      (now : ℕ) (id : TaskId) (s : S) (l : Lease)
      → reliable.find id s ≡ some l
      → l.task_id ≡ id
      → Expires now id s (expire_found store now (store.get id s))
  unfolding expire_found
  expire_found-some now id s l h e =
      subst (λ r. Expires now id s (expire_found store now r))
        (sym (reliable.get-find id s ∙ ap (λ o. (s, ok o)) h))
        (elim (Bool-cases (is_active l.state && is_expired now l)) [
          | inl live ↦ rw (live) (update-Expires now id s l h e live)
          | inr dead ↦ rw (dead) (record {
            collected = none;
            succeeds = refl;
            at_task =
                h ∙ ap some (sym (ended-dead now l dead)) ∙ ap (Option.map (ended now)) (sym h);
            elsewhere = λ k n. refl;
          })
        ])

  expire_found-Expires :
      (now : ℕ) (id : TaskId) (s : S)
      → IsFiled s
      → Expires now id s (expire_found store now (store.get id s))
  expire_found-Expires now id s f = elim (Option-cases (reliable.find id s)) [
    | inl missing ↦ expire_found-none now id s missing
    | inr (l, h) ↦ expire_found-some now id s l h (f id l h)
  ]

  map-ended-IsFiled :
      (now : ℕ) (k : TaskId) (o : Option Lease)
      → ((l : Lease) → o ≡ some l → l.task_id ≡ k)
      → (l : Lease) → Option.map (ended now) o ≡ some l
      → l.task_id ≡ k
  unfolding ended
  map-ended-IsFiled now k none f l h = cc
  map-ended-IsFiled now k (some o) f l h = let e = f o refl in ground arith

  Expires-IsFiled :
      (now : ℕ) (id : TaskId) (s : S) (r : S × Result (Option Lease))
      → Expires now id s r
      → IsFiled s
      → IsFiled r.0
  Expires-IsFiled now id s r x f k l h = elim (Bool-cases (id == k)) [
    | inl same ↦
        let e : id ≡ k = (==_iff id k).0 same in
        subst (λ j. l.task_id ≡ j) e
          (map-ended-IsFiled now id (reliable.find id s) (f id) l
            (sym x.at_task ∙ ap (λ j. reliable.find j r.0) e ∙ h))
    | inr other ↦ f k l (sym (x.elsewhere k other) ∙ h)
  ]

  -- After some rounds of the loop: a lease is as it was, or it has been ended.
  record Collects (now : ℕ) (ls : List Lease) (s : S) (r : S × Result (List Lease)) : Type 0 where
    gathered : List Lease
    succeeds : r.1 ≡ ok gathered
    changes :
        (k : TaskId)
        → (reliable.find k r.0 ≡ reliable.find k s)
          ⊎ (reliable.find k r.0 ≡ Option.map (ended now) (reliable.find k s))
    ends :
        (l : Lease)
        → Listed l ls
        → is_expired now l ≡ true
        → reliable.find l.task_id r.0 ≡ Option.map (ended now) (reliable.find l.task_id s)

  -- An end after an end changes nothing more.
  map-ended_idem :
      (now : ℕ) (o : Option Lease)
      → Option.map (ended now) (Option.map (ended now) o) ≡ Option.map (ended now) o
  map-ended_idem now none = refl
  map-ended_idem now (some l) = ap some (ended_idem now l)

  -- `b` is `a`, or `a` ended.
  abbrev Changed : ℕ → Option Lease → Option Lease → Type 0
  Changed now a b = (b ≡ a) ⊎ (b ≡ Option.map (ended now) a)

  Changed-trans :
      (now : ℕ) (o a b : Option Lease) → Changed now o a → Changed now a b → Changed now o b
  Changed-trans now o a b (inl p) (inl q) = inl (q ∙ p)
  Changed-trans now o a b (inl p) (inr q) = inr (q ∙ ap (Option.map (ended now)) p)
  Changed-trans now o a b (inr p) (inl q) = inr (q ∙ p)
  Changed-trans now o a b (inr p) (inr q) =
      inr (q ∙ ap (Option.map (ended now)) p ∙ map-ended_idem now o)

  ended-Changed :
      (now : ℕ) (o a b : Option Lease)
      → Changed now o a
      → b ≡ Option.map (ended now) a
      → b ≡ Option.map (ended now) o
  ended-Changed now o a b (inl p) q = q ∙ ap (Option.map (ended now)) p
  ended-Changed now o a b (inr p) q = q ∙ ap (Option.map (ended now)) p ∙ map-ended_idem now o

  Changed-ended :
      (now : ℕ) (o a b : Option Lease)
      → a ≡ Option.map (ended now) o
      → Changed now a b
      → b ≡ Option.map (ended now) o
  Changed-ended now o a b p (inl q) = q ∙ p
  Changed-ended now o a b p (inr q) = q ∙ ap (Option.map (ended now)) p ∙ map-ended_idem now o

  Expires-Changed :
      (now : ℕ) (id : TaskId) (s : S) (r : S × Result (Option Lease)) (k : TaskId)
      → Expires now id s r
      → Changed now (reliable.find k s) (reliable.find k r.0)
  Expires-Changed now id s r k x = elim (Bool-cases (id == k)) [
    | inl same ↦
        let e : id ≡ k = (==_iff id k).0 same in
        inr (
          subst (λ j. reliable.find j r.0 ≡ Option.map (ended now) (reliable.find j s)) e x.at_task)
    | inr other ↦ inl (x.elsewhere k other)
  ]

  go_on-ok :
      (rest : S → S × Result (List Lease)) (r : S × Result (Option Lease)) (o : Option Lease)
      (g : List Lease)
      → r.1 ≡ ok o
      → (rest r.0).1 ≡ ok g
      → go_on store rest r ≡ ((rest r.0).0, ok (push_some store o g))
  go_on-ok rest (s, ok p) o g h e =
      let same : p ≡ o = cc in
      added p (rest s) g e ∙ ap (λ x. ((rest s).0, ok (push_some store x g))) same
    where
      added :
          (p : Option Lease) (u : S × Result (List Lease)) (g : List Lease)
          → u.1 ≡ ok g
          → add_collected store p u ≡ (u.0, ok (push_some store p g))
      added p (t, ok ls) g e =
          let same : ls ≡ g = cc in ap (λ x. (t, ok (push_some store p x))) same
      added p (t, err x) g e = cc
  go_on-ok rest (s, err x) o g h e = cc

  collect_loop-Collects :
      (now : ℕ) (ls : List Lease) (s : S)
      → IsFiled s
      → Collects now ls s (collect_loop store now ls s)
  unfolding collect_loop
  collect_loop-Collects now [] s f = record {
    gathered = [];
    succeeds = refl;
    changes = λ k. inl refl;
    ends = λ l b x. absurd b;
  }
  collect_loop-Collects now (l ∷ ls) s f = elim (Bool-cases (is_expired now l)) [
    | inl late ↦
        let r = expire_found store now (store.get l.task_id s) in
        let x = expire_found-Expires now l.task_id s f in
        let later = collect_loop-Collects now ls r.0 (Expires-IsFiled now l.task_id s r x f) in
        let u = collect_loop store now ls r.0 in
        let e =
          go_on-ok (λ t. collect_loop store now ls t) r x.collected later.gathered x.succeeds
            later.succeeds in
        rw (late, collect_loop)
          (subst (Collects now (l ∷ ls) s) (sym e) (record {
            gathered = push_some store x.collected later.gathered;
            succeeds = refl;
            changes = λ k.
                Changed-trans now (reliable.find k s) (reliable.find k r.0) (reliable.find k u.0)
                  (Expires-Changed now l.task_id s r k x) (later.changes k);
            ends = λ m b past. elim b [
              | inl same ↦
                  subst (λ j. reliable.find j u.0 ≡ Option.map (ended now) (reliable.find j s))
                    (ap (λ y. y.task_id) same)
                    (Changed-ended now (reliable.find l.task_id s) (reliable.find l.task_id r.0)
                      (reliable.find l.task_id u.0) x.at_task (later.changes l.task_id))
              | inr among ↦
                  ended-Changed now (reliable.find m.task_id s) (reliable.find m.task_id r.0)
                    (reliable.find m.task_id u.0) (Expires-Changed now l.task_id s r m.task_id x)
                    (later.ends m among past)
            ];
          }))
    | inr early ↦
        let later = collect_loop-Collects now ls s f in
        rw (early, collect_loop)
          (record {
            gathered = later.gathered;
            succeeds = later.succeeds;
            changes = later.changes;
            ends = λ m b past. elim b [
              | inl same ↦
                  let no : is_expired now m ≡ false = ap (is_expired now) (sym same) ∙ early in cc
              | inr among ↦ later.ends m among past
            ];
          })
  ]

  -- A lease that the store holds is listed, if the collection would end it.
  Listed-end :
      (now : ℕ) (ls : List Lease) (s t : S) (k : TaskId) (o : Option Lease)
      → reliable.find k s ≡ o
      → ((l : Lease) → reliable.find k s ≡ some l → l.task_id ≡ k)
      → ((l : Lease) → reliable.find k s ≡ some l → is_active l.state ≡ true → Listed l ls)
      → Changed now (reliable.find k s) (reliable.find k t)
      → ((l : Lease)
          → Listed l ls
          → is_expired now l ≡ true
          → reliable.find l.task_id t ≡ Option.map (ended now) (reliable.find l.task_id s))
      → reliable.find k t ≡ Option.map (ended now) (reliable.find k s)
  Listed-end now ls s t k o h filed listed (inr e) ends = e
  Listed-end now ls s t k none h filed listed (inl e) ends =
      e ∙ h ∙ ap (Option.map (ended now)) (sym h)
  Listed-end now ls s t k (some l) h filed listed (inl e) ends =
      elim (Bool-cases (is_active l.state && is_expired now l)) [
        | inl live ↦
            let (a, b) = both (is_active l.state) (is_expired now l) live in
            subst (λ j. reliable.find j t ≡ Option.map (ended now) (reliable.find j s)) (filed l h)
              (ends l (listed l h a) b)
        | inr dead ↦
            e ∙ h ∙ ap some (sym (ended-dead now l dead)) ∙ ap (Option.map (ended now)) (sym h)
      ]
    where
      both : (a b : Bool) → (a && b) ≡ true → (a ≡ true) × (b ≡ true)
      both a b p = ground arith

  -- On a lease store that is reliable and files each lease under its task, a collection
  -- succeeds, turns every active lease that has expired by `now` into an expired one, and leaves
  -- every other lease as it was.
  pub collect_expired_lem :
      (now : ℕ) (s : S)
      → IsFiled s
      → ((ls : List Lease) × ((collect_expired store now s).1 ≡ ok ls))
        × ((k : TaskId)
            → reliable.find k (collect_expired store now s).0
              ≡ Option.map (ended now) (reliable.find k s))
  unfolding collect_expired collect_from
  collect_expired_lem now s f =
      let (ls, e, listed) = reliable.active-listed s in
      let c = collect_loop-Collects now ls s f in
      subst
        (λ r.
          ((g : List Lease) × ((collect_from store now r).1 ≡ ok g))
          × ((k : TaskId)
              → reliable.find k (collect_from store now r).0
                ≡ Option.map (ended now) (reliable.find k s)))
        (sym e)
        (
          (c.gathered, c.succeeds),
          λ k.
              Listed-end now ls s (collect_loop store now ls s).0 k (reliable.find k s) refl (f k)
                (listed k) (c.changes k) c.ends,
        )
