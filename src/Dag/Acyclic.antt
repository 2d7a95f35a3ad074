-- ===== src/Dag/Acyclic.antt =====
-- `detect_cycle` on a graph whose edges lead to smaller ranks: the search ends, and finds a cycle
-- exactly when it comes upon a task that depends on itself.
use knitting_crab.Prelude.{
  ℕ, suc, zero, ◌≤◌, ◌<◌, ◌≡◌, ◌≢◌, refl, sym, subst, ◌∙◌, true, none, some, List, [], ◌∷◌, Map,
  lookup, insert, lookup-insert, has_key, contains, ◌==◌, ==_iff, arith, Bool-cases, Option-cases,
  inl, inr,
}
use knitting_crab.Core.Task.{TaskId, TaskDescriptor}
use knitting_crab.Dag.Cycle.{Color, white, gray, black, Visit, visit_deps, dfs, scan_keys}

module _ (rank : TaskId → ℕ) where
  -- No task of rank `r` or less is on the path of the search.
  abbrev pub PathAbove : ℕ → Map Color → Type 0
  PathAbove r colors = (g : TaskId) → lookup g colors ≡ some gray → r < rank g

  -- A visit of a task of rank `r` found nothing: the path is as it was, and so is all above `r`.
  pub record Clears (r : ℕ) (colors colors' : Map Color) : Type 0 where
    pub path : (g : TaskId) → lookup g colors' ≡ some gray → lookup g colors ≡ some gray
    pub above : (x : TaskId) → r < rank x → lookup x colors' ≡ lookup x colors

  abbrev pub FindsNone : ℕ → Map Color → Visit → Type 0
  FindsNone r colors v =
      (colors' : Map Color) × (v ≡ some (none, colors')) × Clears r colors colors'

  Clears-refl : (r : ℕ) (c : Map Color) → Clears r c c
  Clears-refl r c = record { path = λ g h. h; above = λ x h. refl }

  Clears-trans : {r q : ℕ} {a b c : Map Color} → r ≤ q → Clears r a b → Clears q b c → Clears q a c
  Clears-trans {r} {q} l x y = record {
    path = λ g h. x.path g (y.path g h);
    above = λ g h. y.above g h ∙ x.above g (omega arith);
  }

  -- What the loop needs of the recursive call.
  abbrev pub Visits : (TaskId → Map Color → Visit) → ℕ → Type 0
  Visits visit r =
      (d : TaskId) (c : Map Color)
      → rank d < r
      → PathAbove (rank d) c
      → FindsNone (rank d) c (visit d c)

  -- The dependencies `deps` of `node`, all of smaller rank.
  visit_deps_lem :
      (visit : TaskId → Map Color → Visit) (node : TaskId) (ds : List TaskId) (c : Map Color)
      → ((d : TaskId) → contains d ds ≡ true → rank d < rank node)
      → ((d : TaskId) (c' : Map Color)
          → contains d ds ≡ true
          → PathAbove (rank d) c'
          → FindsNone (rank d) c' (visit d c'))
      → ((g : TaskId) → lookup g c ≡ some gray → rank node ≤ rank g)
      → (c' : Map Color) × (visit_deps visit node ds c ≡ some (none, insert node black c'))
        × ((g : TaskId) → lookup g c' ≡ some gray → lookup g c ≡ some gray)
        × ((x : TaskId) → rank node ≤ rank x → lookup x c' ≡ lookup x c)
  unfolding visit_deps
  visit_deps_lem visit node [] c lower call up = (c, refl, λ g h. h, λ x h. refl)
  visit_deps_lem visit node (d ∷ ds) c lower call up =
      let lower' : (e : TaskId) → contains e ds ≡ true → rank e < rank node =
        λ e m. lower e (ground arith) in
      let call' : (e : TaskId) (c' : Map Color)
          → contains e ds ≡ true
          → PathAbove (rank e) c'
          → FindsNone (rank e) c' (visit e c') =
        λ e c' m. call e c' (ground arith) in
      let small : rank d < rank node = lower d (ground arith) in
      elim (Option-cases (lookup d c)) [
        | inl e ↦ rw (e, visit_deps) (visit_deps_lem visit node ds c lower' call' up)
        | inr (black, e) ↦ rw (e, visit_deps) (visit_deps_lem visit node ds c lower' call' up)
        | inr (gray, e) ↦ absurd (omega (arith, up d e))
        | inr (white, e) ↦
            let (c1, e1, clear) = call d c (ground arith) (λ g h. omega (arith, up g h)) in
            let (c2, e2, p, q) =
              visit_deps_lem visit node ds c1 lower' call' (λ g h. up g (clear.path g h)) in
            (
              c2,
              rw (e, e1, visit_deps) e2,
              λ g h. clear.path g (p g h),
              λ x h. q x h ∙ clear.above x (omega arith),
            )
      ]

  module _ (tasks : Map TaskDescriptor) (bound : ℕ)
      (down : (k : TaskId) (t : TaskDescriptor) (d : TaskId)
        → rank k < bound
        → lookup k tasks ≡ some t
        → contains d t.dependencies ≡ true
        → (has_key d tasks ≡ true) × (rank d < rank k)) where
    pub dfs_lem :
        (fuel : ℕ) (node : TaskId) (t : TaskDescriptor) (c : Map Color)
        → rank node < fuel
        → rank node < bound
        → lookup node tasks ≡ some t
        → PathAbove (rank node) c
        → FindsNone (rank node) c (dfs fuel tasks node c)
    unfolding dfs has_key
    dfs_lem zero node t c f b e up = absurd (omega arith)
    dfs_lem (suc fuel) node t c f b e up =
        let (c', found, p, q) =
          visit_deps_lem (dfs fuel tasks) node t.dependencies (insert node gray c)
            (λ d m. (down node t d b e m).1)
            (λ d c' m up'.
              let (known, less) = down node t d b e m in
              elim (Option-cases (lookup d tasks)) [
                | inl none_there ↦ absurd (ground arith)
                | inr (t', e') ↦ dfs_lem fuel d t' c' (omega arith) (omega arith) e' up'
              ])
            (λ g h. let fact = lookup-insert node g gray c in ground (arith, up g)) in
        (
          insert node black c',
          rw (e, dfs) found,
          record {
            path = λ g h.
                let fact = p g in
                ground (arith, lookup-insert node g black c', lookup-insert node g gray c, p g);
            above = λ x h. ground (
              arith,
              lookup-insert node x black c',
              lookup-insert node x gray c,
              q x (omega arith),
            );
          },
        )

    abbrev pub NoPath : Map Color → Type 0
    NoPath c = (g : TaskId) → lookup g c ≢ some gray

    -- The tasks that the outer loop visits.
    abbrev pub Below : List TaskId → Type 0
    Below ks =
        (k : TaskId)
        → contains k ks ≡ true
        → (rank k < bound) × ((t : TaskDescriptor) × (lookup k tasks ≡ some t))

    pub scan_keys-none :
        (fuel : ℕ) (ks : List TaskId) (c : Map Color)
        → bound ≤ fuel
        → Below ks
        → NoPath c
        → scan_keys fuel tasks ks c ≡ some none
    unfolding scan_keys
    scan_keys-none fuel [] c f below clear = refl
    scan_keys-none fuel (k ∷ ks) c f below clear =
        let below' : Below ks = λ j m. below j (ground arith) in
        elim (Option-cases (lookup k c)) [
          | inl e ↦ rw (e, scan_keys) (scan_keys-none fuel ks c f below' clear)
          | inr (black, e) ↦ rw (e, scan_keys) (scan_keys-none fuel ks c f below' clear)
          | inr (gray, e) ↦ absurd (clear k e)
          | inr (white, e) ↦
              let (small, (t, et)) = below k (ground arith) in
              let (c1, e1, cl) =
                dfs_lem fuel k t c (omega arith) small et (λ g h. absurd (clear g h)) in
              rw (e, e1, scan_keys)
                (scan_keys-none fuel ks c1 f below' (λ g h. clear g (cl.path g h)))
        ]

    -- A task `n` of rank `bound` that depends on itself, and otherwise on tasks below it.
    module _ (n : TaskId) (task : TaskDescriptor) (top : rank n ≡ bound)
        (at_n : lookup n tasks ≡ some task) where
      abbrev pub OthersBelow : List TaskId → Type 0
      OthersBelow ds =
          (d : TaskId)
          → contains d ds ≡ true
          → d ≢ n
          → (rank d < bound) × ((t : TaskDescriptor) × (lookup d tasks ≡ some t))

      self_dep :
          (fuel : ℕ) (ds : List TaskId) (c : Map Color)
          → bound ≤ fuel
          → OthersBelow ds
          → contains n ds ≡ true
          → lookup n c ≡ some gray
          → ((g : TaskId) → lookup g c ≡ some gray → bound ≤ rank g)
          → (x : TaskId) × (c' : Map Color) × (visit_deps (dfs fuel tasks) n ds c
              ≡ some (some x, c'))
      unfolding visit_deps
      self_dep fuel [] c f others m on up = cc
      self_dep fuel (d ∷ ds) c f others m on up =
          let others' : OthersBelow ds = λ j mj. others j (ground arith) in
          elim (Bool-cases (d == n)) [
            | inl same ↦
                let e : lookup d c ≡ some gray =
                  subst (λ j. lookup j c ≡ some gray) (sym ((==_iff d n).0 same)) on in
                (d, c, rw (e, visit_deps) refl)
            | inr other ↦
                let rest : contains n ds ≡ true = ground arith in
                let (small, (t, et)) = others d (ground arith) (ground arith) in
                elim (Option-cases (lookup d c)) [
                  | inl e ↦ rw (e, visit_deps) (self_dep fuel ds c f others' rest on up)
                  | inr (black, e) ↦ rw (e, visit_deps) (self_dep fuel ds c f others' rest on up)
                  | inr (gray, e) ↦ absurd (omega (arith, up d e))
                  | inr (white, e) ↦
                      let (c1, e1, cl) =
                        dfs_lem fuel d t c (omega arith) small et (λ g h. omega (arith, up g h)) in
                      rw (e, e1, visit_deps)
                        (self_dep fuel ds c1 f others' rest (cl.above n (omega arith) ∙ on)
                          (λ g h. up g (cl.path g h)))
                ]
          ]

      abbrev pub FindsSome : Visit → Type 0
      FindsSome v = (x : TaskId) × (c' : Map Color) × (v ≡ some (some x, c'))

      dfs_self :
          (fuel : ℕ) (c : Map Color)
          → bound ≤ fuel
          → OthersBelow task.dependencies
          → contains n task.dependencies ≡ true
          → NoPath c
          → FindsSome (dfs (suc fuel) tasks n c)
      unfolding dfs
      dfs_self fuel c f deps self clear =
          let (x, c', found) =
            self_dep fuel task.dependencies (insert n gray c) f deps self
              (ground (arith, lookup-insert n n gray c))
              (λ g h. ground (arith, lookup-insert n g gray c, clear g)) in
          (x, c', rw (at_n, dfs) found)

      pub scan_keys-some :
          (fuel : ℕ) (ks : List TaskId) (c : Map Color)
          → bound ≤ fuel
          → OthersBelow task.dependencies
          → contains n task.dependencies ≡ true
          → OthersBelow ks
          → contains n ks ≡ true
          → NoPath c
          → lookup n c ≡ some white
          → (k : TaskId) × (scan_keys (suc fuel) tasks ks c ≡ some (some k))
      unfolding scan_keys
      scan_keys-some fuel [] c f deps self others m clear w = cc
      scan_keys-some fuel (k ∷ ks) c f deps self others m clear w = elim (Bool-cases (k == n)) [
        | inl same ↦
            let e : n ≡ k = sym ((==_iff k n).0 same) in
            let w' : lookup k c ≡ some white = subst (λ j. lookup j c ≡ some white) e w in
            let (x, c', found) =
              subst (λ j. FindsSome (dfs (suc fuel) tasks j c)) e
                (dfs_self fuel c f deps self clear) in
            (k, rw (w', found, scan_keys) refl)
        | inr other ↦
            let others' : OthersBelow ks = λ j mj. others j (ground arith) in
            let rest : contains n ks ≡ true = ground arith in
            let (small, (t, et)) = others k (ground arith) (ground arith) in
            elim (Option-cases (lookup k c)) [
              | inl e ↦
                  rw (e, scan_keys) (scan_keys-some fuel ks c f deps self others' rest clear w)
              | inr (black, e) ↦
                  rw (e, scan_keys) (scan_keys-some fuel ks c f deps self others' rest clear w)
              | inr (gray, e) ↦ absurd (clear k e)
              | inr (white, e) ↦
                  let (c1, e1, cl) =
                    dfs_lem (suc fuel) k t c (omega arith) small et (λ g h. absurd (clear g h)) in
                  rw (e, e1, scan_keys)
                    (scan_keys-some fuel ks c1 f deps self others' rest
                      (λ g h. clear g (cl.path g h)) (cl.above n (omega arith) ∙ w))
            ]
      ]
