-- ===== src/Backpressure/Race.antt =====
-- Users of one queue, whose loads of the depth and entries interleave.
use knitting_crab.Prelude.{
  ℕ, zero, suc, ◌+◌, ◌≤◌, ◌<◌, ◌≡◌, refl, Bool, true, false, List, [], ◌∷◌, ◌++◌, length, ltb,
  if◌then◌else◌, u64_mod, arith, ◌&&◌,
}
use knitting_crab.Core.Error.{Result, ok, err}
use knitting_crab.Backpressure.{
  BackpressureConfig, QueueBackpressureManager, new, try_enqueue, dequeue, reset,
}

-- The manager, and what the users have loaded that have not gone on yet.
pub record Shared : Type 0 where
  pub manager : QueueBackpressureManager
  pub loaded : List ℕ

unfoldable pub start : BackpressureConfig → Shared
unfolding new
start config = record { manager = new config; loaded = [] }

-- A step of some user, when no more than `users` are between their load and their entry. A user
-- leaves a queue that is not empty.
pub data Step (users : ℕ) (s : Shared) : Shared → Type 0 where
  loads :
      length s.loaded < users
      → Step users s (record s { loaded = s.manager.current_depth ∷ s.loaded })
  enters :
      (before : List ℕ) (current : ℕ) (after : List ℕ)
      → s.loaded ≡ before ++ current ∷ after
      → Step users s
          (record { manager = (try_enqueue current s.manager).0; loaded = before ++ after })
  leaves : 0 < s.manager.current_depth → Step users s (record s { manager = dequeue s.manager })
  resets : Step users s (record s { manager = reset s.manager })

pub data Reach (users : ℕ) (s : Shared) : Shared → Type 0 where
  here : Reach users s s
  next : {t u : Shared} → Reach users s t → Step users t u → Reach users s u

-- The users whose load lets them in.
unfoldable pub admitted : ℕ → List ℕ → ℕ
admitted limit [] = 0
admitted limit (d ∷ ds) = let rest = admitted limit ds in if ltb d limit then suc rest else rest

-- Those who are in, and those who will be, are fewer than the limit and the users in between.
pub record IsBounded (config : BackpressureConfig) (users : ℕ) (s : Shared) : Type 0 where
  pub has_config : s.manager.config ≡ config
  pub in_between : length s.loaded ≤ users
  pub bound :
      s.manager.current_depth + admitted config.max_queue_depth s.loaded
      < config.max_queue_depth + users

accepted : Result (Unit {0}) → Bool
accepted (ok u) = true
accepted (err e) = false

-- Users that go on one after the other with the same load: the manager, and whether all got in.
unfoldable pub race : ℕ → ℕ → QueueBackpressureManager → QueueBackpressureManager × Bool
unfolding try_enqueue accepted
race zero current m = (m, true)
race (suc users) current m =
    let (m1, r) = try_enqueue current m in
    let (m2, all) = race users current m1 in (m2, accepted r && all)

race_from :
    (users current : ℕ) (m : QueueBackpressureManager)
    → current < m.config.max_queue_depth
    → m.current_depth + users < u64_mod
    → ((race users current m).0.current_depth ≡ m.current_depth + users)
      × ((race users current m).1 ≡ true)
unfolding race try_enqueue accepted
race_from zero current m l w = (omega arith, refl)
race_from (suc users) current m l w =
    let m1 = (try_enqueue current m).0 in
    let in_ : try_enqueue current m ≡ (record m { current_depth = m.current_depth + 1 }, ok tt) =
      ground arith in
    let later =
      race_from users current (record m { current_depth = m.current_depth + 1 }) l (omega arith) in
    rw in_ (omega (arith, later.0), later.1)

-- However many users load a depth below the limit before any of them enters, all of them get in:
-- the depth grows by their number, whatever the limit is.
pub race-depth :
    (users : ℕ) (m : QueueBackpressureManager)
    → m.current_depth < m.config.max_queue_depth
    → m.current_depth + users < u64_mod
    → ((race users m.current_depth m).0.current_depth ≡ m.current_depth + users)
      × ((race users m.current_depth m).1 ≡ true)
race-depth users m l w = race_from users m.current_depth m l w
