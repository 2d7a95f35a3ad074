-- ===== src/Timeout/Laws.antt =====
-- When a timeout ends a task.
use knitting_crab.Prelude.{
  ℕ, ◌+◌, ◌-◌, ◌≡◌, refl, ap, ◌∙◌, Bool, true, false, Bool-cases, inl, inr, Option, none, some, max,
  ltb, if◌then◌else◌, arith,
}
use knitting_crab.Timeout.{
  TimeoutHandle, TaskTimeoutManager, sleep, soften, harden, wait_for, start, cancel,
}

-- The later of the two limits.
abbrev pub later : Option ℕ → ℕ → ℕ
later none limit = limit
later (some soft) limit = max soft limit

harden_flag :
    (b : Bool) (h : TimeoutHandle) → h.cancelled ≡ b → (if b then h else cancel h).cancelled ≡ true
unfolding cancel
harden_flag true h e = e
harden_flag false h e = refl

harden-cancelled : (s : ℕ × TimeoutHandle) → (harden s).1.cancelled ≡ true
unfolding harden
harden-cancelled (t, h) = harden_flag h.cancelled h refl

harden-fst : (s : ℕ × TimeoutHandle) → (harden s).0 ≡ s.0
unfolding harden
harden-fst (t, h) = refl

soften-fst : (s : ℕ × TimeoutHandle) → (soften s).0 ≡ s.0
unfolding soften
soften-fst (t, h) = refl

module _ (others : ℕ → TimeoutHandle → TimeoutHandle) where
  sleep-fst : (duration : ℕ) (s : ℕ × TimeoutHandle) → (sleep others duration s).0 ≡ s.0 + duration
  unfolding sleep
  sleep-fst duration (t, h) = refl

  wait_for-fst :
      (soft : Option ℕ) (limit : ℕ) (s : ℕ × TimeoutHandle)
      → (wait_for others soft limit s).0 ≡ s.0 + later soft limit
  unfolding wait_for
  wait_for-fst none limit s = sleep-fst limit s
  wait_for-fst (some soft) limit s =
      let softened = soften (sleep others soft s) in
      let a : softened.0 ≡ s.0 + soft = soften-fst (sleep others soft s) ∙ sleep-fst soft s in
      elim (Bool-cases (ltb 0 (limit - soft))) [
        | inl some_left ↦ rw (some_left) (
            sleep-fst (limit - soft) softened ∙ ap (λ n. n + (limit - soft)) a ∙ left s.0 some_left)
        | inr none_left ↦ rw (none_left) (a ∙ nothing s.0 none_left)
      ]
    where
      left : (t : ℕ) → ltb 0 (limit - soft) ≡ true → t + soft + (limit - soft) ≡ t + max soft limit
      left t h = ground arith

      nothing : (t : ℕ) → ltb 0 (limit - soft) ≡ false → t + soft ≡ t + max soft limit
      nothing t h = ground arith

  -- Whatever the other holders of the handle do, the enforcement ends after the later of the two
  -- limits, and the task is cancelled then.
  pub start_lem :
      (m : TaskTimeoutManager)
      → ((start others m).0 ≡ later m.policy.soft_timeout m.policy.hard_timeout)
        × ((start others m).1.cancelled ≡ true)
  unfolding start
  start_lem m =
      let waited = wait_for others m.policy.soft_timeout m.policy.hard_timeout (0, m.handle) in
      (
        harden-fst waited
            ∙ wait_for-fst m.policy.soft_timeout m.policy.hard_timeout (0, m.handle)
            ∙ plus_zero (later m.policy.soft_timeout m.policy.hard_timeout),
        harden-cancelled waited,
      )
    where
      plus_zero : (n : ℕ) → 0 + n ≡ n
      plus_zero n = omega arith
