-- ===== src/Aging/Laws.antt =====
-- The priority of a waiting task by its age, for each policy.
use knitting_crab.Prelude.{
  ℕ, ◌+◌, ◌*◌, ◌/◌, ◌^◌, ◌<◌, ◌≡◌, refl, min, leb, if◌then◌else◌, u64_mod, arith,
}
use knitting_crab.Core.Priority.{Priority, low, normal, high, critical, as_u8}
use knitting_crab.Aging.{
  no_aging, linear, exponential, threshold_ms, promote_priority, compute_promoted_priority,
}

-- The level `n` after an age, one higher from the threshold on and never above 3.
abbrev pub risen : ℕ → ℕ → ℕ → ℕ
risen threshold age_ms n = if leb threshold age_ms then min 3 (n + 1) else n

linear-risen :
    (base_ms age_ms : ℕ) (p : Priority)
    → as_u8 (compute_promoted_priority (linear base_ms) p age_ms) ≡ risen base_ms age_ms (as_u8 p)
unfolding compute_promoted_priority threshold_ms promote_priority as_u8
linear-risen base_ms age_ms low = ground arith
linear-risen base_ms age_ms normal = ground arith
linear-risen base_ms age_ms high = ground arith
linear-risen base_ms age_ms critical = ground arith

exponential-risen :
    (base_ms age_ms : ℕ) (p : Priority)
    → base_ms * 2 < u64_mod
    → as_u8 (compute_promoted_priority (exponential base_ms) p age_ms)
      ≡ risen (2 ^ as_u8 p * base_ms / 2) age_ms (as_u8 p)
unfolding compute_promoted_priority threshold_ms promote_priority as_u8
exponential-risen base_ms age_ms low w = ground arith
exponential-risen base_ms age_ms normal w = ground arith
exponential-risen base_ms age_ms high w = ground arith
exponential-risen base_ms age_ms critical w = ground arith

-- Without aging a priority stays. Under linear aging it is one level higher, and at most Critical,
-- exactly from the age of one threshold on. Under exponential aging the same holds, where the
-- threshold is half the base for Low and doubles with each level, if twice the base fits a `u64`.
pub compute_promoted_priority-risen :
    (base_ms age_ms : ℕ) (p : Priority)
    → base_ms * 2 < u64_mod
    → (compute_promoted_priority no_aging p age_ms ≡ p)
      × (as_u8 (compute_promoted_priority (linear base_ms) p age_ms)
          ≡ risen base_ms age_ms (as_u8 p))
      × (as_u8 (compute_promoted_priority (exponential base_ms) p age_ms)
          ≡ risen (2 ^ as_u8 p * base_ms / 2) age_ms (as_u8 p))
unfolding compute_promoted_priority threshold_ms
compute_promoted_priority-risen base_ms age_ms p w =
    (refl, linear-risen base_ms age_ms p, exponential-risen base_ms age_ms p w)
