-- ===== src/Aging/Examples.antt =====
-- A high task after fifteen milliseconds, with a base of ten.
use knitting_crab.Prelude.{◌*◌, ◌/◌, ◌^◌, ◌≡◌, refl, arith}
use knitting_crab.Core.Priority.{normal, high, critical, as_u8}
use knitting_crab.Aging.{no_aging, linear, exponential, compute_promoted_priority}
use knitting_crab.Aging.Laws.{risen, compute_promoted_priority-risen}

compute_promoted_priority-risen_example :
    (compute_promoted_priority no_aging high 15 ≡ high)
    × (as_u8 (compute_promoted_priority (linear 10) high 15) ≡ risen 10 15 (as_u8 high))
    × (as_u8 (compute_promoted_priority (exponential 10) high 15)
        ≡ risen (2 ^ as_u8 high * 10 / 2) 15 (as_u8 high))
compute_promoted_priority-risen_example = compute_promoted_priority-risen 10 15 high (omega arith)

-- Linear aging has promoted the task, exponential aging has not yet.
promotions :
    (compute_promoted_priority (linear 10) high 15 ≡ critical)
    × (compute_promoted_priority (exponential 10) high 15 ≡ high)
    × (compute_promoted_priority (exponential 10) normal 15 ≡ high)
unfolding compute_promoted_priority
promotions = (refl, refl, refl)
