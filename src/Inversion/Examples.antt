-- ===== src/Inversion/Examples.antt =====
-- A low task holds a lock that a critical one waits for, before and after its release.
use knitting_crab.Prelude.{◌≡◌, refl, none, List, [], ◌∷◌}
use knitting_crab.Core.Priority.{low, high, critical}
use knitting_crab.Inversion.{new, inversion_count}
use knitting_crab.Inversion.History.{
  Call, acquires, releases, blocks, run, inversions, run-inversions,
}

abbrev calls : List Call
calls =
    acquires "db" 1 low 10
    ∷ blocks 2 critical "db" 20
    ∷ blocks 3 low "db" 25
    ∷ releases "db"
    ∷ blocks 4 high "db" 30
    ∷ []

one_inversion : inversion_count (run calls new) ≡ 1
unfolding inversion_count run new
one_inversion = refl

run-inversions_example : (run calls new).inversion_history ≡ inversions calls (λ key. none)
run-inversions_example = run-inversions calls
