-- ===== src/Core/Priority.antt =====
-- crates/core/src/priority.rs: the four priority levels and their numeric backing.
use knitting_crab.Prelude.{
  ◌↔◌, ℕ, ◌≤◌, ◌≡◌, Bool, true, false, Option, none, some, List, [], ◌∷◌, String, ◌==◌, ltb,
  if◌then◌else◌, arith,
}

-- In ascending order, which is the derived `Ord`.
pub data Priority : Type 0 where
  low normal high critical : Priority

unfoldable pub from_u8 : ℕ → Option Priority
from_u8 value =
    if value == 0
    then some low
    else if value == 1
    then some normal
    else if value == 2
    then some high
    else if value == 3
    then some critical
    else none

unfoldable pub as_u8 : Priority → ℕ
as_u8 low = 0
as_u8 normal = 1
as_u8 high = 2
as_u8 critical = 3

unfoldable pub is_critical : Priority → Bool
is_critical critical = true
is_critical _ = false

-- Whole percentages; the source writes them as `f64`.
unfoldable pub weight_percentage : Priority → ℕ
weight_percentage critical = 50
weight_percentage high = 30
weight_percentage normal = 15
weight_percentage low = 5

unfoldable pub label : Priority → String
label critical = "Critical"
label high = "High"
label normal = "Normal"
label low = "Low"

unfoldable pub all : List Priority
all = low ∷ normal ∷ high ∷ critical ∷ []

unfoldable pub all_desc : List Priority
all_desc = critical ∷ high ∷ normal ∷ low ∷ []

-- `From<bool>`.
unfoldable pub from : Bool → Priority
from b = if b then critical else normal

-- The derived comparisons `<` and `<=`.
unfoldable pub priority_lt : Priority → Priority → Bool
unfolding as_u8
priority_lt p q = ltb (as_u8 p) (as_u8 q)

pub as_u8-le : (p : Priority) → as_u8 p ≤ 3
unfolding as_u8
as_u8-le p = ground arith

-- A number is read as a level exactly when it is the number of that level.
pub from_u8-as_u8 : (p : Priority) (n : ℕ) → (from_u8 n ≡ some p) ↔ (as_u8 p ≡ n)
unfolding from_u8 as_u8
from_u8-as_u8 p n = ((λ e. ground arith), (λ e. ground arith))
