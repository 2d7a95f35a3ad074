-- ===== src/Prelude/Maps.antt =====
-- Maps keyed by identifiers, as association lists in the order of iteration. An insertion
-- replaces the value of its key in place, or else appends an entry.
use Prim.Native.Nat.{ℕ}
use mathlib.Core.Path.{◌≡◌, refl}
use mathlib.Core.Bool.{Bool}
use mathlib.Core.List.{List, [], ◌∷◌}
use mathlib.Core.Option.{Option, none, some}
use native.Mathlib.Omega.{arith}
use knitting_crab.Prelude.Tests.{◌==◌, if◌then◌else◌, is_some}
use knitting_crab.Prelude.Lists.{contains}

abbrev pub Map {ℓ} : Type ℓ → Type ℓ
Map V = List (ℕ × V)

module _ {ℓ} {V : Type ℓ} where
  unfoldable pub lookup : ℕ → Map V → Option V
  lookup k [] = none
  lookup k ((i, w) ∷ rest) = if i == k then some w else lookup k rest

  unfoldable pub insert : ℕ → V → Map V → Map V
  insert k v [] = (k, v) ∷ []
  insert k v ((i, w) ∷ rest) =
      let later = insert k v rest in if i == k then (k, v) ∷ rest else (i, w) ∷ later

  unfoldable pub remove : ℕ → Map V → Map V
  remove k [] = []
  remove k ((j, w) ∷ m) = let rest = remove k m in if j == k then rest else (j, w) ∷ rest

  unfoldable pub keys : Map V → List ℕ
  keys [] = []
  keys ((j, w) ∷ m) = j ∷ keys m

  unfoldable pub has_key : ℕ → Map V → Bool
  unfolding lookup
  has_key k m = is_some (lookup k m)

  pub lookup-insert :
      (key other : ℕ) (new : V) (entries : Map V)
      → lookup other (insert key new entries)
        ≡ (if key == other then some new else lookup other entries)
  unfolding lookup insert
  lookup-insert key other new [] = refl
  lookup-insert key other new ((i, w) ∷ rest) = ground (arith, lookup-insert key other new rest)

  pub lookup-remove :
      (k j : ℕ) (m : Map V) → lookup j (remove k m) ≡ (if k == j then none else lookup j m)
  unfolding lookup remove
  lookup-remove k j [] = ground arith
  lookup-remove k j ((i, w) ∷ m) = ground (arith, lookup-remove k j m)

  pub contains-keys : (k : ℕ) (m : Map V) → contains k (keys m) ≡ has_key k m
  unfolding has_key keys
  contains-keys k [] = refl
  contains-keys k ((i, w) ∷ m) = ground (arith, contains-keys k m)

  remove_missing : (k : ℕ) (m : Map V) → lookup k m ≡ none → remove k m ≡ m
  unfolding lookup remove
  remove_missing k [] h = refl
  remove_missing k ((i, w) ∷ m) h = ground (arith, remove_missing k m)

  -- Taking a new key out again restores the map.
  pub remove-insert : (k : ℕ) (v : V) (m : Map V) → lookup k m ≡ none → remove k (insert k v m) ≡ m
  unfolding lookup insert remove
  remove-insert k v [] h = ground arith
  remove-insert k v ((i, w) ∷ m) h = ground (arith, remove-insert k v m)
