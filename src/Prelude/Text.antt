-- ===== src/Prelude/Text.antt =====
-- Whole texts compared: the keys of the source's string maps, kept in the order of iteration.
use Prim.Native.Char.{code}
use Prim.Native.Nat.{ℕ}
use Prim.Native.String.{String}
use text.Mathlib.Text.{◌==◌}
use text.Mathlib.TextEquality.{eq_iff}
use native.Mathlib.Omega.{arith}
use mathlib.Core.Path.{◌≡◌, refl}
use mathlib.Core.Bool.{Bool, true, false, ◌&&◌, ◌||◌}
use mathlib.Core.List.{List, [], ◌∷◌}
use mathlib.Core.Option.{Option, none, some}
use knitting_crab.Prelude.Tests.{◌==◌ as same_code, if◌then◌else◌}

abbrev pub same_text : String → String → Bool
same_text a b = a == b

abbrev pub TextMap {ℓ} : Type ℓ → Type ℓ
TextMap V = List (String × V)

module _ {ℓ} {V : Type ℓ} where
  unfoldable pub text_lookup : String → TextMap V → Option V
  text_lookup key [] = none
  text_lookup key ((name, value) ∷ m) =
      let later = text_lookup key m in if same_text name key then some value else later

  unfoldable pub text_insert : String → V → TextMap V → TextMap V
  text_insert key new [] = (key, new) ∷ []
  text_insert key new ((name, value) ∷ m) =
      let later = text_insert key new m in
      if same_text name key then (key, new) ∷ m else (name, value) ∷ later

  pub text_lookup-insert :
      (k j : String) (v : V) (m : TextMap V)
      → text_lookup j (text_insert k v m) ≡ (if same_text k j then some v else text_lookup j m)
  unfolding text_lookup text_insert
  text_lookup-insert k j v [] = refl
  text_lookup-insert k j v ((i, w) ∷ m) =
      ground (arith, eq_iff k j, eq_iff i k, eq_iff i j, text_lookup-insert k j v m)

  unfoldable pub text_remove : String → TextMap V → TextMap V
  text_remove key [] = []
  text_remove key ((name, value) ∷ m) =
      let later = text_remove key m in if same_text name key then later else (name, value) ∷ later

  pub text_lookup-remove :
      (k j : String) (m : TextMap V)
      → text_lookup j (text_remove k m) ≡ (if same_text k j then none else text_lookup j m)
  unfolding text_lookup text_remove
  text_lookup-remove k j [] = ground arith
  text_lookup-remove k j ((i, w) ∷ m) =
      ground (arith, eq_iff k j, eq_iff i k, eq_iff i j, text_lookup-remove k j m)

-- The code points of a text.
abbrev pub codes : String → List ℕ
codes String.[] = []
codes (String.◌∷◌ c s) = code c ∷ codes s

abbrev pub starts_with : List ℕ → List ℕ → Bool
starts_with [] cs = true
starts_with (d ∷ ds) [] = false
starts_with (d ∷ ds) (c ∷ cs) = same_code d c && starts_with ds cs

abbrev pub has_codes : List ℕ → List ℕ → Bool
has_codes ds [] = starts_with ds []
has_codes ds (c ∷ cs) = starts_with ds (c ∷ cs) || has_codes ds cs

-- `text.contains(part)`
abbrev pub has_text : String → String → Bool
has_text part s = has_codes (codes part) (codes s)
