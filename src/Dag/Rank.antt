-- ===== src/Dag/Rank.antt =====
-- The position of a key in a map, which is the order in which the tasks were accepted.
use knitting_crab.Prelude.{
  ℕ, suc, ◌<◌, ◌≡◌, refl, true, false, [], ◌∷◌, Map, insert, has_key, length, if◌then◌else◌, ◌==◌,
  arith,
}

module _ {ℓ} {V : Type ℓ} where
  pub rank : ℕ → Map V → ℕ
  rank k [] = 0
  rank k ((j, v) ∷ m) = if j == k then 0 else suc (rank k m)

  pub rank-lt-length : (k : ℕ) (m : Map V) → has_key k m ≡ true → rank k m < length m
  unfolding rank has_key
  rank-lt-length k [] h = cc
  rank-lt-length k ((j, v) ∷ m) h = ground (arith, rank-lt-length k m)

  pub rank-missing : (k : ℕ) (m : Map V) → has_key k m ≡ false → rank k m ≡ length m
  unfolding rank has_key
  rank-missing k [] h = refl
  rank-missing k ((j, v) ∷ m) h = ground (arith, rank-missing k m)

  -- A new entry goes to the end, and moves none.
  pub rank-insert :
      (k j : ℕ) (v : V) (m : Map V)
      → has_key j (insert k v m) ≡ true
      → rank j (insert k v m) ≡ rank j m
  unfolding rank has_key insert
  rank-insert k j v [] h = ground arith
  rank-insert k j v ((i, w) ∷ m) h = ground (arith, rank-insert k j v m)

  pub length-insert_new :
      (k : ℕ) (v : V) (m : Map V) → has_key k m ≡ false → length (insert k v m) ≡ suc (length m)
  unfolding has_key insert
  length-insert_new k v [] h = refl
  length-insert_new k v ((i, w) ∷ m) h = ground (arith, length-insert_new k v m)

  -- Two entries at one place are one.
  pub rank-injective : (j k : ℕ) (m : Map V) → has_key j m ≡ true → rank j m ≡ rank k m → j ≡ k
  unfolding rank has_key
  rank-injective j k [] h e = cc
  rank-injective j k ((i, w) ∷ m) h e = ground (arith, rank-injective j k m)
