-- ===== src/Session/Safe.antt =====
-- What the name of a session can hold.
use knitting_crab.Prelude.{
  ℕ, ◌≡◌, refl, ◌∙◌, subst, Bool, true, false, ◌&&◌, ◌||◌, Bool-cases, inl, inr, List, [], ◌∷◌,
  ◌++◌, map, codes, has_codes, if◌then◌else◌, arith,
}
use knitting_crab.Session.{
  Role, agent, runner, human, as_str, SessionResult, valid, invalid, SessionConfig, new,
  validate_repo_name, validate_work_id, is_empty, is_name_char, all_name_chars, or_underscore,
  sanitize_name, session_name,
}

-- Every character is an ASCII letter or digit, a dot, a dash or an underscore.
abbrev pub IsName : List ℕ → Type 0
IsName cs = all_name_chars cs ≡ true

kept_or_replaced :
    (b : Bool) (c : ℕ) → is_name_char c ≡ b → is_name_char (if b then c else 95) ≡ true
unfolding is_name_char
kept_or_replaced true c e = e
kept_or_replaced false c e = refl

or_underscore-is_name_char : (c : ℕ) → is_name_char (or_underscore c) ≡ true
unfolding or_underscore
or_underscore-is_name_char c = kept_or_replaced (is_name_char c) c refl

and_true : (a b : Bool) → a ≡ true → b ≡ true → (a && b) ≡ true
and_true a b h k = ground arith

and_left : (a b : Bool) → (a && b) ≡ true → (a ≡ true) × (b ≡ true)
and_left a b h = ground arith

map-IsName : (cs : List ℕ) → IsName (map or_underscore cs)
map-IsName [] = refl
map-IsName (c ∷ cs) =
    and_true (is_name_char (or_underscore c)) (all_name_chars (map or_underscore cs))
      (or_underscore-is_name_char c) (map-IsName cs)

append-IsName : (xs ys : List ℕ) → IsName xs → IsName ys → IsName (xs ++ ys)
append-IsName [] ys hx hy = hy
append-IsName (x ∷ xs) ys hx hy =
    let (h, hs) = and_left (is_name_char x) (all_name_chars xs) hx in
    and_true (is_name_char x) (all_name_chars (xs ++ ys)) h (append-IsName xs ys hs hy)

as_str-IsName : (role : Role) → IsName (as_str role)
unfolding as_str is_name_char
as_str-IsName agent = refl
as_str-IsName runner = refl
as_str-IsName human = refl

prefix-IsName : (IsName (codes "aivcs__")) × IsName (codes "__")
unfolding is_name_char
prefix-IsName = (refl, refl)

-- The parts of a configuration that has been accepted are not empty.
abbrev Filled : SessionResult SessionConfig → Type 0
Filled (valid c) = (is_empty c.repo_name ≡ false) × (is_empty c.work_id ≡ false)
Filled (invalid e) = Unit

new-Filled : (repo work : List ℕ) (role : Role) → Filled (new repo work role)
unfolding new validate_repo_name validate_work_id
new-Filled repo work role = elim (Bool-cases (is_empty repo)) [
  | inl no_repo ↦ rw (no_repo) tt
  | inr repo_given ↦ elim (Bool-cases (has_codes (codes "..") repo || has_codes (codes "/") repo)) [
    | inl traversal ↦ rw (repo_given, traversal) tt
    | inr flat ↦ elim (Bool-cases (is_empty work)) [
      | inl no_work ↦ rw (repo_given, flat, no_work) tt
      | inr work_given ↦ rw (repo_given, flat, work_given) (repo_given, work_given)
    ]
  ]
]

is_empty-map : (f : ℕ → ℕ) (cs : List ℕ) → is_empty (map f cs) ≡ is_empty cs
is_empty-map f [] = refl
is_empty-map f (c ∷ cs) = refl

module _ (lower : List ℕ → List ℕ) where
  sanitize_name-valid :
      (cs : List ℕ)
      → is_empty (lower cs) ≡ false
      → sanitize_name lower cs ≡ valid (map or_underscore (lower cs))
  unfolding sanitize_name
  sanitize_name-valid cs h = rw (is_empty-map or_underscore (lower cs) ∙ h) refl

  -- Where lowering keeps a text that is not empty so, as `to_lowercase` does: every configuration that
  -- `new` accepts has a session name, and each of its characters is an ASCII letter or digit, a dot,
  -- a dash or an underscore.
  pub session_name-IsName :
      (repo work : List ℕ) (role : Role) (config : SessionConfig)
      → ((cs : List ℕ) → is_empty (lower cs) ≡ is_empty cs)
      → new repo work role ≡ valid config
      → (name : List ℕ) × (session_name lower config ≡ valid name) × IsName name
  unfolding session_name
  session_name-IsName repo work role config keeps accepted =
      let (a, b) = subst Filled accepted (new-Filled repo work role) in
      let r = map or_underscore (lower config.repo_name) in
      let w = map or_underscore (lower config.work_id) in
      let s1 = codes "aivcs__" ++ r in
      let s2 = s1 ++ codes "__" in
      let s3 = s2 ++ w in
      let s4 = s3 ++ codes "__" in
      let h1 =
        append-IsName (codes "aivcs__") r prefix-IsName.0 (map-IsName (lower config.repo_name)) in
      let h2 = append-IsName s1 (codes "__") h1 prefix-IsName.1 in
      let h3 = append-IsName s2 w h2 (map-IsName (lower config.work_id)) in
      let h4 = append-IsName s3 (codes "__") h3 prefix-IsName.1 in
      (
        s4 ++ as_str config.role,
        rw
            (
              sanitize_name-valid config.repo_name (keeps config.repo_name ∙ a),
              sanitize_name-valid config.work_id (keeps config.work_id ∙ b),
            )
            refl,
        append-IsName s4 (as_str config.role) h4 (as_str-IsName config.role),
      )
