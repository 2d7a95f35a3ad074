-- ===== src/Session.antt =====
-- crates/aivcs-session/src/session.rs and crates/core/src/execution_location.rs: the names that reach
-- a remote machine. A text is the list of its code points.
pub mod Safe
mod Examples
use knitting_crab.Prelude.{
  ℕ, ◌==◌, Bool, true, false, not, ◌&&◌, ◌||◌, leb, List, [], ◌∷◌, ◌++◌, map, codes, has_codes,
  if◌then◌else◌,
}

pub data Role : Type 0 where
  agent runner human : Role

unfoldable pub as_str : Role → List ℕ
as_str agent = codes "agent"
as_str runner = codes "runner"
as_str human = codes "human"

-- The errors that the modelled functions return.
pub data SessionError : Type 0 where
  repo_path_traversal repo_invalid_characters work_id_invalid_characters : List ℕ → SessionError
  session_name_generation : SessionError

pub data SessionResult (A : Type 0) : Type 0 where
  valid : A → SessionResult A
  invalid : SessionError → SessionResult A

pub record SessionConfig : Type 0 where
  pub repo_name : List ℕ
  pub work_id : List ℕ
  pub role : Role

abbrev pub is_empty : List ℕ → Bool
is_empty [] = true
is_empty (c ∷ cs) = false

abbrev pub and_then : {A B : Type 0} → SessionResult A → (A → SessionResult B) → SessionResult B
and_then (valid a) f = f a
and_then (invalid e) f = invalid e

unfoldable pub validate_repo_name : List ℕ → SessionResult (Unit {0})
validate_repo_name repo =
    if is_empty repo
    then invalid (repo_invalid_characters (codes "empty"))
    else if has_codes (codes "..") repo || has_codes (codes "/") repo
    then invalid (repo_path_traversal repo)
    else valid tt

unfoldable pub validate_work_id : List ℕ → SessionResult (Unit {0})
validate_work_id work_id =
    if is_empty work_id then invalid (work_id_invalid_characters (codes "empty")) else valid tt

unfoldable pub new : List ℕ → List ℕ → Role → SessionResult SessionConfig
unfolding validate_repo_name validate_work_id
new repo work role = and_then (validate_repo_name repo) λ a.
    and_then (validate_work_id work)
      λ b. valid (record { repo_name = repo; work_id = work; role = role })

unfoldable pub is_ascii_alphanumeric : ℕ → Bool
is_ascii_alphanumeric c = leb 48 c && leb c 57 || leb 65 c && leb c 90 || leb 97 c && leb c 122

-- The characters `.`, `_` and `-` besides.
unfoldable pub is_name_char : ℕ → Bool
unfolding is_ascii_alphanumeric
is_name_char c = is_ascii_alphanumeric c || c == 46 || c == 95 || c == 45

unfoldable pub or_underscore : ℕ → ℕ
unfolding is_name_char
or_underscore c = if is_name_char c then c else 95

-- `lower` is `str::to_lowercase`.
module _ (lower : List ℕ → List ℕ) where
  unfoldable pub sanitize_name : List ℕ → SessionResult (List ℕ)
  unfolding or_underscore
  sanitize_name name =
      let sanitized = map or_underscore (lower name) in
      if is_empty sanitized then invalid session_name_generation else valid sanitized

  unfoldable pub session_name : SessionConfig → SessionResult (List ℕ)
  unfolding sanitize_name as_str
  session_name config = and_then (sanitize_name config.repo_name) λ repo.
      and_then (sanitize_name config.work_id) λ work.
        valid (codes "aivcs__" ++ repo ++ codes "__" ++ work ++ codes "__" ++ as_str config.role)

unfoldable pub repo_path : SessionConfig → List ℕ
repo_path config = codes "/home/aivcs/engineering/code/clone-base/" ++ config.repo_name

-- `RemoteSessionTarget` of crates/core/src/execution_location.rs.
pub record RemoteSessionTarget : Type 0 where
  pub host : List ℕ
  pub user : List ℕ
  pub repo_name : List ℕ

pub data TargetResult : Type 0 where
  accepted : RemoteSessionTarget → TargetResult
  refused : List ℕ → TargetResult

abbrev pub all_name_chars : List ℕ → Bool
all_name_chars [] = true
all_name_chars (c ∷ cs) = is_name_char c && all_name_chars cs

unfoldable pub new_target : List ℕ → List ℕ → List ℕ → TargetResult
new_target host user repo_name =
    if is_empty host
    then refused (codes "host cannot be empty")
    else if not (all_name_chars host)
    then refused (codes "host contains invalid characters")
    else if is_empty user
    then refused (codes "user cannot be empty")
    else if not (all_name_chars user)
    then refused (codes "user contains invalid characters")
    else if is_empty repo_name
    then refused (codes "repo_name cannot be empty")
    else if has_codes (codes "..") repo_name
    then refused (codes "repo_name contains path traversal (..)")
    else if has_codes (codes "/") repo_name
    then refused (codes "repo_name contains path separator")
    else accepted (record { host = host; user = user; repo_name = repo_name })
