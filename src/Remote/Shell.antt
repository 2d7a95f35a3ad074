-- ===== src/Remote/Shell.antt =====
-- The command lines of crates/worker/src/ssh_tmux_executor.rs. A text is the list of its code points.
use knitting_crab.Prelude.{ℕ, ◌==◌, List, [], ◌∷◌, ◌++◌, map, codes, if◌then◌else◌}

abbrev pub backslash : ℕ
backslash = 92

abbrev pub quote : ℕ
quote = 34

abbrev pub dollar : ℕ
dollar = 36

abbrev pub backtick : ℕ
backtick = 96

abbrev pub space : ℕ
space = 32

-- `s.replace(c, "\c")`
unfoldable pub replace : ℕ → List ℕ → List ℕ
replace c [] = []
replace c (x ∷ xs) = let rest = replace c xs in if x == c then backslash ∷ c ∷ rest else x ∷ rest

unfoldable pub shell_escape_sh_double : List ℕ → List ℕ
unfolding replace
shell_escape_sh_double s = replace backtick (replace dollar (replace quote (replace backslash s)))

unfoldable pub quoted_arg : List ℕ → List ℕ
unfolding shell_escape_sh_double
quoted_arg arg = quote ∷ shell_escape_sh_double arg ++ quote ∷ []

-- `collect::<Vec<_>>().join(" ")`
unfoldable pub join : List (List ℕ) → List ℕ
join [] = []
join (word ∷ []) = word
join (word ∷ words) = word ++ space ∷ join words

unfoldable pub shell_join : List (List ℕ) → List ℕ
unfolding quoted_arg join
shell_join args = join (map quoted_arg args)

-- The script that runs the command and writes its exit code to the sentinel file.
unfoldable pub inner_script : List (List ℕ) → List ℕ → List ℕ
unfolding shell_join
inner_script args sentinel_path =
    codes "(" ++ shell_join args ++ codes "); echo $? > " ++ sentinel_path

unfoldable pub build_wrapped_command : List (List ℕ) → List ℕ → List ℕ
unfolding inner_script shell_escape_sh_double
build_wrapped_command args sentinel_path =
    codes "sh -c \"" ++ shell_escape_sh_double (inner_script args sentinel_path) ++ codes "\""
