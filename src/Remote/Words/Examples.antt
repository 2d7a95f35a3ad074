-- ===== src/Remote/Words/Examples.antt =====
-- A command whose argument tries to run another.
use knitting_crab.Prelude.{ℕ, ◌≡◌, some, List, [], ◌∷◌, codes}
use knitting_crab.Remote.Shell.{inner_script, build_wrapped_command, shell_join}
use knitting_crab.Remote.Words.{between, read, read-build_wrapped_command}

abbrev hostile : List (List ℕ)
hostile = codes "echo" ∷ codes "\"; rm -rf $HOME \\`id`" ∷ []

read-build_wrapped_command_example :
    (read between (build_wrapped_command hostile (codes "/tmp/kc_exit_0"))
      ≡ some (codes "sh" ∷ codes "-c" ∷ inner_script hostile (codes "/tmp/kc_exit_0") ∷ []))
    × (read between (shell_join hostile) ≡ some hostile)
read-build_wrapped_command_example = read-build_wrapped_command hostile (codes "/tmp/kc_exit_0")
