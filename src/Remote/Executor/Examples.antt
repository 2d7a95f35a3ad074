-- ===== src/Remote/Executor/Examples.antt =====
-- A session manager that records its calls, on a command that does not end in time.
use knitting_crab.Prelude.{ℕ, ◌≡◌, refl, none, List, [], ◌∷◌, ◌++◌, String, codes}
use knitting_crab.Core.Task.{local}
use knitting_crab.Core.Error.{ok}
use knitting_crab.Worker.{SpawnParams}
use knitting_crab.Remote.Executor.{RemoteSessionManager, is_cancelled, execute}

abbrev recorder : RemoteSessionManager (List String)
recorder = record {
  ensure_session = λ config calls. (calls ++ "ensure" ∷ [], ok "main_session");
  run_command_in_session = λ session window command path calls. (calls ++ "run" ∷ [], ok tt);
  poll_exit_code = λ path calls. (calls ++ "poll" ∷ [], ok none);
  cleanup_sentinel = λ path calls. (calls ++ "cleanup" ∷ [], ok tt);
  kill_session = λ session calls. (calls ++ "kill" ∷ [], ok tt);
}

abbrev params : SpawnParams
params = record {
  task_id = 3;
  command = "make" ∷ [];
  working_dir = "/";
  env = [];
  location = local;
}

abbrev hex : ℕ → List ℕ
hex task = codes "0123-456789-abcdef"

calls_made :
    (execute recorder hex 2 is_cancelled params []).0
    ≡ "ensure" ∷ "run" ∷ "poll" ∷ "poll" ∷ "kill" ∷ "cleanup" ∷ []
unfolding execute
calls_made = refl
