-- ===== src/Remote/Executor.antt =====
-- `SshTmuxSessionExecutor` of crates/worker/src/ssh_tmux_executor.rs over any session manager, and
-- `DispatchingExecutor` of crates/worker/src/dispatching_executor.rs.
mod Examples
use knitting_crab.Prelude.{
  ℕ, zero, suc, ◌==◌, not, Bool, true, false, Option, none, some, List, [], ◌∷◌, ◌++◌, String, map,
  retain, codes, Bool-cases, inl, inr, if◌then◌else◌,
}
use knitting_crab.Core.Task.{TaskId, ExecutionLocation, local, remote_session}
use knitting_crab.Core.Error.{CoreError, Result, ok, err}
use knitting_crab.Retry.{ExitOutcome, success, failed_with_code}
use knitting_crab.Framing.{take}
use knitting_crab.Worker.{
  WorkerError, spawn_failed, internal_error, WorkerResult, worker_ok, worker_err, SpawnParams,
  ProcessExecutor,
}
use knitting_crab.Remote.Shell.{build_wrapped_command}

pub record SessionConfig : Type 0 where
  pub host : String
  pub user : String
  pub repo_name : String

-- `RemoteSessionManagerTrait` of crates/core/src/traits.rs. A command and a path are code points.
pub record RemoteSessionManager (M : Type 0) : Type 0 where
  pub ensure_session : SessionConfig → M → M × Result String
  pub run_command_in_session : String → String → List ℕ → List ℕ → M → M × Result (Unit {0})
  pub poll_exit_code : List ℕ → M → M × Result (Option ℕ)
  pub cleanup_sentinel : List ℕ → M → M × Result (Unit {0})
  pub kill_session : String → M → M × Result (Unit {0})

-- `hex` is how a task identifier prints.
unfoldable pub sentinel_path_for_task : (TaskId → List ℕ) → TaskId → List ℕ
sentinel_path_for_task hex task =
    codes "/tmp/kc_exit_" ++ take 12 (retain (λ c. not (c == 45)) (hex task))

unfoldable pub config_of : ExecutionLocation → SessionConfig
config_of (remote_session target) = record {
  host = target.host;
  user = target.user;
  repo_name = target.repo_name;
}
config_of local = record { host = "aivcs.local"; user = "aivcs"; repo_name = "unknown" }

-- What stops the polling, if no poll has: the hour is over, or the task is cancelled.
pub data Stop : Type 0 where
  times_out is_cancelled : Stop

abbrev pub outcome_of_code : ℕ → ExitOutcome
outcome_of_code code = if code == 0 then success else failed_with_code code

module _ {M : Type 0} (manager : RemoteSessionManager M) where
  abbrev pub judge_poll :
      (M → M × Option ExitOutcome) → M × Result (Option ℕ) → M × Option ExitOutcome
  judge_poll rest (m, ok (some code)) = (m, some (outcome_of_code code))
  judge_poll rest (m, ok none) = rest m
  judge_poll rest (m, err e) = (m, some (failed_with_code 1))

  -- At most so many polls.
  unfoldable pub poll_for_exit : ℕ → List ℕ → M → M × Option ExitOutcome
  poll_for_exit zero path m = (m, none)
  poll_for_exit (suc n) path m =
      let rest : M → M × Option ExitOutcome = λ t. poll_for_exit n path t in
      judge_poll rest (manager.poll_exit_code path m)

  unfoldable pub stop_polling : Stop → String → M × Option ExitOutcome → M × ExitOutcome
  stop_polling stop session (m, some outcome) = (m, outcome)
  stop_polling times_out session (m, none) = (m, failed_with_code 124)
  stop_polling is_cancelled session (m, none) =
      ((manager.kill_session session m).0, failed_with_code 137)

  unfoldable pub after_submission :
      ℕ → Stop → String → List ℕ → M × Result (Unit {0}) → M × WorkerResult ExitOutcome
  unfolding poll_for_exit stop_polling
  after_submission polls stop session path (m, err e) =
      (m, worker_err (internal_error "run_command_in_session failed"))
  after_submission polls stop session path (m, ok u) =
      let (m', outcome) = stop_polling stop session (poll_for_exit polls path m) in
      ((manager.cleanup_sentinel path m').0, worker_ok outcome)

  unfoldable pub in_session :
      ℕ → Stop → List String → List ℕ → M × Result String → M × WorkerResult ExitOutcome
  unfolding after_submission build_wrapped_command
  in_session polls stop command path (m, err e) =
      (m, worker_err (internal_error "ensure_session failed"))
  in_session polls stop command path (m, ok session) = after_submission polls stop session path (
      manager.run_command_in_session session "main" (build_wrapped_command (map codes command) path)
        path m)

  abbrev pub is_empty_command : List String → Bool
  is_empty_command [] = true
  is_empty_command (c ∷ cs) = false

  unfoldable pub execute :
      (TaskId → List ℕ) → ℕ → Stop → SpawnParams → M → M × WorkerResult ExitOutcome
  unfolding in_session config_of sentinel_path_for_task
  execute hex polls stop params m =
      if is_empty_command params.command
      then (m, worker_err (spawn_failed "empty command"))
      else in_session polls stop params.command (sentinel_path_for_task hex params.task_id)
          (manager.ensure_session (config_of params.location) m)

  -- What an execution does with the sentinel file: it has submitted nothing, or the last thing that
  -- it does is to remove the file.
  pub data Cleans (path : List ℕ) : M × WorkerResult ExitOutcome → Type 0 where
    not_submitted : (m : M) (e : WorkerError) → Cleans path (m, worker_err e)
    cleaned :
        (m : M) (outcome : ExitOutcome)
        → Cleans path ((manager.cleanup_sentinel path m).0, worker_ok outcome)

  after_submission-Cleans :
      (polls : ℕ) (stop : Stop) (session : String) (path : List ℕ) (r : M × Result (Unit {0}))
      → Cleans path (after_submission polls stop session path r)
  unfolding after_submission
  after_submission-Cleans polls stop session path (m, err e) =
      not_submitted m (internal_error "run_command_in_session failed")
  after_submission-Cleans polls stop session path (m, ok u) =
      let done = stop_polling stop session (poll_for_exit polls path m) in cleaned done.0 done.1

  in_session-Cleans :
      (polls : ℕ) (stop : Stop) (command : List String) (path : List ℕ) (r : M × Result String)
      → Cleans path (in_session polls stop command path r)
  unfolding in_session
  in_session-Cleans polls stop command path (m, err e) =
      not_submitted m (internal_error "ensure_session failed")
  in_session-Cleans polls stop command path (m, ok session) =
      after_submission-Cleans polls stop session path (
        manager.run_command_in_session session "main"
          (build_wrapped_command (map codes command) path) path m)

  -- However the polls answer and whatever stops them, an execution ends with an error, or with the
  -- removal of the sentinel file of its task and an outcome.
  pub execute-Cleans :
      (hex : TaskId → List ℕ) (polls : ℕ) (stop : Stop) (params : SpawnParams) (m : M)
      → Cleans (sentinel_path_for_task hex params.task_id) (execute hex polls stop params m)
  unfolding execute
  execute-Cleans hex polls stop params m = elim (Bool-cases (is_empty_command params.command)) [
    | inl empty ↦ rw (empty) (not_submitted m (spawn_failed "empty command"))
    | inr given ↦ rw (given) (
        in_session-Cleans polls stop params.command (sentinel_path_for_task hex params.task_id)
          (manager.ensure_session (config_of params.location) m))
  ]

-- `DispatchingExecutor`: by the location of the task.
module _ {E X Y : Type 0} (near : ProcessExecutor E X) (far : ProcessExecutor E Y) where
  abbrev pub by_location :
      ExecutionLocation → SpawnParams → Bool → E → X × Y → (X × Y) × E × WorkerResult ExitOutcome
  by_location local params c sink (x, y) =
      let (x', sink', r) = near.execute params c sink x in ((x', y), sink', r)
  by_location (remote_session target) params c sink (x, y) =
      let (y', sink', r) = far.execute params c sink y in ((x, y'), sink', r)

  unfoldable pub dispatch : ProcessExecutor E (X × Y)
  dispatch = record {
    execute =
        λ params cancelled_now sink xy. by_location params.location params cancelled_now sink xy;
  }
