-- ===== src/Agent/Commands.antt =====
-- internal/agent/session.go: the processes of a session that has no terminal, and the main process.
pub mod Words
use kubepark.Prelude.{
  Bool, true, false, Option, none, some, List, [], ◌∷◌, ◌++◌, if◌then◌else◌, Result, ok, err, Exec,
}
use kubepark.Prelude.Int.{ℤ, pos}
use kubepark.Prelude.Text.{Text, codes}
use kubepark.Cluster.Os.{Command, Process, Os}
use kubepark.Agent.Config.{Config}

-- strings.Join with a space
unfoldable pub join_command : List Text → Text
join_command [] = []
join_command (word ∷ []) = word
join_command (word ∷ next ∷ words) = word ++ (32 ∷ join_command (next ∷ words))

-- What Wait returns beside nil: an ExitError, with the exit status if its Sys is a WaitStatus, or
-- another error. The status of a process that a signal ended is -1.
pub data WaitError : Type 0 where
  exit_error : Option ℤ → WaitError
  not_exit_error : WaitError

abbrev pub wait_status : Option WaitError → ℤ
wait_status none = pos 0
wait_status (some (exit_error (some code))) = code
wait_status (some e) = pos 1

module _ {W : Type 0} (os : Os W) (cfg : Config) where
  abbrev first_there : List Text → W → Text
  first_there [] w = codes "/bin/sh"
  first_there (candidate ∷ more) w =
      let rest = first_there more w in if os.exists candidate w then candidate else rest

  abbrev or_candidates : Text → W → Text
  or_candidates [] w = first_there (codes "/bin/bash" ∷ codes "/bin/sh" ∷ []) w
  or_candidates (c ∷ cs) w = c ∷ cs

  unfoldable pub login_shell : W → Text
  login_shell w = or_candidates (os.getenv (codes "SHELL") w) w

  abbrev shell_args : List Text → List Text
  shell_args [] = codes "-l" ∷ []
  shell_args (word ∷ words) = codes "-c" ∷ join_command (word ∷ words) ∷ []

  unfoldable pub shell_invocation : List Text → W → Text × List Text
  unfolding login_shell join_command
  shell_invocation client_cmd w = (login_shell w, shell_args client_cmd)

  -- append(os.Environ(), "HOME="+home)
  abbrev pub home_environment : W → List Text
  home_environment w = os.environ w ++ ((codes "HOME=" ++ cfg.home_dir) ∷ [])

  abbrev pub in_home : Text → List Text → W → Command
  in_home path args w = record {
    path = path;
    args = args;
    dir = cfg.home_dir;
    environment = home_environment w;
  }

  -- Wait, while the input and the output are copied.
  module _ (wait : Process → W → Option WaitError × W) (stdin_pipe : Exec W Unit) where
    abbrev after_wait : Option WaitError × W → ℤ × W
    after_wait (outcome, w) = (wait_status outcome, w)

    abbrev after_start : Result Process × W → ℤ × W
    after_start (err _, w) = (pos 127, w)
    after_start (ok process, w) = after_wait (wait process w)

    abbrev after_pipe : Command → Result Unit × W → ℤ × W
    after_pipe cmd (err _, w) = (pos 1, w)
    after_pipe cmd (ok _, w) = after_start (os.start cmd w)

    -- The status that the client is given, and what the command did.
    unfoldable pub run_exec : List Text → W → ℤ × W
    unfolding shell_invocation login_shell join_command
    run_exec client_cmd w =
        let (name, args) = shell_invocation client_cmd w in
        after_pipe (in_home name args w) (stdin_pipe w)

  abbrev launch : List Text → W → W
  launch [] w = w
  launch (name ∷ args) w = (os.start (in_home name args w) w).1

  unfoldable pub start_main_process : W → W
  start_main_process w = launch cfg.command w
