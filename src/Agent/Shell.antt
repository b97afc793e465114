-- ===== src/Agent/Shell.antt =====
-- internal/agent/session.go: the shell that all clients with a terminal share.
pub mod System
pub mod Invariant
pub mod Continuity
use kubepark.Prelude.{
  ℕ, ◌+◌, ◌-◌, Bool, true, false, not, ◌&&◌, Option, none, some, List, [], ◌∷◌, ◌++◌, if◌then◌else◌,
  eqb, Result, ok, err,
}
use kubepark.Prelude.Text.{Text, codes}
use kubepark.Cluster.Os.{Command, Process, File, Os}
use kubepark.Agent.Config.{Config, or_else}
use kubepark.Agent.Commands.{shell_invocation, home_environment}

-- sessionManager, less its configuration and its lock: each function below is one locked section.
pub record SessionManager : Type 0 where
  pub ptmx : Option File
  pub shell_cmd : Option Process
  pub attached : ℕ

abbrev pub new_session_manager : SessionManager
new_session_manager = record { ptmx = none; shell_cmd = none; attached = 0 }

abbrev pub attach : SessionManager → SessionManager
attach m = record m { attached = m.attached + 1 }

abbrev pub detach : SessionManager → SessionManager
detach m = record m { attached = m.attached - 1 }

-- What a session asks for: a command, or a terminal of some type, or neither.
pub record SessionRequest : Type 0 where
  pub command : List Text
  pub pty : Option Text

pub data Dispatch : Type 0 where
  to_exec : Dispatch
  to_shell : (term : Text) → Dispatch

abbrev by_pty : Option Text → Dispatch
by_pty none = to_exec
by_pty (some term) = to_shell term

abbrev pub dispatch : SessionRequest → Dispatch
dispatch s = elim s.command [ [] ↦ by_pty s.pty | _ ∷ _ ↦ to_exec ]

module _ {W : Type 0} (os : Os W) (cfg : Config) where
  unfoldable pub shell_command : Text → W → Command
  unfolding shell_invocation
  shell_command term w =
      let (name, args) = shell_invocation os cfg [] w in
      record {
        path = name;
        args = args;
        dir = cfg.home_dir;
        environment =
            home_environment os cfg w
            ++ ((codes "TERM=" ++ or_else term (codes "xterm-256color")) ∷ []);
      }

  -- The master that a running shell has.
  abbrev live_master : Option File → Option Process → W → Option File
  live_master none shell w = none
  live_master (some ptmx) none w = none
  live_master (some ptmx) (some shell) w = if os.is_waited shell w then none else some ptmx

  abbrev keep_started :
      SessionManager → Result (File × Process) × W → Result File × (SessionManager × W)
  keep_started m (err e, w) = (err e, (m, w))
  keep_started m (ok (ptmx, cmd), w) =
      (ok ptmx, (record m { ptmx = some ptmx; shell_cmd = some cmd }, w))

  abbrev or_start : Text → Option File → SessionManager × W → Result File × (SessionManager × W)
  or_start term (some ptmx) (m, w) = (ok ptmx, (m, w))
  or_start term none (m, w) = keep_started m (os.start_pty (shell_command term w) w)

  unfoldable pub ensure_shell : Text → SessionManager × W → Result File × (SessionManager × W)
  unfolding shell_command
  ensure_shell term (m, w) = or_start term (live_master m.ptmx m.shell_cmd w) (m, w)

module _ {W : Type 0} (os : Os W) where
  abbrev close_master : Option File → W → W
  close_master none w = w
  close_master (some ptmx) w = os.close_file ptmx w

  abbrev is_shell : Option Process → Process → Bool
  is_shell none cmd = false
  is_shell (some shell) cmd = eqb shell cmd

  -- What the goroutine beside a shell does when Wait has returned.
  unfoldable pub reap : Process → SessionManager × W → SessionManager × W
  reap cmd (m, w) =
      if is_shell m.shell_cmd cmd
      then (record m { ptmx = none; shell_cmd = none }, close_master m.ptmx w)
      else (m, w)
