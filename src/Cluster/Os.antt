-- ===== src/Cluster/Os.antt =====
-- The operating system, as the agent and the command line call it: os, os/exec, creack/pty.
use kubepark.Prelude.{ℕ, Bool, List, Exec}
use kubepark.Prelude.Text.{Text}

-- An exec.Cmd before it starts.
pub record Command : Type 0 where
  pub path : Text
  pub args : List Text
  pub dir : Text
  pub environment : List Text

-- An exec.Cmd that was started.
abbrev pub Process : Type 0
Process = ℕ

-- An open os.File.
abbrev pub File : Type 0
File = ℕ

pub record Os (W : Type 0) : Type 0 where
  -- os.Getenv: empty for a variable that is not set
  pub getenv : Text → W → Text
  -- os.Environ
  pub environ : W → List Text
  -- whether os.Stat succeeds
  pub exists : Text → W → Bool
  pub read_file : Text → Exec W Text
  -- os.WriteFile and os.MkdirAll, with the permission bits
  pub write_file : Text → Text → ℕ → Exec W Unit
  pub mkdir_all : Text → ℕ → Exec W Unit
  -- (*Cmd).Start
  pub start : Command → Exec W Process
  -- pty.Start: the master and the process
  pub start_pty : Command → Exec W (File × Process)
  -- whether (*Cmd).ProcessState is set, which Wait does
  pub is_waited : Process → W → Bool
  pub close_file : File → W → W
