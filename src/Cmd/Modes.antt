-- ===== src/Cmd/Modes.antt =====
-- cmd/main.go and cmd/agent.go: the mode by the name of the binary, the arguments of the agent, and
-- how the binary is copied into a sandbox.
pub mod Atomic
use kubepark.Prelude.{
  ℕ, zero, suc, List, [], ◌∷◌, if◌then◌else◌, Exec, Result, ok, err, pure, ◌>>=◌, ◌>>◌,
}
use kubepark.Prelude.Int.{ℤ, pos, negsuc}
use kubepark.Prelude.Text.{Text, codes, ◌==◌}
use kubepark.Cluster.Os.{File, Os}
use kubepark.Cluster.Ssh.{Ssh}
use kubepark.Agent.Config.{config_from_env}
use kubepark.Agent.Server.{HostKeys, Server, new_server}

abbrev pub agent_binary_name : Text
agent_binary_name = codes "agent"

-- The arguments that cobra is given; `base` is filepath.Base.
unfoldable pub mode_args : (base : Text → Text) → List Text → List Text
unfolding ◌==◌
mode_args base [] = []
mode_args base (name ∷ args) =
    if base name == agent_binary_name then name ∷ agent_binary_name ∷ args else name ∷ args

unfoldable pub drop : ℕ → List Text → List Text
drop zero args = args
drop (suc n) [] = []
drop (suc n) (arg ∷ args) = drop n args

-- ArgsLenAtDash is -1 where there is no "--".
abbrev pub args_after_dash_dash : ℤ → List Text → List Text
args_after_dash_dash (pos n) args = drop n args
args_after_dash_dash (negsuc n) args = args

-- The agent's mode, up to ListenAndServe, which serves until the process ends.
unfoldable pub run_agent :
    {W Signer : Type 0}
    → Os W
    → Ssh W
    → HostKeys Signer
    → (Server Signer → Exec W Unit)
    → (args_len_at_dash : ℤ) → List Text
    → Exec W Unit
unfolding ◌>>=◌ config_from_env new_server drop
run_agent os ssh keys listen_and_serve dash args = do
  cfg ← config_from_env os (args_after_dash_dash dash args)
  server ← new_server ssh keys os cfg
  listen_and_serve server

-- The calls of `agent install`, with filepath.Join.
pub record InstallOs (W : Type 0) : Type 0 where
  pub executable : Exec W Text
  pub open_file : Text → Exec W File
  pub mkdir_all : Text → ℕ → Exec W Unit
  -- the temporary file with its name
  pub create_temp : (dir pattern : Text) → Exec W (File × Text)
  pub copy : (target source : File) → Exec W Unit
  pub chmod : File → ℕ → Exec W Unit
  pub close : File → Exec W Unit
  pub rename : (old new : Text) → Exec W Unit
  pub remove : Text → Exec W Unit
  pub join : Text → Text → Text

-- A deferred call, whose outcome is dropped.
unfoldable pub deferring : {W : Type 0} → Exec W Unit → Exec W Unit → Exec W Unit
deferring cleanup body w = let (r, w') = body w in (r, (cleanup w').1)

module _ {W : Type 0} where
  abbrev failing : Exec W Unit → Result (Unit {0}) → W → Result Unit × W
  failing closing (ok tt) v = (ok tt, v)
  failing closing (err e) v = (err e, (closing v).1)

  -- A call whose failure closes the file first.
  unfoldable pub or_close : Exec W Unit → Exec W Unit → Exec W Unit
  or_close closing m w = let (r, w') = m w in failing closing r w'

module _ {W : Type 0} (os : InstallOs W) where
  abbrev pub destination : Text → Text
  destination dir = os.join dir agent_binary_name

  abbrev pub fill_and_rename : Text → File → File × Text → Exec W Unit
  fill_and_rename dir source (tmp, name) =
      or_close (os.close tmp) (os.copy tmp source)
      >> or_close (os.close tmp) (os.chmod tmp 0o755)
      >> os.close tmp
      >> os.rename name (destination dir)

  abbrev pub with_temp : Text → File → File × Text → Exec W Unit
  with_temp dir source (tmp, name) =
      deferring (os.remove name) (fill_and_rename dir source (tmp, name))

  abbrev pub with_source : Text → File → Exec W Unit
  with_source dir source = do
    made ← os.mkdir_all dir 0o755
    temp ← os.create_temp dir (codes ".agent-*")
    with_temp dir source temp

  abbrev pub in_steps : Text → Exec W Unit
  in_steps dir = do
    self ← os.executable
    source ← os.open_file self
    deferring (os.close source) (with_source dir source)

  unfoldable pub install_self : Text → Exec W Unit
  unfolding ◌>>=◌ deferring or_close
  install_self dir = in_steps dir
