-- ===== src/Cli/SshConfig.antt =====
-- cmd/kubepark/ssh.go: the configuration that is written for ssh, and the command that runs it.
pub mod KnownHosts
use kubepark.Prelude.{Bool, false, List, [], ◌∷◌, ◌++◌, if◌then◌else◌, Exec, pure, ◌>>=◌, ◌>>◌}
use kubepark.Prelude.Text.{Text, codes, ◌==◌}
use kubepark.Cluster.Os.{Os}
use kubepark.Cluster.Ssh.{Ssh}
use kubepark.Agent.Config.{or_else}
use kubepark.Cli.Address.{split_host_port, ssh_target}
use kubepark.Cli.Keys.{Paths, config_dir, ensure_key_pair, cert_path}

-- The flags of `kubepark ssh`.
pub record SshFlags : Type 0 where
  pub namespace : Text
  pub gateway_addr : Text
  pub gateway_user : Text
  pub host_ca_path : Text
  pub print_config : Bool

abbrev pub env_or : {W : Type 0} → Os W → (key fallback : Text) → W → Text
env_or os key fallback w = or_else (os.getenv key w) fallback

abbrev pub default_flags : {W : Type 0} → Os W → W → SshFlags
default_flags os w = record {
  namespace = [];
  gateway_addr = env_or os (codes "KUBEPARK_GATEWAY") (codes "localhost:2222") w;
  gateway_user = env_or os (codes "KUBEPARK_GATEWAY_USER") (codes "jump") w;
  host_ca_path = [];
  print_config = false;
}

abbrev pub newline : Text
newline = 10 ∷ []

abbrev pub line : Text → Text → Text
line text rest = text ++ (newline ++ rest)

-- The text of the file, with the lines of the last section that check the hosts' keys.
abbrev pub config_text : (host port user priv known_hosts cert checks : Text) → Text
config_text host port user priv known_hosts cert checks =
    line (codes "# Generated by kubepark; do not edit.") (
      line (codes "Host kubepark-gateway") (
        line (codes "    HostName " ++ host) (
          line (codes "    Port " ++ port) (
            line (codes "    User " ++ user) (
              line (codes "    IdentityFile " ++ priv) (
                line (codes "    IdentitiesOnly yes") (
                  line (codes "    UserKnownHostsFile " ++ known_hosts) (
                    line (codes "    StrictHostKeyChecking accept-new") (
                      line [] (
                        line (codes "Host * !kubepark-gateway") (
                          line (codes "    ProxyJump kubepark-gateway") (
                            line (codes "    IdentityFile " ++ priv) (
                              line (codes "    CertificateFile " ++ cert) (
                                line (codes "    IdentitiesOnly yes")
                                  (line (codes "    ConnectTimeout 180") checks)))))))))))))))

abbrev pub authority_line : Text → Text
authority_line ca_pub = codes "@cert-authority * " ++ ca_pub

module _ {W : Type 0} (os : Os W) (paths : Paths W) where
  abbrev pub known_hosts_path : Text → Text
  known_hosts_path dir = paths.join dir (codes "known_hosts")

  -- The lines that check the keys of the sandboxes.
  abbrev pub host_checks : Text → Text → Exec W Text
  host_checks dir [] = pure (line (codes "    StrictHostKeyChecking accept-new") [])
  host_checks dir (c ∷ cs) = do
    ca_pub ← os.read_file (c ∷ cs)
    os.write_file (known_hosts_path dir) (authority_line ca_pub) 0o644
        >> pure (
            line (codes "    UserKnownHostsFile " ++ known_hosts_path dir)
              (line (codes "    StrictHostKeyChecking yes") []))

  abbrev pub write_config : Text → Text → Text → Text → Text → Text → Exec W Text
  write_config dir gateway_addr gateway_user priv cert checks =
      let (host, port) = split_host_port gateway_addr in
      os.write_file (paths.join dir (codes "ssh_config"))
        (config_text host port gateway_user priv (known_hosts_path dir) cert checks) 0o600
      >> pure (paths.join dir (codes "ssh_config"))

  abbrev pub in_steps : Ssh W → (gateway_addr gateway_user host_ca_path : Text) → Exec W Text
  in_steps ssh gateway_addr gateway_user host_ca_path = do
    dir ← config_dir os paths
    keys ← ensure_key_pair os paths ssh
    cert ← cert_path os paths
    checks ← host_checks dir host_ca_path
    write_config dir gateway_addr gateway_user keys.0 cert checks

  -- The path of the file that is written.
  unfoldable pub write_ssh_config :
      Ssh W → (gateway_addr gateway_user host_ca_path : Text) → Exec W Text
  unfolding ◌>>=◌ pure config_dir ensure_key_pair cert_path split_host_port
  write_ssh_config ssh gateway_addr gateway_user host_ca_path =
      in_steps ssh gateway_addr gateway_user host_ca_path

  -- exec.LookPath and syscall.Exec, which does not return where it succeeds.
  module _ (look_path : Text → Exec W Text) (exec : Text → List Text → Exec W Unit) where
    unfoldable pub exec_ssh : Text → Text → Exec W Unit
    unfolding ◌>>=◌
    exec_ssh cfg_path target = do
      ssh_path ← look_path (codes "ssh")
      exec ssh_path (codes "ssh" ∷ codes "-F" ∷ cfg_path ∷ target ∷ [])

    -- `kubepark ssh`: the path of the configuration is printed, or ssh is run.
    unfoldable pub run_ssh :
        Ssh W → (name : Text) → SshFlags → (print : Text → Exec W Unit) → Exec W Unit
    unfolding ◌>>=◌ write_ssh_config exec_ssh
    run_ssh ssh name flags print =
        let target = ssh_target name flags.namespace in
        do
          cfg_path ← write_ssh_config ssh flags.gateway_addr flags.gateway_user flags.host_ca_path
          if flags.print_config then print cfg_path else exec_ssh cfg_path target
