-- ===== src/Agent/Config.antt =====
-- internal/agent/agent.go: Config and ConfigFromEnv.
use kubepark.Prelude.{List, [], ◌∷◌, ◌++◌, Exec, pure, gets, ◌>>=◌}
use kubepark.Prelude.Text.{Text, codes}
use kubepark.Cluster.Os.{Os}

pub record Config : Type 0 where
  pub addr : Text
  pub owner : Text
  pub host_key_pem : Text
  pub host_cert_authorized : Text
  pub user_ca_authorized : Text
  pub command : List Text
  pub home_dir : Text

abbrev pub or_else : Text → Text → Text
or_else [] fallback = fallback
or_else (c ∷ cs) fallback = c ∷ cs

module _ {W : Type 0} (os : Os W) where
  unfoldable pub config_from_env : List Text → Exec W Config
  unfolding ◌>>=◌ pure gets
  config_from_env command = do
    dir ← gets (λ w. or_else (os.getenv (codes "KUBEPARK_HOST_DIR") w) (codes "/etc/kubepark/host"))
    host_key ← os.read_file (dir ++ codes "/ssh_host_ed25519_key")
    host_cert ← os.read_file (dir ++ codes "/ssh_host_ed25519_key-cert.pub")
    user_ca ← os.read_file (dir ++ codes "/user-ca.pub")
    home ← gets (λ w. or_else (os.getenv (codes "HOME") w) (codes "/home/sandbox"))
    owner ← gets (os.getenv (codes "KUBEPARK_OWNER"))
    pure (record {
      addr = codes ":2222";
      owner = owner;
      host_key_pem = host_key;
      host_cert_authorized = host_cert;
      user_ca_authorized = user_ca;
      command = command;
      home_dir = home;
    })
