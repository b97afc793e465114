-- ===== src/Cli/Keys.antt =====
-- cmd/kubepark/keys.go: the keypair of the client.
pub mod Kept
use kubepark.Prelude.{Bool, true, false, [], ◌∷◌, ◌++◌, Exec, pure, gets, ◌>>=◌, ◌>>◌}
use kubepark.Prelude.Text.{Text, codes}
use kubepark.Cluster.Os.{Os}
use kubepark.Cluster.Ssh.{Ssh}
use kubepark.SshCa.{KeyPair, generate_key_pair}

-- os.UserHomeDir, and filepath.Join of two elements.
pub record Paths (W : Type 0) : Type 0 where
  pub home_dir : Exec W Text
  pub join : Text → Text → Text

module _ {W : Type 0} (os : Os W) (paths : Paths W) where
  unfoldable pub config_dir : Exec W Text
  unfolding ◌>>=◌ pure
  config_dir = do
    home ← paths.home_dir
    os.mkdir_all (paths.join home (codes ".kubepark")) 0o700
        >> pure (paths.join home (codes ".kubepark"))

  abbrev pub priv_path : Text → Text
  priv_path dir = paths.join dir (codes "id_ed25519")

  abbrev pub pub_path : Text → Text
  pub_path dir = priv_path dir ++ codes ".pub"

  unfoldable pub cert_path : Exec W Text
  unfolding ◌>>=◌ pure config_dir
  cert_path = do dir ← config_dir; pure (paths.join dir (codes "id_ed25519-cert.pub"))

  abbrev write_key_pair : Text → KeyPair → Exec W (Text × Text)
  write_key_pair dir key =
      os.write_file (priv_path dir) key.private_pem 0o600
      >> os.write_file (pub_path dir) key.public_authorized 0o644
      >> pure (priv_path dir, pub_path dir)

  abbrev make_key_pair : Ssh W → Text → Exec W (Text × Text)
  make_key_pair ssh dir = do
    key ← generate_key_pair ssh (codes "kubepark-cli")
    write_key_pair dir key

  abbrev unless_there : Ssh W → Text → Bool → Exec W (Text × Text)
  unless_there ssh dir true = pure (priv_path dir, pub_path dir)
  unless_there ssh dir false = make_key_pair ssh dir

  -- The paths of the private and of the public key.
  unfoldable pub ensure_key_pair : Ssh W → Exec W (Text × Text)
  unfolding ◌>>=◌ pure gets config_dir
  ensure_key_pair ssh = do
    dir ← config_dir
    there ← gets (os.exists (priv_path dir))
    unless_there ssh dir there
