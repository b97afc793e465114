-- ===== src/Cli/SignCert.antt =====
-- cmd/kubepark/admin.go: certificates that are signed with the authority's secret.
pub mod Written
use kubepark.Prelude.{[], ◌∷◌, ◌*◌, Exec, raise, other, lift, ◌>>=◌}
use kubepark.Prelude.Text.{Text, codes}
use kubepark.Api.Time.{Time, Duration, seconds}
use kubepark.Api.Core.{Secret}
use kubepark.Cluster.{Resource}
use kubepark.Cluster.Os.{Os}
use kubepark.Cluster.Ssh.{Ssh}
use kubepark.Controller.HostKey.{entry}
use kubepark.Gateway.Sign.{new_signer, sign}
use kubepark.Cli.Keys.{Paths, ensure_key_pair, cert_path}

-- The flags of `kubepark admin sign-cert`.
pub record SignCertFlags : Type 0 where
  pub principal : Text
  pub namespace : Text
  pub ttl : Duration

abbrev pub default_flags : SignCertFlags
default_flags = record {
  principal = [];
  namespace = codes "kubepark-system";
  ttl = seconds (8 * 3600);
}

module _ {W : Type 0} (os : Os W) (paths : Paths W) (ssh : Ssh W) (now : W → Time × W) where
  -- `connect` loads the kubeconfig and makes a client.
  abbrev pub in_steps :
      Exec W (Resource W Secret) → (principal namespace : Text) → Duration → Exec W Unit
  in_steps connect principal namespace ttl = do
    keys ← ensure_key_pair os paths ssh
    public ← os.read_file keys.1
    secrets ← connect
    secret ← secrets.get (record { namespace = namespace; name = codes "kubepark-ca" })
    signer ← lift (new_signer ssh (entry (codes "user-ca.key") secret.entries) ttl)
    cert ← sign ssh now signer public principal
    out ← cert_path os paths
    os.write_file out cert 0o644

  abbrev for_principal :
      Exec W (Resource W Secret) → (principal namespace : Text) → Duration → Exec W Unit
  for_principal connect [] namespace ttl = raise (other (codes "--principal is required"))
  for_principal connect (c ∷ cs) namespace ttl = in_steps connect (c ∷ cs) namespace ttl

  unfoldable pub run_sign_cert :
      Exec W (Resource W Secret) → (principal namespace : Text) → Duration → Exec W Unit
  unfolding ◌>>=◌ raise lift new_signer sign entry ensure_key_pair cert_path
  run_sign_cert connect principal namespace ttl = for_principal connect principal namespace ttl
