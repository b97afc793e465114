-- ===== src/Tests/Mounts.antt =====
-- A pod that mounts the host key secret, and the theorem on the agent that starts in it.
use kubepark.Prelude.{◌≡◌, Option, some, none, List, [], ◌∷◌, ◌++◌, false, ok, err, other}
use kubepark.Prelude.Text.{Text, codes}
use kubepark.Api.Core.{Secret, EnvVar, Container}
use kubepark.Cluster.Os.{Os}
use kubepark.Cluster.Ssh.{Ssh}
use kubepark.Podspec.{build_pod, host_key_mount_path}
use kubepark.Controller.Env.{Env}
use kubepark.Controller.HostKey.{host_key_secret, entry}
use kubepark.Agent.Server.{HostKeys, certified}
use kubepark.Agent.Server.Mounted.{last_set}
use kubepark.Tests.World.{plain_ssh, env_of, box, std, options}
use kubepark.Tests.Gates.{alice_cert}
use kubepark.Tests.Doors.{Vault, vault}

-- A private key is its own public half.
abbrev ssh : Ssh Vault
ssh = record plain_ssh { generate_key = λ w. (ok (codes "k", codes "k"), w) }

abbrev env : Env Vault
env = record (env_of vault) { ssh = ssh }

abbrev keys : HostKeys Text
keys = record {
  parse_authorized = λ t. ok (certified alice_cert);
  new_cert_signer = λ cert key. ok key;
}

abbrev host_secret : Secret
host_secret =
    host_key_secret box (record { private_pem = codes "k"; public_authorized = codes "k" })
      (codes "box.dev") (codes "k")

-- The environment of the pod's container.
abbrev first_env : List Container → List EnvVar
first_env [] = []
first_env (c ∷ cs) = c.env

pod_env : List EnvVar
pod_env = first_env (build_pod box std options).spec.containers

abbrev or_empty : Option Text → Text
or_empty none = []
or_empty (some t) = t

-- The four files under the mount path.
abbrev files : List (Text × Text)
files =
    (codes "/etc/kubepark/host/ssh_host_ed25519_key", codes "k")
    ∷ (codes "/etc/kubepark/host/ssh_host_ed25519_key.pub", codes "k")
    ∷ (codes "/etc/kubepark/host/ssh_host_ed25519_key-cert.pub", codes "box.dev")
    ∷ (codes "/etc/kubepark/host/user-ca.pub", codes "k")
    ∷ []

abbrev pod : Os Vault
pod = record {
  getenv = λ name w. or_empty (last_set name pod_env);
  environ = λ w. [];
  exists = λ path w. false;
  read_file = λ path w. (ok (entry path files), w);
  write_file = λ path text mode w. (ok tt, w);
  mkdir_all = λ path mode w. (ok tt, w);
  start = λ cmd w. (err (other []), w);
  start_pty = λ cmd w. (err (other []), w);
  is_waited = λ p w. false;
  close_file = λ f w. w;
}

Reads : Text × Text → Type 0
Reads f =
    pod.read_file (host_key_mount_path ++ codes "/" ++ f.0) (some host_secret)
    ≡ (ok f.1, some host_secret)
