-- ===== src/Agent/Server/Mounted.antt =====
-- The agent's configuration is the secret that the operator makes for the sandbox, mounted in the pod.
use mathlib.Core.List.{Memᴰ}
use kubepark.Prelude.{Option, none, if◌then◌else◌, Result, ◌≡◌, some, List, [], ◌∷◌, ◌++◌, ok, err}
use kubepark.Prelude.Text.{Text, codes, ◌==◌}
use kubepark.Api.Meta.{Key}
use kubepark.Api.Core.{Secret, EnvVar}
use kubepark.Api.Sandbox.{Sandbox}
use kubepark.Cluster.Os.{Os}
use kubepark.Cluster.Ssh.{PublicKey, PrivateKey, Certificate, host_cert, Ssh}
use kubepark.Podspec.{host_key_mount_path, host_key_name, fqdn_principals}
use kubepark.SshCa.Laws.{IsSsh}
use kubepark.Controller.Env.{Env, operator_namespace}
use kubepark.Controller.HostKey.{ensure_ca_secret, entry}
use kubepark.Controller.HostKey.Stable.{IsSecretStore}
use kubepark.Controller.HostKey.Issued.{IsKeyTexts, IsOwnerReference}
use kubepark.Agent.Config.{Config, or_else, config_from_env}
use kubepark.Agent.Commands.{start_main_process}
use kubepark.Agent.Server.{HostKeys, certified, Server, server_of, new_server}

-- What crypto/ssh documents of a certificate's line: with the key that the certificate is for, it
-- makes a signer that presents the certificate.
pub record IsCertSigner {W Signer : Type 0} (ssh : Ssh W) (keys : HostKeys Signer)
    (public_of : PrivateKey → PublicKey) : Type 1 where
  pub Presents : Signer → Certificate → Type 0
  pub read_back :
      (c : Certificate) (k : PrivateKey)
      → c.key ≡ public_of k
      → (d : Certificate) × (s : Signer) × (keys.parse_authorized (ssh.marshal_certificate c)
          ≡ ok (certified d))
        × (keys.new_cert_signer d k ≡ ok s)
        × Presents s c

-- The files of a secret that is mounted in the pod at `volumeMounts`' path.
pub record IsMounted {W : Type 0} (os : Os W) (entries : List (Text × Text)) (x : W) : Type 0 where
  pub no_dir : os.getenv (codes "KUBEPARK_HOST_DIR") x ≡ []
  pub read :
      (name t : Text)
      → Memᴰ (name, t) entries
      → os.read_file (host_key_mount_path ++ codes "/" ++ name) x ≡ (ok t, x)

-- The last entry of a name in a container's environment, which is the one that Kubernetes sets.
abbrev pub or_this : Option Text → Option Text → Option Text
or_this none t = t
or_this (some later) t = some later

unfoldable pub last_set : Text → List EnvVar → Option Text
unfolding ◌==◌
last_set name [] = none
last_set name (e ∷ es) =
    let rest = last_set name es in or_this rest (if e.name == name then some e.value else none)

-- The variables of a container are set in its process.
pub record HasEnv {W : Type 0} (os : Os W) (env : List EnvVar) (x : W) : Type 0 where
  pub set : (name t : Text) → last_set name env ≡ some t → os.getenv name x ≡ t

module _ {W : Type 0} (os : Os W) (command : List Text) (x : W) where
  -- The configuration that the agent reads from four mounted texts.
  mounted_config : Text → Text → Text → Config
  mounted_config pem cert user_ca = record {
    addr = codes ":2222";
    owner = os.getenv (codes "KUBEPARK_OWNER") x;
    host_key_pem = pem;
    host_cert_authorized = cert;
    user_ca_authorized = user_ca;
    command = command;
    home_dir = or_else (os.getenv (codes "HOME") x) (codes "/home/sandbox");
  }

abbrev pub host_key_of : Sandbox → Key
host_key_of sb = record { namespace = sb.meta.namespace; name = host_key_name sb.meta.name }

module _ {W Signer : Type 0} (ssh : Ssh W) (keys : HostKeys Signer) where
  -- How NewServer ends once the host key is read, by what the user authority's line parses to.
  abbrev pub by_authority :
      Os W → Config → Signer → W → Result PublicKey → Result (Server Signer) × W
  by_authority os cfg signer x (err e) = (err e, x)
  by_authority os cfg signer x (ok user_ca) =
      (ok (server_of ssh keys cfg signer user_ca), start_main_process os cfg x)

module _ {W : Type 0} (env : Env W) {Signer : Type 0} (keys : HostKeys Signer)
    (public_of : PrivateKey → PublicKey) (laws : IsSsh env.ssh public_of)
    (texts : IsKeyTexts env.ssh public_of) (signers : IsCertSigner env.ssh keys public_of)
    (store : IsSecretStore env.api) (owners : IsOwnerReference env) where
  module _ (os : Os W) (command : List Text) (x : W) (sb : Sandbox) (v : W) where
    -- The agent reads a configuration for the sandbox's owner. Its host signer presents a
    -- certificate for the sandbox's name from the host authority of the CA secret that the operator
    -- had at `v`, and NewServer makes a server that lets in by the user authority of the same secret
    -- and that owner, unless the authority's line is not a key.
    pub record Starts : Type 0 where
      pub cfg : Config
      pub configured : config_from_env os command x ≡ (ok cfg, x)
      pub for_owner : cfg.owner ≡ sb.spec.owner.name
      pub ca : Secret
      pub after : W
      pub ensured : ensure_ca_secret env (operator_namespace env) v ≡ (ok ca, after)
      pub signer : Signer
      pub starts :
          new_server env.ssh keys os cfg x
          ≡ by_authority env.ssh keys os cfg signer x
              (env.ssh.parse_authorized_key (entry (codes "user-ca.pub") ca.entries))
      pub cert : Certificate
      pub presented : signers.Presents signer cert
      pub for_host : cert.cert_type ≡ host_cert
      pub names : cert.valid_principals ≡ fqdn_principals sb
      pub host_ca : PrivateKey
      pub has_host_ca :
          env.ssh.parse_private_key (entry (codes "host-ca.key") ca.entries) ≡ ok host_ca
      pub authority : cert.signature_key ≡ some (public_of host_ca)
