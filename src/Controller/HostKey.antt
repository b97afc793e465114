-- ===== src/Controller/HostKey.antt =====
-- internal/controller/ca.go, and `reconcileHostKey` of sandbox_controller.go.
pub mod Stable
pub mod Issued
use kubepark.Prelude.{
  ◌*◌, List, [], ◌∷◌, ◌++◌, if◌then◌else◌, Exec, Result, ok, err, already_exists, pure, raise, lift,
  attempt, ◌>>=◌, if_found, ignore_already_exists,
}
use kubepark.Prelude.Text.{Text, codes, ◌==◌}
use kubepark.Api.Time.{Duration, seconds}
use kubepark.Api.Meta.{key_of, named}
use kubepark.Api.Core.{Secret}
use kubepark.Api.Sandbox.{Sandbox}
use kubepark.Podspec.{labels, label_managed_by, host_key_name, fqdn_principals}
use kubepark.SshCa.{KeyPair, generate_key_pair, sign_host_cert}
use kubepark.Controller.Env.{Env, wall_clock, operator_namespace}

abbrev pub ca_secret_name : Text
ca_secret_name = codes "kubepark-ca"

abbrev pub host_cert_validity : Duration
host_cert_validity = seconds (10 * 365 * 24 * 3600)

-- secret.Data[key]; a missing key reads as no bytes.
unfoldable pub entry : Text → List (Text × Text) → Text
unfolding ◌==◌
entry key [] = []
entry key ((k, v) ∷ rest) = if k == key then v else entry key rest

-- The CA secret holds both private keys.
abbrev pub ca_secret : Text → KeyPair → KeyPair → Text → Secret
ca_secret namespace user_ca host_ca hmac_key = record {
  meta = named namespace ca_secret_name ((label_managed_by, codes "kubepark") ∷ []);
  entries =
      (codes "user-ca.key", user_ca.private_pem)
      ∷ (codes "user-ca.pub", user_ca.public_authorized)
      ∷ (codes "host-ca.key", host_ca.private_pem)
      ∷ (codes "host-ca.pub", host_ca.public_authorized)
      ∷ (codes "cookie-hmac", hmac_key)
      ∷ [];
}

abbrev pub host_key_secret : Sandbox → KeyPair → Text → Text → Secret
host_key_secret sb key cert user_ca_pub = record {
  meta = named sb.meta.namespace (host_key_name sb.meta.name) (labels sb);
  entries =
      (codes "ssh_host_ed25519_key", key.private_pem)
      ∷ (codes "ssh_host_ed25519_key.pub", key.public_authorized)
      ∷ (codes "ssh_host_ed25519_key-cert.pub", cert)
      ∷ (codes "user-ca.pub", user_ca_pub)
      ∷ [];
}

module _ {W : Type 0} (env : Env W) where
  -- The outcome of creating the secret: a lost race fetches the winner's.
  abbrev ca_created : Secret → Result (Unit {0}) → Exec W Secret
  ca_created secret (ok _) = pure secret
  ca_created secret (err already_exists) = do
    existing ← attempt (env.api.secrets.get (key_of secret.meta))
    elim existing [ ok winner ↦ pure winner | err _ ↦ raise already_exists ]
  ca_created secret (err e) = raise e

  abbrev create_ca : Text → Exec W Secret
  create_ca namespace = do
    user_ca ← generate_key_pair env.ssh (codes "kubepark-user-ca")
    host_ca ← generate_key_pair env.ssh (codes "kubepark-host-ca")
    hmac_key ← env.ssh.random_bytes 32
    created ← attempt (env.api.secrets.create (ca_secret namespace user_ca host_ca hmac_key))
    ca_created (ca_secret namespace user_ca host_ca hmac_key) created

  unfoldable pub ensure_ca_secret : Text → Exec W Secret
  unfolding ◌>>=◌ pure raise attempt if_found
  ensure_ca_secret namespace =
      if_found (env.api.secrets.get (record { namespace = namespace; name = ca_secret_name })) pure
        (create_ca namespace)

  abbrev pub first_principal : Sandbox → Text
  first_principal sb = elim (fqdn_principals sb) [ [] ↦ [] | p ∷ _ ↦ p ]

  abbrev pub create_host_key : Sandbox → Exec W Unit
  create_host_key sb = do
    secret ← ensure_ca_secret (operator_namespace env)
    host_ca ← lift (env.ssh.parse_private_key (entry (codes "host-ca.key") secret.entries))
    key ← generate_key_pair env.ssh (codes "kubepark-host-" ++ sb.meta.name)
    host_pub ← lift (env.ssh.parse_authorized_key key.public_authorized)
    now ← wall_clock env
    cert ← sign_host_cert env.ssh host_ca host_pub (first_principal sb) [] host_cert_validity now
    let literal =
        host_key_secret sb key (env.ssh.marshal_certificate cert)
          (entry (codes "user-ca.pub") secret.entries)
    owned ← lift (env.lib.set_controller_reference sb.meta literal.meta)
    ignore_already_exists (env.api.secrets.create (record literal { meta = owned }))

  unfoldable pub reconcile_host_key : Sandbox → Exec W Unit
  unfolding ◌>>=◌ pure lift if_found ignore_already_exists wall_clock
  reconcile_host_key sb =
      if_found
        (env.api.secrets.get
          (record { namespace = sb.meta.namespace; name = host_key_name sb.meta.name }))
        (λ _. pure tt) (create_host_key sb)
