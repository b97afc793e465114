-- ===== src/Agent/Server.antt =====
-- internal/agent/agent.go and sftp.go: the server and who may log in.
pub mod Login
pub mod Mounted
use kubepark.Prelude.{
  ℕ, Bool, true, false, Option, none, some, List, [], ◌∷◌, Exec, Result, ok, err, other, pure,
  raise, lift, modify, ◌>>=◌, ◌>>◌,
}
use kubepark.Prelude.Text.{Text, codes}
use kubepark.Api.Time.{Time}
use kubepark.Cluster.Os.{Os}
use kubepark.Cluster.Ssh.{PublicKey, PrivateKey, Certificate, Ssh}
use kubepark.SshCa.{check_user_cert}
use kubepark.Agent.Config.{Config}
use kubepark.Agent.Commands.{start_main_process}

-- What ssh.ParseAuthorizedKey returns for a line: a plain key or a certificate.
pub data AuthorizedKey : Type 0 where
  plain : PublicKey → AuthorizedKey
  certified : Certificate → AuthorizedKey

-- What crypto/ssh does for a host key with a certificate, and the signer that it builds.
pub record HostKeys (Signer : Type 0) : Type 0 where
  pub parse_authorized : Text → Result AuthorizedKey
  pub new_cert_signer : Certificate → PrivateKey → Result Signer

-- The gliderlabs server; its handlers are the functions of this module and of Shell.
pub record Server (Signer : Type 0) : Type 0 where
  pub addr : Text
  pub host_signer : Signer
  pub public_key_handler : AuthorizedKey → Time → Bool
  -- The subsystems and the kinds of channels that are served.
  pub subsystems : List Text
  pub channels : List Text

abbrev is_ok : Result Unit → Bool
is_ok (ok _) = true
is_ok (err _) = false

module _ {W : Type 0} (ssh : Ssh W) where
  unfoldable pub owner_key_handler : PublicKey → Text → AuthorizedKey → Time → Bool
  owner_key_handler user_ca owner (plain key) now = false
  owner_key_handler user_ca owner (certified cert) now =
      is_ok (check_user_cert ssh (some cert) user_ca owner now)

  module _ {Signer : Type 0} (keys : HostKeys Signer) where
    abbrev certificate_of : AuthorizedKey → Result Certificate
    certificate_of (plain _) = err (other (codes "host cert is not a certificate"))
    certificate_of (certified cert) = ok cert

    unfoldable pub signer_with_cert : Text → Text → Exec W Signer
    unfolding ◌>>=◌ lift
    signer_with_cert key_pem cert_authorized = do
      signer ← lift (ssh.parse_private_key key_pem)
      public ← lift (keys.parse_authorized cert_authorized)
      cert ← lift (certificate_of public)
      lift (keys.new_cert_signer cert signer)

    abbrev pub server_of : Config → Signer → PublicKey → Server Signer
    server_of cfg host_signer user_ca = record {
      addr = cfg.addr;
      host_signer = host_signer;
      public_key_handler = owner_key_handler user_ca cfg.owner;
      subsystems = codes "sftp" ∷ [];
      channels = codes "session" ∷ codes "direct-tcpip" ∷ [];
    }

    abbrev build : Os W → Config → Exec W (Server Signer)
    build os cfg = do
      host_signer ← signer_with_cert cfg.host_key_pem cfg.host_cert_authorized
      user_ca ← lift (ssh.parse_authorized_key cfg.user_ca_authorized)
      modify (start_main_process os cfg) >> pure (server_of cfg host_signer user_ca)

    abbrev with_owner : Text → Exec W (Server Signer) → Exec W (Server Signer)
    with_owner [] next = raise (other (codes "agent requires an owner principal"))
    with_owner (_ ∷ _) next = next

    unfoldable pub new_server : Os W → Config → Exec W (Server Signer)
    unfolding ◌>>=◌ pure raise lift modify signer_with_cert owner_key_handler start_main_process
    new_server os cfg = with_owner cfg.owner (build os cfg)

-- The exit status of an SFTP session: sftp.NewServer may fail, and the end of Serve, with or without
-- an error, is the normal end.
abbrev pub sftp_status : {Server : Type 0} → Result Server → (Server → Result Unit) → ℕ
sftp_status (err _) serve = 1
sftp_status (ok server) serve = elim (serve server) [ ok _ ↦ 0 | err _ ↦ 0 ]
