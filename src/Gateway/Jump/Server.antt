-- ===== src/Gateway/Jump/Server.antt =====
-- internal/gateway/sshjump.go: NewSSHServer.
use kubepark.Prelude.{zero, suc, Option, List, [], ◌∷◌, Result, ok, err}
use kubepark.Prelude.Int.{pos, negsuc}
use kubepark.Prelude.Text.{Text, codes}
use kubepark.Api.Time.{Time, Duration, seconds}
use kubepark.Cluster.Ssh.{PrivateKey, PublicKey, Certificate, Ssh}
use kubepark.Gateway.Jump.{Login, public_key_handler}

-- The store, the dialer and the clock, which are never nil, are those of JumpEnv.
pub record SshConfig : Type 0 where
  pub addr : Text
  pub host_key_pem : Text
  pub user_ca_authorized : Text
  pub default_namespace : Text
  pub wake_timeout : Duration

abbrev pub default_wake_timeout : Duration → Duration
default_wake_timeout (pos zero) = seconds 180
default_wake_timeout (pos (suc n)) = pos (suc n)
default_wake_timeout (negsuc n) = negsuc n

pub record JumpServer : Type 0 where
  pub addr : Text
  pub host_signer : PrivateKey
  pub login : Option Certificate → Time → Option Login
  pub channels : List Text
  pub wake_timeout : Duration

module _ {W : Type 0} (ssh : Ssh W) (cfg : SshConfig) where
  abbrev with_authority : PrivateKey → Result PublicKey → Result JumpServer
  with_authority host_signer (err e) = err e
  with_authority host_signer (ok user_ca) = ok (record {
    addr = cfg.addr;
    host_signer = host_signer;
    login = λ cert now. public_key_handler ssh cert user_ca now;
    channels = codes "direct-tcpip" ∷ [];
    wake_timeout = default_wake_timeout cfg.wake_timeout;
  })

  abbrev with_host_key : Result PrivateKey → Result JumpServer
  with_host_key (err e) = err e
  with_host_key (ok host_signer) =
      with_authority host_signer (ssh.parse_authorized_key cfg.user_ca_authorized)

  unfoldable pub new_ssh_server : Result JumpServer
  new_ssh_server = with_host_key (ssh.parse_private_key cfg.host_key_pem)
