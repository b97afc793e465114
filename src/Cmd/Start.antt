-- ===== src/Cmd/Start.antt =====
-- cmd/gateway.go: runGateway and its runnables.
use kubepark.Prelude.{
  ◌*◌, Option, none, some, [], if◌then◌else◌, Exec, Result, ok, err, not_found, already_exists,
  other, pure, lift, ◌>>=◌, ◌>>◌,
}
use kubepark.Prelude.Text.{Text, codes, ◌==◌}
use kubepark.Api.Time.{seconds}
use kubepark.Controller.Env.{Env, operator_namespace}
use kubepark.Controller.HostKey.{entry, ensure_ca_secret}
use kubepark.Gateway.Sign.{TokenVerifier}
use kubepark.Gateway.Cookie.Start.{Oidc}
use kubepark.Gateway.Jump.Server.{JumpServer, new_ssh_server}
use kubepark.Cmd.Gateway.{GatewayOptions, HttpHandler, build_http_handler, gateway_host_key}

-- The flags where they are not given; `client_secret` is the variable OIDC_CLIENT_SECRET.
abbrev pub default_options : (client_secret : Text) → GatewayOptions
default_options client_secret = record {
  ssh_addr = codes ":2222";
  http_addr = codes ":8080";
  default_namespace = [];
  oidc_issuer = [];
  oidc_client_id = [];
  oidc_client_secret = client_secret;
  principal_claim = codes "email";
  base_domain = [];
  cert_ttl = seconds (8 * 3600);
}

pub data Runnable : Type 0 where
  ssh_runnable : JumpServer → Runnable
  http_runnable : (addr : Text) → HttpHandler → Runnable

-- mgr.Add, and mgr.Start, which returns when the process is to end.
pub record GatewayManager (W : Type 0) : Type 0 where
  pub add : Runnable → Exec W Unit
  pub start : Exec W Unit

abbrev or_closed : Text → Text → Result (Unit {0})
or_closed benign message = if message == benign then ok tt else err (other message)

-- The outcome of (*sshRunnable).Start and of (*httpRunnable).Start, from that of ListenAndServe: the
-- error that tells that the server was closed is none.
abbrev pub serve_outcome : (benign : Text) → Result (Unit {0}) → Result (Unit {0})
serve_outcome benign (ok _) = ok tt
serve_outcome benign (err (other message)) = or_closed benign message
serve_outcome benign (err not_found) = err not_found
serve_outcome benign (err already_exists) = err already_exists

abbrev pub ssh_closed : Text
ssh_closed = codes "ssh: Server closed"

abbrev pub http_closed : Text
http_closed = codes "http: Server closed"

module _ {W : Type 0} (env : Env W) (oidc : Oidc W)
    (verifier_for : (issuer client_id claim : Text) → TokenVerifier) (mgr : GatewayManager W)
    (opts : GatewayOptions) where
  abbrev add_http : Option HttpHandler → Exec W Unit
  add_http none = pure tt
  add_http (some handler) = mgr.add (http_runnable opts.http_addr handler)

  unfoldable pub run_gateway : Exec W Unit
  unfolding ◌>>=◌ pure lift ensure_ca_secret gateway_host_key new_ssh_server build_http_handler
      entry operator_namespace
  run_gateway = do
    secret ← ensure_ca_secret env (operator_namespace env)
    host_key ← gateway_host_key env.ssh env.api (operator_namespace env)
    server ← lift (
        new_ssh_server env.ssh (record {
          addr = opts.ssh_addr;
          host_key_pem = host_key;
          user_ca_authorized = entry (codes "user-ca.pub") secret.entries;
          default_namespace = opts.default_namespace;
          wake_timeout = seconds 0;
        }))
    added ← mgr.add (ssh_runnable server)
    handler ← build_http_handler env.ssh oidc verifier_for opts secret
    add_http handler >> mgr.start
