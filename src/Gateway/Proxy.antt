-- ===== src/Gateway/Proxy.antt =====
-- internal/gateway/httpproxy.go: which requests reach a sandbox's port.
pub mod Access
use kubepark.Prelude.{
  ℕ, Bool, true, false, not, ◌&&◌, ◌||◌, Option, none, some, List, [], ◌∷◌, if◌then◌else◌, Result,
  ok, err, Exec,
}
use kubepark.Prelude.Text.{Text, codes, ◌==◌, contains}
use kubepark.Api.Sandbox.{Sandbox, ExposedPort, AuthMode, oidc}
use kubepark.Cluster.{Client}
use kubepark.Gateway.HttpHost.{HttpTarget, Parsed, target, refused, parse_http_host}
use kubepark.Gateway.Store.{get_sandbox}

pub record Identity : Type 0 where
  pub principal : Text
  pub groups : List Text

-- The part of a request that the proxy looks at: its host, and the cookie's identity, where one
-- is configured. `is_callback` tells the path of the OIDC redirect.
pub record Request : Type 0 where
  pub host : Text
  pub is_callback : Bool

-- A CookieAuthenticator, or none; `none` from it asks for a login.
abbrev pub Authenticator : Type 0
Authenticator = Option (Request → Option Identity)

pub data Response : Type 0 where
  handle_callback start_login : Response
  status : ℕ → Response
  proxy_to : (ip : Text) (port : ℕ) → Response

unfoldable pub find_exposed_port : List ExposedPort → Text → Option ExposedPort
find_exposed_port [] name = none
find_exposed_port (p ∷ ps) name =
    let rest = find_exposed_port ps name in if p.name == name then some p else rest

-- slices.Contains(allowed, g) for some group g of the caller.
abbrev pub any_allowed : List Text → List Text → Bool
any_allowed allowed [] = false
any_allowed allowed (g ∷ gs) = contains allowed g || any_allowed allowed gs

unfoldable pub authorized_for_port : Sandbox → ExposedPort → Identity → Bool
authorized_for_port sb port id =
    if id.principal == sb.spec.owner.name
    then true
    else if contains port.allowed_users id.principal
    then true
    else any_allowed port.allowed_groups id.groups

-- `parses` tells whether url.Parse accepts http://<ip>:<port>.
module _ (parses : Text → ℕ → Bool) where
  -- The address is cleared while the sandbox has no ready pod.
  abbrev forward : Sandbox → ExposedPort → Response
  forward sb port = elim sb.status.pod_ip [
    | [] ↦ status 503
    | c ∷ ip ↦ if parses (c ∷ ip) port.port then proxy_to (c ∷ ip) port.port else status 500
  ]

  abbrev as_identity : Sandbox → ExposedPort → Option Identity → Response
  as_identity sb port none = start_login
  as_identity sb port (some id) =
      if authorized_for_port sb port id then forward sb port else status 403

  abbrev with_login : Authenticator → Request → Sandbox → ExposedPort → Response
  with_login none req sb port = status 503
  with_login (some identify) req sb port = as_identity sb port (identify req)

  abbrev by_auth : Authenticator → Request → Sandbox → ExposedPort → AuthMode → Response
  by_auth auth req sb port oidc = with_login auth req sb port
  by_auth auth req sb port AuthMode.none = forward sb port

  abbrev to_port : Authenticator → Request → Sandbox → Option ExposedPort → Response
  to_port auth req sb none = status 404
  to_port auth req sb (some port) = by_auth auth req sb port port.auth

  abbrev to_sandbox : Authenticator → Request → Text → Result Sandbox → Response
  to_sandbox auth req port_name (err e) = status 404
  to_sandbox auth req port_name (ok sb) =
      to_port auth req sb (find_exposed_port sb.spec.exposed_ports port_name)

module _ {W : Type 0} (parses : Text → ℕ → Bool) (api : Client W) (auth : Authenticator)
    (base_domain : Text) where
  abbrev to_target : Request → Parsed → W → Response × W
  to_target req (refused e) w = (status 404, w)
  to_target req (target t) w =
      let (found, w') = get_sandbox api t.namespace t.sandbox w in
      (to_sandbox parses auth req t.port found, w')

  abbrev pub catches_callback : Authenticator → Request → Bool
  catches_callback none req = false
  catches_callback (some _) req = req.is_callback

  unfoldable pub serve_http : Request → W → Response × W
  unfolding get_sandbox
  serve_http req w =
      if catches_callback auth req
      then (handle_callback, w)
      else to_target req (parse_http_host req.host base_domain) w
