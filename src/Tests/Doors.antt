-- ===== src/Tests/Doors.antt =====
-- One secret in a slot, and the theorems on the gateway's process at it.
use mathlib.Core.List.{Memᴰ}
use kubepark.Prelude.{
  ◌++◌, ◌≡◌, ◌↔◌, refl, Bool, true, false, ◌&&◌, if◌then◌else◌, Option, some, none, [], ◌∷◌, ok,
  pure, raise, lift, attempt, if_found, ◌>>=◌, arith,
}
use kubepark.Prelude.Text.{
  Text, codes, cut, cut_prefix, cut_suffix, trim_prefix, trim_space, trim_left, eq_iff, ◌==◌,
}
use kubepark.Api.Time.{seconds}
use kubepark.Api.Meta.{Key, key_of, named}
use kubepark.Api.Core.{Secret, Namespace}
use kubepark.Api.Profile.{AccessProfile}
use kubepark.Cluster.{Client}
use kubepark.SshCa.{KeyPair, generate_key_pair}
use kubepark.Controller.HostKey.{ca_secret, ensure_ca_secret, entry}
use kubepark.Controller.HostKey.Stable.{secret_or_not, IsSecretStore, ensure_ca_secret-again}
use kubepark.Controller.Access.Grants.{any_grant}
use kubepark.Controller.Watches.{profiles_for_namespace}
use kubepark.Controller.Watches.Requeued.{profile_key, profiles_for_namespace_iff}
use kubepark.Gateway.Store.{get_sandbox}
use kubepark.Gateway.HttpHost.{parse_http_host, parse_label, clean_host}
use kubepark.Gateway.Cookie.{Provider, callback, status, sign_cookie, identify, verify_cookie}
use kubepark.Gateway.Cookie.Start.{
  Cookie, CookieAuthenticator, LoginRedirect, Oidc, start_login, new_cookie_authenticator,
  callback_url,
}
use kubepark.Gateway.Cookie.Start.Domain.{
  IsBrowser, callback_host, request_after, callback-start_login,
}
use kubepark.Gateway.Sign.{TokenVerifier, new_signer}
use kubepark.Gateway.Sign.Server.{new_sign_server}
use kubepark.Gateway.Proxy.{proxy_to, serve_http, find_exposed_port, authorized_for_port}
use kubepark.Cmd.Gateway.{
  GatewayOptions, HttpHandler, HttpRequest, proxy_response, build_http_handler, serve,
  gateway_host_key, host_key_secret,
}
use kubepark.Cmd.Gateway.Key.{gateway_host_key-again}
use kubepark.Cmd.Gateway.Known.{Reaches, serve-Reaches}
use kubepark.Tests.World.{empty, always, bare_client, plain_ssh, env_of, reader, alice, dev}
use kubepark.Tests.Gates.{domain, web_host, web_target, web_parsed, api}
use kubepark.Tests.Cookies.{codec, claims}
use kubepark.Tests.Slots.{key_eqb, key_eqb_iff}

abbrev pub Vault : Type 0
Vault = Option Secret

abbrev pub held : Vault → Key → Option Secret
held none k = none
held (some s) k = if key_eqb (key_of s.meta) k then some s else none

abbrev pub vault : Client Vault
vault = record bare_client {
  secrets = record empty {
    get = λ k w. (secret_or_not (held w k), w);
    create = λ s w. (ok tt, some s);
  };
}

pub vault-IsSecretStore : IsSecretStore vault
vault-IsSecretStore = record {
  stored = held;
  get_stored = λ k w. refl;
  created = λ s w w' e. ground (arith, e, (key_eqb_iff (key_of s.meta) (key_of s.meta)).1 refl);
}

pub stored-held : (w : Vault) (k : Key) → vault-IsSecretStore.stored w k ≡ held w k
unfolding vault-IsSecretStore
stored-held w k = refl

abbrev pair : KeyPair
pair = record { private_pem = codes "priv"; public_authorized = codes "pub" }

abbrev authority : Secret
authority = ca_secret dev pair pair []

authority_made : ensure_ca_secret (env_of vault) dev none ≡ (ok authority, some authority)
unfolding ensure_ca_secret generate_key_pair ◌>>=◌ pure raise lift attempt if_found
authority_made = refl

ensure_ca_secret-again_example :
    ensure_ca_secret (env_of vault) dev (some authority) ≡ (ok authority, some authority)
ensure_ca_secret-again_example =
    ensure_ca_secret-again (env_of vault) vault-IsSecretStore dev none (some authority) authority
      authority_made

abbrev host_key : Vault
host_key = some (host_key_secret dev pair)

host_key_made : gateway_host_key plain_ssh vault dev none ≡ (ok (codes "priv"), host_key)
unfolding gateway_host_key generate_key_pair ◌>>=◌ pure raise lift attempt if_found
host_key_made = refl

gateway_host_key-again_example :
    gateway_host_key plain_ssh vault dev host_key ≡ (ok (codes "priv"), host_key)
gateway_host_key-again_example =
    gateway_host_key-again plain_ssh vault vault-IsSecretStore dev none host_key (codes "priv")
      host_key_made

abbrev profiles : Client (Unit {0})
profiles = record bare_client { profiles = always reader }

abbrev dev_namespace : Namespace
dev_namespace = record { meta = named [] dev [] }

profiles_for_namespace_iff_example :
    Memᴰ (profile_key reader) (profiles_for_namespace profiles dev_namespace tt).0 ↔ (
      (p : AccessProfile) × Memᴰ p (reader ∷ [])
      × (any_grant p.spec.grants dev ≡ true)
      × (profile_key reader ≡ profile_key p))
profiles_for_namespace_iff_example =
    profiles_for_namespace_iff profiles dev_namespace tt (reader ∷ []) refl (profile_key reader)

abbrev oidc : Oidc (Unit {0})
oidc = record {
  discover = λ issuer w. (ok tt, w);
  auth_code_url = λ cfg state. cfg.redirect_url;
  random_string = λ w. (codes "state", w);
}

abbrev opts : GatewayOptions
opts = record {
  ssh_addr = codes ":2222";
  http_addr = codes ":8080";
  default_namespace = [];
  oidc_issuer = codes "https://id";
  oidc_client_id = codes "kubepark";
  oidc_client_secret = [];
  principal_claim = [];
  base_domain = domain;
  cert_ttl = seconds 3600;
}

abbrev secret : Secret
secret = ca_secret dev pair pair (codes "key")

abbrev verifier_for : Text → Text → Text → TokenVerifier
verifier_for issuer client_id claim = record { verify = λ raw. ok raw; claim = λ token. some alice }

abbrev cookie_auth : CookieAuthenticator
cookie_auth = record {
  oauth = record {
    client_id = codes "kubepark";
    client_secret = [];
    redirect_url = callback_url (codes "https://kube.dev");
    scopes = codes "openid" ∷ codes "email" ∷ codes "profile" ∷ codes "groups" ∷ [];
  };
  claim = codes "email";
  hmac_key = codes "key";
  ttl = seconds 3600;
  secure = true;
}

abbrev handler : HttpHandler
handler = record {
  sign = some (record {
    signer = record { ca = codes "priv"; ttl = seconds 3600 };
    oidc_config = record {
      issuer = codes "https://id";
      client_id = codes "kubepark";
      principal_claim = codes "email";
      base_domain = domain;
      gateway_ssh_addr = codes ":2222";
    };
    verifier = some (verifier_for (codes "https://id") (codes "kubepark") (codes "email"));
  });
  proxy = some (record { base_domain = domain; auth = some cookie_auth });
}

built : (build_http_handler plain_ssh oidc verifier_for opts secret tt).0 ≡ ok (some handler)
unfolding build_http_handler ◌>>=◌ pure lift new_signer new_sign_server new_cookie_authenticator
    entry cut_suffix cut_prefix ◌==◌
built = refl

abbrev request : HttpRequest
request = record {
  host = web_host;
  path = codes "/";
  session = some (sign_cookie codec (codes "key") claims);
  sign_request = record { is_post = false; body = none };
}

proxied :
    (serve plain_ssh api codec (λ ip n. true) (λ w. (0, w)) 400 handler request tt).0
    ≡ proxy_response (proxy_to (codes "10.0.0.7") 8080)
unfolding serve serve_http get_sandbox find_exposed_port authorized_for_port parse_http_host
    clean_host parse_label trim_space trim_left cut cut_prefix cut_suffix identify verify_cookie
    sign_cookie ◌==◌
proxied = refl

serve-Reaches_example :
    Reaches plain_ssh api codec
      (λ ip n. true)
      (λ w. (0, w))
      400
      request
      (codes "10.0.0.7")
      8080
      tt
      handler
      (entry (codes "cookie-hmac") secret.entries)
serve-Reaches_example =
    serve-Reaches plain_ssh api codec (λ ip n. true) (λ w. (0, w)) 400 oidc verifier_for opts secret
      request handler tt tt (codes "10.0.0.7") 8080 built proxied

-- A browser that returns a cookie without a domain to the host that set it.
abbrev sends : Cookie → Text → Text → Bool
sends c set_by to = c.domain == [] && set_by == to

sends_home :
    (c : Cookie) (set_by to : Text) → c.domain ≡ [] → sends c set_by to ≡ true → set_by ≡ to
sends_home c set_by to host_only h = ground (arith, eq_iff set_by to)

-- What url.Parse gives for the host.
abbrev up_to_slash : Text → Option (Text × Text) → Text
up_to_slash all none = all
up_to_slash all (some (before, after)) = before

abbrev host_of : Text → Text
host_of url =
    let rest = trim_prefix (codes "https://") url in up_to_slash rest (cut (codes "/") rest)

browser : IsBrowser oidc host_of (λ location. location) sends
browser = record { host_only = sends_home; redirects = λ cfg state. refl }

abbrev provider : Provider
provider = record {
  exchange = λ code. ok (some code);
  verify = λ raw. ok raw;
  identity = λ token. (alice, []);
}

authenticator_made :
    new_cookie_authenticator oidc
      (codes "https://id")
      (codes "kubepark")
      []
      (codes "https://" ++ domain)
      []
      (codes "key")
      (seconds 3600)
      true
      tt
    ≡ (ok cookie_auth, tt)
unfolding new_cookie_authenticator ◌>>=◌ pure
authenticator_made = refl

redirect_host : host_of (callback_url (codes "https://" ++ domain)) ≡ domain
unfolding cut_suffix cut_prefix cut
redirect_host = refl

abbrev login : LoginRedirect
login = (start_login oidc cookie_auth (codes "/") tt).0

callback-start_login_example :
    (callback_host oidc host_of (λ location. location) sends browser codec provider login ≡ domain)
    × ((request_after oidc host_of
          (λ location. location)
          sends
          browser
          codec
          provider
          web_host
          login
          (codes "state")
          (codes "code")).state_cookie
        ≡ none)
    × (callback codec (codes "key") provider 500 (
          request_after oidc host_of
            (λ location. location)
            sends
            browser
            codec
            provider
            web_host
            login
            (codes "state")
            (codes "code"))
        ≡ status 400 (codes "missing state"))
callback-start_login_example =
    callback-start_login oidc host_of (λ location. location) sends browser codec provider
      (codes "https://id") (codes "kubepark") [] [] (codes "key") (seconds 3600) tt tt cookie_auth
      web_host domain web_target authenticator_made redirect_host (λ e. cc) web_parsed (codes "/")
      (codes "state") (codes "code") 500 tt
