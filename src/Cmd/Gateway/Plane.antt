-- ===== src/Cmd/Gateway/Plane.antt =====
-- Which handlers a configuration has.
use kubepark.Prelude.{
  ◌≡◌, ◌≢◌, ◌↔◌, refl, sym, ap, subst, Option, none, some, true, [], ◌∷◌, ◌++◌, Result, ok, arith,
  pure,
}
use kubepark.Prelude.Returns.{bind_ok}
use kubepark.Prelude.Text.{Text, codes}
use kubepark.Api.Time.{Duration}
use kubepark.Api.Core.{Secret}
use kubepark.Cluster.Ssh.{Ssh}
use kubepark.Controller.HostKey.{entry}
use kubepark.Gateway.Sign.{TokenVerifier}
use kubepark.Gateway.Sign.Server.{SignServer}
use kubepark.Gateway.Cookie.Start.{
  CookieAuthenticator, Oidc, new_cookie_authenticator, callback_url,
}
use kubepark.Cmd.Gateway.{
  GatewayOptions, HttpHandler, HttpProxy, build_http_handler, with_issuer, cookie_auth, proxy_of,
  handler_of,
}

abbrev Pair : Type 0
Pair = Option SignServer × Option CookieAuthenticator

module _ {W : Type 0} (ssh : Ssh W) (oidc : Oidc W)
    (verifier_for : (issuer client_id claim : Text) → TokenVerifier) (opts : GatewayOptions)
    (secret : Secret) where
  -- The authenticator signs with the key of the CA secret, and the provider sends users back to the
  -- base domain.
  pub record IsCookieAuth (auth : CookieAuthenticator) : Type 0 where
    pub keyed : auth.hmac_key ≡ entry (codes "cookie-hmac") secret.entries
    pub returns : auth.oauth.redirect_url ≡ callback_url (codes "https://" ++ opts.base_domain)

  pub data Auth : Option CookieAuthenticator → Type 0 where
    without : opts.oidc_issuer ≡ [] → Auth none
    with_cookies :
        (auth : CookieAuthenticator) → opts.oidc_issuer ≢ [] → IsCookieAuth auth → Auth (some auth)

  pub record IsPlane (handler : HttpHandler) : Type 0 where
    pub signs : (handler.sign ≡ none) ↔ (opts.oidc_issuer ≡ [])
    pub proxies : (handler.proxy ≡ none) ↔ (opts.base_domain ≡ [])
    pub proxy_is :
        (proxy : HttpProxy)
        → handler.proxy ≡ some proxy
        → (proxy.base_domain ≡ opts.base_domain) × Auth proxy.auth

  -- What with_issuer makes.
  record Made (server : Option SignServer) (auth : Option CookieAuthenticator) : Type 0 where
    signs : (server ≡ none) ↔ (opts.oidc_issuer ≡ [])
    guards : opts.base_domain ≢ [] → Auth auth

  new_cookie_authenticator_made :
      (issuer id client_secret base claim key : Text) (ttl : Duration) (w : W)
      (auth : CookieAuthenticator)
      → (new_cookie_authenticator oidc issuer id client_secret base claim key ttl true w).0
        ≡ ok auth
      → (auth.hmac_key ≡ key) × (auth.oauth.redirect_url ≡ callback_url base)
  unfolding new_cookie_authenticator
  new_cookie_authenticator_made issuer id client_secret base claim key ttl w auth h = ground arith

  cookie_auth-Auth :
      (base : Text) (w : W) (auth : Option CookieAuthenticator)
      → opts.oidc_issuer ≢ []
      → opts.base_domain ≡ base
      → (cookie_auth ssh oidc verifier_for opts secret base w).0 ≡ ok auth
      → opts.base_domain ≢ []
      → Auth auth
  cookie_auth-Auth [] w auth issuer is_base h given = absurd (given is_base)
  cookie_auth-Auth (c ∷ cs) w auth issuer is_base h given =
      let (made, w', e, rest) = bind_ok _ _ w auth h in
      let same : some made ≡ auth = unfold pure in ground arith in
      let (keyed, returns) =
        new_cookie_authenticator_made _ _ _ _ _ _ opts.cert_ttl w made
          (ap (λ (x : Result CookieAuthenticator × W). x.0) e) in
      subst Auth same
        (with_cookies made issuer (record { keyed = keyed; returns = rw is_base returns }))

  with_issuer-Made :
      (issuer : Text) (w : W) (server : Option SignServer) (auth : Option CookieAuthenticator)
      → opts.oidc_issuer ≡ issuer
      → (with_issuer ssh oidc verifier_for opts secret issuer w).0 ≡ ok (server, auth)
      → Made server auth
  with_issuer-Made [] w server auth is_issuer h =
      let same : ◌≡◌ {A = Pair} (none, none) (server, auth) = unfold pure in ground arith in
      record {
        signs = (λ e. is_issuer, λ e. ap (λ (x : Pair). x.0) (sym same));
        guards = λ given. subst Auth (ap (λ (x : Pair). x.1) same) (without is_issuer);
      }
  with_issuer-Made (c ∷ cs) w server auth is_issuer h =
      let (signer, w1, e1, h1) = bind_ok _ _ w (server, auth) h in
      let (made, w2, e2, h2) = bind_ok _ _ w1 (server, auth) h1 in
      let (cookies, w3, e3, h3) = bind_ok _ _ w2 (server, auth) h2 in
      let same : ◌≡◌ {A = Pair} (some made, cookies) (server, auth) =
        unfold pure in ground (arith, h3) in
      let named : opts.oidc_issuer ≢ [] = λ e. cc in
      let server_is = ap (λ (x : Pair). x.0) same in
      record {
        signs = (λ e. cc, λ e. absurd (named e));
        guards = λ given. subst Auth (ap (λ (x : Pair). x.1) same) (
            cookie_auth-Auth opts.base_domain w2 cookies named refl
              (ap (λ (x : Result (Option CookieAuthenticator) × W). x.0) e3) given);
      }

  with_proxy-IsPlane :
      (server : Option SignServer) (proxy : HttpProxy)
      → Made server proxy.auth
      → proxy.base_domain ≡ opts.base_domain
      → opts.base_domain ≢ []
      → IsPlane (record { sign = server; proxy = some proxy })
  with_proxy-IsPlane server proxy made same given = record {
    signs = made.signs;
    proxies = (λ e. cc, λ e. absurd (given e));
    proxy_is = λ other e.
        let is_other : proxy ≡ other = ground arith in
        subst (λ (p : HttpProxy). (p.base_domain ≡ opts.base_domain) × Auth p.auth) is_other
          (same, made.guards given);
  }

  handler_of-IsPlane :
      (server : Option SignServer) (auth : Option CookieAuthenticator) (base : Text)
      (handler : HttpHandler)
      → opts.base_domain ≡ base
      → Made server auth
      → handler_of ssh oidc verifier_for opts secret server
          (proxy_of ssh oidc verifier_for opts secret base auth)
        ≡ some handler
      → IsPlane handler
  handler_of-IsPlane none auth [] handler is_base made h = cc
  handler_of-IsPlane (some server) auth [] handler is_base made h =
      let same : record { sign = some server; proxy = none } ≡ handler = ground arith in
      subst IsPlane same (record {
        signs = made.signs;
        proxies = (λ e. is_base, λ e. refl);
        proxy_is = λ proxy e. cc;
      })
  handler_of-IsPlane none auth (c ∷ cs) handler is_base made h =
      let proxy : HttpProxy = record { base_domain = c ∷ cs; auth = auth } in
      let same : record { sign = none; proxy = some proxy } ≡ handler = ground arith in
      subst IsPlane same (with_proxy-IsPlane none proxy made (sym is_base) (λ e. cc))
  handler_of-IsPlane (some server) auth (c ∷ cs) handler is_base made h =
      let proxy : HttpProxy = record { base_domain = c ∷ cs; auth = auth } in
      let same : record { sign = some server; proxy = some proxy } ≡ handler = ground arith in
      subst IsPlane same (with_proxy-IsPlane (some server) proxy made (sym is_base) (λ e. cc))

  -- A handler that is built signs just if there is an issuer and proxies just if there is a base
  -- domain; its proxy serves that base domain, and has an authenticator just if there is an issuer,
  -- which signs cookies with the key of the CA secret and comes back to the base domain.
  pub build_http_handler-IsPlane :
      (w : W) (handler : HttpHandler)
      → (build_http_handler ssh oidc verifier_for opts secret w).0 ≡ ok (some handler)
      → IsPlane handler
  unfolding build_http_handler
  build_http_handler-IsPlane w handler h =
      let ((server, auth), w', e, rest) =
        bind_ok (with_issuer ssh oidc verifier_for opts secret opts.oidc_issuer)
          (λ (made : Pair). pure (
            handler_of ssh oidc verifier_for opts secret made.0
              (proxy_of ssh oidc verifier_for opts secret opts.base_domain made.1)))
          w (some handler) h in
      handler_of-IsPlane server auth opts.base_domain handler refl
        (with_issuer-Made opts.oidc_issuer w server auth refl (ap (λ (x : Result Pair × W). x.0) e))
        (unfold pure in ground (arith, rest))
