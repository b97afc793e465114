-- ===== src/Cmd/Gateway/Known.antt =====
-- Which requests to the gateway are proxied, and for whom.
use kubepark.Prelude.{
  ℕ, ◌≡◌, ◌≢◌, ◌↔◌, ◌≤◌, refl, sym, ap, ◌∙◌, subst, Bool, true, false, Bool-cases, inl, inr, Option,
  none, some, ok, arith,
}
use kubepark.Prelude.Text.{Text, codes, ◌==◌}
use kubepark.Api.Time.{Time}
use kubepark.Api.Core.{Secret}
use kubepark.Api.Sandbox.{oidc}
use kubepark.Cluster.{Client}
use kubepark.Cluster.Ssh.{Ssh}
use kubepark.Controller.HostKey.{entry}
use kubepark.Gateway.Sign.{TokenVerifier}
use kubepark.Gateway.Sign.Server.{SignServer, Endpoint, configures, signs, unknown, endpoint_of}
use kubepark.Gateway.Cookie.{Codec, SessionClaims, identify}
use kubepark.Gateway.Cookie.Signed.{IsSigned, identify-IsSigned}
use kubepark.Gateway.Cookie.Start.{CookieAuthenticator, Oidc, oidc_callback_path}
use kubepark.Gateway.Proxy.{Identity, Request, Response, proxy_to, authorized_for_port}
use kubepark.Gateway.Proxy.Access.{Route, serve_http-Route}
use kubepark.Cmd.Gateway.{
  GatewayOptions, HttpHandler, HttpProxy, HttpRequest, HttpResponse, proxy_response,
  build_http_handler, serve, by_path, by_proxy, by_sign_server, is_sign_path, authenticator,
  identity_of,
}
use kubepark.Cmd.Gateway.Plane.{Auth, without, with_cookies, build_http_handler-IsPlane}

module _ {W : Type 0} (ssh : Ssh W) (api : Client W) (codec : Codec) (parses : Text → ℕ → Bool)
    (now : W → Time × W) (unix_now : ℕ) (req : HttpRequest) where
  abbrev proxied_request : Request
  proxied_request = record { host = req.host; is_callback = req.path == oidc_callback_path }

  by_sign_server-no_proxy :
      (server : SignServer) (w : W) (r : Response)
      → (by_sign_server ssh api codec parses now unix_now req server w).0 ≢ proxy_response r
  by_sign_server-no_proxy server w r = by_endpoint (endpoint_of req.path) refl
    where
      by_endpoint :
          (e : Endpoint)
          → endpoint_of req.path ≡ e
          → (by_sign_server ssh api codec parses now unix_now req server w).0 ≢ proxy_response r
      by_endpoint configures e = λ h. ground (arith, e, h)
      by_endpoint signs e = λ h. ground (arith, e, h)
      by_endpoint unknown e = λ h. ground (arith, e, h)

  abbrev Proxied : HttpResponse × W → Type 0
  Proxied answer = (r : Response) × (answer.0 ≡ proxy_response r)

  by_proxy-Proxied :
      (proxy : Option HttpProxy) (w : W)
      → Proxied (by_proxy ssh api codec parses now unix_now req proxy w) ↔ (proxy ≢ none)
  by_proxy-Proxied none w = (λ h. let (r, e) = h in cc, λ some_is. absurd (some_is refl))
  by_proxy-Proxied (some proxy) w = (λ h. λ e. cc, λ some_is. (_, refl))

  by_path-Proxied :
      (sign : Option SignServer) (proxy : Option HttpProxy) (w : W)
      → Proxied (by_path ssh api codec parses now unix_now req sign proxy w) ↔ (
          (proxy ≢ none)
          × ((sign ≢ none) → is_sign_path ssh api codec parses now unix_now req.path ≡ false))
  by_path-Proxied none proxy w =
      let (to, from) = by_proxy-Proxied proxy w in
      (λ h. (to h, λ n. absurd (n refl)), λ h. from h.0)
  by_path-Proxied (some server) proxy w =
      elim (Bool-cases (is_sign_path ssh api codec parses now unix_now req.path)) [
        | inl shadowed ↦ rw shadowed (
          λ h. let (r, e) = h in absurd (by_sign_server-no_proxy server w r e),
          λ h. let contradiction = h.1 (λ e. cc) in cc,
        )
        | inr other ↦
            let (to, from) = by_proxy-Proxied proxy w in
            rw other (λ h. (to h, λ n. refl), λ h. from h.0)
      ]

  -- The proxy answers a request just if it is configured and, where there is a sign server, the path
  -- is not one of the two that the sign server takes.
  pub serve-proxied_iff :
      (handler : HttpHandler) (w : W)
      → ((r : Response) × ((serve ssh api codec parses now unix_now handler req w).0
            ≡ proxy_response r))
        ↔ ((handler.proxy ≢ none)
            × ((handler.sign ≢ none)
                → is_sign_path ssh api codec parses now unix_now req.path ≡ false))
  unfolding serve
  serve-proxied_iff handler w = by_path-Proxied handler.sign handler.proxy w

  -- The request of a caller whose cookie carries the signature of its claims under the key, has not
  -- expired, and whom the port admits.
  pub record IsKnown (key : Text) (admits : Identity → Bool) : Type 0 where
    pub value : Text
    pub sent : req.session ≡ some value
    pub claims : SessionClaims
    pub signed : IsSigned codec key value claims
    pub unexpired : unix_now ≤ claims.expiry
    pub admitted : admits (record { principal = claims.principal; groups = claims.groups }) ≡ true

  identity_of_lem :
      (o : Option SessionClaims) (id : Identity)
      → identity_of o ≡ some id
      → (claims : SessionClaims) × (o ≡ some claims)
        × (record { principal = claims.principal; groups = claims.groups } ≡ id)
  identity_of_lem none id h = cc
  identity_of_lem (some claims) id h = (claims, refl, ground arith)

  authenticator-IsKnown :
      (auth : Option CookieAuthenticator) (known : Request → Option Identity) (id : Identity)
      (admits : Identity → Bool)
      → authenticator ssh api codec parses now unix_now auth req.session ≡ some known
      → known proxied_request ≡ some id
      → admits id ≡ true
      → (a : CookieAuthenticator) × (auth ≡ some a) × IsKnown a.hmac_key admits
  authenticator-IsKnown none known id admits e k h = cc
  authenticator-IsKnown (some a) known id admits e k h =
      let same : (λ (_ : Request). identity_of (identify codec a.hmac_key req.session unix_now))
          ≡ known =
        ground arith in
      let (claims, identified, is_id) =
        identity_of_lem _ id (ap (λ (f : Request → Option Identity). f proxied_request) same ∙ k) in
      let (value, sent, signed, unexpired) =
        identify-IsSigned codec a.hmac_key req.session unix_now claims identified in
      (
        a,
        refl,
        record {
          value = value;
          sent = sent;
          claims = claims;
          signed = signed;
          unexpired = unexpired;
          admitted = ap admits is_id ∙ h;
        },
      )

  module _ (ip : Text) (number : ℕ) (w : W) where
    -- The proxy has a route for the request, and the caller of an OIDC port is known.
    pub record Reaches (handler : HttpHandler) (key : Text) : Type 0 where
      pub proxy : HttpProxy
      pub configured : handler.proxy ≡ some proxy
      pub route :
          Route parses api
            (authenticator ssh api codec parses now unix_now proxy.auth req.session)
            proxy.base_domain
            proxied_request
            w
            ip
            number
      pub known :
          (route.port.auth ≡ oidc) → IsKnown key (authorized_for_port route.sandbox route.port)

    by_path-proxy :
        (sign : Option SignServer) (proxy : Option HttpProxy) (r : Response)
        → (by_path ssh api codec parses now unix_now req sign proxy w).0 ≡ proxy_response r
        → (by_proxy ssh api codec parses now unix_now req proxy w).0 ≡ proxy_response r
    by_path-proxy none proxy r h = h
    by_path-proxy (some server) proxy r h =
        elim (Bool-cases (is_sign_path ssh api codec parses now unix_now req.path)) [
          | inl shadowed ↦ absurd (by_sign_server-no_proxy server w r (rw shadowed at h))
          | inr other ↦ rw other at h
        ]

    by_proxy-Route :
        (o : Option HttpProxy)
        → (by_proxy ssh api codec parses now unix_now req o w).0
          ≡ proxy_response (proxy_to ip number)
        → (proxy : HttpProxy) × (o ≡ some proxy)
          × Route parses api
              (authenticator ssh api codec parses now unix_now proxy.auth req.session)
              proxy.base_domain
              proxied_request
              w
              ip
              number
    by_proxy-Route none h = cc
    by_proxy-Route (some proxy) h = (
      proxy,
      refl,
      serve_http-Route parses api _ proxy.base_domain proxied_request w ip number
          (ground (arith, h)),
    )

module _ {W : Type 0} (ssh : Ssh W) (api : Client W) (codec : Codec) (parses : Text → ℕ → Bool)
    (now : W → Time × W) (unix_now : ℕ) (oidc_of : Oidc W)
    (verifier_for : (issuer client_id claim : Text) → TokenVerifier) (opts : GatewayOptions)
    (secret : Secret) where
  keyed :
      {o : Option CookieAuthenticator}
      → Auth ssh oidc_of verifier_for opts secret o
      → (a : CookieAuthenticator) → o ≡ some a
      → a.hmac_key ≡ entry (codes "cookie-hmac") secret.entries
  keyed (without none_is) a e = cc
  keyed (with_cookies auth given is_auth) a e =
      let same : auth ≡ a = ground arith in
      ap (λ (x : CookieAuthenticator). x.hmac_key) (sym same) ∙ is_auth.keyed

  -- The handler that the gateway builds from its options and the CA secret proxies a request only to
  -- a route of its proxy: to the sandbox and the exposed port that the host names. On an OIDC port
  -- the request carries a cookie that is signed under the key of the CA secret and has not expired,
  -- for a principal or groups that the port admits.
  pub serve-Reaches :
      (req : HttpRequest) (handler : HttpHandler) (start w : W) (ip : Text) (number : ℕ)
      → (build_http_handler ssh oidc_of verifier_for opts secret start).0 ≡ ok (some handler)
      → (serve ssh api codec parses now unix_now handler req w).0
        ≡ proxy_response (proxy_to ip number)
      → Reaches ssh api codec parses now unix_now req ip number w handler
          (entry (codes "cookie-hmac") secret.entries)
  unfolding serve
  serve-Reaches req handler start w ip number built h =
      let plane =
        build_http_handler-IsPlane ssh oidc_of verifier_for opts secret start handler built in
      let proxied =
        by_path-proxy ssh api codec parses now unix_now req ip number w handler.sign handler.proxy
          (proxy_to ip number) h in
      let (proxy, configured, route) =
        by_proxy-Route ssh api codec parses now unix_now req ip number w handler.proxy proxied in
      let (base, auth) = plane.proxy_is proxy configured in
      record {
        proxy = proxy;
        configured = configured;
        route = route;
        known = λ guarded.
            let caller = route.guarded guarded in
            let (a, is_a, known) =
              authenticator-IsKnown ssh api codec parses now unix_now req proxy.auth caller.identify
                caller.id (authorized_for_port route.sandbox route.port) caller.configured
                caller.known caller.admitted in
            subst
              (λ (k : Text).
                IsKnown ssh api codec parses now unix_now req k
                  (authorized_for_port route.sandbox route.port))
              (keyed auth a is_a) known;
      }
