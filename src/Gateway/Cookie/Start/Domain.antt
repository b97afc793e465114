-- ===== src/Gateway/Cookie/Start/Domain.antt =====
-- Which hosts see the cookie of a login.
use kubepark.Prelude.{
  ℕ, ◌+◌, ◌≤◌, ◌<◌, ◌≡◌, ◌≢◌, refl, ap, ◌∙◌, ok, pure, Bool, true, false, Bool-cases, inl, inr,
  Option, none, some, [], ◌∷◌, ◌++◌, arith,
}
use kubepark.Prelude.Returns.{bind_returns}
use kubepark.Api.Time.{Duration}
use kubepark.Prelude.Text.{Text, codes, length, length-append, trim_prefix, cut_prefix}
use kubepark.Gateway.HttpHost.{HttpTarget, target, parse_http_host, clean_host, label_of, dashes}
use kubepark.Gateway.HttpHost.Sound.{parse_http_host-Labels}
use kubepark.Gateway.Cookie.{Codec, Provider, CallbackRequest, status, callback}
use kubepark.Gateway.Cookie.Start.{
  Cookie, OauthConfig, CookieAuthenticator, LoginRedirect, Oidc, callback_url,
  new_cookie_authenticator, start_login,
}

length-cut_prefix :
    (p s rest : Text) → cut_prefix p s ≡ some rest → length s ≡ length p + length rest
unfolding cut_prefix
length-cut_prefix [] s rest h = ground arith
length-cut_prefix (c ∷ p) [] rest h = cc
length-cut_prefix (c ∷ p) (d ∷ s) rest h = ground (arith, length-cut_prefix p s rest)

trim_prefix-short : (p s : Text) → length s ≤ length p + length (trim_prefix p s)
trim_prefix-short p s = by_cut (cut_prefix p s) refl
  where
    by_cut : (o : Option Text) → cut_prefix p s ≡ o → length s ≤ length p + length (trim_prefix p s)
    by_cut none e = ground (arith, e)
    by_cut (some rest) e = ground (arith, e, length-cut_prefix p s rest e)

-- A host that names a target is longer than the base domain.
longer :
    (host base : Text) (t : HttpTarget)
    → base ≢ []
    → parse_http_host host base ≡ target t
    → length base < length (clean_host host)
longer host base t given h =
    let (whole, labels) = parse_http_host-Labels host base t given h in
    let joined = ap length whole in
    omega (
      arith,
      joined,
      trim_prefix-short (codes ".") base,
      length-append (label_of t) (codes "." ++ trim_prefix (codes ".") base),
      length-append t.port (dashes ++ (t.sandbox ++ (dashes ++ t.namespace))),
    )

-- What the request to the callback carries of a cookie.
abbrev pub arrived : Bool → Text → Option Text
arrived true value = some value
arrived false value = none

-- What net/url, the provider and a browser do of a login. `sends` says whether a cookie that one host
-- has set is in a request to another: one without a domain goes back only to the host that set it.
-- The provider sends the browser to the redirect URL of the request that it was given.
pub record IsBrowser {W : Type 0} (oidc : Oidc W) (host_of redirect_of : Text → Text)
    (sends : Cookie → Text → Text → Bool) : Type 0 where
  pub host_only :
      (c : Cookie) (set_by to : Text) → c.domain ≡ [] → sends c set_by to ≡ true → set_by ≡ to
  pub redirects :
      (cfg : OauthConfig) (state : Text)
      → redirect_of (oidc.auth_code_url cfg state) ≡ cfg.redirect_url

module _ {W : Type 0} (oidc : Oidc W) (host_of redirect_of : Text → Text)
    (sends : Cookie → Text → Text → Bool) (browser : IsBrowser oidc host_of redirect_of sends)
    (codec : Codec) (provider : Provider) where
  -- The host of the callback to which a redirect leads.
  abbrev pub callback_host : LoginRedirect → Text
  callback_host redirect = host_of (redirect_of redirect.location)

  -- The callback's request, after a login that started on a host.
  abbrev pub request_after : Text → LoginRedirect → (state code : Text) → CallbackRequest
  request_after host redirect state code = record {
    state_cookie =
        arrived (sends redirect.cookie (clean_host host) (callback_host redirect))
          redirect.cookie.value;
    state_param = state;
    code = code;
  }

  -- With the authenticator that is built for a base domain, a login that starts on a sandbox's host
  -- leads to a callback on the base domain, which is another host, so that a browser does not send
  -- the cookie of the state, which names no domain, and whatever state and code the provider gives,
  -- the callback answers that the state is missing.
  pub callback-start_login :
      (issuer client_id secret claim hmac_key : Text) (ttl : Duration) (v v' : W)
      (auth : CookieAuthenticator) (host base : Text) (t : HttpTarget)
      → new_cookie_authenticator oidc issuer client_id secret
          (codes "https://" ++ base)
          claim
          hmac_key
          ttl
          true
          v
        ≡ (ok auth, v')
      → host_of (callback_url (codes "https://" ++ base)) ≡ base
      → base ≢ []
      → parse_http_host host base ≡ target t
      → (url state code : Text) (expiry : ℕ) (w : W)
      → (callback_host (start_login oidc auth url w).0 ≡ base)
        × ((request_after host (start_login oidc auth url w).0 state code).state_cookie ≡ none)
        × (callback codec auth.hmac_key provider expiry
              (request_after host (start_login oidc auth url w).0 state code)
            ≡ status 400 (codes "missing state"))
  unfolding start_login callback new_cookie_authenticator
  callback-start_login issuer client_id secret claim hmac_key ttl v v' auth host base t built based
        given h url state code expiry w =
      let redirect = (start_login oidc auth url w).0 in
      let (_, v1, _, made) = bind_returns (oidc.discover issuer) _ v v' auth built in
      let redirected : auth.oauth.redirect_url ≡ callback_url (codes "https://" ++ base) =
        unfold pure in ground (arith, made) in
      let at_base : callback_host redirect ≡ base =
        ap host_of (browser.redirects auth.oauth _ ∙ redirected) ∙ based in
      let unsent : sends redirect.cookie (clean_host host) (callback_host redirect) ≡ false =
        elim (Bool-cases (sends redirect.cookie (clean_host host) (callback_host redirect))) [
          | inl sent ↦
              let same =
                ap length
                  (browser.host_only redirect.cookie (clean_host host) _ refl sent ∙ at_base) in
              absurd (omega (arith, same, longer host base t given h))
          | inr kept ↦ kept
        ] in
      (at_base, rw unsent refl, rw unsent refl)
