-- ===== src/Gateway/Cookie/Start.antt =====
-- internal/gateway/cookieauth.go: NewCookieAuthenticator and StartLogin.
pub mod Domain
use kubepark.Prelude.{
  ℕ, Bool, true, Option, none, some, List, [], ◌∷◌, ◌++◌, Result, ok, err, Exec, pure, ◌>>=◌,
}
use kubepark.Prelude.Text.{Text, codes, cut_suffix, ◌==◌}
use kubepark.Api.Time.{Duration}

abbrev pub oidc_callback_path : Text
oidc_callback_path = codes "/kubepark/oidc/callback"

abbrev pub state_cookie : Text
state_cookie = codes "kubepark_oidc_state"

abbrev pub session_cookie : Text
session_cookie = codes "kubepark_session"

-- http.Cookie; a literal that names no domain leaves it empty. SameSite is always Lax.
pub record Cookie : Type 0 where
  pub name : Text
  pub value : Text
  pub path : Text
  pub domain : Text
  pub http_only : Bool
  pub secure : Bool
  pub max_age : ℕ

-- oauth2.Config, less its endpoint.
pub record OauthConfig : Type 0 where
  pub client_id : Text
  pub client_secret : Text
  pub redirect_url : Text
  pub scopes : List Text

pub record CookieAuthenticator : Type 0 where
  pub oauth : OauthConfig
  pub claim : Text
  pub hmac_key : Text
  pub ttl : Duration
  pub secure : Bool

-- "email" where no claim is configured
abbrev pub default_principal_claim : Text → Text
default_principal_claim [] = codes "email"
default_principal_claim (c ∷ cs) = c ∷ cs

abbrev pub or_itself : Text → Option Text → Text
or_itself s none = s
or_itself s (some stem) = stem

abbrev pub callback_url : Text → Text
callback_url redirect_base =
    or_itself redirect_base (cut_suffix (codes "/") redirect_base) ++ oidc_callback_path

-- What the provider's discovery and oauth2 do.
pub record Oidc (W : Type 0) : Type 0 where
  pub discover : Text → Exec W Unit
  -- (*oauth2.Config).AuthCodeURL with a state
  pub auth_code_url : OauthConfig → Text → Text
  -- 16 bytes of crypto/rand in base64.RawURLEncoding
  pub random_string : W → Text × W

pub record LoginRedirect : Type 0 where
  pub cookie : Cookie
  pub location : Text

abbrev pub state_cookie_of : CookieAuthenticator → Text → Text → Cookie
state_cookie_of auth state url = record {
  name = state_cookie;
  value = state ++ (codes "|" ++ url);
  path = codes "/";
  domain = [];
  http_only = true;
  secure = auth.secure;
  max_age = 600;
}

module _ {W : Type 0} (oidc : Oidc W) where
  unfoldable pub new_cookie_authenticator :
      (issuer client_id client_secret redirect_base claim hmac_key : Text)
      → Duration
      → Bool
      → Exec W CookieAuthenticator
  unfolding ◌>>=◌ pure
  new_cookie_authenticator issuer client_id client_secret redirect_base claim hmac_key ttl secure =
      do
        provider ← oidc.discover issuer
        pure (record {
          oauth = record {
            client_id = client_id;
            client_secret = client_secret;
            redirect_url = callback_url redirect_base;
            scopes = codes "openid" ∷ codes "email" ∷ codes "profile" ∷ codes "groups" ∷ [];
          };
          claim = default_principal_claim claim;
          hmac_key = hmac_key;
          ttl = ttl;
          secure = secure;
        })

  -- The redirect to the provider, with the state and the URL of the request in a cookie.
  unfoldable pub start_login : CookieAuthenticator → Text → W → LoginRedirect × W
  start_login auth url w =
      let (state, w') = oidc.random_string w in
      (
        record {
          cookie = state_cookie_of auth state url;
          location = oidc.auth_code_url auth.oauth state;
        },
        w',
      )
