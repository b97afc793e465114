-- ===== src/Gateway/Proxy/Access.antt =====
-- Which requests reach a pod.
use kubepark.Prelude.{
  ℕ, ◌≡◌, ◌≢◌, ◌↔◌, refl, sym, subst, Bool, true, false, Bool-cases, ◌⊎◌, inl, inr, Option, none,
  some, List, [], ◌∷◌, Result, ok, err, arith,
}
use kubepark.Prelude.Text.{Text, eq_iff, eq_refl, ◌==◌, contains}
use kubepark.Api.Sandbox.{Sandbox, ExposedPort, AuthMode, oidc}
use kubepark.Cluster.{Client}
use kubepark.Gateway.HttpHost.{HttpTarget, Parsed, target, refused, parse_http_host}
use kubepark.Gateway.Store.{get_sandbox}
use kubepark.Gateway.Proxy.{
  Identity, Request, Authenticator, proxy_to, find_exposed_port, any_allowed, authorized_for_port,
  serve_http, catches_callback, to_sandbox, to_port, by_auth, forward,
}

-- The caller is known: an identity of the authenticator that the port admits.
pub record IsAdmitted (auth : Authenticator) (req : Request) (sb : Sandbox) (port : ExposedPort)
    : Type 0 where
  pub identify : Request → Option Identity
  pub configured : auth ≡ some identify
  pub id : Identity
  pub known : identify req ≡ some id
  pub admitted : authorized_for_port sb port id ≡ true

module _ (parses : Text → ℕ → Bool) (auth : Authenticator) (req : Request) (sb : Sandbox)
    (ip : Text) (number : ℕ) where
  forward_lem :
      (port : ExposedPort)
      → forward parses sb port ≡ proxy_to ip number
      → (ip ≢ []) × (sb.status.pod_ip ≡ ip) × (port.port ≡ number)
  forward_lem port h = by_ip sb.status.pod_ip refl
    where
      by_ip :
          (a : Text)
          → sb.status.pod_ip ≡ a
          → (ip ≢ []) × (sb.status.pod_ip ≡ ip) × (port.port ≡ number)
      by_ip [] e = cc
      by_ip (c ∷ cs) e = ground arith

  by_auth-IsAdmitted :
      (port : ExposedPort) (mode : AuthMode)
      → by_auth parses auth req sb port mode ≡ proxy_to ip number
      → port.auth ≡ mode
      → ((port.auth ≡ oidc) → IsAdmitted auth req sb port)
        × (forward parses sb port ≡ proxy_to ip number)
  by_auth-IsAdmitted port AuthMode.none h e = (λ p. cc, h)
  by_auth-IsAdmitted port oidc h e = by_authenticator auth refl
    where
      by_authenticator :
          (a : Authenticator)
          → auth ≡ a
          → ((port.auth ≡ oidc) → IsAdmitted auth req sb port)
            × (forward parses sb port ≡ proxy_to ip number)
      by_authenticator none q = cc
      by_authenticator (some identify) q = by_identity (identify req) refl (λ id e. Bool-cases _)
        where
          by_identity :
              (o : Option Identity)
              → identify req ≡ o
              → ((id : Identity)
                  → (o ≡ some id)
                  → (authorized_for_port sb port id ≡ true)
                    ⊎ (authorized_for_port sb port id ≡ false))
              → ((port.auth ≡ oidc) → IsAdmitted auth req sb port)
                × (forward parses sb port ≡ proxy_to ip number)
          by_identity none known _ = cc
          by_identity (some id) known cases = elim (cases id refl) [
            | inl admitted ↦ (
              λ p. record {
                identify = identify;
                configured = q;
                id = id;
                known = known;
                admitted = admitted;
              },
              ground arith,
            )
            | inr stranger ↦ cc
          ]

module _ {W : Type 0} (parses : Text → ℕ → Bool) (api : Client W) (auth : Authenticator)
    (base_domain : Text) (req : Request) (w : W) (ip : Text) (number : ℕ) where
  -- The sandbox that the host names exposes the port under the host's port name.
  pub record Route : Type 0 where
    pub named : HttpTarget
    pub parsed : parse_http_host req.host base_domain ≡ target named
    pub sandbox : Sandbox
    pub found : (get_sandbox api named.namespace named.sandbox w).0 ≡ ok sandbox
    pub port : ExposedPort
    pub exposed : find_exposed_port sandbox.spec.exposed_ports named.port ≡ some port
    pub up : ip ≢ []
    pub address : sandbox.status.pod_ip ≡ ip
    pub target_port : port.port ≡ number
    pub guarded : (port.auth ≡ oidc) → IsAdmitted auth req sandbox port

  -- A request that is proxied goes to the pod address, which is not empty, of the sandbox that its
  -- host names, on a port that the sandbox exposes under the host's port name; if that port asks
  -- for a login, the caller is known and the port admits them.
  pub serve_http-Route :
      (serve_http parses api auth base_domain req w).0 ≡ proxy_to ip number → Route
  unfolding serve_http
  serve_http-Route h = elim (Bool-cases (catches_callback parses api auth base_domain auth req)) [
    | inl callback ↦ cc
    | inr plain ↦ by_parsed (parse_http_host req.host base_domain) refl plain
  ]
    where
      by_port :
          (t : HttpTarget) (sb : Sandbox) (o : Option ExposedPort)
          → parse_http_host req.host base_domain ≡ target t
          → (get_sandbox api t.namespace t.sandbox w).0 ≡ ok sb
          → find_exposed_port sb.spec.exposed_ports t.port ≡ o
          → to_port parses auth req sb o ≡ proxy_to ip number
          → Route
      by_port t sb none p f e q = cc
      by_port t sb (some port) p f e q =
          let (guarded, forwarded) =
            by_auth-IsAdmitted parses auth req sb ip number port port.auth q refl in
          let (up, address, at) = forward_lem parses auth req sb ip number port forwarded in
          record {
            named = t;
            parsed = p;
            sandbox = sb;
            found = f;
            port = port;
            exposed = e;
            up = up;
            address = address;
            target_port = at;
            guarded = guarded;
          }

      by_found :
          (t : HttpTarget) (r : Result Sandbox)
          → parse_http_host req.host base_domain ≡ target t
          → (get_sandbox api t.namespace t.sandbox w).0 ≡ r
          → to_sandbox parses auth req t.port r ≡ proxy_to ip number
          → Route
      by_found t (err e) p f q = cc
      by_found t (ok sb) p f q = by_port t sb _ p f refl q

      by_parsed :
          (o : Parsed)
          → parse_http_host req.host base_domain ≡ o
          → catches_callback parses api auth base_domain auth req ≡ false
          → Route
      by_parsed (refused e) p plain = cc
      by_parsed (target t) p plain = by_found t _ p refl (ground arith)

abbrev pub SharesGroup : List Text → List Text → Type 0
SharesGroup allowed groups = (g : Text) × (contains groups g ≡ true) × (contains allowed g ≡ true)

any_allowed_sound :
    (allowed groups : List Text) → any_allowed allowed groups ≡ true → SharesGroup allowed groups
unfolding contains
any_allowed_sound allowed [] h = cc
any_allowed_sound allowed (g ∷ gs) h = elim (Bool-cases (contains allowed g)) [
  | inl here ↦ (g, ground (arith, eq_refl g), here)
  | inr missed ↦
      let (f, there, listed) : (f : Text) × (contains gs f ≡ true) × (contains allowed f ≡ true) =
        any_allowed_sound allowed gs (ground arith) in
      (f, ground arith, listed)
]

any_allowed_complete :
    (allowed groups : List Text) (g : Text)
    → contains groups g ≡ true
    → contains allowed g ≡ true
    → any_allowed allowed groups ≡ true
unfolding contains
any_allowed_complete allowed [] g h k = cc
any_allowed_complete allowed (f ∷ fs) g h k = elim (Bool-cases (f == g)) [
  | inl here ↦
      let listed = subst (λ (x : Text). contains allowed x ≡ true) (sym ((eq_iff f g).0 here)) k in
      ground (arith, listed)
  | inr missed ↦ ground (arith, any_allowed_complete allowed fs g)
]

-- A caller is authorized for a port just if it is the sandbox's owner, one of the port's users, or
-- in one of the port's groups.
pub authorized_for_port_iff :
    (sb : Sandbox) (port : ExposedPort) (id : Identity)
    → (authorized_for_port sb port id ≡ true) ↔ (
        (id.principal ≡ sb.spec.owner.name)
        ⊎ ((contains port.allowed_users id.principal ≡ true)
            ⊎ SharesGroup port.allowed_groups id.groups))
unfolding authorized_for_port
authorized_for_port_iff sb port id = (to, from)
  where
    Grounds : Type 0
    Grounds =
        (id.principal ≡ sb.spec.owner.name)
        ⊎ ((contains port.allowed_users id.principal ≡ true)
            ⊎ SharesGroup port.allowed_groups id.groups)

    to : authorized_for_port sb port id ≡ true → Grounds
    to h = elim (Bool-cases (id.principal == sb.spec.owner.name)) [
      | inl owner ↦ inl ((eq_iff _ _).0 owner)
      | inr other ↦ elim (Bool-cases (contains port.allowed_users id.principal)) [
        | inl user ↦ inr (inl user)
        | inr unlisted ↦ inr (inr (any_allowed_sound port.allowed_groups id.groups (ground arith)))
      ]
    ]

    from : Grounds → authorized_for_port sb port id ≡ true
    from (inl owner) = ground (arith, (eq_iff id.principal sb.spec.owner.name).1 owner)
    from (inr (inl user)) = ground arith
    from (inr (inr (g, member, listed))) =
        ground (arith, any_allowed_complete port.allowed_groups id.groups g member listed)
