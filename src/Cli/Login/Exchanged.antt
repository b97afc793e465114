-- ===== src/Cli/Login/Exchanged.antt =====
-- What a login has gone through.
use kubepark.Prelude.{
  ℕ, ◌≡◌, ◌≢◌, refl, sym, ap, subst, ◌∙◌, Bool-cases, inl, inr, eqb, eqb_iff, Option, none, some,
  [], ◌∷◌, ◌++◌, Result, ok, pure, raise, other, lift, arith,
}
use kubepark.Prelude.Returns.{bind_returns}
use kubepark.Prelude.Text.{Text, codes, eq_iff, ◌==◌}
use kubepark.Cluster.Os.{Os}
use kubepark.Cluster.Ssh.{Ssh}
use kubepark.Cli.Keys.{Paths, ensure_key_pair, cert_path}
use kubepark.Cli.Login.{
  GatewayConfig, CallbackRequest, Event, cancelled, timed_out, called_back, Web, redirect_url,
  exchanged, token_of, after_event, fresh_state, next_event, in_flow, oidc_auth_code_flow,
  by_status, request_cert, fetch_gateway_config, with_issuer, in_steps, run_login,
}

module _ {W : Type 0} (web : Web W) where
  -- From `w` to `w'`: the client listens, draws a state, and waits for a callback, which brings
  -- back that state with a code, for which the provider gives the token.
  pub record IsExchanged (client_id token : Text) (w w' : W) : Type 0 where
    pub address : Text
    pub listening : W
    pub listens : web.listen w ≡ (ok address, listening)
    pub state : Text
    pub drawn : W
    pub draws : web.random_string listening ≡ (state, drawn)
    pub req : CallbackRequest
    pub called : W
    pub waits : web.wait drawn ≡ (called_back req, called)
    pub same_state : req.state ≡ state
    pub exchanges :
        web.exchange (redirect_url web address) client_id req.code called ≡ (ok (some token), w')

  exchanged_lem :
      (address client_id code token : Text) (w w' : W)
      → exchanged web address client_id code w ≡ (ok token, w')
      → web.exchange (redirect_url web address) client_id code w ≡ (ok (some token), w')
  exchanged_lem address client_id code token w w' h =
      let (answer, v, e, rest) = bind_returns _ _ w w' token h in by_answer answer v e rest
    where
      by_answer :
          (answer : Option Text) (v : W)
          → web.exchange (redirect_url web address) client_id code w ≡ (ok answer, v)
          → token_of web answer v ≡ (ok token, w')
          → web.exchange (redirect_url web address) client_id code w ≡ (ok (some token), w')
      by_answer none v e rest =
          unfold raise in let failed = ap (λ (x : Result Text × W). x.0) rest in cc
      by_answer (some t) v e rest =
          let same : t ≡ token = unfold pure in ground (arith, rest) in
          let ends : v ≡ w' = unfold pure in ap (λ (x : Result Text × W). x.1) rest in
          e ∙ (λ i. (ok (some (same i)), ends i))

  after_event-exchanged :
      (address client_id state token : Text) (event : Event) (w w' : W)
      → after_event web address client_id state event w ≡ (ok token, w')
      → (req : CallbackRequest) × (event ≡ called_back req)
        × (req.state ≡ state)
        × (web.exchange (redirect_url web address) client_id req.code w ≡ (ok (some token), w'))
  after_event-exchanged address client_id state token cancelled w w' h =
      unfold raise in let failed = ap (λ (x : Result Text × W). x.0) h in cc
  after_event-exchanged address client_id state token timed_out w w' h =
      unfold raise in let failed = ap (λ (x : Result Text × W). x.0) h in cc
  after_event-exchanged address client_id state token (called_back req) w w' h =
      elim (Bool-cases (req.state == state)) [
        | inl same ↦ (
          req,
          refl,
          (eq_iff req.state state).0 same,
          exchanged_lem address client_id req.code token w w' (rw same at h),
        )
        | inr different ↦
            let failed : raise {A = Text} (other (codes "state mismatch")) w ≡ (ok token, w') =
              rw different at h in
            unfold raise in let wrong = ap (λ (x : Result Text × W). x.0) failed in cc
      ]

  in_flow-IsExchanged :
      (client_id token : Text) (w w' : W)
      → in_flow web client_id w ≡ (ok token, w')
      → IsExchanged client_id token w w'
  in_flow-IsExchanged client_id token w w' h =
      let (address, w1, e1, h1) = bind_returns _ _ w w' token h in
      let (state, w2, e2, h2) = bind_returns (fresh_state web) _ w1 w' token h1 in
      let (event, w3, e3, h3) = bind_returns (next_event web) _ w2 w' token h2 in
      let (req, is_called, same, answered) =
        after_event-exchanged address client_id state token event w3 w' h3 in
      record {
        address = address;
        listening = w1;
        listens = e1;
        state = state;
        drawn = w2;
        draws = ground (arith, e2);
        req = req;
        called = w3;
        waits = ground (arith, e3, is_called);
        same_state = same;
        exchanges = answered;
      }

  oidc_auth_code_flow-IsExchanged :
      (client_id token : Text) (w w' : W)
      → oidc_auth_code_flow web client_id w ≡ (ok token, w')
      → IsExchanged client_id token w w'
  unfolding oidc_auth_code_flow
  oidc_auth_code_flow-IsExchanged client_id token w w' h =
      in_flow-IsExchanged client_id token w w' h

  by_status-answered :
      (code : ℕ) (body cert principal : Text) (w w' : W)
      → by_status web (code, body) w ≡ (ok (cert, principal), w')
      → (code ≡ 200) × (web.decode_signed body ≡ ok (cert, principal)) × (w ≡ w')
  by_status-answered code body cert principal w w' h = elim (Bool-cases (eqb code 200)) [
    | inl fine ↦
        let decoded : lift {S = W} (web.decode_signed body) w ≡ (ok (cert, principal), w') =
          rw fine at h in
        (
          (eqb_iff code 200).0 fine,
          unfold lift in ap (λ (x : Result (Text × Text) × W). x.0) decoded,
          unfold lift in ap (λ (x : Result (Text × Text) × W). x.1) decoded,
        )
    | inr refused ↦
        let failed : raise {S = W} {A = Text × Text} (other (codes "sign request failed")) w
            ≡ (ok (cert, principal), w') =
          rw refused at h in
        unfold raise in let wrong = ap (λ (x : Result (Text × Text) × W). x.0) failed in cc
  ]

  request_cert-answered :
      (url public id_token cert principal : Text) (w w' : W)
      → request_cert web url public id_token w ≡ (ok (cert, principal), w')
      → (body : Text) × (web.post_sign (url ++ codes "/v1/sign") public id_token w
          ≡ (ok (200, body), w'))
        × (web.decode_signed body ≡ ok (cert, principal))
  unfolding request_cert
  request_cert-answered url public id_token cert principal w w' h =
      let ((code, body), w1, e1, h1) =
        bind_returns (web.post_sign (url ++ codes "/v1/sign") public id_token) (by_status web) w w'
          (cert, principal) h in
      let (is_ok, decoded, ends) = by_status-answered code body cert principal w1 w' h1 in
      (body, e1 ∙ (λ i. (ok (is_ok i, body), ends i)), decoded)

  module _ (os : Os W) (paths : Paths W) (ssh : Ssh W) (url : Text) where
    -- The steps of a login that succeeds, from `w` to `w'`, each from the world that the one before
    -- it left.
    pub record IsLoggedIn (w w' : W) : Type 0 where
      pub cfg : GatewayConfig
      pub configured : W
      pub fetches : fetch_gateway_config web url w ≡ (ok cfg, configured)
      pub has_issuer : cfg.issuer ≢ []
      pub discovered : W
      pub discovers : web.discover cfg.issuer configured ≡ (ok tt, discovered)
      pub token : Text
      pub authorized : W
      pub is_exchanged : IsExchanged cfg.client_id token discovered authorized
      pub keys : Text × Text
      pub keyed : W
      pub has_keys : ensure_key_pair os paths ssh authorized ≡ (ok keys, keyed)
      pub public : Text
      pub read : W
      pub reads : os.read_file keys.1 keyed ≡ (ok public, read)
      pub body : Text
      pub answered : W
      pub asks :
          web.post_sign (url ++ codes "/v1/sign") public token read ≡ (ok (200, body), answered)
      pub cert : Text
      pub principal : Text
      pub decoded : web.decode_signed body ≡ ok (cert, principal)
      pub out : Text
      pub placed : W
      pub has_place : cert_path os paths answered ≡ (ok out, placed)
      pub writes : os.write_file out cert 0o644 placed ≡ (ok tt, w')

    with_issuer-IsLoggedIn :
        (cfg : GatewayConfig) (issuer : Text) (w v w' : W)
        → cfg.issuer ≡ issuer
        → fetch_gateway_config web url w ≡ (ok cfg, v)
        → with_issuer web os paths ssh url cfg issuer v ≡ (ok tt, w')
        → IsLoggedIn w w'
    with_issuer-IsLoggedIn cfg [] w v w' is_issuer fetched h =
        let failed = ap (λ (x : Result (Unit {0}) × W). x.0) h in unfold raise in cc
    with_issuer-IsLoggedIn cfg (c ∷ cs) w v w' is_issuer fetched h =
        let (provider, w1, e1, h1) = bind_returns _ _ v w' tt h in
        let (token, w2, e2, h2) = bind_returns _ _ w1 w' tt h1 in
        let (keys, w3, e3, h3) = bind_returns _ _ w2 w' tt h2 in
        let (public, w4, e4, h4) = bind_returns _ _ w3 w' tt h3 in
        let ((cert, principal), w5, e5, h5) = bind_returns _ _ w4 w' tt h4 in
        let (out, w6, e6, h6) = bind_returns _ _ w5 w' tt h5 in
        let (body, asks, decoded) =
          request_cert-answered url public token cert principal w4 w5 e5 in
        record {
          cfg = cfg;
          configured = v;
          fetches = fetched;
          has_issuer = λ e. cc;
          discovered = w1;
          discovers = subst (λ (i : Text). web.discover i v ≡ (ok tt, w1)) (sym is_issuer) e1;
          token = token;
          authorized = w2;
          is_exchanged = oidc_auth_code_flow-IsExchanged cfg.client_id token w1 w2 e2;
          keys = keys;
          keyed = w3;
          has_keys = e3;
          public = public;
          read = w4;
          reads = e4;
          body = body;
          answered = w5;
          asks = asks;
          cert = cert;
          principal = principal;
          decoded = decoded;
          out = out;
          placed = w6;
          has_place = e6;
          writes = h6;
        }

    in_steps-IsLoggedIn :
        (w w' : W) → in_steps web os paths ssh url w ≡ (ok tt, w') → IsLoggedIn w w'
    in_steps-IsLoggedIn w w' h =
        let (cfg, v, e, rest) = bind_returns (fetch_gateway_config web url) _ w w' tt h in
        with_issuer-IsLoggedIn cfg cfg.issuer w v w' refl e rest

    -- A login that succeeds has fetched from the gateway a configuration with an issuer, has drawn a
    -- state, has been called back with that state, has exchanged the callback's code at the provider
    -- for a token, has posted the client's public key and the token to the gateway, which answered
    -- 200, and its last step has written the certificate of that answer; each step starts from the
    -- world that the one before it left.
    pub run_login-IsLoggedIn :
        (w w' : W) → run_login web os paths ssh url w ≡ (ok tt, w') → IsLoggedIn w w'
    unfolding run_login
    run_login-IsLoggedIn w w' h = in_steps-IsLoggedIn w w' h
