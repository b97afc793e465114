-- ===== src/Gateway/Sign/Issue.antt =====
-- For whom certificates are issued.
use kubepark.Prelude.{
  ◌≡◌, ◌≢◌, refl, ap, ◌∙◌, subst, true, Bool-cases, inl, inr, Option, none, some, [], ◌∷◌, Result,
  ok, err, arith,
}
use kubepark.Prelude.Text.{Text}
use kubepark.Api.Time.{Time}
use kubepark.Cluster.Ssh.{Ssh}
use kubepark.Gateway.Sign.{
  Signer, signed, SignRequest, TokenVerifier, sign, handle_sign, principal_from_claims, for_post,
  for_token, for_principal, respond, nonempty,
}

module _ {W : Type 0} (ssh : Ssh W) (now : W → Time × W) (signer : Signer)
    (verifier : Option TokenVerifier) (req : SignRequest) (w : W)
    (certificate principal : Text) where
  -- The request is a POST whose token is verified, and whose claim is the principal.
  pub record Issued : Type 0 where
    pub posted : req.is_post ≡ true
    pub configured : TokenVerifier
    pub is_configured : verifier ≡ some configured
    pub key : Text
    pub raw_token : Text
    pub body : req.body ≡ some (key, raw_token)
    pub token : Text
    pub verified : configured.verify raw_token ≡ ok token
    pub claimed : configured.claim token ≡ some principal
    pub given : principal ≢ []
    pub made : (sign ssh now signer key principal w).0 ≡ ok certificate

  nonempty_lem : (o : Option Text) (p : Text) → nonempty o ≡ some p → (o ≡ some p) × (p ≢ [])
  nonempty_lem none p h = cc
  nonempty_lem (some []) p h = cc
  nonempty_lem (some (c ∷ cs)) p h = (h, λ e. cc)

  module _ (posted : req.is_post ≡ true) (v : TokenVerifier) (is_v : verifier ≡ some v)
      (key raw : Text) (body : req.body ≡ some (key, raw)) where
    respond-Issued :
        (token p : Text)
        → v.verify raw ≡ ok token
        → v.claim token ≡ some p
        → p ≢ []
        → (r : Result Text × W) → sign ssh now signer key p w ≡ r
        → (respond ssh now signer p r).0 ≡ signed certificate principal
        → Issued
    respond-Issued token p verified claimed given (err e, w') made h = cc
    respond-Issued token p verified claimed given (ok c, w') made h =
        let p_is : p ≡ principal = ground arith in
        record {
          posted = posted;
          configured = v;
          is_configured = is_v;
          key = key;
          raw_token = raw;
          body = body;
          token = token;
          verified = verified;
          claimed = claimed ∙ ap some p_is;
          given = λ e. given (p_is ∙ e);
          made =
              subst (λ (x : Text). (sign ssh now signer key x w).0 ≡ ok certificate) p_is
                (ground arith);
        }

    for_principal-Issued :
        (token : Text)
        → v.verify raw ≡ ok token
        → (o : Option Text) → nonempty (v.claim token) ≡ o
        → (for_principal ssh now signer key o w).0 ≡ signed certificate principal
        → Issued
    for_principal-Issued token verified none e h = cc
    for_principal-Issued token verified (some p) e h =
        let (claimed, given) = nonempty_lem _ p e in
        respond-Issued token p verified claimed given _ refl h

    for_token-Issued :
        (r : Result Text)
        → v.verify raw ≡ r
        → (for_token ssh now signer v key r w).0 ≡ signed certificate principal
        → Issued
    unfolding principal_from_claims
    for_token-Issued (err e) verified h = cc
    for_token-Issued (ok token) verified h = for_principal-Issued token verified _ refl h

  for_post-Issued :
      req.is_post ≡ true
      → (v : Option TokenVerifier) (body : Option (Text × Text)) → verifier ≡ v
      → req.body ≡ body
      → (for_post ssh now signer v body w).0 ≡ signed certificate principal
      → Issued
  for_post-Issued posted none body is_v is_body h = cc
  for_post-Issued posted (some v) none is_v is_body h = cc
  for_post-Issued posted (some v) (some (key, raw)) is_v is_body h =
      for_token-Issued posted v is_v key raw is_body _ refl h

  -- A certificate is answered only to a POST whose ID token the configured verifier accepts, for the
  -- principal that the token claims, which is not empty, and it is what `sign` makes of the key in
  -- the body for that principal.
  pub handle_sign-Issued :
      (handle_sign ssh now signer verifier req w).0 ≡ signed certificate principal → Issued
  unfolding handle_sign
  handle_sign-Issued h = elim (Bool-cases req.is_post) [
    | inl posted ↦ for_post-Issued posted verifier req.body refl refl (ground arith)
    | inr other ↦ cc
  ]
