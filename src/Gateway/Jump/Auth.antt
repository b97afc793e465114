-- ===== src/Gateway/Jump/Auth.antt =====
-- Who is logged in, and who reaches a sandbox.
use kubepark.Prelude.{
  ◌≡◌, ◌≢◌, refl, subst, Option, none, some, List, [], ◌∷◌, Result, ok, err, arith,
}
use kubepark.Prelude.Text.{Text, eq_iff}
use kubepark.Api.Time.{Time}
use kubepark.Api.Sandbox.{Sandbox}
use kubepark.Cluster.Ssh.{PublicKey, Certificate, Ssh}
use kubepark.SshCa.{check_user_cert}
use kubepark.Gateway.SshTarget.{SshTarget}
use kubepark.Gateway.Store.{get_sandbox}
use kubepark.Gateway.Jump.{
  JumpEnv, Login, public_key_handler, authorize, check_login, try_principals,
}

-- A sandbox that is handed out is the one that the store has under the target's name, and its
-- owner is the principal, which is not empty.
pub authorize-owner :
    {W : Type 0}
    → (env : JumpEnv W) (t : SshTarget) (principal : Text) (w : W) (sb : Sandbox)
    → (authorize env t principal w).0 ≡ ok sb
    → (principal ≢ [])
      × (sb.spec.owner.name ≡ principal)
      × ((get_sandbox env.api t.namespace t.sandbox w).0 ≡ ok sb)
unfolding authorize
authorize-owner env t [] w sb h = cc
authorize-owner env t (c ∷ cs) w sb h =
    (λ p. cc, ground (arith, eq_iff sb.spec.owner.name (c ∷ cs)), ground arith)

module _ {W : Type 0} (ssh : Ssh W) (user_ca : PublicKey) (now : Time) (login : Login) where
  -- The login of a certificate: its serial and first principal, for whom it is valid.
  pub record LoginOf (cert : Option Certificate) : Type 0 where
    pub shown : Certificate
    pub others : List Text
    pub same : cert ≡ some shown
    pub first : shown.valid_principals ≡ login.principal ∷ others
    pub serial : shown.serial ≡ login.serial
    pub checked : check_user_cert ssh cert user_ca login.principal now ≡ ok tt

  module _ (c : Certificate) where
    check_login-LoginOf :
        (p : Text) (rest : List Text) (r : Result Unit)
        → c.valid_principals ≡ p ∷ rest
        → check_user_cert ssh (some c) user_ca p now ≡ r
        → check_login c p r ≡ some login
        → LoginOf (some c)
    check_login-LoginOf p rest (err x) e q l = cc
    check_login-LoginOf p rest (ok _) e q l =
        let p_is : p ≡ login.principal = ground arith in
        record {
          shown = c;
          others = rest;
          same = refl;
          first = subst (λ (x : Text). c.valid_principals ≡ x ∷ rest) p_is e;
          serial = ground arith;
          checked = subst (λ (x : Text). check_user_cert ssh (some c) user_ca x now ≡ ok tt) p_is q;
        }

    try_principals-LoginOf :
        (ps : List Text)
        → c.valid_principals ≡ ps
        → try_principals ssh c user_ca now ps ≡ some login
        → LoginOf (some c)
    try_principals-LoginOf [] e l = cc
    try_principals-LoginOf (p ∷ rest) e l = check_login-LoginOf p rest _ e refl l

  -- A login has the serial and the first principal of the certificate that was shown, and
  -- check_user_cert accepts the certificate for that principal at that time.
  pub public_key_handler-LoginOf :
      (cert : Option Certificate)
      → public_key_handler ssh cert user_ca now ≡ some login
      → LoginOf cert
  unfolding public_key_handler
  public_key_handler-LoginOf none h = cc
  public_key_handler-LoginOf (some c) h = try_principals-LoginOf c c.valid_principals refl h
