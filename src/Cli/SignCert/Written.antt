-- ===== src/Cli/SignCert/Written.antt =====
-- Which certificate is written.
use kubepark.Prelude.{◌≡◌, ◌≢◌, refl, ap, some, [], ◌∷◌, Exec, Result, ok, lift}
use kubepark.Prelude.Returns.{bind_returns}
use kubepark.Prelude.Text.{Text, codes}
use kubepark.Api.Time.{Time, Duration}
use kubepark.Api.Core.{Secret}
use kubepark.Cluster.{Resource}
use kubepark.Cluster.Os.{Os}
use kubepark.Cluster.Ssh.{Ssh}
use kubepark.Controller.HostKey.{entry}
use kubepark.Gateway.Sign.{Signer, new_signer, sign}
use kubepark.Cli.Keys.{Paths}
use kubepark.Cli.Keys.Kept.{IsFileSystem}
use kubepark.Cli.SignCert.{in_steps, for_principal, run_sign_cert}

module _ {W : Type 0} (os : Os W) (paths : Paths W) (ssh : Ssh W) (now : W → Time × W)
    (fs : IsFileSystem os paths) (principal : Text) (ttl : Duration) (w' : W) where
  -- The file at `out` is what the signer of a secret's authority makes of the client's public key.
  pub record Written : Type 0 where
    pub out : Text
    pub secret : Secret
    pub signer : Signer
    pub of_authority : new_signer ssh (entry (codes "user-ca.key") secret.entries) ttl ≡ ok signer
    pub public_path : Text
    pub public : Text
    pub read_at : W
    pub client_key : fs.content read_at public_path ≡ some public
    pub signed_at : W
    pub cert : Text
    pub signed : (sign ssh now signer public principal signed_at).0 ≡ ok cert
    pub written : fs.content w' out ≡ some cert

  in_steps-Written :
      (connect : Exec W (Resource W Secret)) (namespace : Text) (w : W)
      → in_steps os paths ssh now connect principal namespace ttl w ≡ (ok tt, w')
      → Written
  in_steps-Written connect namespace w h =
      let (keys, w1, e1, h1) = bind_returns _ _ w w' tt h in
      let (public, w2, e2, h2) = bind_returns _ _ w1 w' tt h1 in
      let (secrets, w3, e3, h3) = bind_returns _ _ w2 w' tt h2 in
      let (secret, w4, e4, h4) = bind_returns _ _ w3 w' tt h3 in
      let (signer, w5, e5, h5) = bind_returns _ _ w4 w' tt h4 in
      let (cert, w6, e6, h6) = bind_returns _ _ w5 w' tt h5 in
      let (out, w7, e7, h7) = bind_returns _ _ w6 w' tt h6 in
      record {
        out = out;
        secret = secret;
        signer = signer;
        of_authority = unfold lift in ap (λ (x : Result Signer × W). x.0) e5;
        public_path = keys.1;
        public = public;
        read_at = w1;
        client_key = (fs.read keys.1 public w1 w2 e2).0;
        signed_at = w5;
        cert = cert;
        signed = ap (λ (x : Result Text × W). x.0) e6;
        written = fs.written out cert 0o644 w7 w' h7;
      }

  -- `admin sign-cert` succeeds only for a principal that is not empty, and leaves in a file the
  -- certificate that the signer of the authority in the secret makes of the client's public key
  -- for that principal.
  pub run_sign_cert-Written :
      (connect : Exec W (Resource W Secret)) (namespace : Text) (w : W)
      → run_sign_cert os paths ssh now connect principal namespace ttl w ≡ (ok tt, w')
      → (principal ≢ []) × Written
  unfolding run_sign_cert
  run_sign_cert-Written connect namespace w h = by_principal principal refl h
    where
      by_principal :
          (p : Text)
          → principal ≡ p
          → for_principal os paths ssh now connect p namespace ttl w ≡ (ok tt, w')
          → (principal ≢ []) × Written
      by_principal [] e k = let failed = ap (λ (x : Result (Unit {0}) × W). x.0) k in cc
      by_principal (c ∷ cs) e k = (λ none_is. cc, in_steps-Written connect namespace w (rw e k))
