-- ===== src/Controller/HostKey/Issued.antt =====
-- What `reconcileHostKey` sends to the API server for a sandbox.
use kubepark.Prelude.{
  ◌≡◌, ◌⊎◌, inl, inr, refl, sym, ap, ◌∙◌, some, [], ◌∷◌, ◌++◌, Result, ok, err, not_found,
  already_exists, other, lift, ignore_already_exists, pure, arith,
}
use kubepark.Prelude.Returns.{bind_returns}
use kubepark.Prelude.Text.{Text, codes}
use kubepark.Api.Time.{Time}
use kubepark.Api.Meta.{Key, ObjectMeta, key_of}
use kubepark.Api.Core.{Secret}
use kubepark.Api.Sandbox.{Sandbox}
use kubepark.Cluster.Ssh.{PublicKey, PrivateKey, Certificate, host_cert, Ssh}
use kubepark.SshCa.{KeyPair, generate_key_pair, new_serial, sign_host_cert}
use kubepark.SshCa.Laws.{IsSsh}
use kubepark.Controller.Env.{Env, operator_namespace, wall_clock}
use kubepark.Controller.HostKey.{
  ensure_ca_secret, create_host_key, entry, host_key_secret, host_cert_validity, first_principal,
}
use kubepark.Controller.HostKey.Stable.{IsSecretStore}

-- What crypto/ssh documents of a key and its texts: a private key that is marshalled is parsed
-- again, a generated pair belongs together, and a public key is read back from its line.
pub record IsKeyTexts {W : Type 0} (ssh : Ssh W) (public_of : PrivateKey → PublicKey) : Type 0 where
  pub parsed :
      (k : PrivateKey) (comment pem : Text)
      → ssh.marshal_private_key k comment ≡ ok pem
      → ssh.parse_private_key pem ≡ ok k
  pub generated :
      (w w' : W) (public : PublicKey) (private : PrivateKey)
      → ssh.generate_key w ≡ (ok (public, private), w')
      → public ≡ public_of private
  pub wire : (k p : PublicKey) → ssh.new_public_key k ≡ ok p → p ≡ k
  pub authorized : (k : PublicKey) → ssh.parse_authorized_key (ssh.marshal_authorized_key k) ≡ ok k

module _ {W : Type 0} (env : Env W) (public_of : PrivateKey → PublicKey)
    (laws : IsSsh env.ssh public_of) (texts : IsKeyTexts env.ssh public_of) where
  -- A new pair of texts is read as a private key and its public half.
  generate_key_pair-parsed :
      (comment : Text) (w w' : W) (key : KeyPair)
      → generate_key_pair env.ssh comment w ≡ (ok key, w')
      → (k : PrivateKey) × (env.ssh.parse_private_key key.private_pem ≡ ok k)
        × (env.ssh.parse_authorized_key key.public_authorized ≡ ok (public_of k))
  unfolding generate_key_pair lift pure
  generate_key_pair-parsed comment w w' key h =
      let (pair, w1, e1, h1) = bind_returns env.ssh.generate_key _ w w' key h in
      let (pem, w2, e2, h2) =
        bind_returns (lift (env.ssh.marshal_private_key pair.1 comment)) _ w1 w' key h1 in
      let (public, w3, e3, h3) =
        bind_returns (lift (env.ssh.new_public_key pair.0)) _ w2 w' key h2 in
      let marshalled : env.ssh.marshal_private_key pair.1 comment ≡ ok pem = ap (λ x. x.0) e2 in
      let wired : env.ssh.new_public_key pair.0 ≡ ok public = ap (λ x. x.0) e3 in
      let same : record {
        private_pem = pem;
        public_authorized = env.ssh.marshal_authorized_key public;
      }
          ≡ key =
        ground (arith, h3) in
      let is_public : public ≡ public_of pair.1 =
        texts.wire pair.0 public wired ∙ texts.generated w w1 pair.0 pair.1 e1 in
      (
        pair.1,
        ap (λ (x : KeyPair). env.ssh.parse_private_key x.private_pem) (sym same)
            ∙ texts.parsed pair.1 comment pem marshalled,
        ap (λ (x : KeyPair). env.ssh.parse_authorized_key x.public_authorized) (sym same)
            ∙ texts.authorized public
            ∙ ap (λ (x : PublicKey). ok x) is_public,
      )

  -- A host certificate has what was asked for, and the authority's key.
  sign_host_cert-signed :
      (ca : PrivateKey) (public : PublicKey) (principal : Text) (now : Time) (w w' : W)
      (cert : Certificate)
      → sign_host_cert env.ssh ca public principal [] host_cert_validity now w ≡ (ok cert, w')
      → (cert.key ≡ public)
        × (cert.cert_type ≡ host_cert)
        × (cert.valid_principals ≡ principal ∷ [])
        × (cert.signature_key ≡ some (public_of ca))
  unfolding sign_host_cert
  sign_host_cert-signed ca public principal now w w' cert h =
      let (serial, w1, e1, h1) = bind_returns (new_serial env.ssh) _ w w' cert h in
      let (same, genuine) = laws.signs ca _ cert w1 (ap (λ x. x.0) h1) in
      (
        ap (λ (d : Certificate). d.key) same,
        ap (λ (d : Certificate). d.cert_type) same,
        ap (λ (d : Certificate). d.valid_principals) same,
        ap (λ (d : Certificate). d.signature_key) same,
      )

  -- What was sent to the API server, starting from `w`: the secret with a host certificate that the host
  -- authority in the CA secret signed for the sandbox's name.
  pub record Made (sb : Sandbox) (w w' : W) : Type 0 where
    pub after : W
    pub ca : Secret
    pub ensured : ensure_ca_secret env (operator_namespace env) w ≡ (ok ca, after)
    pub host_ca : PrivateKey
    pub has_host_ca :
        env.ssh.parse_private_key (entry (codes "host-ca.key") ca.entries) ≡ ok host_ca
    pub key : KeyPair
    pub private : PrivateKey
    pub has_private : env.ssh.parse_private_key key.private_pem ≡ ok private
    pub cert : Certificate
    pub for_key : cert.key ≡ public_of private
    pub for_host : cert.cert_type ≡ host_cert
    pub names : cert.valid_principals ≡ first_principal env sb ∷ []
    pub authority : cert.signature_key ≡ some (public_of host_ca)
    pub owned : ObjectMeta
    pub is_owned :
        env.lib.set_controller_reference sb.meta
          (host_key_secret sb key
            (env.ssh.marshal_certificate cert)
            (entry (codes "user-ca.pub") ca.entries)).meta
        ≡ ok owned
    pub last : W
    pub created :
        ignore_already_exists
          (env.api.secrets.create
            (record (host_key_secret sb key
              (env.ssh.marshal_certificate cert)
              (entry (codes "user-ca.pub") ca.entries)) { meta = owned }))
          last
        ≡ (ok tt, w')

  pub create_host_key-Made :
      (sb : Sandbox) (w w' : W) → create_host_key env sb w ≡ (ok tt, w') → Made sb w w'
  unfolding lift
  create_host_key-Made sb w w' h =
      let (ca, w1, e1, h1) =
        bind_returns (ensure_ca_secret env (operator_namespace env)) _ w w' tt h in
      let (host_ca, w2, e2, h2) =
        bind_returns (lift (env.ssh.parse_private_key (entry (codes "host-ca.key") ca.entries))) _
          w1 w' tt h1 in
      let (key, w3, e3, h3) =
        bind_returns (generate_key_pair env.ssh (codes "kubepark-host-" ++ sb.meta.name)) _ w2 w' tt
          h2 in
      let (public, w4, e4, h4) =
        bind_returns (lift (env.ssh.parse_authorized_key key.public_authorized)) _ w3 w' tt h3 in
      let (now, w5, e5, h5) = bind_returns (wall_clock env) _ w4 w' tt h4 in
      let (cert, w6, e6, h6) =
        bind_returns
          (sign_host_cert env.ssh host_ca public (first_principal env sb) [] host_cert_validity now)
          _ w5 w' tt h5 in
      let (owned, w7, e7, h7) =
        bind_returns
          (lift (
            env.lib.set_controller_reference sb.meta
              (host_key_secret sb key (env.ssh.marshal_certificate cert)
                (entry (codes "user-ca.pub") ca.entries)).meta))
          _ w6 w' tt h6 in
      let (private, has_private, has_public) = generate_key_pair-parsed _ w2 w3 key e3 in
      let (for_key, for_host, names, authority) =
        sign_host_cert-signed host_ca public _ now w5 w6 cert e6 in
      record {
        after = w1;
        ca = ca;
        ensured = e1;
        host_ca = host_ca;
        has_host_ca = ap (λ x. x.0) e2;
        key = key;
        private = private;
        has_private = has_private;
        cert = cert;
        for_key = for_key ∙ ground (arith, has_public, ap (λ x. x.0) e4);
        for_host = for_host;
        names = names;
        authority = authority;
        owned = owned;
        is_owned = ap (λ x. x.0) e7;
        last = w7;
        created = h7;
      }

-- What apimachinery documents of an owner reference: it leaves the name and the namespace.
pub record IsOwnerReference {W : Type 0} (env : Env W) : Type 0 where
  pub keeps_key :
      (owner m m' : ObjectMeta)
      → env.lib.set_controller_reference owner m ≡ ok m'
      → key_of m' ≡ key_of m

-- The secret of this name was made by another process after it was looked for: the Create, which is
-- the last call, finds it there.
pub record Lost {W : Type 0} (env : Env W) (k : Key) (w' : W) : Type 0 where
  pub sent : Secret
  pub last : W
  pub same_key : key_of sent.meta ≡ k
  pub finds_it : env.api.secrets.create sent last ≡ (err already_exists, w')

pub created-stored :
    {W : Type 0}
    → (env : Env W) (store : IsSecretStore env.api) (s : Secret) (k : Key) (u w' : W)
    → key_of s.meta ≡ k
    → ignore_already_exists (env.api.secrets.create s) u ≡ (ok tt, w')
    → (store.stored w' k ≡ some s) ⊎ Lost env k w'
unfolding ignore_already_exists
created-stored {W} env store s k u w' keyed h = by_answer (env.api.secrets.create s u) refl
  where
    by_answer :
        (r : Result Unit × W)
        → env.api.secrets.create s u ≡ r
        → (store.stored w' k ≡ some s) ⊎ Lost env k w'
    by_answer (ok tt, v) e =
        let same : v ≡ w' = ground (arith, h, e) in
        inl (
          ap (store.stored w') (sym keyed)
          ∙ ap (λ x. store.stored x (key_of s.meta)) (sym same)
          ∙ store.created s u v e)
    by_answer (err already_exists, v) e =
        let same : v ≡ w' = ground (arith, h, e) in
        inr (record {
          sent = s;
          last = u;
          same_key = keyed;
          finds_it = e ∙ (λ i. (err already_exists, same i));
        })
    by_answer (err not_found, v) e = ground (arith, h, e)
    by_answer (err (other t), v) e = ground (arith, h, e)
