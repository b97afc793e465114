-- ===== src/SshCa/Laws.antt =====
-- Which user certificates are accepted, and that those that are signed are.
use kubepark.Prelude.{
  ℕ, suc, ◌+◌, ◌/◌, ◌^◌, ◌≤◌, ◌<◌, ◌≡◌, ◌≢◌, ◌↔◌, refl, subst, sym, ap, ◌∙◌, Bool, true, Option,
  none, some, List, [], ◌∷◌, Result, ok, err, arith,
}
use kubepark.Prelude.Int.{pos}
use kubepark.Prelude.Text.{Text, contains, eq_iff, eq_refl, ◌==◌}
use kubepark.Api.Time.{Time, second}
use kubepark.Cluster.Ssh.{PublicKey, PrivateKey, Certificate, CertType, user_cert, host_cert, Ssh}
use kubepark.SshCa.{
  unix, unix_offset, valid_before, valid_after, keys_equal, sign_user_cert, check_user_cert,
  unsigned, user_extensions, new_serial, check_type, check_principals, check_authority,
}

module _ {W : Type 0} (ssh : Ssh W) (ca_pub : PublicKey) (principal : Text) (now : Time) where
  -- A user certificate of the authority that names some principal and that the checker of
  -- crypto/ssh accepts for this one.
  pub record IsAccepted (cert : Option Certificate) : Type 0 where
    pub shown : Certificate
    pub same : cert ≡ some shown
    pub for_user : shown.cert_type ≡ user_cert
    pub named : shown.valid_principals ≢ []
    pub authority : shown.signature_key ≡ some ca_pub
    pub checked : ssh.check_cert (λ auth. auth == ca_pub) now principal shown ≡ ok tt

  keys_equal_iff : (k : Option PublicKey) → (keys_equal k ca_pub ≡ true) ↔ (k ≡ some ca_pub)
  keys_equal_iff none = ground arith
  keys_equal_iff (some k) = ground (arith, eq_iff k ca_pub)

  check_type_lem :
      (t : CertType) (r : Result Unit)
      → (check_type ssh t r ≡ ok tt) ↔ ((t ≡ user_cert) × (r ≡ ok tt))
  check_type_lem user_cert r = ground arith
  check_type_lem host_cert r = ground arith

  check_principals_lem :
      (ps : List Text) (r : Result Unit)
      → (check_principals ssh ps r ≡ ok tt) ↔ ((ps ≢ []) × (r ≡ ok tt))
  check_principals_lem [] r = ground arith
  check_principals_lem (p ∷ ps) r = (λ h. (λ e. cc, h), λ h. h.1)

  check_authority_lem :
      (c : Certificate)
      → (check_authority ssh c ca_pub principal now ≡ ok tt) ↔ (
          (c.signature_key ≡ some ca_pub)
          × (ssh.check_cert (λ auth. auth == ca_pub) now principal c ≡ ok tt))
  check_authority_lem c = ground (arith, keys_equal_iff c.signature_key)

  -- check_user_cert accepts just the user certificates that name a principal, are signed by the
  -- given authority, and pass the check of crypto/ssh for the principal at the time.
  pub check_user_cert_iff :
      (cert : Option Certificate)
      → (check_user_cert ssh cert ca_pub principal now ≡ ok tt) ↔ IsAccepted cert
  unfolding check_user_cert
  check_user_cert_iff cert = (to cert, from cert)
    where
      to :
          (o : Option Certificate)
          → check_user_cert ssh o ca_pub principal now ≡ ok tt
          → IsAccepted o
      to none h = cc
      to (some c) h =
          let (for_user, rest) = (check_type_lem c.cert_type _).0 h in
          let (named, rest') = (check_principals_lem c.valid_principals _).0 rest in
          let (authority, checked) = (check_authority_lem c).0 rest' in
          record {
            shown = c;
            same = refl;
            for_user = for_user;
            named = named;
            authority = authority;
            checked = checked;
          }

      from :
          (o : Option Certificate)
          → IsAccepted o
          → check_user_cert ssh o ca_pub principal now ≡ ok tt
      from o h =
          subst (λ (x : Option Certificate). check_user_cert ssh x ca_pub principal now ≡ ok tt)
            (sym h.same)
            ((check_type_lem h.shown.cert_type _).1 (
              h.for_user,
              (check_principals_lem h.shown.valid_principals _).1
                  (h.named, (check_authority_lem h.shown).1 (h.authority, h.checked)),
            ))

-- What crypto/ssh documents: SignCert sets the authority's key and the signature and leaves the
-- other fields, and CheckCert accepts a signed certificate of an authority for a principal that it
-- names while it is valid, for times that fit an int64.
pub record IsSsh {W : Type 0} (ssh : Ssh W) (public_of : PrivateKey → PublicKey) : Type 1 where
  pub IsGenuine : Certificate → Type 0
  pub signs :
      (ca : PrivateKey) (c d : Certificate) (w : W)
      → (ssh.sign_cert ca c w).0 ≡ ok d
      → (d ≡ record c { signature_key = some (public_of ca); signature = d.signature })
        × IsGenuine d
  pub accepts :
      (d : Certificate) (k : PublicKey) (is_authority : PublicKey → Bool) (principal : Text)
      (now : Time)
      → IsGenuine d
      → d.signature_key ≡ some k
      → is_authority k ≡ true
      → contains d.valid_principals principal ≡ true
      → d.valid_after ≤ unix now
      → unix now < d.valid_before
      → d.valid_before < 2 ^ 63
      → ssh.check_cert is_authority now principal d ≡ ok tt

module _ {W : Type 0} (ssh : Ssh W) (public_of : PrivateKey → PublicKey)
    (laws : IsSsh ssh public_of) where
  pub signed_fields :
      (ca : PrivateKey) (key : PublicKey) (principal : Text) (n : ℕ) (now : Time) (w : W)
      (cert : Certificate)
      → (sign_user_cert ssh ca key principal (pos (suc n)) now w).0 ≡ ok cert
      → (principal ≢ [])
        × (cert.cert_type ≡ user_cert)
        × (cert.valid_principals ≡ principal ∷ [])
        × (cert.valid_after ≡ valid_after now)
        × (cert.valid_before ≡ unix (now + suc n))
        × (cert.signature_key ≡ some (public_of ca))
        × laws.IsGenuine cert
  signed_fields ca key [] n now w cert h = unfold sign_user_cert in cc
  signed_fields ca key (c ∷ cs) n now w cert h = by_serial (ssh.random_uint64 w) refl
    where
      by_serial :
          (r : Result ℕ × W)
          → ssh.random_uint64 w ≡ r
          → ((c ∷ cs) ≢ [])
            × (cert.cert_type ≡ user_cert)
            × (cert.valid_principals ≡ (c ∷ cs) ∷ [])
            × (cert.valid_after ≡ valid_after now)
            × (cert.valid_before ≡ unix (now + suc n))
            × (cert.signature_key ≡ some (public_of ca))
            × laws.IsGenuine cert
      by_serial (err e, w') q = unfold sign_user_cert new_serial in cc
      by_serial (ok serial, w') q =
          let body =
            unsigned key serial user_cert (c ∷ cs) ((c ∷ cs) ∷ []) user_extensions now
              (pos (suc n)) in
          let made : (ssh.sign_cert ca body w').0 ≡ ok cert =
            unfold sign_user_cert new_serial in ground (arith, q, h) in
          let (same, genuine) = laws.signs ca body cert w' made in
          (
            λ e. cc,
            ap (λ (d : Certificate). d.cert_type) same,
            ap (λ (d : Certificate). d.valid_principals) same,
            ap (λ (d : Certificate). d.valid_after) same,
            ap (λ (d : Certificate). d.valid_before) same ∙ (unfold valid_before in refl),
            ap (λ (d : Certificate). d.signature_key) same,
            genuine,
          )

  -- A user certificate that was signed for a positive lifetime, at a time at least a minute after
  -- 1970, is accepted for its principal under the authority's public key at every later time whose
  -- second is before the end of the lifetime, if that end fits an int64 of seconds.
  pub check_user_cert-sign_user_cert :
      (ca : PrivateKey) (key : PublicKey) (principal : Text) (n : ℕ) (now later : Time) (w : W)
      (cert : Certificate)
      → (sign_user_cert ssh ca key principal (pos (suc n)) now w).0 ≡ ok cert
      → unix_offset + 60 ≤ now / second
      → now ≤ later
      → later / second < (now + suc n) / second
      → (now + suc n) / second < 2 ^ 63
      → check_user_cert ssh (some cert) (public_of ca) principal later ≡ ok tt
  check_user_cert-sign_user_cert ca key principal n now later w cert h epoch order valid fits =
      let (given, for_user, names, from, until, authority, genuine) =
        signed_fields ca key principal n now w cert h in
      let listed : contains cert.valid_principals principal ≡ true =
        subst (λ (ps : List Text). contains ps principal ≡ true) (sym names)
          (unfold contains in ground (arith, eq_refl principal)) in
      let checked =
        laws.accepts cert (public_of ca) (λ auth. auth == public_of ca) principal later genuine
          authority (eq_refl (public_of ca)) listed (ground (arith, from)) (ground (arith, until))
          (ground (arith, until)) in
      (check_user_cert_iff ssh (public_of ca) principal later (some cert)).1 (record {
        shown = cert;
        same = refl;
        for_user = for_user;
        named = λ e. cc;
        authority = authority;
        checked = checked;
      })
