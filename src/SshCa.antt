-- ===== src/SshCa.antt =====
-- internal/sshca/sshca.go: the certificate authority that the gateway and the agent share.
pub mod Laws
use kubepark.Prelude.{
  ℕ, suc, ◌-◌, ◌*◌, ◌/◌, ◌%◌, ◌+◌, ◌^◌, Bool, true, false, ◌&&◌, Option, none, some, List, [], ◌∷◌,
  if◌then◌else◌, leb, Exec, Result, ok, err, other, pure, raise, lift, ◌>>=◌,
}
use kubepark.Prelude.Int.{pos, negsuc}
use kubepark.Prelude.Text.{Text, codes, ◌==◌}
use kubepark.Api.Time.{Time, Duration, second}
use kubepark.Cluster.Ssh.{PublicKey, PrivateKey, Certificate, CertType, user_cert, host_cert, Ssh}

pub record KeyPair : Type 0 where
  pub private_pem : Text
  pub public_authorized : Text

-- t.Unix() of a time after 1970, as a uint64. The zero Time is 62135596800 seconds before that.
abbrev pub unix_offset : ℕ
unix_offset = 62135596800

abbrev pub unix : Time → ℕ
unix t = (t / second + 2 ^ 64 - unix_offset) % 2 ^ 64

-- ssh.CertTimeInfinity
abbrev pub cert_time_infinity : ℕ
cert_time_infinity = 2 ^ 64 - 1

unfoldable pub valid_before : Time → Duration → ℕ
valid_before now (pos ℕ.zero) = cert_time_infinity
valid_before now (pos (suc n)) = unix (now + suc n)
valid_before now (negsuc n) = cert_time_infinity

-- now.Add(-time.Minute).Unix()
abbrev pub valid_after : Time → ℕ
valid_after now = (now / second + 2 ^ 64 - unix_offset - 60) % 2 ^ 64

abbrev pub keys_equal : Option PublicKey → PublicKey → Bool
keys_equal none b = false
keys_equal (some a) b = a == b

abbrev unsigned :
    PublicKey → ℕ → CertType → Text → List Text → List Text → Time → Duration → Certificate
unsigned key serial type key_id principals extensions now valid_for = record {
  key = key;
  serial = serial;
  cert_type = type;
  key_id = key_id;
  valid_principals = principals;
  valid_after = valid_after now;
  valid_before = valid_before now valid_for;
  extensions = extensions;
  signature_key = none;
  signature = [];
}

abbrev user_extensions : List Text
user_extensions =
    codes "permit-pty" ∷ codes "permit-port-forwarding" ∷ codes "permit-agent-forwarding" ∷ []

module _ {W : Type 0} (ssh : Ssh W) where
  unfoldable pub generate_key_pair : Text → Exec W KeyPair
  unfolding ◌>>=◌ lift
  generate_key_pair comment = do
    keys ← ssh.generate_key
    pem ← lift (ssh.marshal_private_key keys.1 comment)
    public ← lift (ssh.new_public_key keys.0)
    pure (record { private_pem = pem; public_authorized = ssh.marshal_authorized_key public })

  unfoldable pub new_serial : Exec W ℕ
  new_serial = ssh.random_uint64

  -- `principals[0]` is the first of a list that the callers never leave empty.
  unfoldable pub sign_host_cert :
      PrivateKey → PublicKey → Text → List Text → Duration → Time → Exec W Certificate
  unfolding ◌>>=◌ new_serial valid_before
  sign_host_cert ca host_pub principal more valid_for now = do
    serial ← new_serial
    ssh.sign_cert ca
        (unsigned host_pub serial host_cert principal (principal ∷ more) [] now valid_for)

  abbrev sign_named : PrivateKey → PublicKey → Text → Duration → Time → Exec W Certificate
  sign_named ca user_pub principal valid_for now = do
    serial ← new_serial
    ssh.sign_cert ca (
        unsigned user_pub serial user_cert principal (principal ∷ []) user_extensions now valid_for)

  unfoldable pub sign_user_cert :
      PrivateKey → PublicKey → Text → Duration → Time → Exec W Certificate
  unfolding ◌>>=◌ new_serial valid_before ◌==◌
  sign_user_cert ca user_pub [] valid_for now =
      raise (other (codes "refusing to sign a certificate without a principal"))
  sign_user_cert ca user_pub (c ∷ cs) valid_for now = sign_named ca user_pub (c ∷ cs) valid_for now

  abbrev check_authority : Certificate → PublicKey → Text → Time → Result Unit
  check_authority cert ca_pub principal now =
      if keys_equal cert.signature_key ca_pub
      then ssh.check_cert (λ auth. auth == ca_pub) now principal cert
      else err (other (codes "certificate not signed by the expected CA"))

  abbrev check_principals : List Text → Result Unit → Result Unit
  check_principals [] next = err (other (codes "certificate has no principals"))
  check_principals (_ ∷ _) next = next

  abbrev check_type : CertType → Result Unit → Result Unit
  check_type host_cert next = err (other (codes "certificate is not a user certificate"))
  check_type user_cert next = next

  unfoldable pub check_user_cert : Option Certificate → PublicKey → Text → Time → Result Unit
  check_user_cert none ca_pub principal now = err (other (codes "no certificate presented"))
  check_user_cert (some cert) ca_pub principal now =
      check_type cert.cert_type
        (check_principals cert.valid_principals (check_authority cert ca_pub principal now))
