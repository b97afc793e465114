-- ===== src/Cluster/Ssh.antt =====
-- golang.org/x/crypto/ssh and crypto/ed25519, as the program calls them. A public key is its wire
-- encoding, so that two keys are equal exactly when their encodings are.
use kubepark.Prelude.{ℕ, Bool, Option, List, Exec, Result}
use kubepark.Prelude.Text.{Text}
use kubepark.Api.Time.{Time}

abbrev pub PublicKey : Type 0
PublicKey = Text

abbrev pub PrivateKey : Type 0
PrivateKey = Text

pub data CertType : Type 0 where
  user_cert host_cert : CertType

-- ssh.Certificate; the times are seconds of a uint64, and `signature` is empty before signing.
pub record Certificate : Type 0 where
  pub key : PublicKey
  pub serial : ℕ
  pub cert_type : CertType
  pub key_id : Text
  pub valid_principals : List Text
  pub valid_after : ℕ
  pub valid_before : ℕ
  pub extensions : List Text
  pub signature_key : Option PublicKey
  pub signature : Text

pub record Ssh (W : Type 0) : Type 0 where
  -- ed25519.GenerateKey with crypto/rand
  pub generate_key : Exec W (PublicKey × PrivateKey)
  -- ssh.MarshalPrivateKey and pem.EncodeToMemory
  pub marshal_private_key : PrivateKey → Text → Result Text
  pub new_public_key : PublicKey → Result PublicKey
  pub marshal_authorized_key : PublicKey → Text
  pub marshal_certificate : Certificate → Text
  pub parse_private_key : Text → Result PrivateKey
  pub parse_authorized_key : Text → Result PublicKey
  -- rand.Read of crypto/rand
  pub random_bytes : ℕ → Exec W Text
  -- eight such bytes, read big-endian
  pub random_uint64 : Exec W ℕ
  -- (*Certificate).SignCert
  pub sign_cert : PrivateKey → Certificate → Exec W Certificate
  -- (*CertChecker).CheckCert with the given IsUserAuthority and Clock
  pub check_cert : (PublicKey → Bool) → Time → Text → Certificate → Result Unit
