-- ===== src/Tests/Cookies.antt =====
-- A codec that decodes what it encodes, and the cookie theorems at it.
use kubepark.Prelude.{
  ◌≤◌, ◌≡◌, refl, ap, ◌∙◌, ◌+◌, ◌-◌, ◌++◌, Option, none, some, List, [], ◌∷◌, ℕ, zero, suc, arith,
}
use kubepark.Prelude.Text.{Text, codes, cut, cut_prefix, ◌==◌}
use kubepark.Gateway.Cookie.{SessionClaims, Codec, sign_cookie, verify_cookie, identify}
use kubepark.Gateway.Cookie.Signed.{IsCodec, IsSigned, verify_cookie-sign_cookie, identify-IsSigned}
use kubepark.Tests.World.{alice}

abbrev push : ℕ → List Text → List Text
push c [] = []
push c (t ∷ ts) = (c ∷ t) ∷ ts

-- Texts, each with a zero after it.
abbrev parts_of : Text → List Text
parts_of [] = []
parts_of (zero ∷ s) = [] ∷ parts_of s
parts_of (suc c ∷ s) = push c (parts_of s)

abbrev closed_off : Text → Text → Text
closed_off [] rest = zero ∷ rest
closed_off (c ∷ t) rest = suc c ∷ closed_off t rest

abbrev joined : List Text → Text
joined [] = []
joined (t ∷ ts) = closed_off t (joined ts)

abbrev shift : Text → Text
shift [] = []
shift (c ∷ s) = (c + 47) ∷ shift s

abbrev unshift : Text → Text
unshift [] = []
unshift (c ∷ s) = (c - 47) ∷ unshift s

abbrev claims_of : ℕ → List Text → Option SessionClaims
claims_of expiry [] = none
claims_of expiry (p ∷ gs) = some (record { principal = p; groups = gs; expiry = expiry })

abbrev read_claims : Text → Option SessionClaims
read_claims [] = none
read_claims (e ∷ s) = claims_of e (parts_of s)

abbrev pub codec : Codec
codec = record {
  marshal = λ c. c.expiry ∷ joined (c.principal ∷ c.groups);
  unmarshal = read_claims;
  base64_encode = shift;
  base64_decode = λ t. some (unshift t);
  hmac = λ key message. key ++ message;
}

parts_of-closed_off : (t rest : Text) → parts_of (closed_off t rest) ≡ t ∷ parts_of rest
parts_of-closed_off [] rest = refl
parts_of-closed_off (c ∷ t) rest = ap (push c) (parts_of-closed_off t rest)

parts_of-joined : (ts : List Text) → parts_of (joined ts) ≡ ts
parts_of-joined [] = refl
parts_of-joined (t ∷ ts) =
    parts_of-closed_off t (joined ts) ∙ ap (λ (us : List Text). t ∷ us) (parts_of-joined ts)

unshift-shift : (t : Text) → unshift (shift t) ≡ t
unshift-shift [] = refl
unshift-shift (c ∷ t) = ground (arith, unshift-shift t)

shift_no_dot : (t : Text) → cut (codes ".") (shift t) ≡ none
unfolding cut cut_prefix
shift_no_dot [] = refl
shift_no_dot (c ∷ t) = ground (arith, shift_no_dot t)

codec-IsCodec : IsCodec codec
codec-IsCodec = record {
  unmarshal_marshal = λ c. ap (claims_of c.expiry) (parts_of-joined (c.principal ∷ c.groups));
  decode_encode = λ t. ap some (unshift-shift t);
  no_dot = shift_no_dot;
}

abbrev pub claims : SessionClaims
claims = record { principal = alice; groups = codes "team" ∷ []; expiry = 500 }

verify_cookie-sign_cookie_example :
    verify_cookie codec (codes "key") (sign_cookie codec (codes "key") claims) ≡ some claims
verify_cookie-sign_cookie_example =
    verify_cookie-sign_cookie codec (codes "key") codec-IsCodec claims

abbrev cookie : Option Text
cookie = some (sign_cookie codec (codes "key") claims)

identified : identify codec (codes "key") cookie 400 ≡ some claims
unfolding identify verify_cookie sign_cookie cut cut_prefix ◌==◌
identified = refl

identify-IsSigned_example :
    (value : Text) × (cookie ≡ some value) × IsSigned codec (codes "key") value claims × (400 ≤ 500)
identify-IsSigned_example = identify-IsSigned codec (codes "key") cookie 400 claims identified
