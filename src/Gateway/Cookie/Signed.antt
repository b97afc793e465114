-- ===== src/Gateway/Cookie/Signed.antt =====
-- What a signed cookie tells.
use kubepark.Prelude.{
  ℕ, ◌≡◌, refl, ap, subst, Bool-cases, inl, inr, Option, none, some, ◌++◌, ◌≤◌, ltb, arith,
}
use kubepark.Prelude.Text.{Text, codes, cut, eq_iff, eq_refl, ◌==◌}
use kubepark.Prelude.Text.Cut.{cut_sound, cut_dot}
use kubepark.Gateway.Cookie.{
  SessionClaims, Codec, signature_of, read_payload, sign_cookie, verify_parts, verify_cookie,
  identify, if_unexpired,
}

-- What encoding/json and base64.RawURLEncoding document: decoding undoes encoding, and the base64
-- alphabet has no dot.
pub record IsCodec (codec : Codec) : Type 0 where
  pub unmarshal_marshal : (c : SessionClaims) → codec.unmarshal (codec.marshal c) ≡ some c
  pub decode_encode : (t : Text) → codec.base64_decode (codec.base64_encode t) ≡ some t
  pub no_dot : (t : Text) → cut (codes ".") (codec.base64_encode t) ≡ none

module _ (codec : Codec) (hmac_key : Text) where
  -- A cookie that is signed is verified to its own claims, if the codec decodes what it encodes.
  pub verify_cookie-sign_cookie :
      IsCodec codec
      → (claims : SessionClaims)
      → verify_cookie codec hmac_key (sign_cookie codec hmac_key claims) ≡ some claims
  unfolding verify_cookie sign_cookie
  verify_cookie-sign_cookie laws claims =
      let b = codec.base64_encode (codec.marshal claims) in
      rw (
        cut_dot b (signature_of codec hmac_key b) (laws.no_dot (codec.marshal claims)),
        eq_refl (signature_of codec hmac_key b),
        laws.decode_encode (codec.marshal claims),
        laws.unmarshal_marshal claims,
      )

  -- The value is a payload and its signature, and the payload decodes to the claims.
  pub record IsSigned (value : Text) (claims : SessionClaims) : Type 0 where
    pub payload : Text
    pub signed : value ≡ payload ++ (codes "." ++ signature_of codec hmac_key payload)
    pub decoded : read_payload codec hmac_key (codec.base64_decode payload) ≡ some claims

  verify_parts-IsSigned :
      (value : Text) (claims : SessionClaims) (o : Option (Text × Text))
      → cut (codes ".") value ≡ o
      → verify_parts codec hmac_key o ≡ some claims
      → IsSigned value claims
  verify_parts-IsSigned value claims none e h = cc
  verify_parts-IsSigned value claims (some (b, sig)) e h =
      elim (Bool-cases (sig == signature_of codec hmac_key b)) [
        | inl same ↦ record {
          payload = b;
          signed =
              subst (λ (x : Text). value ≡ b ++ (codes "." ++ x)) ((eq_iff _ _).0 same)
                (cut_sound _ _ _ _ e);
          decoded = ground arith;
        }
        | inr forged ↦ cc
      ]

  -- A request is identified only by a cookie that carries the signature of its payload under the
  -- key, and only until the expiry in the payload.
  pub identify-IsSigned :
      (cookie : Option Text) (now : ℕ) (claims : SessionClaims)
      → identify codec hmac_key cookie now ≡ some claims
      → (value : Text) × (cookie ≡ some value) × IsSigned value claims × (now ≤ claims.expiry)
  unfolding identify verify_cookie
  identify-IsSigned none now claims h = cc
  identify-IsSigned (some value) now claims h =
      let (verified, fresh) = by_claims (verify_cookie codec hmac_key value) h in
      (value, refl, verify_parts-IsSigned value claims _ refl verified, fresh)
    where
      by_claims :
          (o : Option SessionClaims)
          → if_unexpired codec hmac_key now o ≡ some claims
          → (o ≡ some claims) × (now ≤ claims.expiry)
      by_claims none q = cc
      by_claims (some c) q = elim (Bool-cases (ltb c.expiry now)) [
        | inl late ↦ cc
        | inr fresh ↦
            let same : c ≡ claims = ground arith in
            (ap some same, subst (λ (x : SessionClaims). now ≤ x.expiry) same (ground arith))
      ]
