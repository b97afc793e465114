-- ===== src/Agent/Server/Login.antt =====
-- When a server is built, and whom it lets in.
use kubepark.Prelude.{
  ℕ, suc, ◌+◌, ◌/◌, ◌^◌, ◌≤◌, ◌<◌, ◌≡◌, ◌≢◌, ◌↔◌, ◌⊎◌, inl, inr, refl, true, some, [], ◌∷◌, Result,
  ok, err, other, Error, arith,
}
use kubepark.Prelude.Int.{pos}
use kubepark.Prelude.Text.{Text, codes}
use kubepark.Api.Time.{Time, second}
use kubepark.Cluster.Os.{Os}
use kubepark.Cluster.Ssh.{PublicKey, PrivateKey, Certificate, Ssh}
use kubepark.SshCa.{unix_offset, sign_user_cert}
use kubepark.SshCa.Laws.{
  IsAccepted, IsSsh, check_user_cert_iff, check_user_cert-sign_user_cert, signed_fields,
}
use kubepark.Gateway.Jump.{public_key_handler}
use kubepark.Agent.Config.{Config}
use kubepark.Agent.Commands.{start_main_process}
use kubepark.Agent.Server.{
  AuthorizedKey, plain, certified, HostKeys, Server, owner_key_handler, new_server, is_ok,
  signer_with_cert, server_of,
}

module _ {W : Type 0} (ssh : Ssh W) where
  is_ok_iff : (r : Result Unit) → (is_ok r ≡ true) ↔ (r ≡ ok tt)
  is_ok_iff (ok tt) = (λ h. refl, λ h. refl)
  is_ok_iff (err e) = ground arith

  -- The agent lets in just the certificates that check_user_cert accepts for its owner; a key that
  -- is no certificate is refused.
  pub owner_key_handler_iff :
      (user_ca : PublicKey) (owner : Text) (key : AuthorizedKey) (now : Time)
      → (owner_key_handler ssh user_ca owner key now ≡ true) ↔ (
          (cert : Certificate) × (key ≡ certified cert)
          × IsAccepted ssh user_ca owner now (some cert))
  unfolding owner_key_handler
  owner_key_handler_iff user_ca owner (plain key) now =
      (λ h. cc, λ h. let (cert, same, accepted) = h in cc)
  owner_key_handler_iff user_ca owner (certified cert) now = (
    λ h.
        (cert, refl, (check_user_cert_iff ssh user_ca owner now (some cert)).0 ((is_ok_iff _).0 h)),
    λ h.
        let (shown, same, is_accepted) = h in
        let accepted = (check_user_cert_iff ssh user_ca owner now (some shown)).1 is_accepted in
        (is_ok_iff _).1 (ground (arith, accepted, same)),
  )

  module _ {Signer : Type 0} (keys : HostKeys Signer) (os : Os W) (cfg : Config) where
    abbrev pub Once : W → Type 0
    Once w =
        ((e : Error) × (new_server ssh keys os cfg w ≡ (err e, w)))
        ⊎ ((server : Server Signer) × (user_ca : PublicKey) × (new_server ssh keys os cfg w
              ≡ (ok server, start_main_process os cfg w))
            × (cfg.owner ≢ [])
            × (ssh.parse_authorized_key cfg.user_ca_authorized ≡ ok user_ca)
            × (server.public_key_handler ≡ owner_key_handler ssh user_ca cfg.owner))

    signer-world :
        (w : W) → (signer_with_cert ssh keys cfg.host_key_pem cfg.host_cert_authorized w).1 ≡ w
    unfolding signer_with_cert
    signer-world w = ground arith

    by_parts :
        (w : W)
        → (owner : Text) → cfg.owner ≡ owner
        → (signer : Result Signer)
        → signer_with_cert ssh keys cfg.host_key_pem cfg.host_cert_authorized w ≡ (signer, w)
        → (parsed : Result PublicKey) → ssh.parse_authorized_key cfg.user_ca_authorized ≡ parsed
        → Once w
    unfolding new_server
    by_parts w [] o signer s parsed p =
        inl (other (codes "agent requires an owner principal"), rw o refl)
    by_parts w (c ∷ cs) o (err e) s parsed p = inl (e, rw o (rw s refl))
    by_parts w (c ∷ cs) o (ok signer) s (err e) p = inl (e, rw o (rw s (rw p refl)))
    by_parts w (c ∷ cs) o (ok signer) s (ok user_ca) p = inr (
      server_of ssh keys cfg signer user_ca,
      user_ca,
      rw o (rw s (rw p refl)),
      λ none_is. cc,
      p,
      refl,
    )

    -- A server is built only for an owner that is not empty; it lets in by the authority in the
    -- configuration and that owner, and the main process is started just then: an error leaves the
    -- world as it was.
    pub new_server-Once : (w : W) → Once w
    new_server-Once w =
        by_parts w _ refl _
          (λ i. (
            (signer_with_cert ssh keys cfg.host_key_pem cfg.host_cert_authorized w).0,
            signer-world w i,
          ))
          _ refl

module _ {W : Type 0} (ssh : Ssh W) (public_of : PrivateKey → PublicKey)
    (laws : IsSsh ssh public_of) where
  -- A certificate that is signed for the owner of a sandbox opens both doors while its lifetime
  -- lasts: the gateway logs its principal in under its serial, and the agent in the sandbox, which
  -- knows only the public key, lets it in.
  pub sign_user_cert-both_doors :
      (ca : PrivateKey) (key : PublicKey) (owner : Text) (n : ℕ) (now later : Time) (w : W)
      (cert : Certificate)
      → (sign_user_cert ssh ca key owner (pos (suc n)) now w).0 ≡ ok cert
      → unix_offset + 60 ≤ now / second
      → now ≤ later
      → later / second < (now + suc n) / second
      → (now + suc n) / second < 2 ^ 63
      → (public_key_handler ssh (some cert) (public_of ca) later
          ≡ some (record { principal = owner; serial = cert.serial }))
        × (owner_key_handler ssh (public_of ca) owner (certified cert) later ≡ true)
  unfolding public_key_handler owner_key_handler
  sign_user_cert-both_doors ca key owner n now later w cert h epoch order valid fits =
      let accepted =
        check_user_cert-sign_user_cert ssh public_of laws ca key owner n now later w cert h epoch
          order valid fits in
      let (given, for_user, names, from, until, authority, genuine) =
        signed_fields ssh public_of laws ca key owner n now w cert h in
      (ground (arith, names, accepted), rw accepted refl)
