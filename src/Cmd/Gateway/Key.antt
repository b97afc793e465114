-- ===== src/Cmd/Gateway/Key.antt =====
-- Every gateway process presents the same host key.
use kubepark.Prelude.{
  ◌≡◌, ap, Result, ok, err, not_found, already_exists, other, Exec, pure, raise, attempt, arith,
}
use kubepark.Prelude.Returns.{bind_returns}
use kubepark.Prelude.Text.{Text, ◌==◌}
use kubepark.Api.Meta.{key_of}
use kubepark.Api.Core.{Secret}
use kubepark.Cluster.{Client}
use kubepark.Cluster.Ssh.{Ssh}
use kubepark.SshCa.{KeyPair}
use kubepark.Controller.HostKey.{entry}
use kubepark.Controller.HostKey.Stable.{
  IsSecretStore, Holds, returned-Holds, got-Holds, if_found-Holds, if_found-again,
}
use kubepark.Cmd.Gateway.{
  host_key_name, host_key_secret, stored_key, host_key_created, create_host_key, gateway_host_key,
}

module _ {W : Type 0} (ssh : Ssh W) (api : Client W) (store : IsSecretStore api) where
  host_key_created-Holds :
      (namespace : Text) (key : KeyPair) (b : Text) (u v v' : W) (r : Result (Unit {0}))
      → api.secrets.create (host_key_secret namespace key) u ≡ (r, v)
      → host_key_created ssh api key (host_key_secret namespace key) r v ≡ (ok b, v')
      → Holds api store (key_of (host_key_secret namespace key).meta) (stored_key ssh api) b v'
  unfolding pure raise attempt entry ◌==◌
  host_key_created-Holds namespace key b u v v' (ok tt) e h =
      returned-Holds api store _ (stored_key ssh api) (host_key_secret namespace key) v v' b
        (store.created (host_key_secret namespace key) u v e) h
  host_key_created-Holds namespace key b u v v' (err already_exists) e h =
      let secret = host_key_secret namespace key in
      let (existing, v1, fetched, rest) =
        bind_returns (attempt (api.secrets.get (key_of secret.meta))) _ v v' b h in
      by_winner existing v1 (ground (arith, fetched)) rest
    where
      by_winner :
          (existing : Result Secret) (v1 : W)
          → api.secrets.get (key_of (host_key_secret namespace key).meta) v ≡ (existing, v1)
          → (elim existing as (λ x. Exec W Text) [
            | ok winner ↦ pure (stored_key ssh api winner)
            | err _ ↦ raise already_exists
          ])
              v1
            ≡ (ok b, v')
          → Holds api store (key_of (host_key_secret namespace key).meta) (stored_key ssh api) b v'
      by_winner (ok winner) v1 g k = got-Holds api store _ (stored_key ssh api) winner v v1 v' b g k
      by_winner (err x) v1 g k = let failed = ap (λ (x : Result Text × W). x.0) k in cc
  host_key_created-Holds namespace key b u v v' (err not_found) e h =
      let failed = ap (λ (x : Result Text × W). x.0) h in cc
  host_key_created-Holds namespace key b u v v' (err (other t)) e h =
      let failed = ap (λ (x : Result Text × W). x.0) h in cc

  create_host_key-Holds :
      (namespace : Text) (v w' : W) (a : Text)
      → create_host_key ssh api namespace v ≡ (ok a, w')
      → Holds api store
          (record { namespace = namespace; name = host_key_name })
          (stored_key ssh api)
          a
          w'
  unfolding attempt
  create_host_key-Holds namespace v w' a h =
      let (key, v1, e1, h1) = bind_returns _ _ v w' a h in
      let (created, v2, e2, h2) =
        bind_returns (attempt (api.secrets.create (host_key_secret namespace key))) _ v1 w' a h1 in
      host_key_created-Holds namespace key a v1 v2 w' created (ground (arith, e2)) h2

  -- The host key that is answered without an error, be it read, made, or made by another gateway at
  -- the same time, is the stored one: the next call answers it again and changes nothing.
  pub gateway_host_key-again :
      (namespace : Text) (w w' : W) (key : Text)
      → gateway_host_key ssh api namespace w ≡ (ok key, w')
      → gateway_host_key ssh api namespace w' ≡ (ok key, w')
  unfolding gateway_host_key
  gateway_host_key-again namespace w w' key h =
      if_found-again api store _ (stored_key ssh api) (create_host_key ssh api namespace) w' key (
        if_found-Holds api store _ (stored_key ssh api) (create_host_key ssh api namespace) w w' key
          (λ v made. create_host_key-Holds namespace v w' key made) h)
