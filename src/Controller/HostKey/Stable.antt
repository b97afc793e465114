-- ===== src/Controller/HostKey/Stable.antt =====
-- Every caller of EnsureCASecret is given the same authority.
use kubepark.Prelude.{
  ◌≡◌, refl, sym, ap, ◌∙◌, Option, none, some, Result, ok, err, not_found, already_exists, other,
  Exec, pure, raise, attempt, if_found, arith,
}
use kubepark.Prelude.Returns.{bind_returns}
use kubepark.Prelude.Text.{Text}
use kubepark.Api.Meta.{Key, key_of}
use kubepark.Api.Core.{Secret}
use kubepark.Cluster.{Client}
use kubepark.Controller.Env.{Env}
use kubepark.Controller.HostKey.{ca_secret_name, ca_secret, ca_created, create_ca, ensure_ca_secret}

abbrev pub secret_or_not : Option Secret → Result Secret
secret_or_not none = err not_found
secret_or_not (some s) = ok s

-- What the API server documents of secrets: a Get answers what is stored and changes nothing, and a
-- Create without an error stores the object.
pub record IsSecretStore {W : Type 0} (api : Client W) : Type 0 where
  pub stored : W → Key → Option Secret
  pub get_stored : (k : Key) (w : W) → api.secrets.get k w ≡ (secret_or_not (stored w k), w)
  pub created :
      (s : Secret) (w w' : W)
      → api.secrets.create s w ≡ (ok tt, w')
      → stored w' (key_of s.meta) ≡ some s

module _ {W : Type 0} (api : Client W) (store : IsSecretStore api) where
  pub got :
      (k : Key) (w w' : W) (s : Secret)
      → api.secrets.get k w ≡ (ok s, w')
      → (w' ≡ w) × (store.stored w k ≡ some s)
  got k w w' s h = by_slot (store.stored w k) refl
    where
      by_slot : (o : Option Secret) → store.stored w k ≡ o → (w' ≡ w) × (store.stored w k ≡ some s)
      by_slot none e = ground (arith, h, e, store.get_stored k w)
      by_slot (some t) e = ground (arith, h, e, store.get_stored k w)

  pub get_again :
      (k : Key) (w : W) (s : Secret) → store.stored w k ≡ some s → api.secrets.get k w ≡ (ok s, w)
  get_again k w s e = store.get_stored k w ∙ ap (λ (o : Option Secret). (secret_or_not o, w)) e

  -- The value `b` is what is read from the secret that is stored.
  pub Holds : {A : Type 0} → Key → (Secret → A) → A → W → Type 0
  Holds k read b w = (s : Secret) × (store.stored w k ≡ some s) × (read s ≡ b)

  pub returned-Holds :
      {A : Type 0} (k : Key) (read : Secret → A) (s : Secret) (v v' : W) (b : A)
      → store.stored v k ≡ some s
      → ◌≡◌ {A = Result A × W} (ok (read s), v) (ok b, v')
      → Holds k read b v'
  unfolding Holds
  returned-Holds {A} k read s v v' b is_stored ends = (
    s,
    ap (λ (x : W). store.stored x k) (sym (ap (λ (x : Result A × W). x.1) ends)) ∙ is_stored,
    ground (arith, ends),
  )

  pub got-Holds :
      {A : Type 0} (k : Key) (read : Secret → A) (s : Secret) (u v v' : W) (b : A)
      → api.secrets.get k u ≡ (ok s, v)
      → ◌≡◌ {A = Result A × W} (ok (read s), v) (ok b, v')
      → Holds k read b v'
  got-Holds k read s u v v' b g ends =
      let (same, is_stored) = got k u v s g in
      returned-Holds k read s v v' b (ap (λ (x : W). store.stored x k) same ∙ is_stored) ends

  -- What is read or made is stored, if the making says so.
  pub if_found-Holds :
      {A : Type 0} (k : Key) (read : Secret → A) (make : Exec W A) (w w' : W) (a : A)
      → ((v : W) → make v ≡ (ok a, w') → Holds k read a w')
      → if_found (api.secrets.get k) (λ s. pure (read s)) make w ≡ (ok a, w')
      → Holds k read a w'
  unfolding if_found pure
  if_found-Holds {A} k read make w w' a makes h = by_get (api.secrets.get k w) refl
    where
      by_get : (r : Result Secret × W) → api.secrets.get k w ≡ r → Holds k read a w'
      by_get (ok s, v) e = got-Holds k read s w v w' a e (ground (arith, h, e))
      by_get (err not_found, v) e = makes v (ground (arith, h, e))
      by_get (err already_exists, v) e = ground (arith, h, e)
      by_get (err (other t), v) e = ground (arith, h, e)

  -- Where the value is stored, it is read again, and nothing changes.
  pub if_found-again :
      {A : Type 0} (k : Key) (read : Secret → A) (make : Exec W A) (w : W) (a : A)
      → Holds k read a w
      → if_found (api.secrets.get k) (λ s. pure (read s)) make w ≡ (ok a, w)
  unfolding if_found pure Holds
  if_found-again k read make w a (s, is_stored, e) = rw (get_again k w s is_stored) (rw e refl)

module _ {W : Type 0} (env : Env W) (store : IsSecretStore env.api) where
  ca_created-Holds :
      (secret b : Secret) (u v v' : W) (r : Result (Unit {0}))
      → env.api.secrets.create secret u ≡ (r, v)
      → ca_created env secret r v ≡ (ok b, v')
      → Holds env.api store (key_of secret.meta) (λ s. s) b v'
  unfolding pure raise attempt
  ca_created-Holds secret b u v v' (ok tt) e h =
      returned-Holds env.api store _ (λ s. s) secret v v' b (store.created secret u v e) h
  ca_created-Holds secret b u v v' (err already_exists) e h =
      let (existing, v1, fetched, rest) =
        bind_returns (attempt (env.api.secrets.get (key_of secret.meta))) _ v v' b h in
      by_winner existing v1 (ground (arith, fetched)) rest
    where
      by_winner :
          (existing : Result Secret) (v1 : W)
          → env.api.secrets.get (key_of secret.meta) v ≡ (existing, v1)
          → (elim existing as (λ x. Exec W Secret) [
            | ok winner ↦ pure winner
            | err _ ↦ raise already_exists
          ])
              v1
            ≡ (ok b, v')
          → Holds env.api store (key_of secret.meta) (λ s. s) b v'
      by_winner (ok winner) v1 g k = got-Holds env.api store _ (λ s. s) winner v v1 v' b g k
      by_winner (err x) v1 g k = let failed = ap (λ (x : Result Secret × W). x.0) k in cc
  ca_created-Holds secret b u v v' (err not_found) e h =
      let failed = ap (λ (x : Result Secret × W). x.0) h in cc
  ca_created-Holds secret b u v v' (err (other t)) e h =
      let failed = ap (λ (x : Result Secret × W). x.0) h in cc

  create_ca-Holds :
      (namespace : Text) (v w' : W) (a : Secret)
      → create_ca env namespace v ≡ (ok a, w')
      → Holds env.api store (record { namespace = namespace; name = ca_secret_name }) (λ s. s) a w'
  unfolding attempt
  create_ca-Holds namespace v w' a h =
      let (user_ca, v1, e1, h1) = bind_returns _ _ v w' a h in
      let (host_ca, v2, e2, h2) = bind_returns _ _ v1 w' a h1 in
      let (hmac_key, v3, e3, h3) = bind_returns _ _ v2 w' a h2 in
      let (created, v4, e4, h4) =
        bind_returns
          (attempt (env.api.secrets.create (ca_secret namespace user_ca host_ca hmac_key))) _ v3 w'
          a h3 in
      ca_created-Holds (ca_secret namespace user_ca host_ca hmac_key) a v3 v4 w' created
        (ground (arith, e4)) h4

  -- The authority that is answered without an error, be it read, made, or made by another process
  -- at the same time, is the stored one: the next call answers it again and changes nothing.
  pub ensure_ca_secret-again :
      (namespace : Text) (w w' : W) (secret : Secret)
      → ensure_ca_secret env namespace w ≡ (ok secret, w')
      → ensure_ca_secret env namespace w' ≡ (ok secret, w')
  unfolding ensure_ca_secret
  ensure_ca_secret-again namespace w w' secret h =
      if_found-again env.api store _ (λ s. s) (create_ca env namespace) w' secret
        (if_found-Holds env.api store _ (λ s. s) (create_ca env namespace) w w' secret
          (λ v made. create_ca-Holds namespace v w' secret made) h)
