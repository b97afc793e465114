-- ===== src/Controller/Access/Permits.antt =====
-- When a sandbox gets credentials, and what a refusal leaves.
use kubepark.Prelude.{
  ◌≡◌, ◌⊎◌, inl, inr, refl, true, false, Bool-cases, [], Result, ok, err, not_found, already_exists,
  other, arith,
}
use kubepark.Prelude.Text.{contains, ◌==◌}
use kubepark.Api.Sandbox.{Sandbox}
use kubepark.Api.Profile.{AccessProfile}
use kubepark.Controller.Env.{Env, Pass}
use kubepark.Controller.Names.{sa_name}
use kubepark.Controller.Access.{RbacResult, bind_profile, reconcile_rbac}

module _ {W : Type 0} (env : Env W) (sb : Sandbox) where
  abbrev pub profile_lookup : Pass W → Result AccessProfile
  profile_lookup p =
      (env.api.profiles.get (record { namespace = []; name = sb.spec.access_profile }) p.world).0

  -- The profile that the sandbox names is there and lists the sandbox's namespace.
  pub record IsPermitted (p : Pass W) : Type 0 where
    pub profile : AccessProfile
    pub found : profile_lookup p ≡ ok profile
    pub listed : contains profile.spec.allowed_namespaces sb.meta.namespace ≡ true

  module _ (r : RbacResult) where
    bind_profile_result :
        (p : Pass W) (profile : AccessProfile)
        → (bind_profile env sb profile p).0 ≡ ok r
        → (r.service_account ≡ sa_name sb.meta.name)
          × (r.ready ≡ true)
          × ((bind_profile env sb profile p).1.status.service_account_name ≡ sa_name sb.meta.name)
    unfolding bind_profile
    bind_profile_result p profile h = ground arith

  module _ (p : Pass W) (r : RbacResult) where
    -- A sandbox whose credentials are settled has its own account, which the status names, and a
    -- permit for it, or it has none and the status names none.
    pub reconcile_rbac-IsPermitted :
        (reconcile_rbac env sb p).0 ≡ ok r
        → (IsPermitted p
            × (r.service_account ≡ sa_name sb.meta.name)
            × (r.ready ≡ true)
            × ((reconcile_rbac env sb p).1.status.service_account_name ≡ sa_name sb.meta.name))
          ⊎ ((r.service_account ≡ [])
              × ((reconcile_rbac env sb p).1.status.service_account_name ≡ []))
    unfolding reconcile_rbac
    reconcile_rbac-IsPermitted h = elim (Bool-cases (sb.spec.access_profile == [])) [
      | inl unbound ↦ inr (ground arith, ground arith)
      | inr bound ↦ by_lookup (profile_lookup p) refl bound
    ]
      where
        fetched : Pass W
        fetched = record p {
          world =
              (env.api.profiles.get (record { namespace = []; name = sb.spec.access_profile })
                p.world).1;
        }

        Outcome : Type 0
        Outcome =
            (IsPermitted p
              × (r.service_account ≡ sa_name sb.meta.name)
              × (r.ready ≡ true)
              × ((reconcile_rbac env sb p).1.status.service_account_name ≡ sa_name sb.meta.name))
            ⊎ ((r.service_account ≡ [])
                × ((reconcile_rbac env sb p).1.status.service_account_name ≡ []))

        by_lookup :
            (o : Result AccessProfile)
            → profile_lookup p ≡ o
            → (sb.spec.access_profile == []) ≡ false
            → Outcome
        by_lookup (err not_found) e bound = inr (ground arith, ground arith)
        by_lookup (err already_exists) e bound = cc
        by_lookup (err (other t)) e bound = cc
        by_lookup (ok profile) e bound =
            elim (Bool-cases (contains profile.spec.allowed_namespaces sb.meta.namespace)) [
              | inl listed ↦
                  let (account, ready, stored) =
                    bind_profile_result r fetched profile (ground arith) in
                  inl (
                    record { profile = profile; found = e; listed = listed },
                    account,
                    ready,
                    ground (arith, stored),
                  )
              | inr unlisted ↦ inr (ground arith, ground arith)
            ]
