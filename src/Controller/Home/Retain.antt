-- ===== src/Controller/Home/Retain.antt =====
-- When a deleted sandbox takes its home along.
use kubepark.Prelude.{◌≡◌, ◌⊎◌, inl, inr, true, false}
use kubepark.Prelude.Keeps.{Keeps, Keeps-if, Keeps-pure, Keeps-ignore_not_found, Keeps-if_found}
use kubepark.Api.Meta.{Key}
use kubepark.Api.Core.{PersistentVolumeClaim}
use kubepark.Api.Sandbox.{Sandbox}
use kubepark.Podspec.{has_existing_claim}
use kubepark.Controller.Env.{Env}
use kubepark.Controller.Home.{wants_delete, retire, apply_home_retain_policy}

module _ {W : Type 0} (env : Env W) (P : W → Type 0) (sb : Sandbox)
    (get_keeps : (k : Key) → Keeps P (env.api.claims.get k))
    (update_keeps : (c : PersistentVolumeClaim) → Keeps P (env.api.claims.update c)) where
  retire-Keeps :
      (c : PersistentVolumeClaim) → wants_delete sb.spec.home ≡ false → Keeps P (retire env sb c)
  retire-Keeps c kept =
      Keeps-if (wants_delete sb.spec.home) _ _ (λ wanted. cc)
        (λ _. Keeps-ignore_not_found (update_keeps _))

  -- Whatever reading and updating claims keeps, is kept by the retain policy of a sandbox that does
  -- not ask for its home to be deleted or that uses an existing claim: no claim is deleted.
  pub apply_home_retain_policy-Keeps :
      (has_existing_claim sb ≡ true) ⊎ (wants_delete sb.spec.home ≡ false)
      → Keeps P (apply_home_retain_policy env sb)
  unfolding apply_home_retain_policy
  apply_home_retain_policy-Keeps (inl existing) =
      Keeps-if (has_existing_claim sb) _ _ (λ _. Keeps-pure P tt) (λ generated. cc)
  apply_home_retain_policy-Keeps (inr kept) =
      Keeps-if (has_existing_claim sb) _ _ (λ _. Keeps-pure P tt)
        (λ _. Keeps-if_found (get_keeps _) (λ c. retire-Keeps c kept) (Keeps-pure P tt))
