-- ===== src/Controller/Pods/Suspend.antt =====
-- What `suspend` leaves behind.
use kubepark.Prelude.{◌≡◌, ◌≢◌, ◌⊎◌, ok, err, not_found, Result, [], arith}
use kubepark.Api.Meta.{Key}
use kubepark.Api.Core.{Pod}
use kubepark.Api.Sandbox.{Sandbox, SandboxStatus}
use kubepark.Api.Sandbox.SandboxPhase.{suspended, suspending}
use kubepark.Podspec
use kubepark.Controller.Env.{Env, Pass, Requeue}
use kubepark.Controller.Pods.{suspend}

-- The pod's key.
abbrev pub pod_key : Sandbox → Key
pod_key sb = record { namespace = sb.meta.namespace; name = Podspec.pod_name sb.meta.name }

-- What suspension keeps: the home, the account, the template pin and the idle clock.
pub record KeepsRest (s t : SandboxStatus) : Type 0 where
  pub pvc : t.pvc_name ≡ s.pvc_name
  pub account : t.service_account_name ≡ s.service_account_name
  pub hash : t.template_hash ≡ s.template_hash
  pub activity : t.last_activity_time ≡ s.last_activity_time

module _ {W : Type 0} (env : Env W) (sb : Sandbox) (p : Pass W) where
  abbrev pub lookup : Result Pod
  lookup = (env.api.pods.get (pod_key sb) p.world).0

  -- The pass after the pod was looked up.
  abbrev pub fetched : Pass W
  fetched = record p { world = (env.api.pods.get (pod_key sb) p.world).1 }

  pub suspend_clears_ip : (suspend env sb p).1.status.pod_ip ≡ []
  unfolding suspend
  suspend_clears_ip = ground arith

  pub suspend-KeepsRest : KeepsRest p.status (suspend env sb p).1.status
  unfolding suspend
  suspend-KeepsRest = ground arith

  -- A suspension without an error ends suspended, with no pod name, where the pod is not there, and
  -- suspending where it is.
  pub suspend_phase :
      (r : Requeue)
      → (suspend env sb p).0 ≡ ok r
      → ((lookup ≡ err not_found)
          × ((suspend env sb p).1.status.phase ≡ suspended)
          × ((suspend env sb p).1.status.pod_name ≡ []))
        ⊎ ((lookup ≢ err not_found) × ((suspend env sb p).1.status.phase ≡ suspending))
  unfolding suspend
  suspend_phase r h = ground arith
