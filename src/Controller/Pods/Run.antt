-- ===== src/Controller/Pods/Run.antt =====
-- What `run` reports about the pod.
use kubepark.Prelude.{
  ◌≡◌, ◌≢◌, ◌⊎◌, ok, err, not_found, already_exists, other, Result, refl, [], arith, true, false,
}
use kubepark.Prelude.Text.{Text}
use kubepark.Api.Core.{Pod}
use kubepark.Api.Sandbox.{Sandbox, SandboxStatus, SandboxPhase}
use kubepark.Api.Sandbox.SandboxPhase.{running, provisioning, resuming}
use kubepark.Api.Template.{SandboxTemplate}
use kubepark.Controller.Env.{Env, Pass, Requeue}
use kubepark.Controller.Pods.{run, start_pod, observe_pod, is_pod_ready, is_resuming}
use kubepark.Controller.Pods.Suspend.{lookup, fetched}

abbrev pub IsUp : SandboxPhase → Type 0
IsUp phase = (phase ≡ running) ⊎ (phase ≡ provisioning) ⊎ (phase ≡ resuming)

module _ {W : Type 0} (env : Env W) (sb : Sandbox) (p : Pass W) where
  module _ (hash : Text) (pod : Pod) (r : Requeue) where
    abbrev seen : SandboxStatus
    seen = (observe_pod env sb hash pod p).1.status

    observe_routes :
        (observe_pod env sb hash pod p).0 ≡ ok r
        → seen.pod_ip ≢ []
        → (is_pod_ready pod ≡ true) × (seen.phase ≡ running) × (seen.pod_ip ≡ pod.status.pod_ip)
    unfolding observe_pod
    observe_routes h k = ground arith

    observe_pod-IsUp : (observe_pod env sb hash pod p).0 ≡ ok r → IsUp seen.phase
    unfolding observe_pod
    observe_pod-IsUp h = ground arith

  module _ (tpl : SandboxTemplate) (hash account : Text) (r : Requeue) where
    abbrev started : SandboxStatus
    started = (start_pod env sb tpl hash account p).1.status

    start_waits :
        (start_pod env sb tpl hash account p).0 ≡ ok r
        → ((is_resuming p.status.phase ≡ true) × (started.phase ≡ resuming))
          ⊎ ((is_resuming p.status.phase ≡ false) × (started.phase ≡ provisioning))
    unfolding start_pod
    start_waits h = ground arith

  start_ip :
      (tpl : SandboxTemplate) (hash account : Text)
      → (start_pod env sb tpl hash account p).1.status.pod_ip ≡ p.status.pod_ip
  unfolding start_pod
  start_ip tpl hash account = ground arith

module _ {W : Type 0} (env : Env W) (sb : Sandbox) (tpl : SandboxTemplate) (hash account : Text)
    (p : Pass W) where
  abbrev after : SandboxStatus
  after = (run env sb tpl hash account p).1.status

  -- With a pod there and no error, an address that is not empty is published only for a ready pod,
  -- with the phase Running, and it is that pod's address.
  pub run_routes_to_ready_pod :
      (pod : Pod) (r : Requeue)
      → lookup env sb p ≡ ok pod
      → (run env sb tpl hash account p).0 ≡ ok r
      → after.pod_ip ≢ []
      → (is_pod_ready pod ≡ true) × (after.phase ≡ running) × (after.pod_ip ≡ pod.status.pod_ip)
  unfolding run
  run_routes_to_ready_pod pod r h k l =
      ground (arith, observe_routes env sb (fetched env sb p) hash pod r)

  pub run-IsUp : (r : Requeue) → (run env sb tpl hash account p).0 ≡ ok r → IsUp after.phase
  unfolding run
  run-IsUp r h = by_lookup (lookup env sb p) refl
    where
      by_lookup : (o : Result Pod) → lookup env sb p ≡ o → IsUp after.phase
      by_lookup (ok pod) e = ground (arith, observe_pod-IsUp env sb (fetched env sb p) hash pod r)
      by_lookup (err not_found) e =
          ground (arith, start_waits env sb (fetched env sb p) tpl hash account r)
      by_lookup (err already_exists) e = ground arith
      by_lookup (err (other t)) e = ground arith

  -- With no pod there, the address that the status had stays, and the phase is a waiting one.
  pub run-missing :
      (r : Requeue)
      → lookup env sb p ≡ err not_found
      → (run env sb tpl hash account p).0 ≡ ok r
      → (after.pod_ip ≡ p.status.pod_ip) × ((after.phase ≡ provisioning) ⊎ (after.phase ≡ resuming))
  unfolding run
  run-missing r h ended = (
    ground (arith, start_ip env sb (fetched env sb p) tpl hash account),
    ground (arith, start_waits env sb (fetched env sb p) tpl hash account r),
  )
