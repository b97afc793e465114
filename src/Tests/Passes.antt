-- ===== src/Tests/Passes.antt =====
-- The controller's passes at concrete inputs.
use mathlib.Core.List.{Memᴰ}
use kubepark.Prelude.{
  ◌<◌, ◌≡◌, ◌≢◌, ◌↔◌, ◌⊎◌, ◌*◌, refl, true, some, [], ◌∷◌, ok, pure, lift, if_found, for_each,
  ignore_not_found, ignore_already_exists, ◌>>=◌, arith,
}
use kubepark.Prelude.Int.{pos_part}
use kubepark.Prelude.Text.{codes, contains, ◌==◌}
use kubepark.Api.Time.{max_duration, second, seconds, sub}
use kubepark.Api.Sandbox.{Sandbox, SandboxPhase}
use kubepark.Cluster.{Client}
use kubepark.Podspec.{build_pod}
use kubepark.Controller.Env.{
  Env, no_requeue, call, set_status, current_status, set_phase, set_condition, wall_clock,
}
use kubepark.Controller.Names.{sa_name}
use kubepark.Controller.Access.{
  RbacResult, reconcile_rbac, bind_profile, ensure_owned, grant_namespaces, apply_role_binding,
  gc_rbac,
}
use kubepark.Controller.Access.Permits.{IsPermitted, reconcile_rbac-IsPermitted}
use kubepark.Controller.Claims.{first_winner, wins, text_ltb}
use kubepark.Controller.Claims.Exclusive.{Contends, holder_unique, holder_exists}
use kubepark.Controller.Idle.{
  idle_expired, count_active, active_session_count, effective_idle_timeout,
}
use kubepark.Controller.Pods.{run, suspend, observe_pod, is_pod_ready}
use kubepark.Controller.Pods.Run.{run_routes_to_ready_pod}
use kubepark.Controller.Loop.{drive, run_unless_idle, reconcile_sandbox}
use kubepark.Controller.Loop.Decision.{drive_suspends_iff, IsDown, ShouldSuspend}
use kubepark.Controller.Loop.Status.{IsSound, reconcile_sandbox-IsSound}
use kubepark.Tests.World.{
  bare_client, always, env_of, box, late_box, std, reader, ready_pod, pass_of, idle_status,
}

abbrev client : Client Unit
client = record bare_client {
  pods = always ready_pod;
  profiles = always reader;
  sandboxes = always box;
  templates = always std;
}

abbrev env : Env Unit
env = env_of client

abbrev granted : RbacResult
granted = record { service_account = []; ready = true }

idle_drive_ok : (drive env box std granted (pass_of tt)).0 ≡ ok no_requeue
unfolding drive run_unless_idle active_session_count count_active idle_expired sub suspend ◌>>=◌
    pure call set_status current_status wall_clock effective_idle_timeout if_found set_phase
    ignore_not_found build_pod
idle_drive_ok = refl

timeout_fits : pos_part (effective_idle_timeout box std) < max_duration
unfolding effective_idle_timeout
timeout_fits = ground arith

drive_suspends_iff_example :
    IsDown (drive env box std granted (pass_of tt)).1.status.phase
    ↔ ShouldSuspend box.spec.desired_state 0 (7000 * second) (some (1000 * second)) (seconds 3600)
unfolding count_active effective_idle_timeout
drive_suspends_iff_example =
    drive_suspends_iff env box std (pass_of tt) granted [] no_requeue refl refl idle_drive_ok
      timeout_fits

box-Contends : Contends box
box-Contends = record { named = λ p. cc; kept = refl; wanted = refl }

late-Contends : Contends late_box
late-Contends = record { named = λ p. cc; kept = refl; wanted = refl }

box_first : first_winner box (box ∷ late_box ∷ []) ≡ []
unfolding first_winner wins ◌==◌ text_ltb
box_first = refl

holder_unique_example : box.meta.uid ≡ box.meta.uid
holder_unique_example =
    holder_unique box box (box ∷ late_box ∷ []) (box-Contends, (late-Contends, tt)) (Memᴰ.head refl)
      (Memᴰ.head refl) box_first box_first

holder_exists_example :
    (o : Sandbox) × Memᴰ o (box ∷ late_box ∷ []) × (first_winner o (box ∷ late_box ∷ []) ≡ [])
holder_exists_example = holder_exists box (late_box ∷ [])

run_ok : (run env box std [] [] (pass_of tt)).0 ≡ ok no_requeue
unfolding run if_found call observe_pod ◌>>=◌ pure set_status current_status set_phase set_condition
    is_pod_ready ◌==◌
run_ok = refl

run_ip : (run env box std [] [] (pass_of tt)).1.status.pod_ip ≢ []
unfolding run if_found call observe_pod ◌>>=◌ pure set_status current_status set_phase set_condition
    is_pod_ready ◌==◌
run_ip = λ p. cc

run_routes_to_ready_pod_example :
    (is_pod_ready ready_pod ≡ true)
    × ((run env box std [] [] (pass_of tt)).1.status.phase ≡ SandboxPhase.running)
    × ((run env box std [] [] (pass_of tt)).1.status.pod_ip ≡ codes "10.0.0.9")
run_routes_to_ready_pod_example =
    run_routes_to_ready_pod env box std [] [] (pass_of tt) ready_pod no_requeue refl run_ok run_ip

status-IsSound : IsSound idle_status
status-IsSound = record { clocked = λ p q. cc; unrouted_down = λ p. cc; unrouted_leaving = λ p. cc }

reconcile_sandbox-IsSound_example : IsSound (reconcile_sandbox env box (pass_of tt)).1.status
reconcile_sandbox-IsSound_example = reconcile_sandbox-IsSound env box (pass_of tt) status-IsSound

abbrev own_account : RbacResult
own_account = record { service_account = codes "kubepark-sb-box"; ready = true }

rbac_ok : (reconcile_rbac env box (pass_of tt)).0 ≡ ok own_account
unfolding reconcile_rbac ◌>>=◌ pure call if_found set_status set_condition bind_profile lift
    ignore_already_exists ignore_not_found for_each contains ◌==◌ sa_name ensure_owned
    grant_namespaces apply_role_binding gc_rbac
rbac_ok = refl

reconcile_rbac-IsPermitted_example :
    (IsPermitted env box (pass_of tt)
      × (codes "kubepark-sb-box" ≡ sa_name box.meta.name)
      × (true ≡ true)
      × ((reconcile_rbac env box (pass_of tt)).1.status.service_account_name
          ≡ sa_name box.meta.name))
    ⊎ ((codes "kubepark-sb-box" ≡ [])
        × ((reconcile_rbac env box (pass_of tt)).1.status.service_account_name ≡ []))
reconcile_rbac-IsPermitted_example =
    reconcile_rbac-IsPermitted env box (pass_of tt) own_account rbac_ok
