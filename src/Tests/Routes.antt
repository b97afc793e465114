-- ===== src/Tests/Routes.antt =====
-- A pod that disappears between two passes, and the theorem on its address.
use kubepark.Prelude.{
  ◌≡◌, ◌≢◌, ◌⊎◌, refl, Bool, true, false, some, none, [], ◌∷◌, ok, err, not_found, if◌then◌else◌,
  pure, lift, if_found, ignore_already_exists, ◌>>=◌,
}
use kubepark.Prelude.Text.{codes, ◌==◌}
use kubepark.Api.Sandbox.{Sandbox, SandboxPhase, ExposedPort, AuthMode}
use kubepark.Cluster.{Client}
use kubepark.Controller.Env.{
  Env, no_requeue, call, set_status, current_status, set_phase, set_condition,
}
use kubepark.Controller.Pods.{run, start_pod, observe_pod, is_pod_ready}
use kubepark.Controller.Pods.Stale.{next, next_status, run-stale_route}
use kubepark.Gateway.Proxy.{Request, proxy_to, serve_http, find_exposed_port}
use kubepark.Tests.World.{
  empty, always, bare_client, env_of, box, std, ready_pod, web_port, pass_of,
}
use kubepark.Tests.Gates.{domain, web_host, web_target, web_parsed}

-- The pod is there in the world `true`.
abbrev pods : Env Bool
pods = env_of (record bare_client {
  pods = record empty { get = λ k w. (if w then ok ready_pod else err not_found, w) };
})

abbrev open_port : ExposedPort
open_port = record web_port { auth = AuthMode.none }

abbrev open_box : Sandbox
open_box = record box { spec = record box.spec { exposed_ports = open_port ∷ [] } }

first_ok : (run pods open_box std [] [] (pass_of true)).0 ≡ ok no_requeue
unfolding run if_found call observe_pod ◌>>=◌ pure set_status current_status set_phase set_condition
    is_pod_ready ◌==◌
first_ok = refl

published : (run pods open_box std [] [] (pass_of true)).1.status.pod_ip ≢ []
unfolding run if_found call observe_pod ◌>>=◌ pure set_status current_status set_phase set_condition
    is_pod_ready ◌==◌
published = λ p. cc

second_ok :
    (run pods open_box std [] [] (next pods open_box std [] [] (pass_of true) false)).0
    ≡ ok no_requeue
unfolding run if_found call start_pod lift ignore_already_exists ◌>>=◌ pure set_status set_condition
second_ok = refl

abbrev api : Client Bool
api = record bare_client {
  sandboxes =
      always
        (record open_box { status = next_status pods open_box std [] [] (pass_of true) false });
}

abbrev request : Request
request = record { host = web_host; is_callback = false }

found_port : find_exposed_port open_box.spec.exposed_ports web_target.port ≡ some open_port
unfolding find_exposed_port ◌==◌
found_port = refl

run-stale_route_example :
    (((next_status pods open_box std [] [] (pass_of true) false).phase ≡ SandboxPhase.provisioning)
      ⊎ ((next_status pods open_box std [] [] (pass_of true) false).phase ≡ SandboxPhase.resuming))
    × ((serve_http (λ ip n. true) api none domain request true).0
        ≡ proxy_to (codes "10.0.0.9") 8080)
run-stale_route_example =
    run-stale_route pods open_box std [] [] (pass_of true) ready_pod no_requeue no_requeue false
      refl first_ok published refl second_ok api (λ ip n. true) none domain request web_target
      open_port true refl web_parsed refl found_port refl refl
