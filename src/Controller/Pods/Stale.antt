-- ===== src/Controller/Pods/Stale.antt =====
-- A pod that is gone, and the gateway's route to it.
use kubepark.Prelude.{
  ◌≡◌, ◌≢◌, ◌⊎◌, ◌∙◌, refl, ℕ, Bool, true, false, some, [], ◌∷◌, ok, err, not_found,
}
use kubepark.Prelude.Text.{Text}
use kubepark.Api.Core.{Pod}
use kubepark.Api.Sandbox.{Sandbox, SandboxStatus, ExposedPort, AuthMode}
use kubepark.Api.Sandbox.SandboxPhase.{provisioning, resuming}
use kubepark.Api.Template.{SandboxTemplate}
use kubepark.Cluster.{Client}
use kubepark.Controller.Env.{Env, Pass, Requeue}
use kubepark.Controller.Pods.{run}
use kubepark.Controller.Pods.Run.{run_routes_to_ready_pod, run-missing}
use kubepark.Controller.Pods.Suspend.{lookup}
use kubepark.Gateway.HttpHost.{HttpTarget, target, parse_http_host}
use kubepark.Gateway.Proxy.{
  Request, Authenticator, proxy_to, find_exposed_port, catches_callback, serve_http,
}
use kubepark.Gateway.Store.{get_sandbox}

-- A request to an open port of a sandbox that is stored with an address is proxied to the address.
serve_http-open :
    {V : Type 0}
    → (api : Client V) (parses : Text → ℕ → Bool) (auth : Authenticator) (base : Text)
      (req : Request) (t : HttpTarget) (port : ExposedPort) (sb : Sandbox) (ip : Text) (v : V)
    → catches_callback parses api auth base auth req ≡ false
    → parse_http_host req.host base ≡ target t
    → (api.sandboxes.get (record { namespace = t.namespace; name = t.sandbox }) v).0 ≡ ok sb
    → find_exposed_port sb.spec.exposed_ports t.port ≡ some port
    → port.auth ≡ AuthMode.none
    → sb.status.pod_ip ≡ ip
    → ip ≢ []
    → parses ip port.port ≡ true
    → (serve_http parses api auth base req v).0 ≡ proxy_to ip port.port
unfolding serve_http get_sandbox
serve_http-open api parses auth base req t port sb [] v a b c d e f given g = absurd (given refl)
serve_http-open api parses auth base req t port sb (x ∷ ip) v a b c d e f given g =
    rw a (rw b (rw c (rw d (rw e (rw f (rw g refl))))))

module _ {W : Type 0} (env : Env W) (sb : Sandbox) (tpl : SandboxTemplate) (hash account : Text)
    (p : Pass W) where
  -- The next pass, with the status that the first has left, in a world that has moved on.
  abbrev pub next : W → Pass W
  next gone = record { status = (run env sb tpl hash account p).1.status; world = gone }

  abbrev pub next_status : W → SandboxStatus
  next_status gone = (run env sb tpl hash account (next gone)).1.status

  -- A pass sees a pod and publishes an address; when the next pass runs, the pod is gone, and it
  -- creates another and ends without an error. Then, with the phase Provisioning or Resuming, a
  -- request to an open port of the sandbox is still proxied to the address of the pod that is gone.
  pub run-stale_route :
      (pod : Pod) (r s : Requeue) (gone : W)
      → lookup env sb p ≡ ok pod
      → (run env sb tpl hash account p).0 ≡ ok r
      → (run env sb tpl hash account p).1.status.pod_ip ≢ []
      → lookup env sb (next gone) ≡ err not_found
      → (run env sb tpl hash account (next gone)).0 ≡ ok s
      → {V : Type 0}
      → (api : Client V) (parses : Text → ℕ → Bool) (auth : Authenticator) (base : Text)
        (req : Request) (t : HttpTarget) (port : ExposedPort) (v : V)
      → catches_callback parses api auth base auth req ≡ false
      → parse_http_host req.host base ≡ target t
      → (api.sandboxes.get (record { namespace = t.namespace; name = t.sandbox }) v).0
        ≡ ok (record sb { status = next_status gone })
      → find_exposed_port sb.spec.exposed_ports t.port ≡ some port
      → port.auth ≡ AuthMode.none
      → parses pod.status.pod_ip port.port ≡ true
      → (((next_status gone).phase ≡ provisioning) ⊎ ((next_status gone).phase ≡ resuming))
        × ((serve_http parses api auth base req v).0 ≡ proxy_to pod.status.pod_ip port.port)
  run-stale_route pod r s gone there ended published missing ended_again api parses auth base req t
        port v routed parsed stored exposed no_auth is_url =
      let (ready, up, address) =
        run_routes_to_ready_pod env sb tpl hash account p pod r there ended published in
      let (kept, waiting) = run-missing env sb tpl hash account (next gone) s missing ended_again in
      (
        waiting,
        serve_http-open api parses auth base req t port (record sb { status = next_status gone })
            pod.status.pod_ip v routed parsed stored exposed no_auth (kept ∙ address)
            (λ e. published (address ∙ e)) is_url,
      )
