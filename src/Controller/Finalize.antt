-- ===== src/Controller/Finalize.antt =====
-- `finalize` and `closeSessions` of sandbox_controller.go.
pub mod Cleanup
pub mod Children
use kubepark.Prelude.{
  Bool, true, false, not, ◌&&◌, Option, none, some, List, [], ◌∷◌, if◌then◌else◌, Exec, pure, ◌>>=◌,
  ◌>>◌, ignore_not_found, for_each, when,
}
use kubepark.Prelude.Text.{Text, codes, ◌==◌}
use kubepark.Api.Time.{Time}
use kubepark.Api.Meta.{Key}
use kubepark.Api.Sandbox.{Sandbox, SandboxPhase}
use kubepark.Api.Sandbox.SandboxPhase.{terminating}
use kubepark.Api.Session.{SandboxSession, closed, sandbox_deleted}
use kubepark.Cluster.{in_namespace}
use kubepark.Podspec.{pod_name, host_key_name, net_pol_name}
use kubepark.Controller.Env.{Env, Requeue, no_requeue, wall_clock}
use kubepark.Controller.Names.{sa_name}
use kubepark.Controller.Access.{gc_rbac}
use kubepark.Controller.Home.{apply_home_retain_policy}
use kubepark.Controller.Idle.{is_live_of}

abbrev pub sandbox_finalizer : Text
sandbox_finalizer = codes "kubepark.dev/finalizer"

abbrev is_terminating : SandboxPhase → Bool
is_terminating terminating = true
is_terminating _ = false

-- A session that ended because its sandbox was deleted.
unfoldable pub closed_by_deletion : Time → SandboxSession → SandboxSession
closed_by_deletion now s = record s {
  status = record s.status { state = closed; end_time = some now; exit_reason = sandbox_deleted };
}

module _ {W : Type 0} (env : Env W) where
  abbrev close_session : Sandbox → Time → SandboxSession → Exec W Unit
  close_session sb now s =
      when (is_live_of sb.meta.name s)
        (ignore_not_found (env.api.sessions.update_status (closed_by_deletion now s)))

  unfoldable pub close_sessions : Sandbox → Exec W Unit
  unfolding ◌>>=◌ pure for_each ignore_not_found wall_clock ◌==◌ closed_by_deletion
  close_sessions sb = do
    sessions ← env.api.sessions.list (in_namespace sb.meta.namespace)
    now ← wall_clock env
    for_each sessions (close_session sb now)

  abbrev terminated : Sandbox → Sandbox
  terminated sb = record sb { status = record sb.status { phase = terminating } }

  abbrev mark_terminating : Sandbox → Exec W Unit
  mark_terminating sb =
      when (not (is_terminating sb.status.phase))
        (ignore_not_found (env.api.sandboxes.update_status (terminated sb)))

  abbrev key_in : Sandbox → Text → Key
  key_in sb name = record { namespace = sb.meta.namespace; name = name }

  -- The objects that live in the sandbox's namespace.
  unfoldable pub delete_children : Sandbox → Exec W Unit
  unfolding ◌>>=◌ ignore_not_found
  delete_children sb = do
    ignore_not_found (env.api.pods.delete (key_in sb (pod_name sb.meta.name)))
    ignore_not_found (env.api.secrets.delete (key_in sb (host_key_name sb.meta.name)))
    ignore_not_found (env.api.network_policies.delete (key_in sb (net_pol_name sb.meta.name)))
    ignore_not_found (env.api.service_accounts.delete (key_in sb (sa_name sb.meta.name)))

  unfoldable pub clean_up : Sandbox → Exec W Unit
  unfolding ◌>>=◌ ignore_not_found
  clean_up sb = do
    mark_terminating sb
    delete_children sb
    gc_rbac env sb none
    close_sessions sb
    apply_home_retain_policy env sb

  abbrev pub released : Sandbox → Sandbox
  released sb = record (terminated sb) { meta = env.lib.remove_finalizer sb.meta sandbox_finalizer }

  unfoldable pub finalize : Sandbox → Exec W Requeue
  unfolding ◌>>=◌ pure
  finalize sb =
      if not (env.lib.contains_finalizer sb.meta sandbox_finalizer)
      then pure no_requeue
      else do clean_up sb; env.api.sandboxes.update (released sb); pure no_requeue
