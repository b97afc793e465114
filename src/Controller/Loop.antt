-- ===== src/Controller/Loop.antt =====
-- `Reconcile`, `reconcileSandbox` and `patchStatus` of sandbox_controller.go.
pub mod Decision
pub mod Status
use kubepark.Prelude.{
  ℕ, Bool, true, false, not, ◌&&◌, ◌||◌, Option, none, some, List, [], ◌∷◌, if◌then◌else◌, eqb,
  Exec, Result, ok, err, pure, ◌>>=◌, ◌>>◌, if_found, ignore_not_found, when,
}
use kubepark.Prelude.Int.{ℤ, pos, ltb_ℤ, leb_ℤ}
use kubepark.Prelude.Text.{Text, codes, ◌==◌}
use kubepark.Api.Time.{Time, Duration, seconds, sub, minus, longer}
use kubepark.Api.Meta.{Key, is_deleting, lit, quoted, ready, invalid_ref, provisioning}
use kubepark.Api.Sandbox.{Sandbox, SandboxStatus, DesiredState}
use kubepark.Api.Sandbox.SandboxPhase.{pending}
use kubepark.Api.Template.{SandboxTemplate}
use kubepark.Podspec.{template_hash}
use kubepark.Controller.Env.{
  Env, Pass, Requeue, no_requeue, call, set_status, current_status, set_phase, set_condition, now,
  wall_clock,
}
use kubepark.Controller.Access.{RbacResult, reconcile_rbac}
use kubepark.Controller.Home.{reconcile_home}
use kubepark.Controller.HostKey.{reconcile_host_key}
use kubepark.Controller.Policy.{reconcile_network_policy}
use kubepark.Controller.Idle.{effective_idle_timeout, idle_expired, active_session_count}
use kubepark.Controller.Pods.{suspend, run, is_running}
use kubepark.Controller.Finalize.{finalize, sandbox_finalizer}

abbrev pub is_stopped : DesiredState → Bool
is_stopped DesiredState.stopped = true
is_stopped DesiredState.running = false

-- Whether the result is to be given the idle deadline.
abbrev wants_deadline : Requeue → ℕ → Duration → SandboxStatus → Bool
wants_deadline result active timeout s =
    (leb_ℤ result.after (pos 0) && leb_ℤ (pos 0) result.after)
    && eqb active 0
    && ltb_ℤ (pos 0) timeout
    && is_running s.phase

module _ {W : Type 0} (env : Env W) where
  abbrev at_deadline : Requeue → Duration → Option Time → Exec (Pass W) Requeue
  at_deadline result timeout none = pure result
  at_deadline result timeout (some last) = do
    t ← call (now env)
    pure (record { after = longer (minus timeout (sub t last)) (seconds 1) })

  unfoldable pub with_deadline : Requeue → ℕ → Duration → Exec (Pass W) Requeue
  unfolding ◌>>=◌ pure call current_status now
  with_deadline result active timeout = do
    s ← current_status
    if wants_deadline result active timeout s
        then at_deadline result timeout s.last_activity_time
        else pure result

  -- `active == 0 && idleExpired(…)`: the clock is read only if no session is active.
  abbrev idle_now : ℕ → Option Time → Duration → Exec W Bool
  idle_now active last timeout =
      if eqb active 0
      then (do t ← wall_clock env; pure (idle_expired t last timeout))
      else pure false

  -- The idle test, for a sandbox that is to run.
  unfoldable pub run_unless_idle : Sandbox → SandboxTemplate → Text → Exec (Pass W) Requeue
  unfolding ◌>>=◌ pure call set_status current_status wall_clock
  run_unless_idle sb tpl service_account = do
    active ← call (active_session_count env sb)
    set_status (λ s. record s { active_sessions = active })
    let timeout = effective_idle_timeout sb tpl
    s ← current_status
    idle ← call (idle_now active s.last_activity_time timeout)
    if idle then suspend env sb else do
      result ← run env sb tpl (template_hash env.lib tpl.spec) service_account
      with_deadline result active timeout

  -- The desired-state machine, once the sandbox's objects are in place.
  unfoldable pub drive : Sandbox → SandboxTemplate → RbacResult → Exec (Pass W) Requeue
  unfolding ◌>>=◌ pure set_phase set_condition
  drive sb tpl rbac =
      if not rbac.ready
      then (do
        set_phase pending
        set_condition env sb ready false provisioning (lit (codes "waiting on access profile") ∷ [])
        pure no_requeue)
      else if is_stopped sb.spec.desired_state
      then suspend env sb
      else run_unless_idle sb tpl rbac.service_account

  abbrev pub after_home : Sandbox → SandboxTemplate → Option Requeue → Exec (Pass W) Requeue
  after_home sb tpl (some stop) = pure stop
  after_home sb tpl none = do
    call (reconcile_host_key env sb)
    call (reconcile_network_policy env sb tpl)
    rbac ← reconcile_rbac env sb
    drive sb tpl rbac

  abbrev with_template : Sandbox → SandboxTemplate → Exec (Pass W) Requeue
  with_template sb tpl = do stop ← reconcile_home env sb; after_home sb tpl stop

  abbrev no_template : Sandbox → Exec (Pass W) Requeue
  no_template sb = do
    set_phase pending
    set_condition env sb ready false invalid_ref
        (lit (codes "SandboxTemplate ") ∷ quoted sb.spec.template ∷ lit (codes " not found") ∷ [])
    pure no_requeue

  unfoldable pub reconcile_sandbox : Sandbox → Exec (Pass W) Requeue
  unfolding ◌>>=◌ pure call if_found set_phase set_condition
  reconcile_sandbox sb =
      if_found (call (env.api.templates.get (record { namespace = []; name = sb.spec.template })))
        (with_template sb) (no_template sb)

  unfoldable pub patch_status : Sandbox → SandboxStatus → Exec W Unit
  unfolding ignore_not_found pure
  patch_status sb status =
      if env.lib.same_status sb.status status
      then pure tt
      else ignore_not_found (env.api.sandboxes.update_status (record sb { status = status }))

  -- The first error is returned.
  abbrev both : Result Requeue → Result (Unit {0}) → Result Requeue
  both (err e) _ = err e
  both (ok r) (err e) = err e
  both (ok r) (ok _) = ok r

  abbrev start_pass : Sandbox → W → Pass W
  start_pass sb w = record {
    status = record sb.status { observed_generation = sb.meta.generation };
    world = w;
  }

  -- The status is written back whether or not the pass failed.
  unfoldable pub reconcile_live : Sandbox → Exec W Requeue
  unfolding patch_status
  reconcile_live sb w =
      let (result, pass) = reconcile_sandbox sb (start_pass sb w) in
      let (written, w') = patch_status sb pass.status pass.world in (both result written, w')

  abbrev with_finalizer : Sandbox → Sandbox
  with_finalizer sb = record sb { meta = env.lib.add_finalizer sb.meta sandbox_finalizer }

  abbrev guarded : Sandbox → Exec W Requeue
  guarded sb =
      if env.lib.contains_finalizer sb.meta sandbox_finalizer
      then reconcile_live sb
      else do env.api.sandboxes.update (with_finalizer sb); reconcile_live (with_finalizer sb)

  unfoldable pub reconcile : Key → Exec W Requeue
  unfolding ◌>>=◌ pure if_found
  reconcile request =
      if_found (env.api.sandboxes.get request)
        (λ sb. if is_deleting sb.meta then finalize env sb else guarded sb) (pure no_requeue)
