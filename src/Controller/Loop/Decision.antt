-- ===== src/Controller/Loop/Decision.antt =====
-- When a pass suspends the sandbox, and when it runs it.
use kubepark.Prelude.{
  ℕ, ◌<◌, ◌≡◌, ◌↔◌, ◌⊎◌, inl, inr, refl, Bool, true, false, Option, List, Result, ok, err, arith,
  eqb, Bool-cases,
}
use kubepark.Prelude.Int.{pos_part}
use kubepark.Prelude.Text.{Text}
use kubepark.Api.Time.{Time, Duration, max_duration}
use kubepark.Api.Sandbox.{Sandbox, SandboxStatus, SandboxPhase, DesiredState, stopped}
use kubepark.Api.Sandbox.SandboxPhase.{suspended, suspending}
use kubepark.Api.Template.{SandboxTemplate}
use kubepark.Api.Session.{SandboxSession}
use kubepark.Cluster.{in_namespace}
use kubepark.Podspec.{template_hash}
use kubepark.Controller.Env.{Env, Pass, Requeue}
use kubepark.Controller.Access.{RbacResult}
use kubepark.Controller.Idle.{
  count_active, idle_expired, active_session_count, effective_idle_timeout,
}
use kubepark.Controller.Idle.Laws.{IsIdle, idle_expired_iff}
use kubepark.Controller.Pods.{run}
use kubepark.Controller.Pods.Suspend.{suspend_phase}
use kubepark.Controller.Pods.Run.{IsUp, run-IsUp}
use kubepark.Controller.Loop.{drive, run_unless_idle, with_deadline}

-- The suspend triggers of the state machine: stopped by the owner, or idle with no session.
abbrev pub ShouldSuspend : DesiredState → ℕ → Time → Option Time → Duration → Type 0
ShouldSuspend desired active now last timeout =
    (desired ≡ stopped) ⊎ ((active ≡ 0) × IsIdle now last timeout)

abbrev pub IsDown : SandboxPhase → Type 0
IsDown phase = (phase ≡ suspended) ⊎ (phase ≡ suspending)

module _ {W : Type 0} (env : Env W) where
  pub with_deadline-status :
      (result : Requeue) (active : ℕ) (timeout : Duration) (p : Pass W)
      → (with_deadline env result active timeout p).1.status ≡ p.status
  unfolding with_deadline
  with_deadline-status result active timeout p = ground arith

  module _ (sb : Sandbox) (tpl : SandboxTemplate) (p : Pass W) where
    abbrev listing : Result (List SandboxSession) × W
    listing = env.api.sessions.list (in_namespace sb.meta.namespace) p.world

    -- The wall clock when the idle test reads it.
    abbrev pub test_time : Time
    test_time = (env.api.time_now listing.1).0

    abbrev pub is_idle : ℕ → Bool
    is_idle active = elim (eqb active 0) [
      | true ↦ idle_expired test_time p.status.last_activity_time (effective_idle_timeout sb tpl)
      | false ↦ false
    ]

    module _ (account : Text) (sessions : List SandboxSession) (r : Requeue)
        (listed : listing.0 ≡ ok sessions)
        (done : (run_unless_idle env sb tpl account p).0 ≡ ok r) where
      abbrev outcome : SandboxStatus
      outcome = (run_unless_idle env sb tpl account p).1.status

      abbrev pub counted : Pass W
      counted = record {
        status = record p.status { active_sessions = count_active sb.meta.name sessions };
        world = listing.1;
      }

      abbrev clocked : Pass W
      clocked = record counted { world = (env.api.time_now listing.1).1 }

      run_unless_idle-IsDown :
          is_idle (count_active sb.meta.name sessions) ≡ true → IsDown outcome.phase
      unfolding run_unless_idle active_session_count
      run_unless_idle-IsDown h = ground (arith, suspend_phase env sb clocked r)

      -- The pass in which the pod is run: the clock was read only if no session is active.
      abbrev running_pass : Pass W
      running_pass = elim (eqb (count_active sb.meta.name sessions) 0) [
        | true ↦ clocked
        | false ↦ counted
      ]

      abbrev hash : Text
      hash = template_hash env.lib tpl.spec

      abbrev ran : Result Requeue × Pass W
      ran = run env sb tpl hash account running_pass

      run_unless_idle-IsUp :
          is_idle (count_active sb.meta.name sessions) ≡ false → IsUp outcome.phase
      unfolding run_unless_idle active_session_count
      run_unless_idle-IsUp h = by_result ran.0 refl
        where
          by_result : (o : Result Requeue) → ran.0 ≡ o → IsUp outcome.phase
          by_result (ok x) e = ground (
            arith,
            run-IsUp env sb tpl hash account running_pass x,
            with_deadline-status x (count_active sb.meta.name sessions)
                (effective_idle_timeout sb tpl) ran.1,
          )
          by_result (err x) e = ground arith

module _ {W : Type 0} (env : Env W) (sb : Sandbox) (tpl : SandboxTemplate) (p : Pass W)
    (rbac : RbacResult) (sessions : List SandboxSession) (r : Requeue)
    (listed : (listing env sb tpl p).0 ≡ ok sessions) (granted : rbac.ready ≡ true)
    (done : (drive env sb tpl rbac p).0 ≡ ok r)
    (bounded : pos_part (effective_idle_timeout sb tpl) < max_duration) where
  abbrev active : ℕ
  active = count_active sb.meta.name sessions

  abbrev Triggered : Type 0
  Triggered =
      ShouldSuspend sb.spec.desired_state active (test_time env sb tpl p)
        p.status.last_activity_time (effective_idle_timeout sb tpl)

  abbrev end_phase : SandboxPhase
  end_phase = (drive env sb tpl rbac p).1.status.phase

  is_idle_iff : (is_idle env sb tpl p active ≡ true) ↔ (
      (active ≡ 0)
      × IsIdle (test_time env sb tpl p) p.status.last_activity_time (effective_idle_timeout sb tpl))
  is_idle_iff = ground (
    arith,
    idle_expired_iff (test_time env sb tpl p) p.status.last_activity_time
        (effective_idle_timeout sb tpl),
  )

  drive-IsDown : Triggered → IsDown end_phase
  unfolding drive
  drive-IsDown t = ground (
    arith,
    suspend_phase env sb p r,
    run_unless_idle-IsDown env sb tpl p rbac.service_account sessions r listed,
    is_idle_iff,
  )

  drive-IsUp : ¬ Triggered → IsUp end_phase
  unfolding drive
  drive-IsUp t =
      ground (
        arith,
        run_unless_idle-IsUp env sb tpl p rbac.service_account sessions r listed,
        is_idle_iff,
      )

  untriggered :
      sb.spec.desired_state ≡ DesiredState.running
      → is_idle env sb tpl p active ≡ false
      → ¬ Triggered
  untriggered e busy (inl x) = ground arith
  untriggered e busy (inr x) = cc (is_idle_iff.1 x, busy)

  triggered_if_down : IsDown end_phase → Triggered
  triggered_if_down d = elim (Bool-cases (is_idle env sb tpl p active)) [
    | inl idle ↦ inr (is_idle_iff.0 idle)
    | inr busy ↦ by_desired busy sb.spec.desired_state refl
  ]
    where
      up_is_not_down : IsUp end_phase → ⊥
      up_is_not_down u = ground arith

      by_desired :
          is_idle env sb tpl p active ≡ false
          → (s : DesiredState) → sb.spec.desired_state ≡ s
          → Triggered
      by_desired busy stopped e = inl e
      by_desired busy DesiredState.running e =
          absurd (up_is_not_down (drive-IsUp (untriggered e busy)))

  -- With the sessions listed, the access settled, a timeout below the largest duration and no error,
  -- the state machine leaves the sandbox suspending or suspended just if it is stopped by its owner,
  -- or no session of it is active and its idle window has passed.
  pub drive_suspends_iff : IsDown end_phase ↔ Triggered
  drive_suspends_iff = (triggered_if_down, drive-IsDown)
