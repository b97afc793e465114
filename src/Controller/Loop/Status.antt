-- ===== src/Controller/Loop/Status.antt =====
-- Two invariants of the status that every pass keeps, failing or not.
use kubepark.Prelude.{ℕ, ◌≡◌, ◌≢◌, Bool, none, some, Option, Exec, [], arith}
use kubepark.Prelude.Keeps.{Keeps, keeps_rules}
use kubepark.Prelude.Text.{Text}
use kubepark.Api.Meta.{ConditionType, Reason, Message}
use kubepark.Api.Core.{Pod}
use kubepark.Api.Sandbox.{Sandbox, SandboxStatus}
use kubepark.Api.Sandbox.SandboxPhase.{pending, running, suspended, suspending}
use kubepark.Api.Template.{SandboxTemplate}
use kubepark.Controller.Env.{Env, Pass, Requeue, call, set_status, set_phase, set_condition}
use kubepark.Controller.Home.{reconcile_home}
use kubepark.Controller.Access.{RbacResult, reconcile_rbac, bind_profile}
use kubepark.Controller.Pods.{suspend, run, start_pod, observe_pod}
use kubepark.Api.Profile.{AccessProfile}
use kubepark.Api.Time.{Duration}
use kubepark.Controller.Loop.{reconcile_sandbox, drive, run_unless_idle, with_deadline, after_home}
use kubepark.Controller.Loop.Decision.{with_deadline-status}

-- A running sandbox has an idle clock; one that is suspending or suspended has no route.
pub record IsSound (s : SandboxStatus) : Type 0 where
  pub clocked : s.phase ≡ running → s.last_activity_time ≢ none
  pub unrouted_down : s.phase ≡ suspended → s.pod_ip ≡ []
  pub unrouted_leaving : s.phase ≡ suspending → s.pod_ip ≡ []

module _ {W : Type 0} where
  abbrev SoundPass : Pass W → Type 0
  SoundPass p = IsSound p.status

  Sound-call : {A : Type 0} (m : Exec W A) → Keeps SoundPass (call m)
  unfolding call
  Sound-call m = record { at = λ s h. h }

  Sound-set_pending : Keeps SoundPass (set_phase pending)
  unfolding set_phase
  Sound-set_pending = record { at = λ s h. ground arith }

  Sound-set_pvc : (claim : Text) → Keeps SoundPass (set_status (λ s. record s { pvc_name = claim }))
  unfolding set_status
  Sound-set_pvc claim = record { at = λ s h. ground arith }

  Sound-set_account :
      (name : Text) → Keeps SoundPass (set_status (λ s. record s { service_account_name = name }))
  unfolding set_status
  Sound-set_account name = record { at = λ s h. ground arith }

  module _ (env : Env W) (sb : Sandbox) where
    Sound-set_condition :
        (type : ConditionType) (status : Bool) (reason : Reason) (message : Message)
        → Keeps SoundPass (set_condition env sb type status reason message)
    unfolding set_condition
    Sound-set_condition type status reason message = record { at = λ s h. ground arith }

    ruleset leaves = (
      keeps_rules, Sound-call, Sound-set_pending, Sound-set_pvc, Sound-set_account,
      Sound-set_condition,
    )

    Sound-suspend : Keeps SoundPass (suspend env sb)
    unfolding suspend
    Sound-suspend = record { at = λ s h. ground arith }

    Sound-start_pod :
        (tpl : SandboxTemplate) (hash account : Text)
        → Keeps SoundPass (start_pod env sb tpl hash account)
    unfolding start_pod
    Sound-start_pod tpl hash account = record { at = λ s h. ground arith }

    Sound-observe_pod : (hash : Text) (pod : Pod) → Keeps SoundPass (observe_pod env sb hash pod)
    unfolding observe_pod
    Sound-observe_pod hash pod = record { at = λ s h. ground arith }

    Sound-reconcile_home : Keeps SoundPass (reconcile_home env sb)
    unfolding reconcile_home
    Sound-reconcile_home = search leaves depth 14

    Sound-bind_profile : (profile : AccessProfile) → Keeps SoundPass (bind_profile env sb profile)
    unfolding bind_profile
    Sound-bind_profile profile = search leaves depth 14

    Sound-reconcile_rbac : Keeps SoundPass (reconcile_rbac env sb)
    unfolding reconcile_rbac
    Sound-reconcile_rbac = search (leaves, Sound-bind_profile) depth 14

    Sound-with_deadline :
        (result : Requeue) (active : ℕ) (timeout : Duration)
        → Keeps SoundPass (with_deadline env result active timeout)
    Sound-with_deadline result active timeout = record {
      at = λ s h. rw (with_deadline-status env result active timeout s) h;
    }

    module _ (tpl : SandboxTemplate) where
      Sound-run : (hash account : Text) → Keeps SoundPass (run env sb tpl hash account)
      unfolding run
      Sound-run hash account = search (leaves, Sound-start_pod, Sound-observe_pod) depth 8

      Sound-set_active :
          (n : ℕ) → Keeps SoundPass (set_status (λ s. record s { active_sessions = n }))
      unfolding set_status
      Sound-set_active n = record { at = λ s h. ground arith }

      Sound-run_unless_idle :
          (account : Text) → Keeps SoundPass (run_unless_idle env sb tpl account)
      unfolding run_unless_idle
      Sound-run_unless_idle account =
          search (leaves, Sound-set_active, Sound-suspend, Sound-run, Sound-with_deadline) depth 14

      Sound-drive : (rbac : RbacResult) → Keeps SoundPass (drive env sb tpl rbac)
      unfolding drive
      Sound-drive rbac = search (leaves, Sound-suspend, Sound-run_unless_idle) depth 14

    Sound-after_home :
        (tpl : SandboxTemplate) (o : Option Requeue) → Keeps SoundPass (after_home env sb tpl o)
    Sound-after_home tpl (some stop) = search leaves
    Sound-after_home tpl none = search (leaves, Sound-reconcile_rbac, Sound-drive) depth 14

    Sound-reconcile_sandbox : Keeps SoundPass (reconcile_sandbox env sb)
    unfolding reconcile_sandbox
    Sound-reconcile_sandbox = search (leaves, Sound-reconcile_home, Sound-after_home) depth 14

    -- Every pass, failing or not and whatever the API server answers, keeps the status sound: a
    -- running sandbox has an idle clock, and one that is suspending or suspended has no address.
    pub reconcile_sandbox-IsSound :
        (p : Pass W) → IsSound p.status → IsSound (reconcile_sandbox env sb p).1.status
    reconcile_sandbox-IsSound p h = Sound-reconcile_sandbox.at p h
