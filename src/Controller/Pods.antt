-- ===== src/Controller/Pods.antt =====
-- `suspend`, `run`, `podReady` and `podPendingMessage` of sandbox_controller.go: the executor pod.
pub mod Suspend
pub mod Run
pub mod Stale
use kubepark.Prelude.{
  ℕ, Bool, true, false, not, ◌&&◌, ◌||◌, Option, none, some, List, [], ◌∷◌, if◌then◌else◌, Exec,
  pure, lift, ◌>>=◌, ◌>>◌, if_found, ignore_not_found, ignore_already_exists, when,
}
use kubepark.Prelude.Text.{Text, codes, ◌==◌}
use kubepark.Api.Time.{seconds, Time}
use kubepark.Api.Meta.{
  Key, key_of, is_deleting, Message, lit, ready, pod_ready, template_outdated, provisioning,
  suspended, running, outdated, up_to_date,
}
use kubepark.Api.Core.{
  Pod, PodCondition, PodConditionType, PodPhase, ConditionStatus, yes_true, no_false, unsure,
}
use kubepark.Api.Sandbox.{Sandbox, SandboxStatus, SandboxPhase}
use kubepark.Api.Template.{SandboxTemplate}
use kubepark.Podspec
use kubepark.Podspec.{Options, build_pod}
use kubepark.Controller.Env.{
  Env, Pass, Requeue, no_requeue, call, set_status, current_status, set_phase, set_condition,
  wall_clock,
}

abbrev is_true : ConditionStatus → Bool
is_true yes_true = true
is_true no_false = false
is_true unsure = false

abbrev status_if_ready : PodConditionType → Bool → Bool → Bool
status_if_ready PodConditionType.ready here rest = here
status_if_ready PodConditionType.scheduled here rest = rest
status_if_ready (PodConditionType.another _) here rest = rest

-- The first Ready condition decides.
abbrev ready_condition : List PodCondition → Bool
ready_condition [] = false
ready_condition (c ∷ cs) = status_if_ready c.condition_type (is_true c.status) (ready_condition cs)

abbrev ready_in : PodPhase → Bool → Bool
ready_in PodPhase.running here = here
ready_in _ here = false

unfoldable pub is_pod_ready : Pod → Bool
is_pod_ready pod = ready_in pod.status.phase (ready_condition pod.status.conditions)

abbrev not_scheduled : PodConditionType → ConditionStatus → Bool
not_scheduled PodConditionType.scheduled status = not (is_true status)
not_scheduled PodConditionType.ready status = false
not_scheduled (PodConditionType.another _) status = false

abbrev pending_message_of : List PodCondition → Message
pending_message_of [] = lit (codes "waiting for sandbox pod to become ready") ∷ []
pending_message_of (c ∷ cs) =
    let rest = pending_message_of cs in
    if not_scheduled c.condition_type c.status
    then lit (codes "pod not scheduled: ") ∷ lit c.message ∷ []
    else rest

unfoldable pub pod_pending_message : Pod → Message
pod_pending_message pod = pending_message_of pod.status.conditions

-- A pod that has ended.
abbrev pub is_dead : PodPhase → Bool
is_dead PodPhase.failed = true
is_dead PodPhase.succeeded = true
is_dead _ = false

abbrev phase_name : PodPhase → Text
phase_name PodPhase.pending = codes "Pending"
phase_name PodPhase.running = codes "Running"
phase_name PodPhase.succeeded = codes "Succeeded"
phase_name PodPhase.failed = codes "Failed"
phase_name PodPhase.unknown = codes "Unknown"

abbrev pub is_resuming : SandboxPhase → Bool
is_resuming SandboxPhase.suspended = true
is_resuming SandboxPhase.suspending = true
is_resuming SandboxPhase.resuming = true
is_resuming _ = false

abbrev pub is_running : SandboxPhase → Bool
is_running SandboxPhase.running = true
is_running _ = false

-- The phase while the pod is not ready.
abbrev waiting_phase : SandboxPhase → SandboxPhase
waiting_phase SandboxPhase.resuming = SandboxPhase.resuming
waiting_phase _ = SandboxPhase.provisioning

abbrev clear_ip : SandboxStatus → SandboxStatus
clear_ip s = record s { pod_ip = [] }

abbrev started_phase : SandboxPhase → SandboxPhase
started_phase phase = if is_resuming phase then SandboxPhase.resuming else SandboxPhase.provisioning

abbrev drift : Text → Text → Bool
drift pinned current = not (pinned == []) && not (pinned == current)

module _ {W : Type 0} (env : Env W) where
  abbrev delete_pod : Pod → Exec (Pass W) Unit
  delete_pod pod =
      when (not (is_deleting pod.meta))
        (call (ignore_not_found (env.api.pods.delete (key_of pod.meta))))

  abbrev get_pod : Sandbox → Exec (Pass W) Pod
  get_pod sb = call (
      env.api.pods.get
        (record { namespace = sb.meta.namespace; name = Podspec.pod_name sb.meta.name }))

  abbrev suspended_now : Sandbox → Exec (Pass W) Requeue
  suspended_now sb = do
    set_phase SandboxPhase.suspended
    set_status (λ s. record s { pod_name = [] })
    set_condition env sb pod_ready false suspended (lit (codes "sandbox is suspended") ∷ [])
    set_condition env sb ready false suspended (lit (codes "sandbox is suspended") ∷ [])
    pure no_requeue

  abbrev suspending_now : Pod → Exec (Pass W) Requeue
  suspending_now pod = do set_phase SandboxPhase.suspending; delete_pod pod; pure no_requeue

  unfoldable pub suspend : Sandbox → Exec (Pass W) Requeue
  unfolding ◌>>=◌ pure call if_found ignore_not_found set_status set_phase set_condition
  suspend sb = do set_status clear_ip; if_found (get_pod sb) suspending_now (suspended_now sb)

  abbrev options : Text → Options
  options service_account = record {
    agent_image = env.agent_image;
    priority_class_name = env.priority_class_name;
    service_account_name = service_account;
  }

  abbrev create_pod : Sandbox → Pod → Exec (Pass W) Unit
  create_pod sb desired = do
    owned ← lift (env.lib.set_controller_reference sb.meta desired.meta)
    call (ignore_already_exists (env.api.pods.create (record desired { meta = owned })))

  -- No pod: build one from the current template.
  unfoldable pub start_pod : Sandbox → SandboxTemplate → Text → Text → Exec (Pass W) Requeue
  unfolding ◌>>=◌ pure lift call ignore_already_exists set_status set_condition
  start_pod sb tpl current_hash service_account = do
    create_pod sb (build_pod sb tpl (options service_account))
    set_status λ s. record s {
      phase = started_phase s.phase;
      template_hash = current_hash;
      pod_name = (build_pod sb tpl (options service_account)).meta.name;
    }
    set_condition env sb pod_ready false provisioning (lit (codes "creating sandbox pod") ∷ [])
    set_condition env sb ready false provisioning (lit (codes "creating sandbox pod") ∷ [])
    pure no_requeue

  abbrev replace_dead : Sandbox → Pod → Exec (Pass W) Requeue
  replace_dead sb pod = do
    delete_pod pod
    set_status (λ s. record s { phase = SandboxPhase.provisioning; pod_ip = [] })
    set_condition env sb pod_ready false provisioning
        (lit (codes "pod ") ∷ lit (phase_name pod.status.phase) ∷ lit (codes ", recreating") ∷ [])
    pure (record { after = seconds 10 })

  -- The idle clock starts when the sandbox is first running.
  abbrev start_idle_clock : SandboxStatus → Exec (Pass W) Unit
  start_idle_clock s = when (not (is_running s.phase)) (do
    set_phase SandboxPhase.running
    elim s.last_activity_time [
      | some _ ↦ pure tt
      | none ↦ do
        now ← call (wall_clock env)
        set_status (λ s'. record s' { last_activity_time = some now })
    ])

  abbrev pod_is_ready : Sandbox → Pod → Exec (Pass W) Unit
  pod_is_ready sb pod = do
    s ← current_status
    start_idle_clock s
    set_status (λ s'. record s' { pod_ip = pod.status.pod_ip })
    set_condition env sb pod_ready true running (lit (codes "sandbox pod is ready") ∷ [])
    set_condition env sb ready true running (lit (codes "sandbox is running") ∷ [])

  abbrev pod_is_waiting : Sandbox → Pod → Exec (Pass W) Unit
  pod_is_waiting sb pod = do
    set_status (λ s. record s { phase = waiting_phase s.phase; pod_ip = [] })
    set_condition env sb pod_ready false provisioning (pod_pending_message pod)
    set_condition env sb ready false provisioning (lit (codes "waiting for sandbox pod") ∷ [])

  abbrev report_drift : Sandbox → Text → Exec (Pass W) Unit
  report_drift sb current_hash = do
    s ← current_status
    if drift s.template_hash current_hash
        then set_condition env sb template_outdated true outdated (
            lit
              (codes "template changed; the new template applies on the next suspend/resume cycle")
            ∷ [])
        else set_condition env sb template_outdated false up_to_date
            (lit (codes "pod matches the template") ∷ [])

  unfoldable pub observe_pod : Sandbox → Text → Pod → Exec (Pass W) Requeue
  unfolding ◌>>=◌ pure call ignore_not_found set_status current_status set_phase set_condition
      wall_clock
  observe_pod sb current_hash pod = do
    set_status (λ s. record s { pod_name = pod.meta.name })
    if is_dead pod.status.phase then replace_dead sb pod else do
      if is_pod_ready pod then pod_is_ready sb pod else pod_is_waiting sb pod
      report_drift sb current_hash
      pure no_requeue

  unfoldable pub run : Sandbox → SandboxTemplate → Text → Text → Exec (Pass W) Requeue
  unfolding if_found call
  run sb tpl current_hash service_account =
      if_found (get_pod sb) (observe_pod sb current_hash)
        (start_pod sb tpl current_hash service_account)
