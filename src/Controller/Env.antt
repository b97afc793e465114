-- ===== src/Controller/Env.antt =====
-- The fields of SandboxReconciler with what it calls, and the state of one reconcile pass.
use kubepark.Prelude.{Bool, Option, none, some, [], ◌∷◌, Exec, ok}
use kubepark.Prelude.Text.{Text, codes}
use kubepark.Api.Time.{Time, Duration, seconds}
use kubepark.Api.Meta.{ConditionType, Reason, Message}
use kubepark.Api.Sandbox.{Sandbox, SandboxStatus, SandboxPhase}
use kubepark.Cluster.{Client, Library}
use kubepark.Cluster.Ssh.{Ssh}

pub record Env (W : Type 0) : Type 0 where
  pub api : Client W
  pub lib : Library
  pub ssh : Ssh W
  pub agent_image : Text
  pub priority_class_name : Text
  pub gateway_namespace : Text
  -- POD_NAMESPACE
  pub pod_namespace : Text
  -- The clock that tests put in.
  pub now_override : Option (W → Time × W)

-- ctrl.Result; no time means that nothing is requeued.
pub record Requeue : Type 0 where
  pub after : Duration

abbrev pub no_requeue : Requeue
no_requeue = record { after = seconds 0 }

-- What `reconcileSandbox` mutates: the next status in memory, and the world.
pub record Pass (W : Type 0) : Type 0 where
  pub status : SandboxStatus
  pub world : W

module _ {W A : Type 0} where
  unfoldable pub call : Exec W A → Exec (Pass W) A
  call m p = let (r, w) = m p.world in (r, record p { world = w })

module _ {W : Type 0} where
  unfoldable pub set_status : (SandboxStatus → SandboxStatus) → Exec (Pass W) Unit
  set_status f p = (ok tt, record p { status = f p.status })

  unfoldable pub current_status : Exec (Pass W) SandboxStatus
  current_status p = (ok p.status, p)

abbrev with_phase : SandboxPhase → SandboxStatus → SandboxStatus
with_phase phase s = record s { phase = phase }

unfoldable pub set_phase : {W : Type 0} → SandboxPhase → Exec (Pass W) Unit
unfolding set_status
set_phase phase = set_status (with_phase phase)

module _ {W : Type 0} (env : Env W) where
  abbrev read_clock : Option (W → Time × W) → W → Time × W
  read_clock none = env.api.time_now
  read_clock (some clock) = clock

  -- (*SandboxReconciler).now
  unfoldable pub now : Exec W Time
  now w = let (t, w') = read_clock env.now_override w in (ok t, w')

  -- time.Now, time.Since and metav1.Now, which the override does not reach
  unfoldable pub wall_clock : Exec W Time
  wall_clock w = let (t, w') = env.api.time_now w in (ok t, w')

  unfoldable pub set_condition :
      Sandbox → ConditionType → Bool → Reason → Message → Exec (Pass W) Unit
  unfolding set_status
  set_condition sb type status reason message = set_status λ s. record s {
    conditions = env.lib.set_status_condition s.conditions (record {
      condition_type = type;
      status = status;
      reason = reason;
      message = message;
      observed_generation = sb.meta.generation;
    });
  }

  abbrev or_text : Text → Text → Text
  or_text [] t = t
  or_text (c ∷ s) t = c ∷ s

  unfoldable pub operator_namespace : Text
  operator_namespace = or_text env.pod_namespace (codes "kubepark-system")

  unfoldable pub gateway_namespace : Text
  unfolding operator_namespace
  gateway_namespace = or_text env.gateway_namespace operator_namespace
