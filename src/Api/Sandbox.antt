-- ===== src/Api/Sandbox.antt =====
-- api/v1alpha1/sandbox_types.go
use kubepark.Prelude.{ℕ, Option, List}
use kubepark.Prelude.Text.{Text}
use kubepark.Api.Time.{Time, Duration}
use kubepark.Api.Meta.{ObjectMeta, Condition}

pub data DesiredState : Type 0 where
  running stopped : DesiredState

pub data AuthMode : Type 0 where
  oidc none : AuthMode

pub data RetainPolicy : Type 0 where
  retain delete : RetainPolicy

pub record OwnerSpec : Type 0 where
  pub name : Text
  pub groups : List Text

pub record ExposedPort : Type 0 where
  pub name : Text
  pub port : ℕ  -- int32, from 1 to 65535
  pub auth : AuthMode
  pub allowed_users : List Text
  pub allowed_groups : List Text

pub record HomeSpec : Type 0 where
  pub size : Option Text  -- resource.Quantity
  pub storage_class_name : Option Text
  pub existing_claim : Text
  pub retain_policy : RetainPolicy

pub record SandboxSpec : Type 0 where
  pub template : Text
  pub access_profile : Text
  pub owner : OwnerSpec
  pub desired_state : DesiredState
  pub idle_timeout : Option Duration
  pub exposed_ports : List ExposedPort
  pub home : Option HomeSpec

-- `unset` is the empty string of a status that was never written.
pub data SandboxPhase : Type 0 where
  unset pending provisioning running suspending suspended resuming failed terminating : SandboxPhase

pub record SandboxStatus : Type 0 where
  pub phase : SandboxPhase
  pub conditions : List Condition
  pub pod_name : Text
  pub pvc_name : Text
  pub service_account_name : Text
  pub pod_ip : Text
  pub template_hash : Text
  pub last_activity_time : Option Time
  pub active_sessions : ℕ  -- int32
  pub observed_generation : ℕ

pub record Sandbox : Type 0 where
  pub meta : ObjectMeta
  pub spec : SandboxSpec
  pub status : SandboxStatus
