-- ===== src/Api/Template.antt =====
-- api/v1alpha1/sandboxtemplate_types.go
use kubepark.Prelude.{ℕ, Option, List}
use kubepark.Prelude.Text.{Text}
use kubepark.Api.Time.{Duration}
use kubepark.Api.Meta.{ObjectMeta}
use kubepark.Api.Core.{EnvVar, EgressRule}

pub data IsolationLevel : Type 0 where
  standard strong : IsolationLevel

pub record SandboxTemplateSpec : Type 0 where
  pub image : Text
  pub command : List Text
  pub env : List EnvVar
  pub resources : Text  -- corev1.ResourceRequirements, which the program only copies
  pub isolation_level : IsolationLevel
  pub runtime_class_name : Option Text
  pub home_size : Text  -- resource.Quantity
  pub storage_class_name : Option Text
  pub egress : List EgressRule
  pub default_idle_timeout : Option Duration
  pub run_as_user : Option ℕ  -- int64, at least 1

pub record SandboxTemplate : Type 0 where
  pub meta : ObjectMeta
  pub spec : SandboxTemplateSpec
