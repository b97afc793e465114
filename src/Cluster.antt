-- ===== src/Cluster.antt =====
-- What the program calls and does not implement: the API server through controller-runtime's
-- client, the clock, and the functions of apimachinery, controller-runtime and crypto/ssh. They
-- are records of functions, over a state `W` that stands for the whole world outside.
pub mod Os
pub mod Ssh
use kubepark.Prelude.{ℕ, Bool, Option, List, Exec, Result}
use kubepark.Prelude.Text.{Text}
use kubepark.Api.Time.{Time}
use kubepark.Api.Meta.{Key, ObjectMeta, Condition}
use kubepark.Api.Core.{
  Pod, PersistentVolumeClaim, Secret, ServiceAccount, Namespace, NetworkPolicy, NetworkPolicySpec,
  EndpointSlice,
}
use kubepark.Api.Rbac.{PolicyRule, Role, Subject, RoleBinding}
use kubepark.Api.Sandbox.{Sandbox, SandboxStatus}
use kubepark.Api.Template.{SandboxTemplate, SandboxTemplateSpec}
use kubepark.Api.Session.{SandboxSession}
use kubepark.Api.Profile.{AccessProfile}

-- The options of a List call.
pub data Selector : Type 0 where
  everywhere : Selector
  in_namespace : Text → Selector
  by_existing_claim : (namespace claim : Text) → Selector
  by_template by_access_profile : Text → Selector
  by_label : (label value : Text) → Selector
  labelled_in_namespace : (namespace label value : Text) → Selector

pub record Resource (W Obj : Type 0) : Type 0 where
  pub get : Key → Exec W Obj
  pub list : Selector → Exec W (List Obj)
  pub create : Obj → Exec W Unit
  pub update : Obj → Exec W Unit
  pub update_status : Obj → Exec W Unit
  -- A merge patch from the first object to the second.
  pub patch : Obj → Obj → Exec W Unit
  pub patch_status : Obj → Obj → Exec W Unit
  pub delete : Key → Exec W Unit

pub record Client (W : Type 0) : Type 0 where
  pub sandboxes : Resource W Sandbox
  pub templates : Resource W SandboxTemplate
  pub sessions : Resource W SandboxSession
  pub profiles : Resource W AccessProfile
  pub pods : Resource W Pod
  pub claims : Resource W PersistentVolumeClaim
  pub secrets : Resource W Secret
  pub service_accounts : Resource W ServiceAccount
  pub network_policies : Resource W NetworkPolicy
  pub roles : Resource W Role
  pub role_bindings : Resource W RoleBinding
  pub namespaces : Resource W Namespace
  pub endpoint_slices : Resource W EndpointSlice
  -- time.Now: the clock may go on between two calls.
  pub time_now : W → Time × W

pub record Library : Type 0 where
  -- meta.SetStatusCondition
  pub set_status_condition : List Condition → Condition → List Condition
  -- controllerutil
  pub contains_finalizer : ObjectMeta → Text → Bool
  pub add_finalizer : ObjectMeta → Text → ObjectMeta
  pub remove_finalizer : ObjectMeta → Text → ObjectMeta
  pub set_controller_reference : (owner object : ObjectMeta) → Result ObjectMeta
  -- equality.Semantic.DeepEqual at the types at which it is called
  pub same_status : SandboxStatus → SandboxStatus → Bool
  pub same_policy : NetworkPolicySpec → NetworkPolicySpec → Bool
  pub same_subjects : List Subject → List Subject → Bool
  pub same_rules : List PolicyRule → List PolicyRule → Bool
  -- json.Marshal, sha256.Sum256 and hex.EncodeToString
  pub marshal_template : SandboxTemplateSpec → Option Text
  pub sha256_hex : Text → Text
