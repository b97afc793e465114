-- ===== src/Api/Profile.antt =====
-- api/v1alpha1/accessprofile_types.go
use kubepark.Prelude.{ℕ, List}
use kubepark.Prelude.Text.{Text}
use kubepark.Api.Meta.{ObjectMeta, Condition}
use kubepark.Api.Rbac.{PolicyRule}

pub record NamespacedGrant : Type 0 where
  pub namespaces : List Text
  pub rules : List PolicyRule

pub record AccessProfileSpec : Type 0 where
  pub grants : List NamespacedGrant
  pub allowed_namespaces : List Text

pub record AccessProfileStatus : Type 0 where
  pub conditions : List Condition
  pub observed_generation : ℕ

pub record AccessProfile : Type 0 where
  pub meta : ObjectMeta
  pub spec : AccessProfileSpec
  pub status : AccessProfileStatus
