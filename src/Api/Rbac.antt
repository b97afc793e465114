-- ===== src/Api/Rbac.antt =====
-- k8s.io/api/rbac/v1, with the fields that the program sets.
use kubepark.Prelude.{List}
use kubepark.Prelude.Text.{Text}
use kubepark.Api.Meta.{ObjectMeta}

-- rbacv1.PolicyRule, which the program only copies and compares
pub record PolicyRule : Type 0 where
  pub verbs : List Text
  pub api_groups : List Text
  pub resources : List Text

pub record Role : Type 0 where
  pub meta : ObjectMeta
  pub rules : List PolicyRule

-- The API group of every reference is rbac.authorization.k8s.io.
pub data RoleKind : Type 0 where
  role cluster_role : RoleKind

pub record RoleRef : Type 0 where
  pub kind : RoleKind
  pub name : Text

-- A subject of kind ServiceAccount
pub record Subject : Type 0 where
  pub name : Text
  pub namespace : Text

pub record RoleBinding : Type 0 where
  pub meta : ObjectMeta
  pub role_ref : RoleRef
  pub subjects : List Subject
