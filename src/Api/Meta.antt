-- ===== src/Api/Meta.antt =====
-- metav1.ObjectMeta and metav1.Condition.
use kubepark.Prelude.{ℕ, Bool, Option, none, some, List, []}
use kubepark.Prelude.Text.{Text}
use kubepark.Api.Time.{Time}

-- types.NamespacedName; cluster-scoped objects have the empty namespace.
pub record Key : Type 0 where
  pub namespace : Text
  pub name : Text

-- A string map, in the order of its literal.
abbrev pub Labels : Type 0
Labels = List (Text × Text)

-- metav1.OwnerReference of a controller owner
pub record OwnerReference : Type 0 where
  pub owner_name : Text
  pub owner_uid : Text

pub record ObjectMeta : Type 0 where
  pub name : Text
  pub namespace : Text
  pub uid : Text
  pub generation : ℕ
  -- opaque in the API; as etcd's revisions, a later write has a greater one
  pub resource_version : ℕ
  pub creation_timestamp : Time
  pub deletion_timestamp : Option Time
  pub finalizers : List Text
  pub labels : Labels
  pub annotations : Labels
  pub owner : Option OwnerReference

-- The metadata of a literal that names an object.
abbrev pub named : Text → Text → Labels → ObjectMeta
named namespace name labels = record {
  name = name;
  namespace = namespace;
  uid = [];
  generation = 0;
  resource_version = 0;
  creation_timestamp = 0;
  deletion_timestamp = none;
  finalizers = [];
  labels = labels;
  annotations = [];
  owner = none;
}

abbrev pub key_of : ObjectMeta → Key
key_of m = record { namespace = m.namespace; name = m.name }

abbrev pub is_deleting : ObjectMeta → Bool
is_deleting m = elim m.deletion_timestamp [ none ↦ Bool.false | some _ ↦ Bool.true ]

-- The arguments of a message's format, `%q` quoted.
pub data Piece : Type 0 where
  lit quoted : Text → Piece
  number : ℕ → Piece

abbrev pub Message : Type 0
Message = List Piece

pub data ConditionType : Type 0 where
  ready pod_ready home_ready rbac_ready template_outdated valid : ConditionType

pub data Reason : Type 0 where
  invalid_ref claim_in_use profile_not_permitted profile_deleted provisioning suspended running
        up_to_date outdated all_valid missing_namespace :
      Reason

pub record Condition : Type 0 where
  pub condition_type : ConditionType
  pub status : Bool
  pub reason : Reason
  pub message : Message
  pub observed_generation : ℕ
