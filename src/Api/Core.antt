-- ===== src/Api/Core.antt =====
-- k8s.io/api/core/v1 and k8s.io/api/networking/v1, with the fields that the program reads or sets.
use kubepark.Prelude.{ℕ, Bool, Option, List}
use kubepark.Prelude.Text.{Text}
use kubepark.Api.Meta.{ObjectMeta, Labels}

pub record EnvVar : Type 0 where
  pub name : Text
  pub value : Text

pub data Protocol : Type 0 where
  tcp udp : Protocol

pub record ContainerPort : Type 0 where
  pub name : Text
  pub container_port : ℕ
  pub protocol : Protocol

pub record VolumeMount : Type 0 where
  pub name : Text
  pub mount_path : Text
  pub read_only : Bool

pub record SecurityContext : Type 0 where
  pub allow_privilege_escalation : Bool
  pub drop : List Text

pub record Container : Type 0 where
  pub name : Text
  pub image : Text
  pub command : List Text
  pub args : List Text
  pub env : List EnvVar
  pub ports : List ContainerPort
  pub resources : Text
  pub security_context : SecurityContext
  pub volume_mounts : List VolumeMount

pub data VolumeSource : Type 0 where
  persistent_volume_claim : Text → VolumeSource
  empty_dir : VolumeSource
  secret : Text → ℕ → VolumeSource

pub record Volume : Type 0 where
  pub name : Text
  pub source : VolumeSource

pub record PodSecurityContext : Type 0 where
  pub run_as_non_root : Bool
  pub run_as_user : ℕ
  pub fs_group : ℕ
  pub seccomp_runtime_default : Bool

pub record PodSpec : Type 0 where
  pub restart_always : Bool
  pub hostname : Text
  pub service_account_name : Text
  pub automount_service_account_token : Bool
  pub termination_grace_period_seconds : ℕ
  pub security_context : PodSecurityContext
  pub init_containers : List Container
  pub containers : List Container
  pub volumes : List Volume
  pub priority_class_name : Text
  pub runtime_class_name : Option Text

pub data PodPhase : Type 0 where
  pending running succeeded failed unknown : PodPhase

-- corev1.PodConditionType; the program looks at two of them.
pub data PodConditionType : Type 0 where
  ready scheduled : PodConditionType
  another : Text → PodConditionType

pub data ConditionStatus : Type 0 where
  yes_true no_false unsure : ConditionStatus

pub record PodCondition : Type 0 where
  pub condition_type : PodConditionType
  pub status : ConditionStatus
  pub message : Text

pub record PodStatus : Type 0 where
  pub phase : PodPhase
  pub conditions : List PodCondition
  pub pod_ip : Text

pub record Pod : Type 0 where
  pub meta : ObjectMeta
  pub spec : PodSpec
  pub status : PodStatus

pub record PersistentVolumeClaim : Type 0 where
  pub meta : ObjectMeta
  pub storage_class_name : Option Text
  pub read_write_once : Bool
  pub storage : Text

pub record Secret : Type 0 where
  pub meta : ObjectMeta
  pub entries : List (Text × Text)

pub record ServiceAccount : Type 0 where
  pub meta : ObjectMeta

pub record Namespace : Type 0 where
  pub meta : ObjectMeta

-- networkingv1.NetworkPolicyPeer: pods of some namespaces, or a block of addresses
pub data Peer : Type 0 where
  selected : (namespace_labels pod_labels : Labels) → Peer
  ip_block : Text → Peer

pub record PolicyPort : Type 0 where
  pub protocol : Protocol
  pub port : ℕ

pub record EgressRule : Type 0 where
  pub to : List Peer
  pub ports : List PolicyPort

pub record IngressRule : Type 0 where
  pub from : List Peer
  pub ports : List PolicyPort

pub record NetworkPolicySpec : Type 0 where
  pub pod_selector : Labels
  pub isolates_ingress : Bool
  pub isolates_egress : Bool
  pub ingress : List IngressRule
  pub egress : List EgressRule

pub record NetworkPolicy : Type 0 where
  pub meta : ObjectMeta
  pub spec : NetworkPolicySpec

-- discoveryv1.Endpoint and discoveryv1.EndpointSlice
pub record Endpoint : Type 0 where
  pub ready : Option Bool
  pub addresses : List Text

pub record EndpointSlice : Type 0 where
  pub meta : ObjectMeta
  pub endpoints : List Endpoint
  pub ports : List (Option ℕ)
