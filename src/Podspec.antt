-- ===== src/Podspec.antt =====
-- internal/controller/podspec/builder.go: the names and labels of a sandbox's objects, its pod and
-- its home claim.
pub mod NetPol
pub mod Laws
use kubepark.Prelude.{
  ℕ, Bool, true, false, not, Option, none, some, List, [], ◌∷◌, ◌++◌, map, if◌then◌else◌,
}
use kubepark.Prelude.Text.{Text, codes, ◌==◌}
use kubepark.Api.Meta.{ObjectMeta, Labels, named}
use kubepark.Api.Core.{
  EnvVar, ContainerPort, tcp, Container, SecurityContext, VolumeMount, Volume, PodSpec, Pod,
  persistent_volume_claim, empty_dir, secret, PersistentVolumeClaim,
}
use kubepark.Api.Core.PodPhase.{unknown}
use kubepark.Api.Sandbox.{Sandbox, ExposedPort, HomeSpec}
use kubepark.Api.Template.{SandboxTemplate, SandboxTemplateSpec, IsolationLevel, standard, strong}
use kubepark.Cluster.{Library}

abbrev pub label_sandbox : Text
label_sandbox = codes "kubepark.dev/sandbox"

abbrev pub label_sandbox_uid : Text
label_sandbox_uid = codes "kubepark.dev/sandbox-uid"

abbrev pub label_component : Text
label_component = codes "kubepark.dev/component"

abbrev pub label_managed_by : Text
label_managed_by = codes "app.kubernetes.io/managed-by"

abbrev pub agent_port : ℕ
agent_port = 2222

abbrev pub home_mount_path : Text
home_mount_path = codes "/home/sandbox"

abbrev pub agent_dir : Text
agent_dir = codes "/opt/kubepark"

abbrev pub host_key_mount_path : Text
host_key_mount_path = codes "/etc/kubepark/host"

abbrev pub volume_home : Text
volume_home = codes "home"

abbrev pub volume_agent : Text
volume_agent = codes "kubepark-bin"

abbrev pub volume_host_key : Text
volume_host_key = codes "kubepark-host"

pub record Options : Type 0 where
  pub agent_image : Text
  pub priority_class_name : Text
  pub service_account_name : Text

unfoldable pub pod_name : Text → Text
pod_name sandbox = codes "kubepark-sb-" ++ sandbox

unfoldable pub pvc_name : Text → Text
pvc_name sandbox = codes "kubepark-home-" ++ sandbox

unfoldable pub host_key_name : Text → Text
host_key_name sandbox = codes "kubepark-hostkey-" ++ sandbox

unfoldable pub net_pol_name : Text → Text
net_pol_name sandbox = codes "kubepark-sb-" ++ sandbox

unfoldable pub labels : Sandbox → Labels
labels sb =
    (label_sandbox, sb.meta.name)
    ∷ (label_sandbox_uid, sb.meta.uid)
    ∷ (label_component, codes "sandbox")
    ∷ (label_managed_by, codes "kubepark")
    ∷ []

-- The first n bytes of a text, s[:n].
abbrev pub first : ℕ → Text → Text
first ℕ.zero s = []
first (ℕ.suc n) [] = []
first (ℕ.suc n) (c ∷ s) = c ∷ first n s

abbrev hash_of : Library → Option Text → Text
hash_of lib none = codes "unhashable"
hash_of lib (some raw) = first 12 (lib.sha256_hex raw)

unfoldable pub template_hash : Library → SandboxTemplateSpec → Text
template_hash lib spec = hash_of lib (lib.marshal_template spec)

abbrev pub existing_claim_of : Option HomeSpec → Text
existing_claim_of none = []
existing_claim_of (some home) = home.existing_claim

-- Whether `sb.Spec.Home != nil && sb.Spec.Home.ExistingClaim != ""`.
abbrev pub has_existing_claim : Sandbox → Bool
has_existing_claim sb = not (existing_claim_of sb.spec.home == [])

abbrev exposed_container_port : ExposedPort → ContainerPort
exposed_container_port p = record { name = p.name; container_port = p.port; protocol = tcp }

abbrev container_security : SecurityContext
container_security = record { allow_privilege_escalation = false; drop = codes "ALL" ∷ [] }

abbrev or_default : ℕ → Option ℕ → ℕ
or_default d none = d
or_default d (some n) = n

abbrev main_args : List Text → List Text
main_args [] = []
main_args (c ∷ cs) = codes "--" ∷ c ∷ cs

abbrev runtime_class : IsolationLevel → Option Text → Option Text
runtime_class standard _ = none
runtime_class strong name = name

abbrev agent_install : Options → Container
agent_install opts = record {
  name = codes "agent-install";
  image = opts.agent_image;
  command = [];
  args = codes "agent" ∷ codes "install" ∷ agent_dir ∷ [];
  env = [];
  ports = [];
  resources = [];
  security_context = container_security;
  volume_mounts = record { name = volume_agent; mount_path = agent_dir; read_only = false } ∷ [];
}

abbrev sandbox_container : Sandbox → SandboxTemplate → Container
sandbox_container sb tpl = record {
  name = codes "sandbox";
  image = tpl.spec.image;
  command = (agent_dir ++ codes "/agent") ∷ [];
  args = main_args tpl.spec.command;
  env =
      record { name = codes "HOME"; value = home_mount_path }
      ∷ record { name = codes "KUBEPARK_SANDBOX"; value = sb.meta.name }
      ∷ record { name = codes "KUBEPARK_NAMESPACE"; value = sb.meta.namespace }
      ∷ record { name = codes "KUBEPARK_OWNER"; value = sb.spec.owner.name }
      ∷ tpl.spec.env;
  ports =
      record { name = codes "ssh"; container_port = agent_port; protocol = tcp }
      ∷ map exposed_container_port sb.spec.exposed_ports;
  resources = tpl.spec.resources;
  security_context = container_security;
  volume_mounts =
      record { name = volume_home; mount_path = home_mount_path; read_only = false }
      ∷ record { name = volume_agent; mount_path = agent_dir; read_only = true }
      ∷ record { name = volume_host_key; mount_path = host_key_mount_path; read_only = true }
      ∷ [];
}

-- The claim that the pod mounts as its home.
abbrev pub home_claim : Sandbox → Text
home_claim sb =
    if has_existing_claim sb then existing_claim_of sb.spec.home else pvc_name sb.meta.name

abbrev volumes : Sandbox → List Volume
volumes sb =
    record { name = volume_home; source = persistent_volume_claim (home_claim sb) }
    ∷ record { name = volume_agent; source = empty_dir }
    ∷ record { name = volume_host_key; source = secret (host_key_name sb.meta.name) 0o400 }
    ∷ []

unfoldable pub build_pod : Sandbox → SandboxTemplate → Options → Pod
unfolding pod_name pvc_name host_key_name labels ◌==◌
build_pod sb tpl opts = record {
  meta = record (named sb.meta.namespace (pod_name sb.meta.name) (labels sb)) {
    annotations = (codes "cluster-autoscaler.kubernetes.io/safe-to-evict", codes "false") ∷ [];
  };
  spec = record {
    restart_always = true;
    hostname = sb.meta.name;
    service_account_name = opts.service_account_name;
    automount_service_account_token = not (opts.service_account_name == []);
    termination_grace_period_seconds = 30;
    security_context = record {
      run_as_non_root = true;
      run_as_user = or_default 1000 tpl.spec.run_as_user;
      fs_group = or_default 1000 tpl.spec.run_as_user;
      seccomp_runtime_default = true;
    };
    init_containers = agent_install opts ∷ [];
    containers = sandbox_container sb tpl ∷ [];
    volumes = volumes sb;
    priority_class_name = opts.priority_class_name;
    runtime_class_name = runtime_class tpl.spec.isolation_level tpl.spec.runtime_class_name;
  };
  status = record { phase = unknown; conditions = []; pod_ip = [] };
}

abbrev or_else {ℓ} : {A : Type ℓ} → Option A → A → A
or_else none a = a
or_else (some b) a = b

abbrev size_of : Option HomeSpec → Text → Text
size_of none size = size
size_of (some home) size = or_else home.size size

abbrev storage_class_of : Option HomeSpec → Option Text → Option Text
storage_class_of none class = class
storage_class_of (some home) class = elim home.storage_class_name [ none ↦ class | some c ↦ some c ]

unfoldable pub build_pvc : Sandbox → SandboxTemplate → PersistentVolumeClaim
unfolding pvc_name labels
build_pvc sb tpl = record {
  meta = named sb.meta.namespace (pvc_name sb.meta.name) (labels sb);
  storage_class_name = storage_class_of sb.spec.home tpl.spec.storage_class_name;
  read_write_once = true;
  storage = size_of sb.spec.home tpl.spec.home_size;
}

unfoldable pub fqdn_principals : Sandbox → List Text
fqdn_principals sb = (sb.meta.name ++ codes "." ++ sb.meta.namespace) ∷ []
