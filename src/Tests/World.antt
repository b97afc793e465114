-- ===== src/Tests/World.antt =====
-- A small concrete world: objects, an API server that answers with them, and the libraries.
use kubepark.Prelude.{ℕ, true, false, Option, none, some, [], ◌∷◌, ◌*◌, ok, err, not_found}
use kubepark.Prelude.Text.{Text, codes}
use kubepark.Api.Time.{second, seconds}
use kubepark.Api.Meta.{ObjectMeta, named}
use kubepark.Api.Core.{Pod, PodPhase, PodConditionType, yes_true}
use kubepark.Api.Sandbox.{Sandbox, SandboxStatus, SandboxPhase, DesiredState, ExposedPort, oidc}
use kubepark.Api.Template.{SandboxTemplate, standard}
use kubepark.Api.Session.{SandboxSession, SessionKind, ExitReason, active}
use kubepark.Api.Profile.{AccessProfile}
use kubepark.Cluster.{Resource, Client, Library}
use kubepark.Cluster.Ssh.{Ssh}
use kubepark.Podspec.{Options, build_pod}
use kubepark.Controller.Env.{Env, Pass}

module _ {W : Type 0} where
  -- Nothing is there, and every write succeeds.
  abbrev pub empty : {Obj : Type 0} → Resource W Obj
  empty = record {
    get = λ k w. (err not_found, w);
    list = λ s w. (ok [], w);
    create = λ o w. (ok tt, w);
    update = λ o w. (ok tt, w);
    update_status = λ o w. (ok tt, w);
    patch = λ a b w. (ok tt, w);
    patch_status = λ a b w. (ok tt, w);
    delete = λ k w. (ok tt, w);
  }

  -- One object, under every key.
  abbrev pub always : {Obj : Type 0} → Obj → Resource W Obj
  always o = record empty { get = λ k w. (ok o, w); list = λ s w. (ok (o ∷ []), w) }

  abbrev pub bare_client : Client W
  bare_client = record {
    sandboxes = empty;
    templates = empty;
    sessions = empty;
    profiles = empty;
    pods = empty;
    claims = empty;
    secrets = empty;
    service_accounts = empty;
    network_policies = empty;
    roles = empty;
    role_bindings = empty;
    namespaces = empty;
    endpoint_slices = empty;
    time_now = λ w. (7000 * second, w);
  }

  -- A signature is the authority's key, whose public half is the key itself.
  abbrev pub plain_ssh : Ssh W
  plain_ssh = record {
    generate_key = λ w. (ok (codes "pub", codes "priv"), w);
    marshal_private_key = λ k c. ok k;
    new_public_key = λ k. ok k;
    marshal_authorized_key = λ k. k;
    marshal_certificate = λ c. c.key_id;
    parse_private_key = λ t. ok t;
    parse_authorized_key = λ t. ok t;
    random_bytes = λ n w. (ok [], w);
    random_uint64 = λ w. (ok 7, w);
    sign_cert = λ ca c w. (ok (record c { signature_key = some ca; signature = ca }), w);
    check_cert = λ is_authority now principal c. ok tt;
  }

abbrev pub plain_library : Library
plain_library = record {
  set_status_condition = λ cs c. c ∷ cs;
  contains_finalizer = λ m f. true;
  add_finalizer = λ m f. m;
  remove_finalizer = λ m f. m;
  set_controller_reference = λ owner m. ok m;
  same_status = λ a b. false;
  same_policy = λ a b. true;
  same_subjects = λ a b. true;
  same_rules = λ a b. true;
  marshal_template = λ t. some (codes "template");
  sha256_hex = λ t. codes "0123456789abcdef";
}

abbrev pub env_of : {W : Type 0} → Client W → Env W
env_of api = record {
  api = api;
  lib = plain_library;
  ssh = plain_ssh;
  agent_image = codes "agent:1";
  priority_class_name = [];
  gateway_namespace = [];
  pod_namespace = [];
  now_override = none;
}

abbrev pub dev : Text
dev = codes "dev"

abbrev pub alice : Text
alice = codes "alice"

abbrev pub web_port : ExposedPort
web_port = record {
  name = codes "web";
  port = 8080;
  auth = oidc;
  allowed_users = [];
  allowed_groups = codes "team" ∷ [];
}

abbrev pub idle_status : SandboxStatus
idle_status = record {
  phase = SandboxPhase.running;
  conditions = [];
  pod_name = [];
  pvc_name = [];
  service_account_name = [];
  pod_ip = codes "10.0.0.7";
  template_hash = [];
  last_activity_time = some (1000 * second);
  active_sessions = 0;
  observed_generation = 1;
}

abbrev pub meta_of : Text → Text → ℕ → ObjectMeta
meta_of name uid created = record (named dev name []) { uid = uid; creation_timestamp = created }

-- Alice's sandbox `box`, idle for 6000 seconds with a window of 3600.
abbrev pub box : Sandbox
box = record {
  meta = meta_of (codes "box") (codes "u1") 5;
  spec = record {
    template = codes "std";
    access_profile = codes "reader";
    owner = record { name = alice; groups = [] };
    desired_state = DesiredState.running;
    idle_timeout = some (seconds 3600);
    exposed_ports = web_port ∷ [];
    home = none;
  };
  status = idle_status;
}

-- A younger sandbox.
abbrev pub late_box : Sandbox
late_box = record box { meta = meta_of (codes "late") (codes "u2") 9 }

abbrev pub std : SandboxTemplate
std = record {
  meta = meta_of (codes "std") (codes "t1") 1;
  spec = record {
    image = codes "debian";
    command = [];
    env = [];
    resources = [];
    isolation_level = standard;
    runtime_class_name = none;
    home_size = codes "10Gi";
    storage_class_name = none;
    egress = [];
    default_idle_timeout = none;
    run_as_user = none;
  };
}

abbrev pub reader : AccessProfile
reader = record {
  meta = meta_of (codes "reader") (codes "p1") 1;
  spec = record {
    grants = record { namespaces = dev ∷ codes "ops" ∷ dev ∷ []; rules = [] } ∷ [];
    allowed_namespaces = dev ∷ [];
  };
  status = record { conditions = []; observed_generation = 1 };
}

abbrev pub options : Options
options = record {
  agent_image = codes "agent:1";
  priority_class_name = [];
  service_account_name = [];
}

-- The pod of `box`, ready.
abbrev pub ready_pod : Pod
ready_pod = record (build_pod box std options) {
  status = record {
    phase = PodPhase.running;
    conditions =
        record { condition_type = PodConditionType.ready; status = yes_true; message = [] } ∷ [];
    pod_ip = codes "10.0.0.9";
  };
}

abbrev pub live_session : SandboxSession
live_session = record {
  meta = meta_of (codes "s") (codes "s1") (100 * second);
  spec = record {
    sandbox_name = codes "box";
    user = alice;
    client_addr = [];
    kind = SessionKind.ssh;
    cert_serial = [];
    heartbeat_interval = none;
  };
  status = record {
    state = active;
    start_time = none;
    last_activity_time = some (1000 * second);
    end_time = none;
    exit_reason = ExitReason.unset;
  };
}

-- One session in a slot, or none.
abbrev pub Slot : Type 0
Slot = Option SandboxSession

abbrev pub pass_of : {W : Type 0} → W → Pass W
pass_of w = record { status = idle_status; world = w }
