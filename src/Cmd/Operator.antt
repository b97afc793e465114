-- ===== src/Cmd/Operator.antt =====
-- cmd/operator.go: the options of the operator's servers and the order of its set-up.
use kubepark.Prelude.{
  Bool, true, false, List, [], ◌∷◌, if◌then◌else◌, Exec, Result, ok, err, ◌>>=◌, ◌>>◌,
}
use kubepark.Prelude.Text.{Text, codes}
use kubepark.Controller.Watches.{Manager, setup_sandboxes, setup_profiles, setup_sessions}

-- The flags, as they are parsed.
pub record OperatorFlags : Type 0 where
  pub agent_image : Text
  pub priority_class_name : Text
  pub gateway_namespace : Text
  pub metrics_addr : Text
  pub probe_addr : Text
  pub enable_leader_election : Bool
  pub secure_metrics : Bool
  pub enable_http2 : Bool
  pub webhook_cert_path : Text
  pub webhook_cert_name : Text
  pub webhook_cert_key : Text
  pub metrics_cert_path : Text
  pub metrics_cert_name : Text
  pub metrics_cert_key : Text

-- What a flag is where it is not given; `agent_image` is the variable AGENT_IMAGE.
abbrev pub default_flags : Text → OperatorFlags
default_flags agent_image = record {
  agent_image = agent_image;
  priority_class_name = [];
  gateway_namespace = [];
  metrics_addr = codes "0";
  probe_addr = codes ":8081";
  enable_leader_election = false;
  secure_metrics = true;
  enable_http2 = false;
  webhook_cert_path = [];
  webhook_cert_name = codes "tls.crt";
  webhook_cert_key = codes "tls.key";
  metrics_cert_path = [];
  metrics_cert_name = codes "tls.crt";
  metrics_cert_key = codes "tls.key";
}

-- The protocols that the list of TLS options leaves to a server; all of them where it is empty.
abbrev pub tls_protocols : Bool → List (List Text)
tls_protocols enable_http2 = if enable_http2 then [] else (codes "http/1.1" ∷ []) ∷ []

pub record CertFiles : Type 0 where
  pub dir : Text
  pub name : Text
  pub key : Text

abbrev no_cert_files : CertFiles
no_cert_files = record { dir = []; name = []; key = [] }

abbrev pub cert_files : Text → Text → Text → CertFiles
cert_files [] name key = no_cert_files
cert_files (c ∷ cs) name key = record { dir = c ∷ cs; name = name; key = key }

pub record WebhookOptions : Type 0 where
  pub tls_opts : List (List Text)
  pub certs : CertFiles

-- `filtered` tells whether requests are authenticated and authorized.
pub record MetricsOptions : Type 0 where
  pub bind_address : Text
  pub secure_serving : Bool
  pub tls_opts : List (List Text)
  pub filtered : Bool
  pub certs : CertFiles

unfoldable pub webhook_options : OperatorFlags → WebhookOptions
webhook_options flags = record {
  tls_opts = tls_protocols flags.enable_http2;
  certs = cert_files flags.webhook_cert_path flags.webhook_cert_name flags.webhook_cert_key;
}

unfoldable pub metrics_options : OperatorFlags → MetricsOptions
metrics_options flags = record {
  bind_address = flags.metrics_addr;
  secure_serving = flags.secure_metrics;
  tls_opts = tls_protocols flags.enable_http2;
  filtered = flags.secure_metrics;
  certs = cert_files flags.metrics_cert_path flags.metrics_cert_name flags.metrics_cert_key;
}

-- controller-runtime's manager.
pub record OperatorManager (W : Type 0) : Type 0 where
  pub new_manager : WebhookOptions → MetricsOptions → Text → Bool → Exec W (Manager W)
  pub add_healthz : Exec W Unit
  pub add_readyz : Exec W Unit
  pub start : Exec W Unit

-- The end of the process; each error is logged and ends it with 1.
pub data Exit : Type 0 where
  exit_0 exit_1 : Exit

abbrev exit_of : {W : Type 0} → Result (Unit {0}) × W → Exit × W
exit_of (ok _, w) = (exit_0, w)
exit_of (err _, w) = (exit_1, w)

module _ {W : Type 0} (os : OperatorManager W) (flags : OperatorFlags) where
  abbrev pub set_up_and_start : Exec W Unit
  set_up_and_start = do
    mgr ←
        os.new_manager (webhook_options flags) (metrics_options flags) flags.probe_addr
          flags.enable_leader_election
    setup_sandboxes mgr
        >> setup_profiles mgr
        >> setup_sessions mgr
        >> os.add_healthz
        >> os.add_readyz
        >> os.start

  unfoldable pub run_operator : W → Exit × W
  unfolding ◌>>=◌ setup_sandboxes setup_profiles setup_sessions webhook_options metrics_options
  run_operator w = exit_of (set_up_and_start w)
