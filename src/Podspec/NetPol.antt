-- ===== src/Podspec/NetPol.antt =====
-- internal/controller/podspec/netpol.go: the network policy of a sandbox.
use kubepark.Prelude.{ℕ, true, List, [], ◌∷◌, ◌++◌, map}
use kubepark.Prelude.Text.{Text, codes}
use kubepark.Api.Meta.{named}
use kubepark.Api.Core.{tcp, udp, Peer, selected, ip_block, PolicyPort, EgressRule, NetworkPolicy}
use kubepark.Api.Sandbox.{Sandbox, ExposedPort}
use kubepark.Api.Template.{SandboxTemplate}
use kubepark.Podspec.{label_component, label_sandbox_uid, agent_port, labels, net_pol_name}

-- corev1.LabelMetadataName
abbrev label_metadata_name : Text
label_metadata_name = codes "kubernetes.io/metadata.name"

pub record ApiServerEndpoint : Type 0 where
  pub ip : Text
  pub port : ℕ

pub record NetPolOptions : Type 0 where
  pub gateway_namespace : Text
  pub api_server_endpoints : List ApiServerEndpoint

-- The pods of the gateway.
abbrev pub gateway_peer : Text → Peer
gateway_peer namespace =
    selected ((label_metadata_name, namespace) ∷ []) ((label_component, codes "gateway") ∷ [])

abbrev pub ingress_port : ExposedPort → PolicyPort
ingress_port p = record { protocol = tcp; port = p.port }

abbrev pub dns_rule : EgressRule
dns_rule = record {
  to =
      selected ((label_metadata_name, codes "kube-system") ∷ [])
        ((codes "k8s-app", codes "kube-dns") ∷ [])
      ∷ [];
  ports = record { protocol = udp; port = 53 } ∷ record { protocol = tcp; port = 53 } ∷ [];
}

abbrev pub api_server_rule : ApiServerEndpoint → EgressRule
api_server_rule ep = record {
  to = ip_block (ep.ip ++ codes "/32") ∷ [];
  ports = record { protocol = tcp; port = ep.port } ∷ [];
}

abbrev copy_rule : EgressRule → EgressRule
copy_rule rule = record { to = rule.to; ports = rule.ports }

unfoldable pub build_network_policy : Sandbox → SandboxTemplate → NetPolOptions → NetworkPolicy
unfolding net_pol_name labels
build_network_policy sb tpl opts = record {
  meta = named sb.meta.namespace (net_pol_name sb.meta.name) (labels sb);
  spec = record {
    pod_selector = (label_sandbox_uid, sb.meta.uid) ∷ [];
    isolates_ingress = true;
    isolates_egress = true;
    ingress =
        record {
          from = gateway_peer opts.gateway_namespace ∷ [];
          ports =
              record { protocol = tcp; port = agent_port } ∷ map ingress_port sb.spec.exposed_ports;
        }
        ∷ [];
    egress =
        dns_rule ∷ map api_server_rule opts.api_server_endpoints ++ map copy_rule tpl.spec.egress;
  };
}
