-- ===== src/Podspec/Laws.antt =====
-- What the builders put together.
use kubepark.Prelude.{
  ◌≡◌, refl, sym, ap, true, false, Bool-cases, ◌⊎◌, inl, inr, List, [], ◌∷◌, ◌++◌, map, arith,
}
use mathlib.Core.List.{Memᴰ}
use kubepark.Prelude.All.{All}
use kubepark.Prelude.Text.{Text}
use kubepark.Api.Meta.{Labels}
use kubepark.Api.Core.{
  Container, Volume, persistent_volume_claim, ContainerPort, PolicyPort, IngressRule, tcp,
}
use kubepark.Api.Sandbox.{Sandbox, ExposedPort}
use kubepark.Api.Template.{SandboxTemplate}
use kubepark.Podspec.{
  Options, build_pod, build_pvc, has_existing_claim, existing_claim_of, exposed_container_port,
  agent_port,
}
use kubepark.Podspec.NetPol.{NetPolOptions, build_network_policy, gateway_peer, ingress_port}

module _ (sb : Sandbox) (tpl : SandboxTemplate) (opts : Options) where
  -- The claim that the pod mounts as its home is the sandbox's existing claim, or the one that is
  -- built for it, in the pod's own namespace.
  pub build_pod-home :
      ((build_pod sb tpl opts).meta.namespace ≡ (build_pvc sb tpl).meta.namespace)
      × (All
          (λ (v : Volume).
            (claim : Text)
            → v.source ≡ persistent_volume_claim claim
            → ((has_existing_claim sb ≡ true) × (claim ≡ existing_claim_of sb.spec.home))
              ⊎ ((has_existing_claim sb ≡ false) × (claim ≡ (build_pvc sb tpl).meta.name)))
          (build_pod sb tpl opts).spec.volumes)
  unfolding build_pod build_pvc
  build_pod-home = (
    refl,
    (
      λ claim e. elim (Bool-cases (has_existing_claim sb)) [
        | inl existing ↦ inl (existing, ground arith)
        | inr generated ↦ inr (generated, ground arith)
      ],
      (λ claim e. cc, (λ claim e. cc, tt)),
    ),
  )

abbrev pub policy_port : ContainerPort → PolicyPort
policy_port p = record { protocol = p.protocol; port = p.container_port }

-- The ports that the containers of a pod declare, as a policy names them.
abbrev pub declared_ports : List Container → List PolicyPort
declared_ports [] = []
declared_ports (c ∷ cs) = map policy_port c.ports ++ declared_ports cs

exposed_lem :
    (ps : List ExposedPort)
    → map policy_port (map exposed_container_port ps) ++ [] ≡ map ingress_port ps
exposed_lem [] = refl
exposed_lem (p ∷ ps) = ap (λ (qs : List PolicyPort). ingress_port p ∷ qs) (exposed_lem ps)

-- Whether every label of the selector is among the labels.
abbrev pub Selects : Labels → Labels → Type 0
Selects selector ls = All (λ (l : Text × Text). Memᴰ l ls) selector

-- The network policy of a sandbox Selects the sandbox's pod, in its namespace, by a label with the
-- sandbox's UID; it isolates the pod in both directions, and admits only the gateway, to just the
-- ports that the pod's containers declare.
pub build_network_policy-pod :
    (sb : Sandbox) (tpl : SandboxTemplate) (opts : Options) (net : NetPolOptions)
    → ((build_network_policy sb tpl net).meta.namespace ≡ (build_pod sb tpl opts).meta.namespace)
      × Selects
          (build_network_policy sb tpl net).spec.pod_selector
          (build_pod sb tpl opts).meta.labels
      × ((build_network_policy sb tpl net).spec.isolates_ingress ≡ true)
      × ((build_network_policy sb tpl net).spec.isolates_egress ≡ true)
      × All
          (λ (rule : IngressRule).
            (rule.from ≡ gateway_peer net.gateway_namespace ∷ [])
            × (rule.ports ≡ declared_ports (build_pod sb tpl opts).spec.containers))
          (build_network_policy sb tpl net).spec.ingress
unfolding build_pod build_network_policy
build_network_policy-pod sb tpl opts net = (
  refl,
  (Memᴰ.tail (Memᴰ.head refl), tt),
  refl,
  refl,
  (
    (
      refl,
      ap (λ (qs : List PolicyPort). record { protocol = tcp; port = agent_port } ∷ qs)
          (sym (exposed_lem sb.spec.exposed_ports)),
    ),
    tt,
  ),
)
