-- ===== src/Controller/Policy.antt =====
-- `reconcileNetworkPolicy` and `apiServerEndpoints` of sandbox_controller.go.
use kubepark.Prelude.{
  ℕ, Bool, true, not, Option, none, some, List, [], ◌∷◌, ◌++◌, if◌then◌else◌, Exec, pure, lift,
  ◌>>=◌, if_found, ignore_already_exists,
}
use kubepark.Prelude.Text.{Text, codes}
use kubepark.Api.Meta.{key_of}
use kubepark.Api.Core.{Endpoint, EndpointSlice, NetworkPolicy}
use kubepark.Api.Sandbox.{Sandbox}
use kubepark.Api.Template.{SandboxTemplate}
use kubepark.Cluster.{labelled_in_namespace}
use kubepark.Podspec.NetPol.{ApiServerEndpoint, build_network_policy}
use kubepark.Controller.Env.{Env, gateway_namespace}

abbrev pub is_ready : Option Bool → Bool
is_ready none = true
is_ready (some b) = b

abbrev port_endpoints : Text → List (Option ℕ) → List ApiServerEndpoint
port_endpoints addr [] = []
port_endpoints addr (none ∷ ports) = port_endpoints addr ports
port_endpoints addr (some port ∷ ports) =
    record { ip = addr; port = port } ∷ port_endpoints addr ports

abbrev address_endpoints : List (Option ℕ) → List Text → List ApiServerEndpoint
address_endpoints ports [] = []
address_endpoints ports (addr ∷ more) = port_endpoints addr ports ++ address_endpoints ports more

abbrev slice_endpoints : List (Option ℕ) → List Endpoint → List ApiServerEndpoint
slice_endpoints ports [] = []
slice_endpoints ports (ep ∷ more) =
    let rest = slice_endpoints ports more in
    if is_ready ep.ready then address_endpoints ports ep.addresses ++ rest else rest

unfoldable pub slices_endpoints : List EndpointSlice → List ApiServerEndpoint
slices_endpoints [] = []
slices_endpoints (slice ∷ more) =
    slice_endpoints slice.ports slice.endpoints ++ slices_endpoints more

module _ {W : Type 0} (env : Env W) where
  unfoldable pub api_server_endpoints : Exec W (List ApiServerEndpoint)
  unfolding ◌>>=◌ pure slices_endpoints
  api_server_endpoints = do
    slices ← env.api.endpoint_slices.list (
        labelled_in_namespace (codes "default") (codes "kubernetes.io/service-name")
          (codes "kubernetes"))
    pure (slices_endpoints slices)

  abbrev sync_policy : NetworkPolicy → NetworkPolicy → Exec W Unit
  sync_policy desired existing =
      if not (env.lib.same_policy existing.spec desired.spec)
      then env.api.network_policies.update (record existing { spec = desired.spec })
      else pure tt

  abbrev apply_policy : NetworkPolicy → Exec W Unit
  apply_policy desired =
      if_found (env.api.network_policies.get (key_of desired.meta)) (sync_policy desired)
        (ignore_already_exists (env.api.network_policies.create desired))

  unfoldable pub reconcile_network_policy : Sandbox → SandboxTemplate → Exec W Unit
  unfolding ◌>>=◌ pure lift if_found ignore_already_exists
  reconcile_network_policy sb tpl = do
    endpoints ← api_server_endpoints
    let literal =
        build_network_policy sb tpl
          (record { gateway_namespace = gateway_namespace env; api_server_endpoints = endpoints })
    owned ← lift (env.lib.set_controller_reference sb.meta literal.meta)
    apply_policy (record literal { meta = owned })
