-- ===== src/Controller/Watches.antt =====
-- The set-up of sandbox_controller.go and accessprofile_controller.go: the fields by which sandboxes
-- are indexed, and which objects are reconciled when another one changes.
pub mod Requeued
use kubepark.Prelude.{
  Bool, not, ◌&&◌, ◌||◌, Option, none, some, List, [], ◌∷◌, map, if◌then◌else◌, Exec, Result, ok,
  err, ◌>>=◌, ◌>>◌,
}
use kubepark.Prelude.Text.{Text, codes, ◌==◌, contains}
use kubepark.Api.Meta.{Key, ObjectMeta, key_of}
use kubepark.Api.Core.{EndpointSlice, Namespace}
use kubepark.Api.Sandbox.{Sandbox}
use kubepark.Api.Session.{SandboxSession}
use kubepark.Api.Template.{SandboxTemplate}
use kubepark.Api.Profile.{AccessProfile}
use kubepark.Podspec.{existing_claim_of}
use kubepark.Cluster.{Client, everywhere, by_template, by_access_profile}
use kubepark.Controller.HostKey.{entry}
use kubepark.Controller.Access.{grant_namespaces}

pub data Index : Type 0 where
  template existing_claim access_profile : Index

abbrev given : Text → List Text
given [] = []
given (c ∷ cs) = (c ∷ cs) ∷ []

-- The values under which a sandbox is found.
abbrev pub index_values : Index → Sandbox → List Text
index_values template sb = sb.spec.template ∷ []
index_values existing_claim sb = given (existing_claim_of sb.spec.home)
index_values access_profile sb = given sb.spec.access_profile

abbrev pub to_requests : List Sandbox → List Key
to_requests = map (λ sb. key_of sb.meta)

-- An error of a List answers no requests.
abbrev pub or_no_requests : {A : Type 0} → (List A → List Key) → Result (List A) → List Key
or_no_requests requests (ok items) = requests items
or_no_requests requests (err _) = []

unfoldable pub sandbox_for_session : SandboxSession → List Key
sandbox_for_session session =
    if session.spec.sandbox_name == []
    then []
    else record { namespace = session.meta.namespace; name = session.spec.sandbox_name } ∷ []

abbrev is_api_server : ObjectMeta → Bool
is_api_server meta =
    meta.namespace == codes "default"
    && entry (codes "kubernetes.io/service-name") meta.labels == codes "kubernetes"

unfoldable pub profiles_naming : Text → List AccessProfile → List Key
profiles_naming ns [] = []
profiles_naming ns (p ∷ ps) =
    let rest = profiles_naming ns ps in
    if contains (grant_namespaces p) ns
    then record { namespace = []; name = p.meta.name } ∷ rest
    else rest

module _ {W : Type 0} (api : Client W) where
  unfoldable pub sandboxes_for_template : SandboxTemplate → W → List Key × W
  sandboxes_for_template t w =
      let (found, w') = api.sandboxes.list (by_template t.meta.name) w in
      (or_no_requests to_requests found, w')

  unfoldable pub sandboxes_for_access_profile : AccessProfile → W → List Key × W
  sandboxes_for_access_profile p w =
      let (found, w') = api.sandboxes.list (by_access_profile p.meta.name) w in
      (or_no_requests to_requests found, w')

  abbrev all_sandboxes : W → List Key × W
  all_sandboxes w =
      let (found, w') = api.sandboxes.list everywhere w in (or_no_requests to_requests found, w')

  unfoldable pub sandboxes_for_api_server_endpoints : EndpointSlice → W → List Key × W
  unfolding entry
  sandboxes_for_api_server_endpoints slice w =
      if is_api_server slice.meta then all_sandboxes w else ([], w)

  unfoldable pub profiles_for_namespace : Namespace → W → List Key × W
  unfolding profiles_naming
  profiles_for_namespace ns w =
      let (found, w') = api.profiles.list everywhere w in
      (or_no_requests (profiles_naming ns.meta.name) found, w')

-- The kinds of objects whose changes are looked at.
pub data Kind : Type 0 where
  sandbox pod network_policy secret service_account sandbox_template profile session endpoint_slice
        namespace :
      Kind

pub data Registration : Type 0 where
  for_kind owns watches : Kind → Registration

-- mgr.GetFieldIndexer().IndexField, and Complete of a builder.
pub record Manager (W : Type 0) : Type 0 where
  pub index_field : Index → Exec W Unit
  pub complete : Text → List Registration → Exec W Unit

module _ {W : Type 0} (mgr : Manager W) where
  unfoldable pub setup_sandboxes : Exec W Unit
  unfolding ◌>>=◌
  setup_sandboxes =
      mgr.index_field template
      >> mgr.index_field existing_claim
      >> mgr.index_field access_profile
      >> mgr.complete (codes "sandbox") (
          for_kind sandbox
          ∷ owns pod
          ∷ owns network_policy
          ∷ owns secret
          ∷ owns service_account
          ∷ watches sandbox_template
          ∷ watches profile
          ∷ watches session
          ∷ watches endpoint_slice
          ∷ [])

  unfoldable pub setup_profiles : Exec W Unit
  setup_profiles = mgr.complete (codes "accessprofile") (for_kind profile ∷ watches namespace ∷ [])

  unfoldable pub setup_sessions : Exec W Unit
  setup_sessions = mgr.complete (codes "sandboxsession") (for_kind session ∷ [])
