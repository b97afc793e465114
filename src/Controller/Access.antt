-- ===== src/Controller/Access.antt =====
-- internal/controller/sandbox_rbac.go: the access profile of a sandbox as a service account and
-- role bindings.
pub mod Grants
pub mod Permits
use kubepark.Prelude.{
  Bool, true, false, not, Option, none, some, List, [], ◌∷◌, ◌++◌, if◌then◌else◌, Exec, Result, ok,
  err, pure, lift, ◌>>=◌, ◌>>◌, if_found, for_each, ignore_not_found, ignore_already_exists,
}
use kubepark.Prelude.Text.{Text, codes, ◌==◌, contains, length}
use kubepark.Api.Meta.{
  Key, key_of, named, Labels, lit, quoted, number, Message, Reason, rbac_ready, running,
  profile_deleted, profile_not_permitted,
}
use kubepark.Api.Core.{ServiceAccount}
use kubepark.Api.Rbac.{RoleKind, role, cluster_role, RoleRef, RoleBinding}
use kubepark.Api.Sandbox.{Sandbox, SandboxStatus}
use kubepark.Api.Profile.{NamespacedGrant, AccessProfile}
use kubepark.Cluster.{by_label}
use kubepark.Podspec
use kubepark.Podspec.{labels, label_sandbox_uid, label_managed_by}
use kubepark.Controller.Env.{Env, Pass, call, set_status, set_condition}
use kubepark.Controller.Names.{label_profile, sa_name, role_binding_name, profile_role_name}

pub record RbacResult : Type 0 where
  pub service_account : Text
  pub ready : Bool

-- `seen` of the source has the members of `out`.
abbrev add_new : List Text → Text → List Text
add_new out ns = if contains out ns then out else out ++ ns ∷ []

abbrev add_all : List Text → List Text → List Text
add_all out [] = out
add_all out (ns ∷ more) = add_all (add_new out ns) more

abbrev add_grants : List Text → List NamespacedGrant → List Text
add_grants out [] = out
add_grants out (g ∷ gs) = add_grants (add_all out g.namespaces) gs

unfoldable pub grant_namespaces : AccessProfile → List Text
unfolding contains
grant_namespaces profile = add_grants [] profile.spec.grants

abbrev same_kind : RoleKind → RoleKind → Bool
same_kind role role = true
same_kind cluster_role cluster_role = true
same_kind _ _ = false

abbrev same_role_ref : RoleRef → RoleRef → Bool
same_role_ref a b = elim (same_kind a.kind b.kind) [ true ↦ a.name == b.name | false ↦ false ]

-- A nil `keep` keeps nothing.
abbrev is_kept : Option (List Text) → Text → Bool
is_kept none ns = false
is_kept (some keep) ns = contains keep ns

-- The binding of the sandbox's account to the profile's role in one namespace.
unfoldable pub desired_binding : Sandbox → AccessProfile → Text → RoleBinding
unfolding sa_name role_binding_name profile_role_name
desired_binding sb profile ns = record {
  meta = named ns (role_binding_name sb.meta.name) (
      (label_sandbox_uid, sb.meta.uid)
      ∷ (label_profile, profile.meta.name)
      ∷ (label_managed_by, codes "kubepark")
      ∷ []);
  role_ref = record { kind = role; name = profile_role_name profile.meta.name };
  subjects = record { name = sa_name sb.meta.name; namespace = sb.meta.namespace } ∷ [];
}

unfoldable pub service_account_of : Sandbox → AccessProfile → ServiceAccount
unfolding sa_name labels
service_account_of sb profile = record {
  meta = record (named sb.meta.namespace (sa_name sb.meta.name) (labels sb)) {
    annotations =
        (codes "kubepark.dev/owner", sb.spec.owner.name)
        ∷ (codes "kubepark.dev/access-profile", profile.meta.name)
        ∷ [];
  };
}

module _ {W : Type 0} (env : Env W) where
  -- `ensureOwned`, which is called for service accounts alone
  unfoldable pub ensure_owned : Sandbox → ServiceAccount → Exec W Unit
  unfolding ◌>>=◌ lift ignore_already_exists
  ensure_owned sb sa = do
    owned ← lift (env.lib.set_controller_reference sb.meta sa.meta)
    ignore_already_exists (env.api.service_accounts.create (record { meta = owned }))

  abbrev sync_binding : RoleBinding → RoleBinding → Exec W Unit
  sync_binding desired existing =
      if not (same_role_ref existing.role_ref desired.role_ref)
      then (do
        ignore_not_found (env.api.role_bindings.delete (key_of existing.meta))
        ignore_already_exists (env.api.role_bindings.create desired))
      else if not (env.lib.same_subjects existing.subjects desired.subjects)
      then env.api.role_bindings.update (record existing { subjects = desired.subjects })
      else pure tt

  unfoldable pub apply_role_binding : RoleBinding → Exec W Unit
  unfolding ◌>>=◌ if_found pure ignore_not_found ignore_already_exists
  apply_role_binding desired =
      if_found (env.api.role_bindings.get (key_of desired.meta)) (sync_binding desired)
        (ignore_already_exists (env.api.role_bindings.create desired))

  abbrev pub drop_binding : Option (List Text) → RoleBinding → Exec W Unit
  drop_binding keep rb =
      if is_kept keep rb.meta.namespace
      then pure tt
      else ignore_not_found (env.api.role_bindings.delete (key_of rb.meta))

  unfoldable pub gc_rbac : Sandbox → Option (List Text) → Exec W Unit
  unfolding ◌>>=◌ pure ignore_not_found
  gc_rbac sb keep = do
    bindings ← env.api.role_bindings.list (by_label label_sandbox_uid sb.meta.uid)
    for_each bindings (drop_binding keep)

  abbrev no_account : SandboxStatus → SandboxStatus
  no_account s = record s { service_account_name = [] }

  abbrev refuse : Sandbox → Bool → Reason → Message → Exec (Pass W) Unit
  refuse sb status reason message = do
    call (gc_rbac sb none)
    set_status no_account
    set_condition env sb rbac_ready status reason message

  -- The profile is there and lists the sandbox's namespace.
  unfoldable pub bind_profile : Sandbox → AccessProfile → Exec (Pass W) RbacResult
  unfolding ◌>>=◌ pure call for_each set_status set_condition
  bind_profile sb profile = do
    call (ensure_owned sb (service_account_of sb profile))
    let desired = grant_namespaces profile
    call (for_each desired (λ ns. apply_role_binding (desired_binding sb profile ns)))
    call (gc_rbac sb (some desired))
    set_status (λ s. record s { service_account_name = sa_name sb.meta.name })
    set_condition env sb rbac_ready true running (
        lit (codes "bound to AccessProfile ")
        ∷ quoted profile.meta.name
        ∷ lit (codes " in ")
        ∷ number (length desired)
        ∷ lit (codes " namespace(s)")
        ∷ [])
    pure (record { service_account = sa_name sb.meta.name; ready = true })

  abbrev with_profile : Sandbox → AccessProfile → Exec (Pass W) RbacResult
  with_profile sb profile =
      if contains profile.spec.allowed_namespaces sb.meta.namespace
      then bind_profile sb profile
      else do
        refuse sb false profile_not_permitted (
            lit (codes "namespace ")
            ∷ quoted sb.meta.namespace
            ∷ lit (codes " is not in AccessProfile ")
            ∷ quoted profile.meta.name
            ∷ lit (codes " allowedNamespaces")
            ∷ [])
        pure (record { service_account = []; ready = false })

  unfoldable pub reconcile_rbac : Sandbox → Exec (Pass W) RbacResult
  unfolding ◌>>=◌ pure call if_found set_status set_condition
  reconcile_rbac sb =
      if sb.spec.access_profile == []
      then (do
        refuse sb true running
            (lit (codes "no access profile; sandbox has no cluster credentials") ∷ [])
        pure (record { service_account = []; ready = true }))
      else if_found
          (call (env.api.profiles.get (record { namespace = []; name = sb.spec.access_profile })))
          (with_profile sb)
          (do
            refuse sb false profile_deleted (
                lit (codes "AccessProfile ")
                ∷ quoted sb.spec.access_profile
                ∷ lit (codes " not found")
                ∷ [])
            pure (record { service_account = []; ready = false }))
