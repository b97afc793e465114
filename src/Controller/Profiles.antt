-- ===== src/Controller/Profiles.antt =====
-- internal/controller/accessprofile_controller.go: the shared roles of an access profile.
pub mod Union
use mathlib.Core.List.{reverse}
use kubepark.Prelude.{
  ℕ, Bool, true, false, not, ◌&&◌, ◌||◌, Option, none, some, List, [], ◌∷◌, ◌++◌, if◌then◌else◌,
  Exec, Result, ok, err, pure, ◌>>=◌, ◌>>◌, attempt, if_found, for_each, ignore_not_found,
  ignore_already_exists,
}
use kubepark.Prelude.Text.{Text, codes, ◌==◌, contains}
use kubepark.Api.Meta.{
  Key, key_of, named, is_deleting, lit, number, quoted, Message, valid, all_valid,
  missing_namespace,
}
use kubepark.Api.Rbac.{PolicyRule, Role}
use kubepark.Api.Sandbox.{Sandbox}
use kubepark.Api.Profile.{NamespacedGrant, AccessProfile}
use kubepark.Cluster.{by_label, by_access_profile}
use kubepark.Podspec.{label_managed_by}
use kubepark.Controller.Env.{Env, Requeue, no_requeue}
use kubepark.Controller.Names.{label_profile, profile_role_name}
use kubepark.Controller.Claims.{text_ltb}

-- map[string][]PolicyRule, in the order in which Go's iteration happens to visit it.
abbrev pub RulesByNamespace : Type 0
RulesByNamespace = List (Text × List PolicyRule)

-- rulesByNS[ns] = append(rulesByNS[ns], rules...)
abbrev append_rules : Text → List PolicyRule → RulesByNamespace → RulesByNamespace
append_rules ns rules [] = (ns, rules) ∷ []
append_rules ns rules ((n, rs) ∷ more) =
    if n == ns then (n, rs ++ rules) ∷ more else (n, rs) ∷ append_rules ns rules more

abbrev append_grant : List Text → List PolicyRule → RulesByNamespace → RulesByNamespace
append_grant [] rules acc = acc
append_grant (ns ∷ more) rules acc = append_grant more rules (append_rules ns rules acc)

abbrev union_grants : List NamespacedGrant → RulesByNamespace → RulesByNamespace
union_grants [] acc = acc
union_grants (g ∷ gs) acc = union_grants gs (append_grant g.namespaces g.rules acc)

unfoldable pub rules_by_namespace : AccessProfile → RulesByNamespace
rules_by_namespace profile = union_grants profile.spec.grants []

-- What the loop over the map collects.
pub record Synced : Type 0 where
  pub missing : List Text
  pub applied : List Text

-- slices.Sort
abbrev insert_sorted : Text → List Text → List Text
insert_sorted x [] = x ∷ []
insert_sorted x (y ∷ ys) = if text_ltb y x then y ∷ insert_sorted x ys else x ∷ y ∷ ys

unfoldable pub sort : List Text → List Text
sort [] = []
sort (x ∷ xs) = insert_sorted x (sort xs)

unfoldable pub desired_role : AccessProfile → Text → List PolicyRule → Role
desired_role profile ns rules = record {
  meta =
      named ns (profile_role_name profile.meta.name)
        ((label_profile, profile.meta.name) ∷ (label_managed_by, codes "kubepark") ∷ []);
  rules = rules;
}

-- strings.Join(texts, ", ")
abbrev join_comma : List Text → Text
join_comma [] = []
join_comma (t ∷ []) = t
join_comma (t ∷ u ∷ ts) = t ++ codes ", " ++ join_comma (u ∷ ts)

abbrev profile_finalizer : Text
profile_finalizer = codes "kubepark.dev/finalizer"

module _ {W : Type 0} (env : Env W) where
  unfoldable pub namespace_exists : Text → Exec W Bool
  unfolding if_found pure
  namespace_exists name =
      if_found (env.api.namespaces.get (record { namespace = []; name = name })) (λ _. pure true)
        (pure false)

  -- Labels are written only where the role has none.
  abbrev with_labels : Role → Role → Role
  with_labels existing desired = elim existing.meta.labels [
    | [] ↦ record existing {
      meta = record existing.meta { labels = desired.meta.labels };
      rules = desired.rules;
    }
    | _ ∷ _ ↦ record existing { rules = desired.rules }
  ]

  abbrev sync_role : Role → Role → Exec W Unit
  sync_role desired existing =
      if not (env.lib.same_rules existing.rules desired.rules)
      then env.api.roles.update (with_labels existing desired)
      else pure tt

  unfoldable pub apply_role : AccessProfile → Text → List PolicyRule → Exec W Unit
  unfolding if_found pure ignore_already_exists
  apply_role profile ns rules =
      let desired = desired_role profile ns rules in
      if_found (env.api.roles.get (key_of desired.meta)) (sync_role desired)
        (ignore_already_exists (env.api.roles.create desired))

  abbrev apply_one : AccessProfile → Text → List PolicyRule → Synced → Bool → Exec W Synced
  apply_one profile ns rules acc false = pure (record acc { missing = acc.missing ++ ns ∷ [] })
  apply_one profile ns rules acc true = do
    apply_role profile ns rules
    pure (record acc { applied = acc.applied ++ ns ∷ [] })

  unfoldable pub apply_roles : AccessProfile → RulesByNamespace → Synced → Exec W Synced
  unfolding ◌>>=◌ pure
  apply_roles profile [] acc = pure acc
  apply_roles profile ((ns, rules) ∷ more) acc = do
    exists ← namespace_exists ns
    acc' ← apply_one profile ns rules acc exists
    apply_roles profile more acc'

  abbrev drop_role : List Text → Role → Exec W Unit
  drop_role applied role =
      if contains applied role.meta.namespace
      then pure tt
      else ignore_not_found (env.api.roles.delete (key_of role.meta))

  unfoldable pub sync_roles : AccessProfile → Exec W (List Text)
  unfolding ◌>>=◌ pure ignore_not_found
  sync_roles profile = do
    synced ←
        apply_roles profile (rules_by_namespace profile) (record { missing = []; applied = [] })
    roles ← env.api.roles.list (by_label label_profile profile.meta.name)
    for_each roles (drop_role synced.applied)
    pure (sort synced.missing)

  -- `Labels` with one annotation written.
  abbrev annotate : Text → Text → List (Text × Text) → List (Text × Text)
  annotate key value [] = (key, value) ∷ []
  annotate key value ((k, v) ∷ rest) =
      if k == key then (key, value) ∷ rest else (k, v) ∷ annotate key value rest

  -- fmt.Sprintf("%d-%s", generation, profile), with strconv.Itoa as an argument
  module _ (itoa : ℕ → Text) where
    abbrev nudged : Text → Sandbox → Sandbox
    nudged profile sb = record sb {
      meta = record sb.meta {
        annotations =
            annotate (codes "kubepark.dev/profile-generation")
              (itoa sb.meta.generation ++ codes "-" ++ profile) sb.meta.annotations;
      };
    }

    -- Errors are logged and dropped.
    abbrev nudge : Text → Sandbox → Exec W Unit
    nudge profile sb = do _ ← attempt (env.api.sandboxes.patch sb (nudged profile sb)); pure tt

    abbrev nudge_all : Text → Result (List Sandbox) → Exec W Unit
    nudge_all profile (ok sandboxes) = for_each sandboxes (nudge profile)
    nudge_all profile (err _) = pure tt

    unfoldable pub requeue_sandboxes : Text → Exec W Unit
    unfolding ◌>>=◌ pure attempt
    requeue_sandboxes profile = do
      listed ← attempt (env.api.sandboxes.list (by_access_profile profile))
      nudge_all profile listed

    abbrev validity : AccessProfile → List Text → AccessProfile
    validity profile missing = record profile {
      status = record {
        observed_generation = profile.meta.generation;
        conditions = env.lib.set_status_condition profile.status.conditions (elim missing [
          | [] ↦ record {
            condition_type = valid;
            status = true;
            reason = all_valid;
            message = lit (codes "all grant namespaces exist") ∷ [];
            observed_generation = profile.meta.generation;
          }
          | m ∷ ms ↦ record {
            condition_type = valid;
            status = false;
            reason = missing_namespace;
            message =
                lit (codes "missing namespaces: ")
                ∷ lit (join_comma (m ∷ ms))
                ∷ lit (codes " (other grants applied)")
                ∷ [];
            observed_generation = profile.meta.generation;
          }
        ]);
      };
    }

    abbrev sync_profile : AccessProfile → Exec W Requeue
    sync_profile profile = do
      missing ← sync_roles profile
      requeue_sandboxes profile.meta.name
      ignore_not_found (env.api.profiles.update_status (validity profile missing))
      pure no_requeue

    abbrev with_finalizer : AccessProfile → AccessProfile
    with_finalizer profile = record profile {
      meta = env.lib.add_finalizer profile.meta profile_finalizer;
    }

    abbrev delete_role : Role → Exec W Unit
    delete_role role = ignore_not_found (env.api.roles.delete (key_of role.meta))

    unfoldable pub finalize_profile : AccessProfile → Exec W Requeue
    unfolding ◌>>=◌ pure ignore_not_found
    finalize_profile profile =
        if not (env.lib.contains_finalizer profile.meta profile_finalizer)
        then pure no_requeue
        else do
          roles ← env.api.roles.list (by_label label_profile profile.meta.name)
          for_each roles delete_role
          requeue_sandboxes profile.meta.name
          env.api.profiles.update
              (record profile { meta = env.lib.remove_finalizer profile.meta profile_finalizer })
          pure no_requeue

    abbrev guarded : AccessProfile → Exec W Requeue
    guarded profile =
        if env.lib.contains_finalizer profile.meta profile_finalizer
        then sync_profile profile
        else do
          env.api.profiles.update (with_finalizer profile)
          sync_profile (with_finalizer profile)

    unfoldable pub reconcile_profile : Key → Exec W Requeue
    unfolding ◌>>=◌ pure if_found ignore_not_found
    reconcile_profile request =
        if_found (env.api.profiles.get request)
          (λ profile.
            if is_deleting profile.meta then finalize_profile profile else guarded profile)
          (pure no_requeue)
