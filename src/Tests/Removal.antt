-- ===== src/Tests/Removal.antt =====
-- A store of the children of one sandbox, and the theorem on its finalizer at it.
use kubepark.Prelude.{
  ◌*◌, ◌≡◌, refl, true, Option, none, some, [], ok, pure, for_each, if_found, ignore_not_found,
  ◌>>=◌,
}
use kubepark.Prelude.Text.{codes, ◌==◌}
use kubepark.Api.Time.{second}
use kubepark.Api.Meta.{ObjectMeta, named}
use kubepark.Cluster.{Client}
use kubepark.Controller.Env.{no_requeue, wall_clock}
use kubepark.Controller.Access.{gc_rbac}
use kubepark.Controller.Home.{apply_home_retain_policy}
use kubepark.Controller.Finalize.{finalize, clean_up, delete_children, close_sessions, released}
use kubepark.Controller.Finalize.Children.{
  Child, pod, host_key, network_policy, service_account, IsChildStore, Leaving, is_leaving,
  delete_child, finalize-Leaving,
}
use kubepark.Tests.World.{empty, bare_client, env_of, box, dev}

-- What is stored of each child.
record Left : Type 0 where
  pod_left : Option ObjectMeta
  key_left : Option ObjectMeta
  policy_left : Option ObjectMeta
  account_left : Option ObjectMeta

abbrev left : Child → Left → Option ObjectMeta
left pod w = w.pod_left
left host_key w = w.key_left
left network_policy w = w.policy_left
left service_account w = w.account_left

-- A pod stays for its grace period.
abbrev graceful : Option ObjectMeta → Option ObjectMeta
graceful none = none
graceful (some m) = some (record m { deletion_timestamp = some (7000 * second) })

abbrev children : Client Left
children = record bare_client {
  pods = record empty { delete = λ k w. (ok tt, record w { pod_left = graceful w.pod_left }) };
  secrets = record empty { delete = λ k w. (ok tt, record w { key_left = none }) };
  network_policies = record empty { delete = λ k w. (ok tt, record w { policy_left = none }) };
  service_accounts = record empty { delete = λ k w. (ok tt, record w { account_left = none }) };
}

graceful-is_leaving : (o : Option ObjectMeta) → is_leaving (graceful o) ≡ true
graceful-is_leaving none = refl
graceful-is_leaving (some m) = refl

children-IsChildStore : IsChildStore (env_of children) box
children-IsChildStore = record {
  stored = left;
  deleted = λ c w e. deleted c w;
  by_child = λ c d. record { at = λ w h. kept c d w h };
  by_bindings = λ c s. record { at = λ w h. h };
  by_binding = λ c k. record { at = λ w h. h };
  by_sessions = λ c s. record { at = λ w h. h };
  by_session = λ c s. record { at = λ w h. h };
  by_clock = λ c. record { at = λ w h. unfold wall_clock in h };
  by_claim = λ c k. record { at = λ w h. h };
  by_claim_update = λ c p. record { at = λ w h. h };
  by_claim_delete = λ c k. record { at = λ w h. h };
}
  where
    deleted :
        (c : Child) (w : Left)
        → is_leaving (left c (delete_child (env_of children) box c w).1) ≡ true
    deleted pod w = graceful-is_leaving w.pod_left
    deleted host_key w = refl
    deleted network_policy w = refl
    deleted service_account w = refl

    kept :
        (c d : Child) (w : Left)
        → is_leaving (left c w) ≡ true
        → is_leaving (left c (delete_child (env_of children) box d w).1) ≡ true
    kept pod pod w h = graceful-is_leaving w.pod_left
    kept pod host_key w h = h
    kept pod network_policy w h = h
    kept pod service_account w h = h
    kept host_key host_key w h = refl
    kept host_key pod w h = h
    kept host_key network_policy w h = h
    kept host_key service_account w h = h
    kept network_policy network_policy w h = refl
    kept network_policy pod w h = h
    kept network_policy host_key w h = h
    kept network_policy service_account w h = h
    kept service_account service_account w h = refl
    kept service_account pod w h = h
    kept service_account host_key w h = h
    kept service_account network_policy w h = h

abbrev meta : ObjectMeta
meta = named dev (codes "child") []

abbrev all : Left
all = record {
  pod_left = some meta;
  key_left = some meta;
  policy_left = some meta;
  account_left = some meta;
}

-- The pod is still there, with its deletion timestamp.
abbrev ending : Left
ending = record {
  pod_left = graceful (some meta);
  key_left = none;
  policy_left = none;
  account_left = none;
}

finalized : finalize (env_of children) box all ≡ (ok no_requeue, ending)
unfolding finalize clean_up delete_children gc_rbac close_sessions apply_home_retain_policy
    wall_clock for_each if_found ignore_not_found pure ◌>>=◌ ◌==◌
finalized = refl

finalize-Leaving_example :
    (u : Left) × (children.sandboxes.update (released (env_of children) box) u ≡ (ok tt, ending))
    × ((c : Child) → Leaving children-IsChildStore c u)
finalize-Leaving_example =
    finalize-Leaving (env_of children) box children-IsChildStore all ending no_requeue refl
      finalized
