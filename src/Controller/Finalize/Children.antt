-- ===== src/Controller/Finalize/Children.antt =====
-- What is left of a sandbox when its finalizer is removed.
use kubepark.Prelude.{
  ◌≡◌, ap, subst, Bool, true, Option, some, List, [], ◌∷◌, none, Result, ok, Exec, ignore_not_found,
  dismiss_not_found, ◌>>◌, pure, arith,
}
use kubepark.Prelude.All.{All}
use kubepark.Prelude.Returns.{bind_returns}
use kubepark.Prelude.Keeps.{
  Keeps, Keeps-bind, Keeps-pure, Keeps-for_each, Keeps-ignore_not_found, Keeps-if, Keeps-if_found,
  Keeps-when,
}
use kubepark.Api.Time.{Time}
use kubepark.Api.Meta.{Key, ObjectMeta, is_deleting}
use kubepark.Api.Core.{PersistentVolumeClaim}
use kubepark.Api.Rbac.{RoleBinding}
use kubepark.Api.Session.{SandboxSession}
use kubepark.Api.Sandbox.{Sandbox}
use kubepark.Cluster.{Selector}
use kubepark.Podspec.{has_existing_claim, pod_name, host_key_name, net_pol_name}
use kubepark.Controller.Env.{Env, Requeue, no_requeue, wall_clock}
use kubepark.Controller.Names.{sa_name}
use kubepark.Controller.Access.{gc_rbac, drop_binding}
use kubepark.Controller.Home.{wants_delete, apply_home_retain_policy}
use kubepark.Controller.Idle.{is_live_of}
use kubepark.Controller.Finalize.{
  closed_by_deletion, sandbox_finalizer, key_in, mark_terminating, delete_children, close_session,
  close_sessions, clean_up, released, finalize,
}

-- The objects of a sandbox that are deleted with it.
pub data Child : Type 0 where
  pod host_key network_policy service_account : Child

-- What is stored of an object is nothing, or an object that is being deleted.
abbrev pub is_leaving : Option ObjectMeta → Bool
is_leaving none = true
is_leaving (some m) = is_deleting m

module _ {W : Type 0} (env : Env W) (sb : Sandbox) where
  abbrev pub delete_child : Child → Exec W Unit
  delete_child pod = env.api.pods.delete (key_in env sb (pod_name sb.meta.name))
  delete_child host_key = env.api.secrets.delete (key_in env sb (host_key_name sb.meta.name))
  delete_child network_policy =
      env.api.network_policies.delete (key_in env sb (net_pol_name sb.meta.name))
  delete_child service_account =
      env.api.service_accounts.delete (key_in env sb (sa_name sb.meta.name))

  -- What the API server documents of the children: after a delete that succeeds or finds nothing, an
  -- object is not stored any more, or it has a deletion timestamp, as a pod has for its grace period;
  -- a deletion timestamp stays, and no delete, no List and no write of another kind makes a child.
  pub record IsChildStore : Type 0 where
    pub stored : Child → W → Option ObjectMeta
    pub deleted :
        (c : Child) (w : W)
        → dismiss_not_found (delete_child c w).0 ≡ ok tt
        → is_leaving (stored c (delete_child c w).1) ≡ true
    pub by_child : (c d : Child) → Keeps (λ w. is_leaving (stored c w) ≡ true) (delete_child d)
    pub by_bindings :
        (c : Child) (s : Selector)
        → Keeps (λ w. is_leaving (stored c w) ≡ true) (env.api.role_bindings.list s)
    pub by_binding :
        (c : Child) (k : Key)
        → Keeps (λ w. is_leaving (stored c w) ≡ true) (env.api.role_bindings.delete k)
    pub by_sessions :
        (c : Child) (s : Selector)
        → Keeps (λ w. is_leaving (stored c w) ≡ true) (env.api.sessions.list s)
    pub by_session :
        (c : Child) (s : SandboxSession)
        → Keeps (λ w. is_leaving (stored c w) ≡ true) (env.api.sessions.update_status s)
    pub by_clock : (c : Child) → Keeps (λ w. is_leaving (stored c w) ≡ true) (wall_clock env)
    pub by_claim :
        (c : Child) (k : Key) → Keeps (λ w. is_leaving (stored c w) ≡ true) (env.api.claims.get k)
    pub by_claim_update :
        (c : Child) (p : PersistentVolumeClaim)
        → Keeps (λ w. is_leaving (stored c w) ≡ true) (env.api.claims.update p)
    pub by_claim_delete :
        (c : Child) (k : Key)
        → Keeps (λ w. is_leaving (stored c w) ≡ true) (env.api.claims.delete k)

-- The child is gone or on its way out.
abbrev pub Leaving :
    {W : Type 0} {env : Env W} {sb : Sandbox} → IsChildStore env sb → Child → W → Type 0
Leaving store c w = is_leaving (store.stored c w) ≡ true

module _ {W : Type 0} (env : Env W) (sb : Sandbox) (store : IsChildStore env sb) (c : Child) where
  All-drop_binding :
      (rbs : List RoleBinding) → All (λ rb. Keeps (Leaving store c) (drop_binding env none rb)) rbs
  All-drop_binding [] = tt
  All-drop_binding (rb ∷ rbs) =
      (Keeps-ignore_not_found (store.by_binding c _), All-drop_binding rbs)

  gc_rbac-Keeps : Keeps (Leaving store c) (gc_rbac env sb none)
  unfolding gc_rbac
  gc_rbac-Keeps =
      Keeps-bind (store.by_bindings c _)
        (λ rbs. Keeps-for_each rbs (drop_binding env none) (All-drop_binding rbs))

  All-close_session :
      (now : Time) (ss : List SandboxSession)
      → All (λ s. Keeps (Leaving store c) (close_session env sb now s)) ss
  All-close_session now [] = tt
  All-close_session now (s ∷ ss) = (
    Keeps-when (is_live_of sb.meta.name s)
        (λ _. Keeps-ignore_not_found (store.by_session c (closed_by_deletion now s))),
    All-close_session now ss,
  )

  close_sessions-Keeps : Keeps (Leaving store c) (close_sessions env sb)
  unfolding close_sessions
  close_sessions-Keeps = Keeps-bind (store.by_sessions c _) (λ ss.
      Keeps-bind (store.by_clock c)
        (λ now. Keeps-for_each ss (close_session env sb now) (All-close_session now ss)))

  home-Keeps : Keeps (Leaving store c) (apply_home_retain_policy env sb)
  unfolding apply_home_retain_policy
  home-Keeps =
      Keeps-if (has_existing_claim sb) _ _ (λ _. Keeps-pure _ tt)
        (λ _.
          Keeps-if_found (store.by_claim c _)
            (λ p.
              Keeps-if (wants_delete sb.spec.home) _ _
                (λ _. Keeps-ignore_not_found (store.by_claim_delete c _))
                (λ _. Keeps-ignore_not_found (store.by_claim_update c _)))
            (Keeps-pure _ tt))

-- A computation that keeps a predicate keeps it in the state in which it ends.
kept :
    {S A : Type 0} {P : S → Type 0} {m : Exec S A} {s t : S} {r : Result A}
    → Keeps P m
    → m s ≡ (r, t)
    → P s
    → P t
kept {P} {s} k e h = subst P (ap (λ x. x.1) e) (k.at s h)

module _ {W : Type 0} (env : Env W) (sb : Sandbox) (store : IsChildStore env sb) where
  gone :
      (c : Child) (w w' : W)
      → ignore_not_found (delete_child env sb c) w ≡ (ok tt, w')
      → Leaving store c w'
  unfolding ignore_not_found
  gone c w w' h = subst (Leaving store c) (ap (λ x. x.1) h) (store.deleted c w (ap (λ x. x.0) h))

  still :
      (c k : Child) (w w' : W)
      → ignore_not_found (delete_child env sb k) w ≡ (ok tt, w')
      → Leaving store c w
      → Leaving store c w'
  still c k w w' e g = kept (Keeps-ignore_not_found (store.by_child c k)) e g

  delete_children-Leaving :
      (w w' : W) → delete_children env sb w ≡ (ok tt, w') → (c : Child) → Leaving store c w'
  unfolding delete_children
  delete_children-Leaving w w' h c =
      let (_, w1, e1, h1) = bind_returns (ignore_not_found (delete_child env sb pod)) _ w w' tt h in
      let (_, w2, e2, h2) =
        bind_returns (ignore_not_found (delete_child env sb host_key)) _ w1 w' tt h1 in
      let (_, w3, e3, e4) =
        bind_returns (ignore_not_found (delete_child env sb network_policy)) _ w2 w' tt h2 in
      elim c as (λ x. Leaving store x w') [
        | pod ↦
            still pod service_account w3 w' e4
              (still pod network_policy w2 w3 e3 (still pod host_key w1 w2 e2 (gone pod w w1 e1)))
        | host_key ↦
            still host_key service_account w3 w' e4
              (still host_key network_policy w2 w3 e3 (gone host_key w1 w2 e2))
        | network_policy ↦
            still network_policy service_account w3 w' e4 (gone network_policy w2 w3 e3)
        | service_account ↦ gone service_account w3 w' e4
      ]

  clean_up-Leaving : (w w' : W) → clean_up env sb w ≡ (ok tt, w') → (c : Child) → Leaving store c w'
  unfolding clean_up
  clean_up-Leaving w w' h c =
      let (_, w1, e1, h1) = bind_returns (mark_terminating env sb) _ w w' tt h in
      let (_, w2, e2, h2) = bind_returns (delete_children env sb) _ w1 w' tt h1 in
      let (_, w3, e3, h3) = bind_returns (gc_rbac env sb none) _ w2 w' tt h2 in
      let (_, w4, e4, e5) = bind_returns (close_sessions env sb) _ w3 w' tt h3 in
      kept (home-Keeps env sb store c) e5 (
        kept (close_sessions-Keeps env sb store c) e4
          (kept (gc_rbac-Keeps env sb store c) e3 (delete_children-Leaving w1 w2 e2 c)))

  -- Where a sandbox has the finalizer and finalize ends without an error, its last call is the update
  -- that removes the finalizer, and when it is made, each of the sandbox's pod, host key, network
  -- policy and account is not stored any more or is being deleted.
  pub finalize-Leaving :
      (w w' : W) (r : Requeue)
      → env.lib.contains_finalizer sb.meta sandbox_finalizer ≡ true
      → finalize env sb w ≡ (ok r, w')
      → (u : W) × (env.api.sandboxes.update (released env sb) u ≡ (ok tt, w'))
        × ((c : Child) → Leaving store c u)
  unfolding finalize pure
  finalize-Leaving w w' r has h =
      let steps : (clean_up env sb >> env.api.sandboxes.update (released env sb) >> pure no_requeue)
            w
          ≡ (ok r, w') =
        ground (arith, has, h) in
      let (_, v, e, last) =
        bind_returns (clean_up env sb >> env.api.sandboxes.update (released env sb)) _ w w' r
          steps in
      let (_, u, cleaned, removed) = bind_returns (clean_up env sb) _ w v tt e in
      let same : v ≡ w' = ap (λ x. x.1) last in
      (
        u,
        subst (λ x. env.api.sandboxes.update (released env sb) u ≡ (ok tt, x)) same removed,
        clean_up-Leaving w u cleaned,
      )
