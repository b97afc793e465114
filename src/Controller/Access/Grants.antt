-- ===== src/Controller/Access/Grants.antt =====
-- The namespaces in which a profile grants something, and the bindings that are collected.
use kubepark.Prelude.{
  ◌≡◌, refl, subst, ◌∙◌, Bool, true, false, Bool-cases, ◌||◌, inl, inr, some, List, [], ◌∷◌, ◌++◌,
  if◌then◌else◌, arith,
}
use kubepark.Prelude.Keeps.{
  Keeps, Keeps-if, Keeps-pure, Keeps-bind, Keeps-ignore_not_found, Keeps-for_each,
}
use kubepark.Prelude.Text.{Text, contains, eq_iff, ◌==◌}
use kubepark.Api.Meta.{Key}
use kubepark.Api.Rbac.{RoleBinding}
use kubepark.Api.Sandbox.{Sandbox}
use kubepark.Api.Profile.{NamespacedGrant, AccessProfile}
use kubepark.Controller.Access.{
  add_new, add_all, add_grants, grant_namespaces, drop_binding, gc_rbac,
}
use kubepark.Prelude.All.{All}
use kubepark.Cluster.{Selector}
use kubepark.Controller.Env.{Env}

-- Some grant names the namespace.
pub any_grant : List NamespacedGrant → Text → Bool
any_grant [] ns = false
any_grant (g ∷ gs) ns = contains g.namespaces ns || any_grant gs ns

pub Distinct : List Text → Type 0
Distinct [] = Unit
Distinct (x ∷ xs) = (contains xs x ≡ false) × Distinct xs

contains-snoc :
    (xs : List Text) (y x : Text) → contains (xs ++ y ∷ []) x ≡ (contains xs x || y == x)
unfolding contains
contains-snoc [] y x = ground arith
contains-snoc (z ∷ xs) y x = ground (arith, contains-snoc xs y x)

Distinct-snoc :
    (xs : List Text) (y : Text) → Distinct xs → contains xs y ≡ false → Distinct (xs ++ y ∷ [])
unfolding Distinct contains
Distinct-snoc [] y d new = (refl, tt)
Distinct-snoc (x ∷ xs) y (first, rest) new = (
  contains-snoc xs y x ∙ ground (arith, eq_iff x y, eq_iff y x),
  Distinct-snoc xs y rest (ground arith),
)

contains-same :
    (xs : List Text) (x y : Text) → contains xs x ≡ true → (x == y) ≡ true → contains xs y ≡ true
contains-same xs x y h e = subst (λ (t : Text). contains xs t ≡ true) ((eq_iff x y).0 e) h

contains-add_new :
    (out : List Text) (y x : Text) → contains (add_new out y) x ≡ (contains out x || y == x)
contains-add_new out y x = elim (Bool-cases (contains out y)) [
  | inl there ↦ elim (Bool-cases (y == x)) [
    | inl same ↦ ground (arith, contains-same out y x there same)
    | inr different ↦ ground arith
  ]
  | inr missing ↦ ground (arith, contains-snoc out y x)
]

contains-add_all :
    (out ns : List Text) (x : Text)
    → contains (add_all out ns) x ≡ (contains out x || contains ns x)
unfolding contains
contains-add_all out [] x = ground arith
contains-add_all out (n ∷ ns) x =
    ground (arith, contains-add_all (add_new out n) ns x, contains-add_new out n x)

contains-add_grants :
    (out : List Text) (gs : List NamespacedGrant) (x : Text)
    → contains (add_grants out gs) x ≡ (contains out x || any_grant gs x)
unfolding any_grant
contains-add_grants out [] x = ground arith
contains-add_grants out (g ∷ gs) x = ground (
  arith,
  contains-add_grants (add_all out g.namespaces) gs x,
  contains-add_all out g.namespaces x,
)

Distinct-add_new : (out : List Text) (y : Text) → Distinct out → Distinct (add_new out y)
Distinct-add_new out y d = by_test (contains out y) refl
  where
    by_test : (b : Bool) → contains out y ≡ b → Distinct (if b then out else out ++ y ∷ [])
    by_test true e = d
    by_test false e = Distinct-snoc out y d e

Distinct-add_all : (out ns : List Text) → Distinct out → Distinct (add_all out ns)
Distinct-add_all out [] d = d
Distinct-add_all out (n ∷ ns) d = Distinct-add_all (add_new out n) ns (Distinct-add_new out n d)

Distinct-add_grants :
    (out : List Text) (gs : List NamespacedGrant) → Distinct out → Distinct (add_grants out gs)
Distinct-add_grants out [] d = d
Distinct-add_grants out (g ∷ gs) d =
    Distinct-add_grants (add_all out g.namespaces) gs (Distinct-add_all out g.namespaces d)

-- A profile's namespaces are those that some grant of it names, each of them once.
pub grant_namespaces-Distinct :
    (profile : AccessProfile)
    → Distinct (grant_namespaces profile)
      × ((ns : Text) → contains (grant_namespaces profile) ns ≡ any_grant profile.spec.grants ns)
unfolding grant_namespaces
grant_namespaces-Distinct profile = (
  Distinct-add_grants [] profile.spec.grants (unfold Distinct in tt),
  λ ns. contains-add_grants [] profile.spec.grants ns ∙ (unfold contains in refl),
)

module _ {W : Type 0} (env : Env W) (P : W → Type 0) (keep : List Text)
    (list_keeps : (s : Selector) → Keeps P (env.api.role_bindings.list s))
    (delete_keeps : (k : Key)
      → contains keep k.namespace ≡ false
      → Keeps P (env.api.role_bindings.delete k)) where
  drop_binding-Keeps : (rb : RoleBinding) → Keeps P (drop_binding env (some keep) rb)
  drop_binding-Keeps rb =
      Keeps-if (contains keep rb.meta.namespace) _ _ (λ _. Keeps-pure P tt)
        (λ outside. Keeps-ignore_not_found (delete_keeps _ outside))

  All-drop_binding :
      (rbs : List RoleBinding) → All (λ rb. Keeps P (drop_binding env (some keep) rb)) rbs
  All-drop_binding [] = tt
  All-drop_binding (rb ∷ rbs) = (drop_binding-Keeps rb, All-drop_binding rbs)

  -- The collection of role bindings that keeps some namespaces, keeps what listing bindings and
  -- deleting bindings outside those namespaces keep: no binding inside them is deleted.
  pub gc_rbac-Keeps : (sb : Sandbox) → Keeps P (gc_rbac env sb (some keep))
  unfolding gc_rbac
  gc_rbac-Keeps sb =
      Keeps-bind (list_keeps _)
        (λ rbs. Keeps-for_each rbs (drop_binding env (some keep)) (All-drop_binding rbs))
