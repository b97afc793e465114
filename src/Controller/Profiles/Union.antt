-- ===== src/Controller/Profiles/Union.antt =====
-- The rules of a profile in one namespace.
use kubepark.Prelude.{
  ◌≡◌, refl, sym, ap, ◌∙◌, true, false, Bool-cases, inl, inr, List, [], ◌∷◌, ◌++◌, if◌then◌else◌,
  arith,
}
use mathlib.Core.List.{append_assoc, append-nil}
use kubepark.Prelude.Text.{Text, eq_iff, ◌==◌}
use kubepark.Api.Rbac.{PolicyRule}
use kubepark.Api.Profile.{NamespacedGrant, AccessProfile}
use kubepark.Controller.Profiles.{
  RulesByNamespace, append_rules, append_grant, union_grants, rules_by_namespace,
}

-- The rules that the map has for a namespace, none where it has no entry.
pub rules_in : Text → RulesByNamespace → List PolicyRule
rules_in ns [] = []
rules_in ns ((n, rs) ∷ more) = if n == ns then rs else rules_in ns more

-- The rules once for each time the namespace is named.
pub granted_by : List Text → List PolicyRule → Text → List PolicyRule
granted_by [] rules ns = []
granted_by (n ∷ names) rules ns = (if n == ns then rules else []) ++ granted_by names rules ns

-- The rules of all grants that name the namespace, in their order.
pub granted_in : List NamespacedGrant → Text → List PolicyRule
granted_in [] ns = []
granted_in (g ∷ gs) ns = granted_by g.namespaces g.rules ns ++ granted_in gs ns

same_key : (m n ns : Text) → (m == n) ≡ true → (m == ns) ≡ (n == ns)
same_key m n ns e = ap (λ (t : Text). t == ns) ((eq_iff m n).0 e)

other_key : (m n ns : Text) → (m == n) ≡ false → (m == ns) ≡ true → (n == ns) ≡ false
other_key m n ns differ e = ground (arith, eq_iff m n, eq_iff m ns, eq_iff n ns)

rules_in-append_rules :
    (n : Text) (rules : List PolicyRule) (acc : RulesByNamespace) (ns : Text)
    → rules_in ns (append_rules n rules acc) ≡ rules_in ns acc ++ (if n == ns then rules else [])
unfolding rules_in
rules_in-append_rules n rules [] ns = ground arith
rules_in-append_rules n rules ((m, rs) ∷ more) ns = elim (Bool-cases (m == n)) [
  | inl here ↦ elim (Bool-cases (m == ns)) [
    | inl there ↦ ground (arith, same_key m n ns here)
    | inr missed ↦ ground (arith, same_key m n ns here, append-nil (rules_in ns more))
  ]
  | inr later ↦ elim (Bool-cases (m == ns)) [
    | inl there ↦ ground (arith, other_key m n ns later there, append-nil rs)
    | inr missed ↦ ground (arith, rules_in-append_rules n rules more ns)
  ]
]

rules_in-append_grant :
    (names : List Text) (rules : List PolicyRule) (acc : RulesByNamespace) (ns : Text)
    → rules_in ns (append_grant names rules acc) ≡ rules_in ns acc ++ granted_by names rules ns
unfolding granted_by
rules_in-append_grant [] rules acc ns = sym (append-nil (rules_in ns acc))
rules_in-append_grant (n ∷ names) rules acc ns =
    rules_in-append_grant names rules (append_rules n rules acc) ns
    ∙ ap (λ (rs : List PolicyRule). rs ++ granted_by names rules ns)
        (rules_in-append_rules n rules acc ns)
    ∙ append_assoc (rules_in ns acc) (if n == ns then rules else []) (granted_by names rules ns)

rules_in-union_grants :
    (gs : List NamespacedGrant) (acc : RulesByNamespace) (ns : Text)
    → rules_in ns (union_grants gs acc) ≡ rules_in ns acc ++ granted_in gs ns
unfolding granted_in
rules_in-union_grants [] acc ns = sym (append-nil (rules_in ns acc))
rules_in-union_grants (g ∷ gs) acc ns =
    rules_in-union_grants gs (append_grant g.namespaces g.rules acc) ns
    ∙ ap (λ (rs : List PolicyRule). rs ++ granted_in gs ns)
        (rules_in-append_grant g.namespaces g.rules acc ns)
    ∙ append_assoc (rules_in ns acc) (granted_by g.namespaces g.rules ns) (granted_in gs ns)

-- The rules of a namespace are those of all the grants that name it, in the order of the grants.
pub rules_by_namespace-granted :
    (profile : AccessProfile) (ns : Text)
    → rules_in ns (rules_by_namespace profile) ≡ granted_in profile.spec.grants ns
unfolding rules_by_namespace
rules_by_namespace-granted profile ns =
    rules_in-union_grants profile.spec.grants [] ns ∙ (unfold rules_in in refl)
