-- ===== src/Controller/Watches/Requeued.antt =====
-- Just the objects that a change concerns are reconciled again.
use mathlib.Core.List.{Memᴰ}
use kubepark.Prelude.{
  ◌≡◌, ◌≢◌, ◌↔◌, refl, sym, ap, ◌∙◌, true, Bool, false, if◌then◌else◌, List, [], ◌∷◌, ok, arith,
}
use kubepark.Prelude.Text.{Text, contains, eq_iff}
use kubepark.Api.Meta.{Key, key_of}
use kubepark.Api.Core.{Namespace}
use kubepark.Api.Sandbox.{Sandbox}
use kubepark.Api.Profile.{AccessProfile}
use kubepark.Cluster.{Client, everywhere, by_access_profile}
use kubepark.Controller.Access.{grant_namespaces}
use kubepark.Controller.Access.Grants.{any_grant, grant_namespaces-Distinct}
use kubepark.Controller.Watches.{
  access_profile, index_values, given, to_requests, sandboxes_for_access_profile, profiles_naming,
  profiles_for_namespace,
}

-- A List by the index of profiles answers the stored sandboxes that have the value among those of
-- the index.
pub record IsIndexed {W : Type 0} (api : Client W) : Type 1 where
  pub IsStored : W → Sandbox → Type 0
  pub indexed :
      (w : W) (name : Text) (found : List Sandbox)
      → (api.sandboxes.list (by_access_profile name) w).0 ≡ ok found
      → (sb : Sandbox)
      → Memᴰ sb found ↔ (IsStored w sb × (contains (index_values access_profile sb) name ≡ true))

Memᴰ-requests :
    (sbs : List Sandbox) (sb : Sandbox) → Memᴰ sb sbs → Memᴰ (key_of sb.meta) (to_requests sbs)
Memᴰ-requests [] sb m = elim m [ ]
Memᴰ-requests (x ∷ sbs) sb (Memᴰ.head e) = Memᴰ.head (ap (λ (s : Sandbox). key_of s.meta) e)
Memᴰ-requests (x ∷ sbs) sb (Memᴰ.tail m) = Memᴰ.tail (Memᴰ-requests sbs sb m)

requests-Memᴰ :
    (sbs : List Sandbox) (k : Key)
    → Memᴰ k (to_requests sbs)
    → (sb : Sandbox) × Memᴰ sb sbs × (k ≡ key_of sb.meta)
requests-Memᴰ [] k m = elim m [ ]
requests-Memᴰ (x ∷ sbs) k (Memᴰ.head e) = (x, Memᴰ.head refl, e)
requests-Memᴰ (x ∷ sbs) k (Memᴰ.tail m) =
    let (sb, inside, e) = requests-Memᴰ sbs k m in (sb, Memᴰ.tail inside, e)

given_iff : (x name : Text) → name ≢ [] → (contains (given x) name ≡ true) ↔ (x ≡ name)
unfolding contains
given_iff [] name named = (λ h. cc, λ e. absurd (named (sym e)))
given_iff (c ∷ cs) name named = ground (arith, eq_iff (c ∷ cs) name)

module _ {W : Type 0} (api : Client W) where
  -- When a profile changes, just the stored sandboxes that name it are reconciled, where the List
  -- succeeds and the profile has a name.
  pub sandboxes_for_access_profile_iff :
      (laws : IsIndexed api) (p : AccessProfile) (w : W) (found : List Sandbox)
      → (api.sandboxes.list (by_access_profile p.meta.name) w).0 ≡ ok found
      → p.meta.name ≢ []
      → (k : Key)
      → Memᴰ k (sandboxes_for_access_profile api p w).0 ↔ (
          (sb : Sandbox) × laws.IsStored w sb
          × (sb.spec.access_profile ≡ p.meta.name)
          × (k ≡ key_of sb.meta))
  unfolding sandboxes_for_access_profile
  sandboxes_for_access_profile_iff laws p w found listed named k = (
    λ m.
        let inside : Memᴰ k (to_requests found) = rw listed at m in
        let (sb, there, e) = requests-Memᴰ found k inside in
        let (stored, value) = (laws.indexed w p.meta.name found listed sb).0 there in
        (sb, stored, (given_iff sb.spec.access_profile p.meta.name named).0 value, e),
    λ h.
        let (sb, stored, names, e) = h in
        let value = (given_iff sb.spec.access_profile p.meta.name named).1 names in
        let there = (laws.indexed w p.meta.name found listed sb).1 (stored, value) in
        rw listed (rw e (Memᴰ-requests found sb there)),
  )

abbrev pub profile_key : AccessProfile → Key
profile_key p = record { namespace = []; name = p.meta.name }

-- A profile of the list that has a grant for the namespace, under its key.
abbrev pub Naming : Text → Key → List AccessProfile → Type 0
Naming ns k ps =
    (p : AccessProfile) × Memᴰ p ps × (any_grant p.spec.grants ns ≡ true) × (k ≡ profile_key p)

Naming-tail :
    (ns : Text) (k : Key) (p : AccessProfile) (ps : List AccessProfile)
    → Naming ns k ps
    → Naming ns k (p ∷ ps)
Naming-tail ns k p ps (q, inside, grants, e) = (q, Memᴰ.tail inside, grants, e)

module _ (ns : Text) (p : AccessProfile) (ps : List AccessProfile) (k : Key)
    (ih : Memᴰ k (profiles_naming ns ps) ↔ Naming ns k ps) where
  grants_is : contains (grant_namespaces p) ns ≡ any_grant p.spec.grants ns
  grants_is = (grant_namespaces-Distinct p).1 ns

  Naming-to :
      (b : Bool)
      → any_grant p.spec.grants ns ≡ b
      → Memᴰ k (if b then profile_key p ∷ profiles_naming ns ps else profiles_naming ns ps)
      → Naming ns k (p ∷ ps)
  Naming-to true grants (Memᴰ.head e) = (p, Memᴰ.head refl, grants, e)
  Naming-to true grants (Memᴰ.tail m) = Naming-tail ns k p ps (ih.0 m)
  Naming-to false grants m = Naming-tail ns k p ps (ih.0 m)

  naming_from :
      (b : Bool)
      → any_grant p.spec.grants ns ≡ b
      → (q : AccessProfile) → Memᴰ q (p ∷ ps)
      → any_grant q.spec.grants ns ≡ true
      → k ≡ profile_key q
      → Memᴰ k (if b then profile_key p ∷ profiles_naming ns ps else profiles_naming ns ps)
  naming_from true is_b q (Memᴰ.head same) grants e = Memᴰ.head (e ∙ ap profile_key same)
  naming_from true is_b q (Memᴰ.tail m) grants e = Memᴰ.tail (ih.1 (q, m, grants, e))
  naming_from false is_b q (Memᴰ.head same) grants e =
      let there = ap (λ (x : AccessProfile). any_grant x.spec.grants ns) same in cc
  naming_from false is_b q (Memᴰ.tail m) grants e = ih.1 (q, m, grants, e)

profiles_naming_iff :
    (ns : Text) (ps : List AccessProfile) (k : Key)
    → Memᴰ k (profiles_naming ns ps) ↔ Naming ns k ps
unfolding profiles_naming
profiles_naming_iff ns [] k = (λ m. elim m [ ], λ h. let (p, m, grants, e) = h in elim m [ ])
profiles_naming_iff ns (p ∷ ps) k =
    let ih = profiles_naming_iff ns ps k in
    rw (grants_is ns p ps k ih) (
      Naming-to ns p ps k ih _ refl,
      λ h. let (q, m, grants, e) = h in naming_from ns p ps k ih _ refl q m grants e,
    )

-- When a namespace appears, just the profiles with a grant for it are reconciled, where the List
-- succeeds.
pub profiles_for_namespace_iff :
    {W : Type 0} (api : Client W) (ns : Namespace) (w : W) (found : List AccessProfile)
    → (api.profiles.list everywhere w).0 ≡ ok found
    → (k : Key)
    → Memᴰ k (profiles_for_namespace api ns w).0 ↔ (
        (p : AccessProfile) × Memᴰ p found
        × (any_grant p.spec.grants ns.meta.name ≡ true)
        × (k ≡ profile_key p))
unfolding profiles_for_namespace
profiles_for_namespace_iff api ns w found listed k =
    rw listed (profiles_naming_iff ns.meta.name found k)
