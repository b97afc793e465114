-- ===== src/Controller/Names/Generated.antt =====
-- The names of generated home claims.
use kubepark.Prelude.{◌≡◌, ◌≢◌, ◌↔◌, refl, ap, ◌∙◌, Option, none, some, [], ◌∷◌, ◌++◌, arith}
use kubepark.Prelude.Text.{Text, codes, cut_prefix}
use kubepark.Prelude.Text.Cut.{cut_prefix_sound}
use kubepark.Podspec.{pvc_name}
use kubepark.Controller.Names.{owner_of_generated_claim, longer_than_prefix}

-- The owner of a claim is the one sandbox for which the claim's name is generated, if that sandbox
-- has a name.
pub owner_of_generated_claim_iff :
    (claim sandbox : Text)
    → (owner_of_generated_claim claim ≡ some sandbox)
      ↔ ((claim ≡ pvc_name sandbox) × (sandbox ≢ []))
unfolding owner_of_generated_claim pvc_name cut_prefix
owner_of_generated_claim_iff claim sandbox = (to, from)
  where
    by_rest :
        (o : Option Text)
        → cut_prefix (codes "kubepark-home-") claim ≡ o
        → longer_than_prefix o ≡ some sandbox
        → (claim ≡ codes "kubepark-home-" ++ sandbox) × (sandbox ≢ [])
    by_rest none e h = cc
    by_rest (some []) e h = cc
    by_rest (some (c ∷ cs)) e h =
        let same : c ∷ cs ≡ sandbox = ground arith in
        (
          cut_prefix_sound (codes "kubepark-home-") claim (c ∷ cs) e
              ∙ ap (λ (t : Text). codes "kubepark-home-" ++ t) same,
          λ p. cc,
        )

    to :
        owner_of_generated_claim claim ≡ some sandbox
        → (claim ≡ codes "kubepark-home-" ++ sandbox) × (sandbox ≢ [])
    to h = by_rest (cut_prefix (codes "kubepark-home-") claim) refl h

    named : (s : Text) → s ≢ [] → owner_of_generated_claim (codes "kubepark-home-" ++ s) ≡ some s
    named [] ne = absurd (ne refl)
    named (c ∷ cs) ne = refl

    from :
        (claim ≡ codes "kubepark-home-" ++ sandbox) × (sandbox ≢ [])
        → owner_of_generated_claim claim ≡ some sandbox
    from (e, ne) = ap owner_of_generated_claim e ∙ named sandbox ne
