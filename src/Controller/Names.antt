-- ===== src/Controller/Names.antt =====
-- internal/controller/rbacnames.go, and `ownerOfGeneratedClaim` of sandbox_controller.go.
pub mod Generated
use kubepark.Prelude.{Option, none, some, [], ◌∷◌, ◌++◌}
use kubepark.Prelude.Text.{Text, codes, cut_prefix}

abbrev pub label_profile : Text
label_profile = codes "kubepark.dev/profile"

unfoldable pub sa_name : Text → Text
sa_name sandbox = codes "kubepark-sb-" ++ sandbox

unfoldable pub profile_role_name : Text → Text
profile_role_name profile = codes "kubepark-ap-" ++ profile

unfoldable pub role_binding_name : Text → Text
role_binding_name sandbox = codes "kubepark-sb-" ++ sandbox

abbrev longer_than_prefix : Option Text → Option Text
longer_than_prefix none = none
longer_than_prefix (some []) = none
longer_than_prefix (some (c ∷ rest)) = some (c ∷ rest)

-- The sandbox whose generated claim has the given name.
unfoldable pub owner_of_generated_claim : Text → Option Text
unfolding cut_prefix
owner_of_generated_claim claim = longer_than_prefix (cut_prefix (codes "kubepark-home-") claim)
