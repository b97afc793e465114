-- ===== src/Controller/Claims.antt =====
-- `claimConflict` and `wins` of sandbox_controller.go: which of the sandboxes that name one claim
-- may use it.
pub mod Order
pub mod Exclusive
use kubepark.Prelude.{
  ℕ, Bool, true, false, not, ◌&&◌, ◌||◌, Option, none, some, List, [], ◌∷◌, ◌++◌, ltb, eqb,
  if◌then◌else◌, Exec, pure, ◌>>=◌, if_found,
}
use kubepark.Prelude.Text.{Text, codes, ◌==◌}
use kubepark.Api.Meta.{Key, is_deleting}
use kubepark.Api.Time.{before}
use kubepark.Api.Sandbox.{Sandbox, DesiredState, SandboxPhase, stopped, suspended}
use kubepark.Cluster.{by_existing_claim}
use kubepark.Controller.Env.{Env}
use kubepark.Controller.Names.{owner_of_generated_claim}

-- Go's < on strings: bytewise.
unfoldable pub text_ltb : Text → Text → Bool
text_ltb [] [] = false
text_ltb [] (_ ∷ _) = true
text_ltb (_ ∷ _) [] = false
text_ltb (c ∷ s) (d ∷ t) = ltb c d || (eqb c d && text_ltb s t)

unfoldable pub wins : Sandbox → Sandbox → Bool
unfolding text_ltb
wins a b =
    if eqb a.meta.creation_timestamp b.meta.creation_timestamp
    then text_ltb a.meta.uid b.meta.uid
    else before a.meta.creation_timestamp b.meta.creation_timestamp

-- Stopped by its owner, and suspended.
abbrev pub gave_up : DesiredState → SandboxPhase → Bool
gave_up stopped suspended = true
gave_up _ _ = false

abbrev pub is_skipped : Sandbox → Sandbox → Bool
is_skipped sb other =
    other.meta.uid == sb.meta.uid
    || is_deleting other.meta
    || gave_up other.spec.desired_state other.status.phase

-- The loop over the candidates; the empty name means no conflict.
unfoldable pub first_winner : Sandbox → List Sandbox → Text
unfolding wins
first_winner sb [] = []
first_winner sb (other ∷ others) =
    let rest = first_winner sb others in
    if is_skipped sb other then rest else if wins other sb then other.meta.name else rest

module _ {W : Type 0} (env : Env W) where
  -- The sandbox that a generated name belongs to, if it is another one and exists.
  abbrev generated_owner : Sandbox → Option Text → List Sandbox → Exec W (List Sandbox)
  generated_owner sb none candidates = pure candidates
  generated_owner sb (some owner) candidates =
      if owner == sb.meta.name
      then pure candidates
      else if_found (env.api.sandboxes.get (record { namespace = sb.meta.namespace; name = owner }))
          (λ found. pure (candidates ++ found ∷ [])) (pure candidates)

  unfoldable pub claim_conflict : Sandbox → Text → Exec W Text
  unfolding ◌>>=◌ if_found pure first_winner owner_of_generated_claim
  claim_conflict sb claim = do
    others ← env.api.sandboxes.list (by_existing_claim sb.meta.namespace claim)
    candidates ← generated_owner sb (owner_of_generated_claim claim) others
    pure (first_winner sb candidates)
