-- ===== src/Controller/Home.antt =====
-- `reconcileHome` and `applyHomeRetainPolicy` of sandbox_controller.go: the home claim of a sandbox.
pub mod Retain
use kubepark.Prelude.{
  Bool, true, false, Option, none, some, List, [], ◌∷◌, if◌then◌else◌, Exec, Result, ok, err, pure,
  lift, ◌>>=◌, ◌>>◌, if_found, ignore_not_found, ignore_already_exists,
}
use kubepark.Prelude.Text.{Text, codes, ◌==◌}
use kubepark.Api.Time.{seconds}
use kubepark.Api.Meta.{
  Key, key_of, Labels, lit, quoted, home_ready, claim_in_use, invalid_ref, provisioning,
}
use kubepark.Api.Core.{PersistentVolumeClaim}
use kubepark.Api.Sandbox.{Sandbox, HomeSpec, RetainPolicy, retain, delete}
use kubepark.Api.Sandbox.SandboxPhase.{pending}
use kubepark.Podspec
use kubepark.Podspec.{pvc_name, build_pvc, existing_claim_of, has_existing_claim}
use kubepark.Controller.Env.{
  Env, Pass, Requeue, no_requeue, call, set_status, set_phase, set_condition,
}
use kubepark.Controller.Claims.{claim_conflict}

-- A map with one entry written.
abbrev set_label : Text → Text → Labels → Labels
set_label key value [] = (key, value) ∷ []
set_label key value ((k, v) ∷ rest) =
    if k == key then (key, value) ∷ rest else (k, v) ∷ set_label key value rest

abbrev pub label_orphaned_home : Text
label_orphaned_home = codes "kubepark.dev/orphaned-home"

abbrev pub wants_delete : Option HomeSpec → Bool
wants_delete none = false
wants_delete (some home) = elim home.retain_policy [ retain ↦ false | delete ↦ true ]

module _ {W : Type 0} (env : Env W) where
  -- A home is there: record its claim, and go on with the pass.
  abbrev home_done : Sandbox → Text → Exec (Pass W) (Option Requeue)
  home_done sb claim = do
    set_status (λ s. record s { pvc_name = claim })
    set_condition env sb home_ready true provisioning (lit (codes "home volume ready") ∷ [])
    pure none

  abbrev claim_taken : Sandbox → Text → Text → Exec (Pass W) (Option Requeue)
  claim_taken sb claim conflict = do
    set_phase pending
    set_condition env sb home_ready false claim_in_use (
        lit (codes "claim ")
        ∷ quoted claim
        ∷ lit (codes " is in use by sandbox ")
        ∷ quoted conflict
        ∷ [])
    pure (some (record { after = seconds 30 }))

  abbrev claim_missing : Sandbox → Text → Exec (Pass W) (Option Requeue)
  claim_missing sb claim = do
    set_phase pending
    set_condition env sb home_ready false invalid_ref
        (lit (codes "existing claim ") ∷ quoted claim ∷ lit (codes " not found") ∷ [])
    pure (some no_requeue)

  abbrev existing_home : Sandbox → Text → Exec (Pass W) (Option Requeue)
  existing_home sb claim = do
    conflict ← call (claim_conflict env sb claim)
    if conflict == []
        then (if_found
            (call (env.api.claims.get (record { namespace = sb.meta.namespace; name = claim })))
            (λ _. home_done sb claim) (claim_missing sb claim))
        else claim_taken sb claim conflict

  -- The claim has no owner reference: it outlives the sandbox.
  abbrev created_home : Sandbox → Text → Exec (Pass W) (Option Requeue)
  created_home sb claim = do
    tpl ← call (env.api.templates.get (record { namespace = []; name = sb.spec.template }))
    if_found (call (env.api.claims.get (record { namespace = sb.meta.namespace; name = claim })))
        (λ _. pure tt) (call (ignore_already_exists (env.api.claims.create (build_pvc sb tpl))))
    home_done sb claim

  -- `some r` stops the pass with the result r.
  unfoldable pub reconcile_home : Sandbox → Exec (Pass W) (Option Requeue)
  unfolding ◌>>=◌ pure call if_found ignore_already_exists set_status set_phase set_condition
  reconcile_home sb =
      if has_existing_claim sb
      then existing_home sb (existing_claim_of sb.spec.home)
      else created_home sb (pvc_name sb.meta.name)

  abbrev retire : Sandbox → PersistentVolumeClaim → Exec W Unit
  retire sb pvc =
      if wants_delete sb.spec.home
      then ignore_not_found (env.api.claims.delete (key_of pvc.meta))
      else ignore_not_found (
          env.api.claims.update (record pvc {
            meta = record pvc.meta {
              labels = set_label label_orphaned_home (codes "true") pvc.meta.labels;
            };
          }))

  unfoldable pub apply_home_retain_policy : Sandbox → Exec W Unit
  unfolding if_found pure ignore_not_found
  apply_home_retain_policy sb =
      if has_existing_claim sb
      then pure tt
      else if_found
          (env.api.claims.get
            (record { namespace = sb.meta.namespace; name = pvc_name sb.meta.name }))
          (retire sb) (pure tt)
