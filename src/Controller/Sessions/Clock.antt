-- ===== src/Controller/Sessions/Clock.antt =====
-- The idle clock that ended sessions move.
use kubepark.Prelude.{
  ◌≤◌, ◌≡◌, ◌⊎◌, inl, inr, refl, Bool-cases, Option, none, some, ok, ignore_not_found, arith,
}
use kubepark.Api.Time.{Time}
use kubepark.Api.Sandbox.{Sandbox}
use kubepark.Api.Session.{SandboxSession}
use kubepark.Controller.Env.{Env}
use kubepark.Controller.Sessions.{bump, is_current, bump_sandbox_activity}

-- After a session that ended, the clock is at the later of its old time and the session's end.
pub bump-IsLater :
    (last : Option Time) (end : Time)
    → (t : Time) × (bump last end ≡ some t)
      × (end ≤ t)
      × ((l : Time) → last ≡ some l → l ≤ t)
      × ((t ≡ end) ⊎ (last ≡ some t))
unfolding bump
bump-IsLater none end = (end, refl, ground arith, λ l p. cc, inl refl)
bump-IsLater (some l) end = elim (Bool-cases (is_current (some l) end)) [
  | inl current ↦ (l, ground arith, ground arith, λ m p. ground arith, inr refl)
  | inr behind ↦ (end, ground arith, ground arith, λ m p. ground arith, inl refl)
]

-- Two sessions that ended move the clock to the same time in either order.
pub bump_comm : (last : Option Time) (a b : Time) → bump (bump last a) b ≡ bump (bump last b) a
unfolding bump
bump_comm none a b = ground arith
bump_comm (some l) a b = ground arith

-- For a sandbox that is there, the clock that is stored becomes the later of the old one and the
-- session's end by one patch of the status, and where it is that already nothing is written.
pub bump_sandbox_activity-bump :
    {W : Type 0}
    → (env : Env W) (session : SandboxSession) (end : Time) (w w' : W) (sb : Sandbox)
    → env.api.sandboxes.get
        (record { namespace = session.meta.namespace; name = session.spec.sandbox_name })
        w
      ≡ (ok sb, w')
    → ((bump sb.status.last_activity_time end ≡ sb.status.last_activity_time)
        × (bump_sandbox_activity env session end w ≡ (ok tt, w')))
      ⊎ (bump_sandbox_activity env session end w
          ≡ ignore_not_found
              (env.api.sandboxes.patch_status sb (record sb {
                status = record sb.status {
                  last_activity_time = bump sb.status.last_activity_time end;
                };
              }))
              w')
unfolding bump_sandbox_activity bump
bump_sandbox_activity-bump env session end w w' sb h =
    elim (Bool-cases (is_current sb.status.last_activity_time end)) [
      | inl current ↦ inl (ground arith, ground arith)
      | inr behind ↦ inr (ground arith)
    ]
