-- ===== src/Controller/Idle.antt =====
-- `effectiveIdleTimeout`, `idleExpired` and `activeSessionCount` of sandbox_controller.go.
pub mod Laws
use kubepark.Prelude.{
  ℕ, suc, ◌+◌, Bool, true, false, ◌&&◌, ◌||◌, Option, none, some, List, [], ◌∷◌, if◌then◌else◌,
  Exec, pure, ◌>>=◌,
}
use kubepark.Prelude.Int.{pos, leb_ℤ, ltb_ℤ}
use kubepark.Prelude.Text.{Text, ◌==◌}
use kubepark.Api.Time.{Time, Duration, sub, seconds}
use kubepark.Api.Sandbox.{Sandbox}
use kubepark.Api.Template.{SandboxTemplate}
use kubepark.Api.Session.{SandboxSession, SessionState, active, closed, unset}
use kubepark.Cluster.{in_namespace}
use kubepark.Controller.Env.{Env, wall_clock}

abbrev or_default_timeout : Option Duration → Duration
or_default_timeout none = seconds 0
or_default_timeout (some d) = d

abbrev pick_timeout : Option Duration → Option Duration → Duration
pick_timeout none default = or_default_timeout default
pick_timeout (some d) default = d

unfoldable pub effective_idle_timeout : Sandbox → SandboxTemplate → Duration
effective_idle_timeout sb tpl = pick_timeout sb.spec.idle_timeout tpl.spec.default_idle_timeout

abbrev elapsed_past : Option Time → Duration → Time → Bool
elapsed_past none timeout now = false
elapsed_past (some last) timeout now = ltb_ℤ timeout (sub now last)

-- `idleExpired` at the time that time.Since reads.
unfoldable pub idle_expired : Time → Option Time → Duration → Bool
unfolding sub
idle_expired now last timeout =
    if leb_ℤ timeout (pos 0) then false else elapsed_past last timeout now

abbrev pub is_active : SessionState → Bool
is_active active = true
is_active unset = false
is_active closed = false

abbrev pub is_live_of : Text → SandboxSession → Bool
is_live_of name s = s.spec.sandbox_name == name && is_active s.status.state

unfoldable pub count_active : Text → List SandboxSession → ℕ
unfolding ◌==◌
count_active name [] = 0
count_active name (s ∷ ss) = (if is_live_of name s then 1 else 0) + count_active name ss

module _ {W : Type 0} (env : Env W) where
  unfoldable pub active_session_count : Sandbox → Exec W ℕ
  unfolding ◌>>=◌ pure count_active
  active_session_count sb = do
    sessions ← env.api.sessions.list (in_namespace sb.meta.namespace)
    pure (count_active sb.meta.name sessions)
