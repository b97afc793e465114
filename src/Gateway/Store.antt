-- ===== src/Gateway/Store.antt =====
-- internal/gateway/store.go: the sandboxes and sessions of the API server, as the gateway uses them.
pub mod Sessions
use kubepark.Prelude.{
  Bool, true, false, Option, none, some, [], if◌then◌else◌, Exec, ok, pure, ◌>>=◌, ◌>>◌,
}
use kubepark.Prelude.Text.{Text}
use kubepark.Api.Time.{Time}
use kubepark.Api.Meta.{Key}
use kubepark.Api.Sandbox.{Sandbox, DesiredState}
use kubepark.Api.Session.{SandboxSession, SessionState, ExitReason, active, closed}
use kubepark.Cluster.{Client}

abbrev pub wants_run : DesiredState → Bool
wants_run DesiredState.running = true
wants_run DesiredState.stopped = false

-- A session from its creation, as the gateway writes it.
unfoldable pub opened : Time → SandboxSession → SandboxSession
opened now s = record s {
  status = record s.status { state = active; start_time = some now; last_activity_time = some now };
}

unfoldable pub beaten : Time → SandboxSession → SandboxSession
beaten now s = record s { status = record s.status { last_activity_time = some now } }

unfoldable pub ended : Time → ExitReason → SandboxSession → SandboxSession
ended now reason s = record s {
  status = record s.status { state = closed; end_time = some now; exit_reason = reason };
}

abbrev pub is_active : SessionState → Bool
is_active active = true
is_active closed = false
is_active SessionState.unset = false

abbrev pub is_closed : SessionState → Bool
is_closed closed = true
is_closed active = false
is_closed SessionState.unset = false

abbrev running_again : Sandbox → Sandbox
running_again sb = record sb { spec = record sb.spec { desired_state = DesiredState.running } }

module _ {W : Type 0} (api : Client W) where
  abbrev clock : Exec W Time
  clock w = let (t, w') = api.time_now w in (ok t, w')

  unfoldable pub get_sandbox : (namespace name : Text) → Exec W Sandbox
  get_sandbox namespace name = api.sandboxes.get (record { namespace = namespace; name = name })

  -- `SetDesiredRunning` mutates the sandbox that it is given, so it is returned.
  unfoldable pub set_desired_running : Sandbox → Exec W Sandbox
  unfolding ◌>>=◌ pure
  set_desired_running sb =
      if wants_run sb.spec.desired_state
      then pure sb
      else do api.sandboxes.patch sb (running_again sb); pure (running_again sb)

  unfoldable pub create_session : SandboxSession → Exec W Unit
  unfolding ◌>>=◌ opened
  create_session session = do
    api.sessions.create session
    now ← clock
    api.sessions.update_status (opened now session)

  unfoldable pub heartbeat : (namespace name : Text) → Exec W Unit
  unfolding ◌>>=◌ pure beaten
  heartbeat namespace name = do
    session ← api.sessions.get (record { namespace = namespace; name = name })
    if is_active session.status.state
        then (do now ← clock; api.sessions.update_status (beaten now session))
        else pure tt

  unfoldable pub close_session : (namespace name : Text) → ExitReason → Exec W Unit
  unfolding ◌>>=◌ pure ended
  close_session namespace name reason = do
    session ← api.sessions.get (record { namespace = namespace; name = name })
    if is_closed session.status.state
        then pure tt
        else do now ← clock; api.sessions.update_status (ended now reason session)
