-- ===== src/Controller/Sessions.antt =====
-- internal/controller/sandboxsession_controller.go: the reaper of stale sessions, the collection of
-- old ones, and the idle clock of the sandbox.
pub mod Reaper
pub mod Clock
use kubepark.Prelude.{
  ℕ, Bool, true, false, not, Option, none, some, if◌then◌else◌, Exec, pure, lift, ◌>>=◌, ◌>>◌,
  if_found, ignore_not_found,
}
use kubepark.Prelude.Int.{pos, ltb_ℤ, leb_ℤ}
use kubepark.Api.Time.{Time, Duration, seconds, is_zero, after, sub, minus, times}
use kubepark.Api.Meta.{Key, key_of}
use kubepark.Api.Sandbox.{Sandbox}
use kubepark.Api.Session.{SandboxSession, SessionState, active, closed, stale_heartbeat}
use kubepark.Controller.Env.{Env, Requeue, no_requeue, now}

abbrev pub default_heartbeat_interval : Duration
default_heartbeat_interval = seconds 60

abbrev pub closed_session_retention : Duration
closed_session_retention = seconds 604800

abbrev positive_or_default : Option Duration → Duration
positive_or_default none = default_heartbeat_interval
positive_or_default (some d) = if ltb_ℤ (pos 0) d then d else default_heartbeat_interval

-- The heartbeat interval that the reaper assumes.
unfoldable pub interval_of : SandboxSession → Duration
interval_of session = positive_or_default session.spec.heartbeat_interval

-- staleHeartbeatFactor * interval, in 64 bits
unfoldable pub deadline_of : SandboxSession → Duration
unfolding interval_of times
deadline_of session = times 3 (interval_of session)

abbrev first_time : Option Time → Option Time → Time → Time
first_time (some t) _ _ = t
first_time none (some t) _ = t
first_time none none t = t

unfoldable pub last_seen : SandboxSession → Time
last_seen session =
    first_time session.status.last_activity_time session.status.start_time
      session.meta.creation_timestamp

-- A stale session ends at its last sign of life.
unfoldable pub closed_as_stale : SandboxSession → SandboxSession
unfolding last_seen
closed_as_stale session = record session {
  status = record session.status {
    state = closed;
    end_time = some (last_seen session);
    exit_reason = stale_heartbeat;
  };
}

-- Whether the idle clock stays: `lastActivityTime != nil && !end.After(lastActivityTime)`.
abbrev pub is_current : Option Time → Time → Bool
is_current none end = false
is_current (some t) end = not (after end t)

-- The idle clock after a session that ended at the given time.
unfoldable pub bump : Option Time → Time → Option Time
bump last end = if is_current last end then last else some end

module _ {W : Type 0} (env : Env W) where
  abbrev reap_after : SandboxSession → Duration → Exec W Requeue
  reap_after session elapsed =
      if leb_ℤ elapsed (deadline_of session)
      then pure (record { after = minus (deadline_of session) elapsed })
      else do
        ignore_not_found (env.api.sessions.update_status (closed_as_stale session))
        pure no_requeue

  unfoldable pub reconcile_active : SandboxSession → Exec W Requeue
  unfolding ◌>>=◌ pure ignore_not_found now
  reconcile_active session =
      if is_zero (last_seen session)
      then pure (record { after = deadline_of session })
      else do t ← now env; reap_after session (sub t (last_seen session))

  abbrev write_clock : Sandbox → Time → Exec W Unit
  write_clock sb end =
      if is_current sb.status.last_activity_time end
      then pure tt
      else ignore_not_found (
          env.api.sandboxes.patch_status sb
            (record sb { status = record sb.status { last_activity_time = some end } }))

  unfoldable pub bump_sandbox_activity : SandboxSession → Time → Exec W Unit
  unfolding if_found pure ignore_not_found
  bump_sandbox_activity session end =
      if_found
        (env.api.sandboxes.get
          (record { namespace = session.meta.namespace; name = session.spec.sandbox_name }))
        (λ sb. write_clock sb end) (pure tt)

  abbrev collect : SandboxSession → Duration → Exec W Requeue
  collect session age =
      if leb_ℤ closed_session_retention age
      then (do ignore_not_found (env.api.sessions.delete (key_of session.meta)); pure no_requeue)
      else pure (record { after = minus closed_session_retention age })

  abbrev reconcile_ended : SandboxSession → Option Time → Exec W Requeue
  reconcile_ended session none = pure no_requeue
  reconcile_ended session (some end) = do
    bump_sandbox_activity session end
    t ← now env
    collect session (sub t end)

  unfoldable pub reconcile_closed : SandboxSession → Exec W Requeue
  unfolding ◌>>=◌ pure ignore_not_found now
  reconcile_closed session = reconcile_ended session session.status.end_time

  abbrev by_state : SandboxSession → SessionState → Exec W Requeue
  by_state session active = reconcile_active session
  by_state session closed = reconcile_closed session
  by_state session SessionState.unset = pure no_requeue

  unfoldable pub reconcile_session : Key → Exec W Requeue
  unfolding if_found pure
  reconcile_session request =
      if_found (env.api.sessions.get request) (λ s. by_state s s.status.state) (pure no_requeue)
