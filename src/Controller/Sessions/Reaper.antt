-- ===== src/Controller/Sessions/Reaper.antt =====
-- When an active session is closed as stale.
use kubepark.Prelude.{
  ℕ, ◌+◌, ◌-◌, ◌*◌, ◌≤◌, ◌<◌, ◌/◌, ◌≡◌, ap, ◌∙◌, false, Bool-cases, inl, inr, ok, arith, ltb,
}
use kubepark.Prelude.Int.{pos, negsuc, pos_part, leb_ℤ}
use kubepark.Prelude.Text.{Text}
use kubepark.Api.Time.{
  Time, Duration, max_duration, second, sub, minus, times, wrap, quotient, is_zero,
}
use kubepark.Api.Sandbox.{Sandbox}
use kubepark.Api.Session.{SandboxSession}
use kubepark.Controller.Env.{Env, now}
use kubepark.Controller.Sessions.{
  interval_of, deadline_of, last_seen, closed_as_stale, reconcile_active,
}
use kubepark.Gateway.Jump.{new_session, session_interval, heartbeat_interval, or_none}

times-no_overflow : (n : ℕ) → 3 * n ≤ max_duration → times 3 (pos n) ≡ pos (3 * n)
unfolding times wrap
times-no_overflow n h = ground arith

module _ {W : Type 0} (env : Env W) (session : SandboxSession) (w w' : W) (t : Time) (n : ℕ) where
  -- With an interval n, and a deadline 3 * n below the largest duration, an active session that was
  -- seen at some time is closed as stale if more than 3 * n have passed since it was last seen;
  -- if not, and the clock is not behind that time, nothing is written and the requeue comes when the
  -- rest of the 3 * n has passed.
  pub reconcile_active-deadline :
      now env w ≡ (ok t, w')
      → is_zero (last_seen session) ≡ false
      → interval_of session ≡ pos n
      → 3 * n < max_duration
      → ((last_seen session + 3 * n < t
            → (reconcile_active env session w).1
              ≡ (env.api.sessions.update_status (closed_as_stale session) w').1)
          × (last_seen session ≤ t
              → t ≤ last_seen session + 3 * n
              → reconcile_active env session w
                ≡ (ok (record { after = pos (last_seen session + 3 * n - t) }), w')))
  reconcile_active-deadline clock seen interval bounded = (stale, fresh)
    where
      deadline_is : deadline_of session ≡ pos (3 * n)
      deadline_is =
          unfold deadline_of in (ap (times 3) interval ∙ times-no_overflow n (ground arith))

      stale :
          last_seen session + 3 * n < t
          → (reconcile_active env session w).1
            ≡ (env.api.sessions.update_status (closed_as_stale session) w').1
      stale late =
          unfold reconcile_active now in
          (let elapsed : leb_ℤ (sub t (last_seen session)) (pos (3 * n)) ≡ false =
              unfold sub in ground arith in
            ground (arith, elapsed, deadline_is, clock, seen))

      fresh :
          last_seen session ≤ t
          → t ≤ last_seen session + 3 * n
          → reconcile_active env session w
            ≡ (ok (record { after = pos (last_seen session + 3 * n - t) }), w')
      fresh seen_by early =
          unfold reconcile_active now in
          (let elapsed : sub t (last_seen session) ≡ pos (t - last_seen session) =
              unfold sub in ground arith in
            let rest : minus (pos (3 * n)) (pos (t - last_seen session))
                ≡ pos (last_seen session + 3 * n - t) =
              unfold minus wrap in ground arith in
            ground (arith, elapsed, rest, deadline_is, clock, seen))

heartbeat_interval-bounds :
    (d : Duration)
    → pos_part d ≤ max_duration
    → (n : ℕ) × (heartbeat_interval d ≡ pos n)
      × (3 * n < max_duration)
      × (60 * second ≤ n)
      × (pos_part d / 4 ≤ n)
unfolding heartbeat_interval quotient
heartbeat_interval-bounds (pos m) fits = elim (Bool-cases (ltb (60 * second) (m / 4))) [
  | inl long ↦ (m / 4, ground arith, ground arith, ground arith, ground arith)
  | inr short ↦ (60 * second, ground arith, ground arith, ground arith, ground arith)
]
heartbeat_interval-bounds (negsuc m) fits =
    (60 * second, ground arith, ground arith, ground arith, ground arith)

-- The sessions that the gateway makes, for an idle timeout that fits a duration, have an interval n
-- of at least a minute and of at least a quarter of the timeout, and the reaper waits for 3 * n.
pub new_session-deadline :
    (sb : Sandbox) (name principal client_addr serial : Text)
    → pos_part (or_none sb.spec.idle_timeout) ≤ max_duration
    → (n : ℕ) × (interval_of (new_session sb name principal client_addr serial) ≡ pos n)
      × (deadline_of (new_session sb name principal client_addr serial) ≡ pos (3 * n))
      × (3 * n < max_duration)
      × (60 * second ≤ n)
      × (pos_part (or_none sb.spec.idle_timeout) / 4 ≤ n)
new_session-deadline sb name principal client_addr serial fits =
    let (n, interval, bounded, minute, quarter) =
      heartbeat_interval-bounds (or_none sb.spec.idle_timeout) fits in
    let assumed : interval_of (new_session sb name principal client_addr serial) ≡ pos n =
      unfold interval_of new_session session_interval in ground (arith, interval, minute) in
    let deadline : deadline_of (new_session sb name principal client_addr serial) ≡ pos (3 * n) =
      unfold deadline_of in (ap (times 3) assumed ∙ times-no_overflow n (ground arith)) in
    (n, assumed, deadline, bounded, minute, quarter)
