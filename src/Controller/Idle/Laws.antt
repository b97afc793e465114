-- ===== src/Controller/Idle/Laws.antt =====
-- When the idle window of a sandbox has elapsed.
use kubepark.Prelude.{ℕ, ◌+◌, ◌<◌, ◌≡◌, ◌↔◌, Option, none, some, true, arith}
use kubepark.Prelude.Int.{pos, negsuc, pos_part}
use kubepark.Api.Time.{Time, Duration, max_duration}
use kubepark.Controller.Idle.{idle_expired}

-- The window that begins at the last activity and lasts `timeout` has passed at `now`. No window
-- is set where the timeout is not positive.
pub record IsIdle (now : Time) (last : Option Time) (timeout : Duration) : Type 0 where
  pub since : Time
  pub known : last ≡ some since
  pub length : ℕ
  pub positive : 0 < length
  pub set : timeout ≡ pos length
  pub past : since + length < now

IsIdle-sound :
    (now : Time) (last : Option Time) (timeout : Duration)
    → idle_expired now last timeout ≡ true
    → IsIdle now last timeout
unfolding idle_expired
IsIdle-sound now none timeout h = ground arith
IsIdle-sound now (some t) (negsuc n) h = ground arith
IsIdle-sound now (some t) (pos n) h = record {
  since = t;
  known = ground arith;
  length = n;
  positive = ground arith;
  set = ground arith;
  past = ground arith;
}

IsIdle-complete :
    (now : Time) (last : Option Time) (timeout : Duration)
    → pos_part timeout < max_duration
    → IsIdle now last timeout
    → idle_expired now last timeout ≡ true
unfolding idle_expired
IsIdle-complete now last timeout h k = ground (arith, k)

-- For a timeout below the largest duration, the test says that the sandbox is idle just if the
-- window has passed.
pub idle_expired_iff :
    (now : Time) (last : Option Time) (timeout : Duration)
    → pos_part timeout < max_duration
    → (idle_expired now last timeout ≡ true) ↔ IsIdle now last timeout
idle_expired_iff now last timeout h =
    (IsIdle-sound now last timeout, IsIdle-complete now last timeout h)
