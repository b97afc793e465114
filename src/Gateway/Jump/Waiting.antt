-- ===== src/Gateway/Jump/Waiting.antt =====
-- The wait for a sandbox that is being woken.
use kubepark.Prelude.{
  ℕ, zero, suc, ◌+◌, ◌*◌, ◌≤◌, ◌<◌, ◌≡◌, ◌≢◌, refl, subst, sym, true, false, Bool-cases, inl, inr,
  [], ◌∷◌, Result, ok, err, arith,
}
use kubepark.Prelude.Int.{ℤ, pos}
use kubepark.Prelude.Text.{Text}
use kubepark.Api.Time.{Time, after}
use kubepark.Api.Sandbox.{Sandbox}
use kubepark.Gateway.Store.{get_sandbox, set_desired_running}
use kubepark.Gateway.Jump.{
  JumpEnv, Wake, out_of_fuel, wake_loop, wake_and_wait, poll, until_deadline, after_wait,
  start_waiting, is_up, plus,
}

-- The clock of the world does not go back, `now` reads it, and a wait that is not cut short takes
-- at least `step`.
pub record IsTimed {W : Type 0} (env : JumpEnv W) (step : ℕ) : Type 0 where
  pub clock : W → ℕ
  pub now_reads : (w : W) → clock w ≤ (env.now w).0
  pub now_goes_on : (w : W) → clock w ≤ clock (env.now w).1
  pub now_before : (w : W) → (env.now w).0 ≤ clock (env.now w).1
  pub get_goes_on :
      (namespace name : Text) (w : W) → clock w ≤ clock (get_sandbox env.api namespace name w).1
  pub waits : (w : W) → (env.wait w).0 ≡ true → clock w + step ≤ clock (env.wait w).1

module _ {W : Type 0} (env : JumpEnv W) where
  poll-in_time :
      (r : Result Sandbox) (rest : W → Wake × W) (w : W)
      → (rest w).0 ≢ out_of_fuel
      → (poll env r rest w).0 ≢ out_of_fuel
  poll-in_time (err e) rest w h = h
  poll-in_time (ok sb) rest w h = by_ip sb.status.pod_ip refl
    where
      by_ip : (ip : Text) → sb.status.pod_ip ≡ ip → (poll env (ok sb) rest w).0 ≢ out_of_fuel
      by_ip [] e = ground (arith, h)
      by_ip (c ∷ cs) e = ground arith

  until_deadline-in_time :
      (deadline : Time) (rest : W → Wake × W) (w : W)
      → (after (env.now w).0 deadline ≡ false
          → (after_wait env (env.wait (env.now w).1) rest).0 ≢ out_of_fuel)
      → (until_deadline env deadline (env.now w) rest).0 ≢ out_of_fuel
  until_deadline-in_time deadline rest w h = elim (Bool-cases (after (env.now w).0 deadline)) [
    | inl late ↦ ground arith
    | inr early ↦ ground (arith, h early)
  ]

  after_wait-in_time :
      (rest : W → Wake × W) (w : W)
      → ((env.wait w).0 ≡ true → (rest (env.wait w).1).0 ≢ out_of_fuel)
      → (after_wait env (env.wait w) rest).0 ≢ out_of_fuel
  after_wait-in_time rest w h = elim (Bool-cases (env.wait w).0) [
    | inl waited ↦ ground (arith, h waited)
    | inr cut_short ↦ ground arith
  ]

  module _ (step : ℕ) (timed : IsTimed env step) (sb : Sandbox) (deadline : Time) where
    one_poll :
        (fuel : ℕ) (w : W)
        → ((v : W)
            → (t : ℕ) → t ≤ deadline
            → timed.clock w ≤ t
            → timed.clock w ≤ timed.clock v
            → (after_wait env (env.wait v) (wake_loop env fuel sb deadline)).0 ≢ out_of_fuel)
        → (wake_loop env (suc fuel) sb deadline w).0 ≢ out_of_fuel
    unfolding wake_loop
    one_poll fuel w h =
        let (fresh, w') = get_sandbox env.api sb.meta.namespace sb.meta.name w in
        let later : timed.clock w ≤ timed.clock w' =
          timed.get_goes_on sb.meta.namespace sb.meta.name w in
        let reads : timed.clock w' ≤ (env.now w').0 = timed.now_reads w' in
        let goes_on : timed.clock w' ≤ timed.clock (env.now w').1 = timed.now_goes_on w' in
        poll-in_time fresh
          (λ v. until_deadline env deadline (env.now v) (wake_loop env fuel sb deadline)) w'
          (until_deadline-in_time deadline (wake_loop env fuel sb deadline) w'
            (λ early. h (env.now w').1 (env.now w').0 (ground arith) (ground arith) (ground arith)))

    wake_loop-in_time :
        (fuel : ℕ) (w : W)
        → deadline < timed.clock w + fuel * step
        → (wake_loop env (suc fuel) sb deadline w).0 ≢ out_of_fuel
    wake_loop-in_time zero w h = one_poll zero w (λ v t early seen later. absurd (ground arith))
    wake_loop-in_time (suc fuel) w h = one_poll (suc fuel) w λ v t early seen later.
        after_wait-in_time (wake_loop env (suc fuel) sb deadline) v
          (λ waited. wake_loop-in_time fuel (env.wait v).1 (ground (arith, timed.waits v waited)))

  start_waiting-in_time :
      (step : ℕ) (timed : IsTimed env step) (fuel timeout : ℕ)
      → env.wake_timeout ≡ pos timeout
      → timeout < fuel * step
      → (r : Result Sandbox) (w : W) → (start_waiting env (suc fuel) r w).0 ≢ out_of_fuel
  start_waiting-in_time step timed fuel timeout t enough (err e) w = λ p. cc
  start_waiting-in_time step timed fuel timeout t enough (ok sb) w =
      wake_loop-in_time step timed sb (plus env (env.now w).0 env.wake_timeout) fuel (env.now w).1 (
        subst (λ (d : ℤ). plus env (env.now w).0 d < timed.clock (env.now w).1 + fuel * step)
          (sym t) (ground (arith, timed.now_before w)))

  -- With a wait of at least `step` between two polls, wakeAndWait ends within `fuel + 1` polls,
  -- where the timeout is less than `fuel` times the step.
  pub wake_and_wait-in_time :
      (step : ℕ) (timed : IsTimed env step) (fuel timeout : ℕ)
      → env.wake_timeout ≡ pos timeout
      → timeout < fuel * step
      → (sb : Sandbox) (w : W) → (wake_and_wait env (suc fuel) sb w).0 ≢ out_of_fuel
  unfolding wake_and_wait
  wake_and_wait-in_time step timed fuel timeout t enough sb w = elim (Bool-cases (is_up env sb)) [
    | inl up ↦ ground arith
    | inr down ↦
        let (resumed, w') = set_desired_running env.api sb w in
        ground (arith, start_waiting-in_time step timed fuel timeout t enough resumed w')
  ]
