-- ===== src/Gateway/Jump.antt =====
-- internal/gateway/sshjump.go and dialer.go: the SSH jump host.
pub mod Auth
pub mod Waiting
pub mod Serve
pub mod Server
pub mod Heartbeats
use kubepark.Prelude.{
  ℕ, zero, suc, ◌+◌, Bool, true, false, not, ◌&&◌, Option, none, some, List, [], ◌∷◌, ◌++◌,
  if◌then◌else◌, ◌-◌, Error, Exec, Result, ok, err, other, pure, raise, attempt, ◌>>=◌, ◌>>◌,
}
use kubepark.Prelude.Int.{pos, negsuc, ltb_ℤ}
use kubepark.Prelude.Text.{Text, codes, ◌==◌}
use kubepark.Api.Time.{Time, Duration, seconds, after, quotient}
use kubepark.Api.Meta.{ObjectMeta, named}
use kubepark.Api.Sandbox.{Sandbox}
use kubepark.Api.Session.{SandboxSession, SessionState, ExitReason, SessionKind, disconnected}
use kubepark.Cluster.{Client}
use kubepark.Cluster.Ssh.{PublicKey, Certificate, Ssh}
use kubepark.SshCa.{check_user_cert}
use kubepark.Gateway.SshTarget.{SshTarget, parse_ssh_target}
use kubepark.Gateway.Store.{
  get_sandbox, set_desired_running, create_session, close_session, wants_run,
}

-- What the handler calls: its store and clock, the wait between two polls (false if the context
-- ended first), crypto/rand, the dialer, and the channel.
pub record JumpEnv (W : Type 0) : Type 0 where
  pub api : Client W
  pub now : W → Time × W
  pub wait : W → Bool × W
  pub random_suffix : W → Text × W
  pub dial : Text → Exec W Unit
  pub accept : Exec W Unit
  pub bridge : W → W
  pub default_namespace : Text
  pub wake_timeout : Duration

pub data Rejection : Type 0 where
  bad_payload bad_target prohibited not_ready unreachable : Rejection

pub data Outcome : Type 0 where
  rejected : Rejection → Outcome
  not_accepted : Outcome
  bridged : Outcome

-- What PublicKeyHandler stores in the connection's context.
pub record Login : Type 0 where
  pub principal : Text
  pub serial : ℕ

abbrev pub check_login : Certificate → Text → Result Unit → Option Login
check_login cert principal (ok _) = some (record { principal = principal; serial = cert.serial })
check_login cert principal (err _) = none

abbrev pub try_principals :
    {W : Type 0} → Ssh W → Certificate → PublicKey → Time → List Text → Option Login
try_principals ssh cert user_ca now [] = none
try_principals ssh cert user_ca now (principal ∷ _) =
    check_login cert principal (check_user_cert ssh (some cert) user_ca principal now)

-- A key that is no certificate is refused.
unfoldable pub public_key_handler :
    {W : Type 0} → Ssh W → Option Certificate → PublicKey → Time → Option Login
public_key_handler ssh none user_ca now = none
public_key_handler ssh (some cert) user_ca now =
    try_principals ssh cert user_ca now cert.valid_principals

abbrev pub or_none : Option Duration → Duration
or_none none = seconds 0
or_none (some d) = d

unfoldable pub heartbeat_interval : Duration → Duration
unfolding quotient
heartbeat_interval idle_timeout =
    if ltb_ℤ (seconds 60) (quotient idle_timeout 4) then quotient idle_timeout 4 else seconds 60

-- `effectiveIdleTimeout` of the gateway, which sees no template, and the interval from it.
unfoldable pub session_interval : Sandbox → Duration
session_interval sb = heartbeat_interval (or_none sb.spec.idle_timeout)

unfoldable pub new_session : Sandbox → Text → Text → Text → Text → SandboxSession
new_session sb name principal client_addr serial = record {
  meta = named sb.meta.namespace name [];
  spec = record {
    sandbox_name = sb.meta.name;
    user = principal;
    client_addr = client_addr;
    kind = SessionKind.ssh;
    cert_serial = serial;
    heartbeat_interval = some (session_interval sb);
  };
  status = record {
    state = SessionState.unset;
    start_time = none;
    last_activity_time = none;
    end_time = none;
    exit_reason = ExitReason.unset;
  };
}

pub data Wake : Type 0 where
  awake : Sandbox → Wake
  failed : Error → Wake
  out_of_fuel : Wake

module _ {W : Type 0} (env : JumpEnv W) where
  abbrev owned_by : Text → Sandbox → Exec W Sandbox
  owned_by principal sb =
      if sb.spec.owner.name == principal
      then pure sb
      else raise (other (codes "principal is not the owner of the sandbox"))

  unfoldable pub authorize : SshTarget → Text → Exec W Sandbox
  unfolding ◌>>=◌ pure raise
  authorize target [] = raise (other (codes "no principal"))
  authorize target (c ∷ cs) = do
    sb ← get_sandbox env.api target.namespace target.sandbox
    owned_by (c ∷ cs) sb

  -- The test of one poll, and what follows if it fails.
  abbrev poll : Result Sandbox → (W → Wake × W) → W → Wake × W
  poll (ok fresh) rest w = elim fresh.status.pod_ip [ [] ↦ rest w | _ ∷ _ ↦ (awake fresh, w) ]
  poll (err _) rest w = rest w

  abbrev after_wait : Bool × W → (W → Wake × W) → Wake × W
  after_wait (false, w) rest = (failed (other (codes "context done")), w)
  after_wait (true, w) rest = rest w

  abbrev until_deadline : Time → Time × W → (W → Wake × W) → Wake × W
  until_deadline deadline (t, w) rest = elim (after t deadline) [
    | true ↦ (failed (other (codes "timed out waiting for sandbox to become ready")), w)
    | false ↦ after_wait (env.wait w) rest
  ]

  -- The polls of `wakeAndWait`.
  unfoldable pub wake_loop : ℕ → Sandbox → Time → W → Wake × W
  wake_loop zero sb deadline w = (out_of_fuel, w)
  wake_loop (suc fuel) sb deadline w =
      let (fresh, w') = get_sandbox env.api sb.meta.namespace sb.meta.name w in
      poll fresh (λ v. until_deadline deadline (env.now v) (wake_loop fuel sb deadline)) w'

  abbrev is_up : Sandbox → Bool
  is_up sb = not (sb.status.pod_ip == []) && wants_run sb.spec.desired_state

  abbrev plus : Time → Duration → Time
  plus t (pos n) = t + n
  plus t (negsuc n) = t - suc n

  abbrev start_waiting : ℕ → Result Sandbox → W → Wake × W
  start_waiting fuel (err e) w = (failed e, w)
  start_waiting fuel (ok sb) w =
      let (t, w') = env.now w in wake_loop fuel sb (plus t env.wake_timeout) w'

  unfoldable pub wake_and_wait : ℕ → Sandbox → W → Wake × W
  wake_and_wait fuel sb w =
      if is_up sb
      then (awake sb, w)
      else (let (resumed, w') = set_desired_running env.api sb w in start_waiting fuel resumed w')

  -- `openSession` without its heartbeats, which run beside the connection: the name of the
  -- record, if one was made.
  unfoldable pub open_session : Sandbox → Text → Text → Text → W → Option Text × W
  open_session sb principal client_addr serial w =
      let (suffix, w') = env.random_suffix w in
      let name = sb.meta.name ++ codes "-" ++ suffix in
      let (made, w'') =
        create_session env.api (new_session sb name principal client_addr serial) w' in
      elim made [ ok _ ↦ (some name, w'') | err _ ↦ (none, w'') ]

  -- The closer: its error is logged and dropped.
  unfoldable pub close_opened : Sandbox → Option Text → W → W
  close_opened sb none w = w
  close_opened sb (some name) w = (close_session env.api sb.meta.namespace name disconnected w).1

  -- (*directDialer).DialSandbox
  abbrev dial_sandbox : Sandbox → Exec W Unit
  dial_sandbox sb w = elim sb.status.pod_ip [
    | [] ↦ (err (other (codes "no route: sandbox has no pod IP yet")), w)
    | c ∷ cs ↦ env.dial (c ∷ cs) w
  ]

  abbrev accepted : Result (Unit {0}) × W → Outcome × W
  accepted (err _, w) = (not_accepted, w)
  accepted (ok _, w) = (bridged, env.bridge w)

  abbrev dialled : Result (Unit {0}) × W → Outcome × W
  dialled (err _, w) = (rejected unreachable, w)
  dialled (ok _, w) = accepted (env.accept w)

  abbrev woken : Wake × W → Outcome × W
  woken (awake sb, w) = dialled (dial_sandbox sb w)
  woken (failed e, w) = (rejected not_ready, w)
  woken (out_of_fuel, w) = (rejected not_ready, w)

  abbrev closing : Sandbox → Option Text → Outcome × W → Outcome × W
  closing sb name (outcome, w) = (outcome, close_opened sb name w)

  -- From the authorized sandbox to the end of the channel, with the deferred close.
  unfoldable pub serve_channel : ℕ → Sandbox → Text → Text → Text → W → Outcome × W
  serve_channel fuel sb principal client_addr serial w =
      let (name, w') = open_session sb principal client_addr serial w in
      closing sb name (woken (wake_and_wait fuel sb w'))

  abbrev authorized : ℕ → Text → Text → Text → Result Sandbox × W → Outcome × W
  authorized fuel principal client_addr serial (err _, w) = (rejected prohibited, w)
  authorized fuel principal client_addr serial (ok sb, w) =
      serve_channel fuel sb principal client_addr serial w

  abbrev to_target : ℕ → Text → Text → Text → Result SshTarget → W → Outcome × W
  to_target fuel principal client_addr serial (err _) w = (rejected bad_target, w)
  to_target fuel principal client_addr serial (ok t) w =
      authorized fuel principal client_addr serial (authorize t principal w)

  -- The destination is missing where the channel's payload does not parse.
  unfoldable pub handle_direct_tcpip : ℕ → Option Text → Text → Text → Text → W → Outcome × W
  handle_direct_tcpip fuel none principal client_addr serial w = (rejected bad_payload, w)
  handle_direct_tcpip fuel (some dest) principal client_addr serial w =
      to_target fuel principal client_addr serial (parse_ssh_target dest env.default_namespace) w
