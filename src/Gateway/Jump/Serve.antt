-- ===== src/Gateway/Jump/Serve.antt =====
-- What a channel needs to be bridged to a pod.
use kubepark.Prelude.{
  ℕ, zero, suc, ◌≡◌, ◌≢◌, ◌⊎◌, refl, ap, Bool, true, false, Bool-cases, inl, inr, Option, none,
  some, [], ◌∷◌, Result, ok, err, arith, ltb,
}
use kubepark.Prelude.Text.{Text, eq_iff, ◌==◌}
use kubepark.Api.Sandbox.{Sandbox}
use kubepark.Gateway.Store.{get_sandbox, set_desired_running}
use kubepark.Gateway.SshTarget.{SshTarget, parse_ssh_target}
use kubepark.Gateway.Jump.{
  JumpEnv, bridged, rejected, prohibited, Wake, awake, authorize, handle_direct_tcpip, wake_loop,
  wake_and_wait, poll, until_deadline, after_wait, start_waiting, is_up, plus, to_target,
  authorized,
}
use kubepark.Gateway.Jump.Auth.{authorize-owner}

module _ {W : Type 0} (env : JumpEnv W) (s : Sandbox) where
  after_wait-awake :
      (rest : W → Wake × W)
      → ((v : W) → (rest v).0 ≡ awake s → s.status.pod_ip ≢ [])
      → (r : Bool × W) → (after_wait env r rest).0 ≡ awake s
      → s.status.pod_ip ≢ []
  after_wait-awake rest ih (false, v) h = cc
  after_wait-awake rest ih (true, v) h = ih v h

  poll-awake :
      (r : Result Sandbox) (rest : W → Wake × W) (w : W)
      → ((rest w).0 ≡ awake s → s.status.pod_ip ≢ [])
      → (poll env r rest w).0 ≡ awake s
      → s.status.pod_ip ≢ []
  poll-awake (err e) rest w ih h = ih h
  poll-awake (ok sb) rest w ih h = by_ip sb.status.pod_ip refl
    where
      by_ip : (ip : Text) → sb.status.pod_ip ≡ ip → s.status.pod_ip ≢ []
      by_ip [] e = ih (ground arith)
      by_ip (c ∷ cs) e = λ p. ground arith

  wake_loop-awake :
      (fuel : ℕ) (sb : Sandbox) (deadline : ℕ) (w : W)
      → (wake_loop env fuel sb deadline w).0 ≡ awake s
      → s.status.pod_ip ≢ []
  unfolding wake_loop
  wake_loop-awake zero sb deadline w h = cc
  wake_loop-awake (suc fuel) sb deadline w h =
      let (fresh, w') = get_sandbox env.api sb.meta.namespace sb.meta.name w in
      poll-awake fresh
        (λ v. until_deadline env deadline (env.now v) (wake_loop env fuel sb deadline)) w'
        (λ q. elim (Bool-cases (ltb deadline (env.now w').0)) [
          | inl late ↦ cc
          | inr early ↦
              after_wait-awake (wake_loop env fuel sb deadline) (wake_loop-awake fuel sb deadline)
                (env.wait (env.now w').1) (ground arith)
        ])
        h

  start_waiting-awake :
      (fuel : ℕ) (r : Result Sandbox) (w : W)
      → (start_waiting env fuel r w).0 ≡ awake s
      → s.status.pod_ip ≢ []
  start_waiting-awake fuel (err e) w h = cc
  start_waiting-awake fuel (ok sb) w h =
      wake_loop-awake fuel sb (plus env (env.now w).0 env.wake_timeout) (env.now w).1 h

  -- A sandbox that wakeAndWait gives back as awake has a pod address.
  pub wake_and_wait-awake :
      (fuel : ℕ) (sb : Sandbox) (w : W)
      → (wake_and_wait env fuel sb w).0 ≡ awake s
      → s.status.pod_ip ≢ []
  unfolding wake_and_wait ◌==◌
  wake_and_wait-awake fuel sb w h = elim (Bool-cases (is_up env sb)) [
    | inl up ↦ ground arith
    | inr down ↦
        start_waiting-awake fuel (set_desired_running env.api sb w).0
          (set_desired_running env.api sb w).1 (ground arith)
  ]

module _ {W : Type 0} (env : JumpEnv W) (fuel : ℕ) (principal client_addr serial : Text)
    (w : W) where
  -- The payload names a target that the principal owns.
  pub record Entitled (dest : Option Text) : Type 0 where
    pub host : Text
    pub given : dest ≡ some host
    pub named : SshTarget
    pub parsed : parse_ssh_target host env.default_namespace ≡ ok named
    pub sandbox : Sandbox
    pub found : (get_sandbox env.api named.namespace named.sandbox w).0 ≡ ok sandbox
    pub owner : sandbox.spec.owner.name ≡ principal
    pub principal_given : principal ≢ []

  to_target-Entitled :
      (host : Text) (t : Result SshTarget)
      → parse_ssh_target host env.default_namespace ≡ t
      → (to_target env fuel principal client_addr serial t w).0 ≡ bridged
      → Entitled (some host)
  to_target-Entitled host (err e) p h = cc
  to_target-Entitled host (ok t) p h = by_authorized (authorize env t principal w) refl h
    where
      by_authorized :
          (r : Result Sandbox × W)
          → authorize env t principal w ≡ r
          → (authorized env fuel principal client_addr serial r).0 ≡ bridged
          → Entitled (some host)
      by_authorized (err e, v) a q = cc
      by_authorized (ok sb, v) a q =
          let (principal_given, owner, found) =
            authorize-owner env t principal w sb (ap (λ (r : Result Sandbox × W). r.0) a) in
          record {
            host = host;
            given = refl;
            named = t;
            parsed = p;
            sandbox = sb;
            found = found;
            owner = owner;
            principal_given = principal_given;
          }

  -- A channel is bridged only if its payload parses to a target whose sandbox is there and is owned
  -- by the principal, which is not empty.
  pub handle_direct_tcpip-Entitled :
      (dest : Option Text)
      → (handle_direct_tcpip env fuel dest principal client_addr serial w).0 ≡ bridged
      → Entitled dest
  unfolding handle_direct_tcpip
  handle_direct_tcpip-Entitled none h = cc
  handle_direct_tcpip-Entitled (some host) h = to_target-Entitled host _ refl h

  -- Someone else than the owner of the target's sandbox is rejected, and the world is then as it
  -- was or as the Get of the sandbox left it: nothing is woken and no session is recorded.
  pub handle_direct_tcpip-stranger :
      (host : Text) (t : SshTarget) (sb : Sandbox) (w' : W)
      → parse_ssh_target host env.default_namespace ≡ ok t
      → get_sandbox env.api t.namespace t.sandbox w ≡ (ok sb, w')
      → sb.spec.owner.name ≢ principal
      → ((handle_direct_tcpip env fuel (some host) principal client_addr serial w
            ≡ (rejected prohibited, w'))
          ⊎ (handle_direct_tcpip env fuel (some host) principal client_addr serial w
              ≡ (rejected prohibited, w)))
  unfolding handle_direct_tcpip authorize
  handle_direct_tcpip-stranger host t sb w' p g other = by_principal principal other
    where
      by_principal :
          (c : Text)
          → sb.spec.owner.name ≢ c
          → ((handle_direct_tcpip env fuel (some host) c client_addr serial w
                ≡ (rejected prohibited, w'))
              ⊎ (handle_direct_tcpip env fuel (some host) c client_addr serial w
                  ≡ (rejected prohibited, w)))
      by_principal [] ne = inr (ground arith)
      by_principal (c ∷ cs) ne = inl (ground (arith, eq_iff sb.spec.owner.name (c ∷ cs)))
