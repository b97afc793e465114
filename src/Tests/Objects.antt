-- ===== src/Tests/Objects.antt =====
-- Sessions, homes, grants, clean-up and the built objects at concrete inputs.
use kubepark.Prelude.{
  ◌<◌, ◌≤◌, ◌≡◌, ◌*◌, ◌+◌, ◌-◌, ◌/◌, inr, refl, true, [], ◌∷◌, ok, arith, ℕ, suc,
}
use kubepark.Prelude.All.{All}
use kubepark.Prelude.Keeps.{Keeps}
use kubepark.Prelude.Int.{pos}
use kubepark.Prelude.Text.{codes}
use kubepark.Api.Time.{max_duration, second}
use kubepark.Api.Core.{IngressRule}
use kubepark.Podspec.{build_pod}
use kubepark.Podspec.NetPol.{NetPolOptions, build_network_policy, gateway_peer}
use kubepark.Podspec.Laws.{Selects, declared_ports, build_network_policy-pod}
use kubepark.Controller.Env.{Env, now}
use kubepark.Controller.Home.{apply_home_retain_policy}
use kubepark.Controller.Home.Retain.{apply_home_retain_policy-Keeps}
use kubepark.Controller.Profiles.{rules_by_namespace}
use kubepark.Controller.Profiles.Union.{rules_in, granted_in, rules_by_namespace-granted}
use kubepark.Controller.Sessions.{interval_of, deadline_of, last_seen, reconcile_active}
use kubepark.Controller.Sessions.Reaper.{reconcile_active-deadline, new_session-deadline}
use kubepark.Gateway.Jump.{new_session}
use kubepark.Tests.World.{
  empty, bare_client, always, env_of, box, std, reader, options, live_session, alice, dev,
}

abbrev env : Env Unit
env = env_of (record bare_client { sandboxes = always box })

clock_reads : now env tt ≡ (ok (7000 * second), tt)
unfolding now
clock_reads = refl

minute : interval_of live_session ≡ pos (60 * second)
unfolding interval_of
minute = refl

reconcile_active-deadline_example :
    (last_seen live_session + 3 * (60 * second) < 7000 * second
      → (reconcile_active env live_session tt).1 ≡ tt)
    × (last_seen live_session ≤ 7000 * second
        → 7000 * second ≤ last_seen live_session + 3 * (60 * second)
        → reconcile_active env live_session tt ≡ (
          ok (record { after = pos (last_seen live_session + 3 * (60 * second) - 7000 * second) }),
          tt,
        ))
unfolding last_seen
reconcile_active-deadline_example =
    reconcile_active-deadline env live_session tt tt (7000 * second) (60 * second) clock_reads refl
      minute (ground arith)

new_session-deadline_example :
    (n : ℕ) × (interval_of (new_session box (codes "n") alice [] []) ≡ pos n)
    × (deadline_of (new_session box (codes "n") alice [] []) ≡ pos (3 * n))
    × (3 * n < max_duration)
    × (60 * second ≤ n)
    × (3600 * second / 4 ≤ n)
new_session-deadline_example = new_session-deadline box (codes "n") alice [] [] (ground arith)

rules_by_namespace-granted_example :
    rules_in dev (rules_by_namespace reader) ≡ granted_in reader.spec.grants dev
rules_by_namespace-granted_example = rules_by_namespace-granted reader dev

-- A world that counts the claims deleted.
abbrev counting : Env ℕ
counting = env_of (record bare_client { claims = record empty { delete = λ k w. (ok tt, suc w) } })

abbrev IsNone : ℕ → Type 0
IsNone n = n ≡ 0

apply_home_retain_policy-Keeps_example : Keeps IsNone (apply_home_retain_policy counting box)
apply_home_retain_policy-Keeps_example =
    apply_home_retain_policy-Keeps counting IsNone box (λ k. record { at = λ w h. h })
      (λ c. record { at = λ w h. h }) (inr refl)

abbrev net : NetPolOptions
net = record { gateway_namespace = codes "gw"; api_server_endpoints = [] }

build_network_policy-pod_example :
    ((build_network_policy box std net).meta.namespace ≡ (build_pod box std options).meta.namespace)
    × Selects
        (build_network_policy box std net).spec.pod_selector
        (build_pod box std options).meta.labels
    × ((build_network_policy box std net).spec.isolates_ingress ≡ true)
    × ((build_network_policy box std net).spec.isolates_egress ≡ true)
    × All
        (λ (rule : IngressRule).
          (rule.from ≡ gateway_peer (codes "gw") ∷ [])
          × (rule.ports ≡ declared_ports (build_pod box std options).spec.containers))
        (build_network_policy box std net).spec.ingress
build_network_policy-pod_example = build_network_policy-pod box std options net
