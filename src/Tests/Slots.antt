-- ===== src/Tests/Slots.antt =====
-- A store of at most one session, and the theorems that need a lawful store.
use mathlib.Core.List.{Memᴰ}
use kubepark.Prelude.{
  ◌≡◌, ◌≢◌, ◌↔◌, refl, sym, ap, ◌∙◌, subst, true, false, Bool, Bool-cases, ◌&&◌, inl, inr,
  if◌then◌else◌, Option, none, some, List, [], ◌∷◌, ok, err, not_found, Result, ◌*◌, arith, pure,
  ◌>>=◌, for_each, ignore_not_found,
}
use kubepark.Prelude.Text.{Text, codes, ◌==◌, eq_iff}
use kubepark.Api.Time.{second}
use kubepark.Api.Meta.{Key, key_of}
use kubepark.Api.Session.{SandboxSession}
use kubepark.Cluster.{Client}
use kubepark.Controller.Env.{wall_clock}
use kubepark.Controller.Idle.{is_live_of}
use kubepark.Controller.Finalize.{close_sessions, closed_by_deletion}
use kubepark.Controller.Finalize.Cleanup.{IsSessionStore, close_sessions-closed}
use kubepark.Gateway.Store.Sessions.{found_or_not}
use kubepark.Tests.World.{empty, bare_client, env_of, box, live_session, Slot, dev}

abbrev pub key_eqb : Key → Key → Bool
key_eqb a b = a.namespace == b.namespace && a.name == b.name

pub key_eqb_iff : (a b : Key) → (key_eqb a b ≡ true) ↔ (a ≡ b)
key_eqb_iff a b = ground (arith, eq_iff a.namespace b.namespace, eq_iff a.name b.name)

differ : (a b k : Key) → key_eqb a b ≡ true → b ≢ k → key_eqb a k ≡ false
differ a b k same ne = elim (Bool-cases (key_eqb a k)) [
  | inl hit ↦ absurd (ne (sym ((key_eqb_iff a b).0 same) ∙ (key_eqb_iff a k).0 hit))
  | inr missed ↦ missed
]

abbrev pub stored : Slot → Key → Option SandboxSession
stored none k = none
stored (some s) k = if key_eqb (key_of s.meta) k then some s else none

abbrev with_status : SandboxSession → SandboxSession → SandboxSession
with_status s old = record old { status = s.status }

abbrev update : SandboxSession → Slot → Result Unit × Slot
update s none = (err not_found, none)
update s (some old) =
    if key_eqb (key_of old.meta) (key_of s.meta)
    then (ok tt, some (with_status s old))
    else (err not_found, some old)

abbrev listed : Slot → List SandboxSession
listed none = []
listed (some s) = s ∷ []

abbrev pub slots : Client Slot
slots = record bare_client {
  sessions = record empty {
    get = λ k w. (found_or_not (stored w k), w);
    list = λ s w. (ok (listed w), w);
    update_status = update;
  };
}

slots-IsSessionStore : IsSessionStore (env_of slots)
slots-IsSessionStore = record {
  stored = stored;
  keyed = keyed;
  listed = listed_law;
  list_stored = λ w namespace k. refl;
  clock_stored = λ w k. refl;
  updated = updated;
  missed = missed;
  others = others;
}
  where
    keyed : (w : Slot) (k : Key) (s : SandboxSession) → stored w k ≡ some s → key_of s.meta ≡ k
    keyed none k s h = cc
    keyed (some t) k s h = elim (Bool-cases (key_eqb (key_of t.meta) k)) [
      | inl same ↦
          let held : t ≡ s = ground arith in
          ap (λ (x : SandboxSession). key_of x.meta) (sym held)
          ∙ (key_eqb_iff (key_of t.meta) k).0 same
      | inr other ↦ cc
    ]

    listed_law :
        (w : Slot) (namespace : Text) (ss : List SandboxSession) (k : Key) (s : SandboxSession)
        → ok (listed w) ≡ ok ss
        → stored w k ≡ some s
        → k.namespace ≡ namespace
        → Memᴰ s ss
    listed_law none namespace ss k s h f same = cc
    listed_law (some t) namespace ss k s h f same =
        let held : t ≡ s = ground arith in
        let all : t ∷ [] ≡ ss = ground arith in
        subst (λ (xs : List SandboxSession). Memᴰ s xs) all (Memᴰ.head (sym held))

    updated :
        (w : Slot) (s old : SandboxSession)
        → (update s w).0 ≡ ok tt
        → stored (update s w).1 (key_of s.meta) ≡ some old
        → old.status ≡ s.status
    updated none s old h f = cc
    updated (some t) s old h f = ground arith

    missed :
        (w : Slot) (s : SandboxSession)
        → (update s w).0 ≡ err not_found
        → stored (update s w).1 (key_of s.meta) ≡ none
    missed none s h = refl
    missed (some t) s h = ground arith

    others :
        (w : Slot) (s : SandboxSession) (k : Key)
        → key_of s.meta ≢ k
        → stored (update s w).1 k ≡ stored w k
    others none s k ne = refl
    others (some t) s k ne = elim (Bool-cases (key_eqb (key_of t.meta) (key_of s.meta))) [
      | inl same ↦
          let apart : key_eqb (key_of t.meta) k ≡ false =
            differ (key_of t.meta) (key_of s.meta) k same ne in
          ground (arith, apart)
      | inr other ↦ ground arith
    ]

closing_ok : (close_sessions (env_of slots) box (some live_session)).0 ≡ ok tt
unfolding close_sessions ◌>>=◌ pure for_each ignore_not_found wall_clock ◌==◌ closed_by_deletion
closing_ok = refl

abbrev closed_session : SandboxSession
closed_session = closed_by_deletion (7000 * second) live_session

closed_there :
    stored
      (close_sessions (env_of slots) box (some live_session)).1
      (record { namespace = dev; name = codes "s" })
    ≡ some closed_session
unfolding close_sessions ◌>>=◌ pure for_each ignore_not_found wall_clock ◌==◌ closed_by_deletion
closed_there = refl

close_sessions-closed_example : is_live_of box.meta.name closed_session ≡ false
unfolding slots-IsSessionStore
close_sessions-closed_example =
    close_sessions-closed (env_of slots) slots-IsSessionStore box (some live_session) closing_ok
      (record { namespace = dev; name = codes "s" }) closed_session refl closed_there
