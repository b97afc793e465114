-- ===== src/Tests/Beats.antt =====
-- A store of one session that checks versions, and the theorem on heartbeats at it.
use kubepark.Prelude.{
  suc, ◌≡◌, ◌<◌, ◌⊎◌, ◌∙◌, refl, sym, subst, List, Bool, Bool-cases, true, false, inl, inr, none,
  some, [], ◌∷◌, if◌then◌else◌, eqb, eqb_iff, Error, Result, ok, err, not_found, other, pure, ◌>>=◌,
  arith,
}
use kubepark.Prelude.Text.{codes, ◌==◌}
use kubepark.Api.Meta.{Key, key_of}
use kubepark.Api.Session.{SandboxSession}
use kubepark.Cluster.{Client}
use kubepark.Gateway.Store.{beaten, ended}
use kubepark.Gateway.Store.Sessions.{IsStore, found_or_not}
use kubepark.Gateway.Jump.Heartbeats.{
  Connection, Action, tick, beats, closes, ends, read_beat, read_close, run,
}
use kubepark.Gateway.Jump.Heartbeats.Invariant.{IsEnded, key}
use kubepark.Gateway.Jump.Heartbeats.Ended.{run-IsEnded}
use kubepark.Tests.World.{empty, bare_client, live_session, Slot, dev}
use kubepark.Tests.Slots.{key_eqb, key_eqb_iff, stored}

abbrev applied : SandboxSession → SandboxSession → SandboxSession
applied s old = record old {
  meta = record old.meta { resource_version = suc old.meta.resource_version };
  status = s.status;
}

abbrev by_version : Bool → SandboxSession → SandboxSession → Result Unit × Slot
by_version true s old = (ok tt, some (applied s old))
by_version false s old = (err (other (codes "conflict")), some old)

abbrev by_key : Bool → SandboxSession → SandboxSession → Result Unit × Slot
by_key true s old = by_version (eqb old.meta.resource_version s.meta.resource_version) s old
by_key false s old = (err not_found, some old)

abbrev update : SandboxSession → Slot → Result Unit × Slot
update s none = (err not_found, none)
update s (some old) = by_key (key_eqb (key_of old.meta) (key_of s.meta)) s old

abbrev versioned : Client Slot
versioned = record bare_client {
  sessions = record empty { get = λ k w. (found_or_not (stored w k), w); update_status = update };
}

abbrev Outcome : Key → SandboxSession → SandboxSession → Result Unit × Slot → Type 0
Outcome k s old r =
    ((stored r.1 k ≡ some old) × ((e : Error) × (r.0 ≡ err e)))
    ⊎ ((old.meta.resource_version ≡ s.meta.resource_version)
        × ((new : SandboxSession) × (stored r.1 k ≡ some new)
            × (new.status ≡ s.status)
            × (old.meta.resource_version < new.meta.resource_version)))

stored_keyed : (w : Slot) (k : Key) (s : SandboxSession) → stored w k ≡ some s → key_of s.meta ≡ k
stored_keyed none k s h = cc
stored_keyed (some t) k s h = elim (Bool-cases (key_eqb (key_of t.meta) k)) [
  | inl same ↦
      let held : t ≡ s = ground arith in
      subst (λ (x : SandboxSession). key_of x.meta ≡ k) held
        ((key_eqb_iff (key_of t.meta) k).0 same)
  | inr missed ↦ cc
]

by_version-Outcome :
    (k : Key) (s old : SandboxSession) (b : Bool)
    → eqb old.meta.resource_version s.meta.resource_version ≡ b
    → key_of old.meta ≡ k
    → Outcome k s old (by_version b s old)
by_version-Outcome k s old true e keyed =
    let here = (key_eqb_iff (key_of old.meta) k).1 keyed in
    inr ((eqb_iff _ _).0 e, (applied s old, rw here refl, refl, ground arith))
by_version-Outcome k s old false e keyed =
    let here = (key_eqb_iff (key_of old.meta) k).1 keyed in
    inl (rw here refl, (other (codes "conflict"), refl))

versioned-Outcome :
    (k : Key) (s old : SandboxSession) (w : Slot)
    → key_of s.meta ≡ k
    → stored w k ≡ some old
    → Outcome k s old (update s w)
versioned-Outcome k s old none keyed h = cc
versioned-Outcome k s old (some t) keyed h =
    let is_old : t ≡ old = by_slot (key_eqb (key_of t.meta) k) h in
    let old_keyed = stored_keyed (some t) k old h in
    let hit : key_eqb (key_of old.meta) (key_of s.meta) ≡ true =
      (key_eqb_iff (key_of old.meta) (key_of s.meta)).1 (old_keyed ∙ sym keyed) in
    subst (λ (x : SandboxSession). Outcome k s old (update s (some x))) (sym is_old)
      (subst (λ (b : Bool). Outcome k s old (by_key b s old)) (sym hit)
        (by_version-Outcome k s old _ refl old_keyed))
  where
    by_slot : (b : Bool) → (if b then some t else none) ≡ some old → t ≡ old
    by_slot true e = ground (arith, e)
    by_slot false e = cc

versioned-IsStore : IsStore versioned
versioned-IsStore = record {
  stored = stored;
  get_stored = λ k w. refl;
  clock_stored = λ k w. refl;
  keyed = stored_keyed;
  updated = versioned-Outcome;
}

abbrev connection : Connection Slot
connection = record {
  world = some live_session;
  is_closed = false;
  stopped = false;
  done = false;
  beating = none;
  closing = none;
  recorded = false;
}

-- A heartbeat is under way when the session is closed.
abbrev until_end : List Action
until_end = tick ∷ closes ∷ ends ∷ []

abbrev after_end : List Action
after_end = beats ∷ tick ∷ closes ∷ []

session_held :
    versioned-IsStore.stored (some live_session) (key versioned dev (codes "s") versioned-IsStore)
    ≡ some live_session
unfolding versioned-IsStore ◌==◌
session_held = refl

is_recorded : (run versioned dev (codes "s") until_end connection).recorded ≡ true
unfolding run read_beat read_close beaten ended pure ◌>>=◌ ◌==◌
is_recorded = refl

run-IsEnded_example :
    (last : SandboxSession) × (versioned-IsStore.stored
        (run versioned dev (codes "s") until_end connection).world
        (key versioned dev (codes "s") versioned-IsStore)
      ≡ some last)
    × IsEnded last
    × (versioned-IsStore.stored
          (run versioned dev
            (codes "s")
            after_end
            (run versioned dev (codes "s") until_end connection)).world
          (key versioned dev (codes "s") versioned-IsStore)
        ≡ some last)
run-IsEnded_example =
    run-IsEnded versioned dev (codes "s") versioned-IsStore live_session connection until_end
      after_end session_held refl refl refl is_recorded
