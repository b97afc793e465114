-- ===== src/Controller/Finalize/Cleanup.antt =====
-- What is left of the sessions of a sandbox that is deleted.
use mathlib.Core.List.{Memᴰ}
use kubepark.Prelude.{
  ◌≡◌, ◌≢◌, refl, sym, ap, subst, ◌∙◌, Bool, true, false, Bool-cases, inl, inr, Option, none, some,
  List, [], ◌∷◌, not_found, already_exists, other, Result, ok, err, for_each, ignore_not_found,
  when, dismiss_not_found, ◌>>=◌, continue, arith,
}
use kubepark.Prelude.Text.{Text, Text-discrete}
use kubepark.Api.Time.{Time}
use kubepark.Api.Meta.{Key, key_of}
use kubepark.Api.Sandbox.{Sandbox}
use kubepark.Api.Session.{SandboxSession, SandboxSessionStatus, closed}
use kubepark.Cluster.{in_namespace}
use kubepark.Controller.Env.{Env}
use kubepark.Controller.Idle.{is_live_of}
use kubepark.Controller.Finalize.{closed_by_deletion, close_session, close_sessions}

-- What the API server documents of sessions: they are stored under their own keys, a List answers
-- those of the namespace, an update of the status that succeeds replaces the status of what is
-- stored under the key, one that does not find it leaves nothing there, and no other key changes.
pub record IsSessionStore {W : Type 0} (env : Env W) : Type 0 where
  pub stored : W → Key → Option SandboxSession
  pub keyed : (w : W) (k : Key) (s : SandboxSession) → stored w k ≡ some s → key_of s.meta ≡ k
  pub listed :
      (w : W) (namespace : Text) (ss : List SandboxSession) (k : Key) (s : SandboxSession)
      → (env.api.sessions.list (in_namespace namespace) w).0 ≡ ok ss
      → stored w k ≡ some s
      → k.namespace ≡ namespace
      → Memᴰ s ss
  pub list_stored :
      (w : W) (namespace : Text) (k : Key)
      → stored (env.api.sessions.list (in_namespace namespace) w).1 k ≡ stored w k
  pub clock_stored : (w : W) (k : Key) → stored (env.api.time_now w).1 k ≡ stored w k
  pub updated :
      (w : W) (s old : SandboxSession)
      → (env.api.sessions.update_status s w).0 ≡ ok tt
      → stored (env.api.sessions.update_status s w).1 (key_of s.meta) ≡ some old
      → old.status ≡ s.status
  pub missed :
      (w : W) (s : SandboxSession)
      → (env.api.sessions.update_status s w).0 ≡ err not_found
      → stored (env.api.sessions.update_status s w).1 (key_of s.meta) ≡ none
  pub others :
      (w : W) (s : SandboxSession) (k : Key)
      → key_of s.meta ≢ k
      → stored (env.api.sessions.update_status s w).1 k ≡ stored w k

Key-discrete : Discrete Key
Key-discrete a b = by_parts (Text-discrete a.namespace b.namespace) (Text-discrete a.name b.name)
  where
    by_parts : Dec (a.namespace ≡ b.namespace) → Dec (a.name ≡ b.name) → Dec (a ≡ b)
    by_parts (no ne) _ = no (λ p. ne (ap (λ (k : Key). k.namespace) p))
    by_parts (yes e) (no ne) = no (λ p. ne (ap (λ (k : Key). k.name) p))
    by_parts (yes e) (yes f) = yes (ground (arith, e, f))

module _ {W : Type 0} (env : Env W) (store : IsSessionStore env) (sb : Sandbox) (now : Time) where
  -- Every live session of the sandbox that is stored is among the given ones.
  Covers : List SandboxSession → W → Type 0
  Covers ss w =
      (k : Key) (s : SandboxSession)
      → k.namespace ≡ sb.meta.namespace
      → store.stored w k ≡ some s
      → is_live_of sb.meta.name s ≡ true
      → Memᴰ s ss

  drop_head :
      (x s : SandboxSession) (rest : List SandboxSession) → s ≢ x → Memᴰ s (x ∷ rest) → Memᴰ s rest
  drop_head x s rest ne (Memᴰ.head e) = absurd (ne e)
  drop_head x s rest ne (Memᴰ.tail m) = m

  abbrev closing : SandboxSession → SandboxSession
  closing x = closed_by_deletion now x

  update-Covers :
      (x : SandboxSession) (rest : List SandboxSession) (w : W)
      → dismiss_not_found (env.api.sessions.update_status (closing x) w).0 ≡ ok tt
      → Covers (x ∷ rest) w
      → Covers rest (env.api.sessions.update_status (closing x) w).1
  unfolding Covers closed_by_deletion
  update-Covers x rest w done covered k s same found live = by_key (Key-discrete (key_of x.meta) k)
    where
      w' : W
      w' = (env.api.sessions.update_status (closing x) w).1

      gone :
          (r : Result Unit)
          → (env.api.sessions.update_status (closing x) w).0 ≡ r
          → dismiss_not_found r ≡ ok tt
          → store.stored w' (key_of x.meta) ≡ some s
          → ⊥
      gone (ok u) e d f =
          let ended : s.status ≡ (closing x).status = store.updated w (closing x) s e f in
          let state : s.status.state ≡ closed = ap (λ (t : SandboxSessionStatus). t.state) ended in
          ground (arith, state)
      gone (err not_found) e d f =
          let none_left : store.stored w' (key_of x.meta) ≡ none = store.missed w (closing x) e in
          cc (none_left, f)
      gone (err already_exists) e d f = cc
      gone (err (other t)) e d f = cc

      by_key : Dec (key_of x.meta ≡ k) → Memᴰ s rest
      by_key (yes e) = absurd (gone _ refl done (ap (store.stored w') e ∙ found))
      by_key (no ne) =
          let before : store.stored w k ≡ some s = sym (store.others w (closing x) k ne) ∙ found in
          drop_head x s rest
            (λ e.
              ne (ap (λ (t : SandboxSession). key_of t.meta) (sym e) ∙ store.keyed w k s before))
            (covered k s same before live)

  close_session-Covers :
      (x : SandboxSession) (rest : List SandboxSession) (w : W)
      → (close_session env sb now x w).0 ≡ ok tt
      → Covers (x ∷ rest) w
      → Covers rest (close_session env sb now x w).1
  unfolding Covers ignore_not_found
  close_session-Covers x rest w done covered = by_live (is_live_of sb.meta.name x) refl done
    where
      body : Bool → W → Result Unit × W
      body b = when b (ignore_not_found (env.api.sessions.update_status (closing x)))

      by_live :
          (b : Bool)
          → is_live_of sb.meta.name x ≡ b
          → (body b w).0 ≡ ok tt
          → Covers rest (body b w).1
      by_live true e d = update-Covers x rest w d covered
      by_live false e d = λ k s same found live.
          drop_head x s rest (λ p. ground (arith, ap (is_live_of sb.meta.name) p))
            (covered k s same found live)

  for_each-Covers :
      (ss : List SandboxSession) (w : W)
      → (for_each ss (close_session env sb now) w).0 ≡ ok tt
      → Covers ss w
      → Covers [] (for_each ss (close_session env sb now) w).1
  unfolding for_each ◌>>=◌
  for_each-Covers [] w done covered = covered
  for_each-Covers (x ∷ xs) w done covered =
      by_step (for_each-Covers xs) (close_session env sb now x w) refl done
    where
      by_step :
          ((v : W)
            → (for_each xs (close_session env sb now) v).0 ≡ ok tt
            → Covers xs v
            → Covers [] (for_each xs (close_session env sb now) v).1)
          → (r : Result Unit × W) → close_session env sb now x w ≡ r
          → (continue r.0 (λ _. for_each xs (close_session env sb now)) r.1).0 ≡ ok tt
          → Covers [] (continue r.0 (λ _. for_each xs (close_session env sb now)) r.1).1
      by_step rest (err e, w') q d = cc
      by_step rest (ok u, w') q d =
          let first = close_session-Covers x xs w (ap (λ (r : Result Unit × W). r.0) q) covered in
          rest w' d (subst (λ (r : Result Unit × W). Covers xs r.1) q first)

module _ {W : Type 0} (env : Env W) (store : IsSessionStore env) (sb : Sandbox) (w : W) where
  -- When the sessions of a deleted sandbox are closed without an error, no session that is then
  -- stored in its namespace is live for it.
  pub close_sessions-closed :
      (close_sessions env sb w).0 ≡ ok tt
      → (k : Key) (s : SandboxSession) → k.namespace ≡ sb.meta.namespace
      → store.stored (close_sessions env sb w).1 k ≡ some s
      → is_live_of sb.meta.name s ≡ false
  unfolding close_sessions Covers
  close_sessions-closed done k s same found =
      by_list (env.api.sessions.list (in_namespace sb.meta.namespace) w) refl
    where
      by_list :
          (r : Result (List SandboxSession) × W)
          → env.api.sessions.list (in_namespace sb.meta.namespace) w ≡ r
          → is_live_of sb.meta.name s ≡ false
      by_list (err e, w1) q = cc
      by_list (ok ss, w1) q =
          let now = (env.api.time_now w1).0 in
          let start = (env.api.time_now w1).1 in
          let run : close_sessions env sb w ≡ for_each ss (close_session env sb now) start =
            ground (arith, q) in
          let as_listed : (key : Key) → store.stored start key ≡ store.stored w key = λ key.
            store.clock_stored w1 key
            ∙ ap (λ (r : Result (List SandboxSession) × W). store.stored r.1 key) (sym q)
            ∙ store.list_stored w sb.meta.namespace key in
          let covered : Covers env store sb now ss start = λ key t inside at live.
            store.listed w sb.meta.namespace ss key t
              (ap (λ (r : Result (List SandboxSession) × W). r.0) q) (sym (as_listed key) ∙ at)
              inside in
          let left : Covers env store sb now [] (for_each ss (close_session env sb now) start).1 =
            for_each-Covers env store sb now ss start
              (sym (ap (λ (r : Result Unit × W). r.0) run) ∙ done) covered in
          let after : store.stored (for_each ss (close_session env sb now) start).1 k ≡ some s =
            ap (λ (r : Result Unit × W). store.stored r.1 k) (sym run) ∙ found in
          elim (Bool-cases (is_live_of sb.meta.name s)) [
            | inl live ↦ elim (left k s same after live) [ ]
            | inr ended ↦ ended
          ]
