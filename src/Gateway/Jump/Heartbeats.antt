-- ===== src/Gateway/Jump/Heartbeats.antt =====
-- internal/gateway/sshjump.go: the heartbeats of a session and its closer, which run side by side.
-- A heartbeat and a close (internal/gateway/store.go) are each a read and a write to the API server,
-- and the steps of the two may come in any order.
pub mod Invariant
pub mod Ended
use kubepark.Prelude.{
  ◌≡◌, refl, Bool, true, false, Bool-cases, inl, inr, Option, none, some, List, [], ◌∷◌,
  if◌then◌else◌, Result, ok, err, Exec, pure, ◌>>=◌, arith,
}
use kubepark.Prelude.Text.{Text}
use kubepark.Api.Time.{Time}
use kubepark.Api.Session.{SandboxSession, disconnected}
use kubepark.Cluster.{Client}
use kubepark.Gateway.Store.{heartbeat, close_session, beaten, ended, is_active, is_closed}

-- The captured variables of openSession: `stopped` is the closed channel `stop`, `done` tells that
-- the goroutine has seen it. `beating` and `closing` are what the goroutine and the closer have read
-- and are about to write; `recorded` tells that the closer's write has succeeded.
pub record Connection (W : Type 0) : Type 0 where
  pub world : W
  pub is_closed : Bool
  pub stopped : Bool
  pub done : Bool
  pub beating : Option SandboxSession
  pub closing : Option SandboxSession
  pub recorded : Bool

-- `tick` is a tick that the goroutine selects, also after `stop` was closed, when both are ready, and
-- `beats` its write; `closes` is a call of the closer and `ends` its write.
pub data Action : Type 0 where
  tick beats sees_stop closes ends : Action

-- An error is logged and dropped.
abbrev pub answered : Result (Option SandboxSession) → Option SandboxSession
answered (ok o) = o
answered (err e) = none

abbrev pub is_ok : Result Unit → Bool
is_ok (ok u) = true
is_ok (err e) = false

module _ {W : Type 0} (api : Client W) (namespace name : Text) where
  abbrev clock : Exec W Time
  clock w = let (t, w') = api.time_now w in (ok t, w')

  -- Heartbeat and CloseSession up to their updates: what they send, if anything.
  unfoldable pub read_beat : Exec W (Option SandboxSession)
  unfolding ◌>>=◌ pure beaten
  read_beat = do
    session ← api.sessions.get (record { namespace = namespace; name = name })
    if is_active session.status.state
        then (do now ← clock; pure (some (beaten now session)))
        else pure none

  unfoldable pub read_close : Exec W (Option SandboxSession)
  unfolding ◌>>=◌ pure ended
  read_close = do
    session ← api.sessions.get (record { namespace = namespace; name = name })
    if is_closed session.status.state
        then pure none
        else do now ← clock; pure (some (ended now disconnected session))

  abbrev pub write : Option SandboxSession → Exec W Unit
  write none = pure tt
  write (some s) = api.sessions.update_status s

  abbrev pub begin_beat : Connection W → Connection W
  begin_beat c =
      let (read, w') = read_beat c.world in record c { world = w'; beating = answered read }

  abbrev pub tick_if : Option SandboxSession → Connection W → Connection W
  tick_if none c = if c.done then c else begin_beat c
  tick_if (some s) c = c

  abbrev pub end_beat : Option SandboxSession → Connection W → Connection W
  end_beat none c = c
  end_beat (some s) c = record c {
    world = (api.sessions.update_status s c.world).1;
    beating = none;
  }

  abbrev pub stop_if : Option SandboxSession → Connection W → Connection W
  stop_if none c = record c { done = c.stopped }
  stop_if (some s) c = c

  abbrev pub begin_close : Connection W → Connection W
  begin_close c =
      let (read, w') = read_close c.world in
      record c { world = w'; is_closed = true; stopped = true; closing = answered read }

  abbrev pub end_close : Option SandboxSession → Connection W → Connection W
  end_close none c = c
  end_close (some s) c =
      let (result, w') = api.sessions.update_status s c.world in
      record c { world = w'; closing = none; recorded = is_ok result }

  abbrev pub act : Action → Connection W → Connection W
  act tick c = tick_if c.beating c
  act beats c = end_beat c.beating c
  act sees_stop c = stop_if c.beating c
  act closes c = if c.is_closed then c else begin_close c
  act ends c = end_close c.closing c

  unfoldable pub run : List Action → Connection W → Connection W
  run [] c = c
  run (a ∷ rest) c = run rest (act a c)

  -- The two reads, each with its write, are the operations of the store.
  pub heartbeat-read_beat : (w : W) → heartbeat api namespace name w ≡ (read_beat >>= write) w
  unfolding heartbeat read_beat ◌>>=◌ pure
  heartbeat-read_beat w = ground arith

  pub close_session-read_close :
      (w : W) → close_session api namespace name disconnected w ≡ (read_close >>= write) w
  unfolding close_session read_close ◌>>=◌ pure
  close_session-read_close w = ground arith
