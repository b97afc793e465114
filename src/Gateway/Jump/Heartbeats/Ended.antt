-- ===== src/Gateway/Jump/Heartbeats/Ended.antt =====
-- The end of a session is not overwritten by a heartbeat that was under way.
use kubepark.Prelude.{
  ◌≡◌, refl, sym, ap, subst, Bool, true, false, inl, inr, Option, none, some, List, [], ◌∷◌,
  if◌then◌else◌, Result, arith,
}
use kubepark.Prelude.Text.{Text}
use kubepark.Api.Session.{SandboxSession}
use kubepark.Cluster.{Client}
use kubepark.Gateway.Store.{is_active}
use kubepark.Gateway.Store.Sessions.{IsStore}
use kubepark.Gateway.Jump.Heartbeats.{
  Connection, Action, tick, beats, sees_stop, closes, ends, answered, tick_if, end_beat, stop_if,
  begin_beat, begin_close, end_close, act, run,
}
use kubepark.Gateway.Jump.Heartbeats.Invariant.{
  IsEnded, key, Open, Sealed, Inv, begin_beat-Open, begin_close-Open, end_beat-Open, end_close-Inv,
  read_beat-not_active, Upto, Stale, IsClosing,
}

module _ {W : Type 0} (api : Client W) (namespace name : Text) (store : IsStore api) where
  abbrev IsOpen : Connection W → Type 0
  IsOpen c = Open api namespace name store c

  abbrev IsSealed : SandboxSession → Connection W → Type 0
  IsSealed last c = Sealed api namespace name store last c

  abbrev IsInv : Connection W → Type 0
  IsInv c = Inv api namespace name store c

  if-IsInv : (t : Bool) (x y : Connection W) → IsInv x → IsInv y → IsInv (if t then x else y)
  if-IsInv true x y h k = h
  if-IsInv false x y h k = k

  tick_if-IsInv :
      (b : Option SandboxSession) (c : Connection W)
      → IsOpen c
      → IsInv (tick_if api namespace name b c)
  tick_if-IsInv none c o =
      if-IsInv c.done c _ (inl o) (inl (begin_beat-Open api namespace name store c o))
  tick_if-IsInv (some b) c o = inl o

  end_beat-IsInv :
      (b : Option SandboxSession) (c : Connection W)
      → c.beating ≡ b
      → IsOpen c
      → IsInv (end_beat api namespace name b c)
  end_beat-IsInv none c e o = inl o
  end_beat-IsInv (some b) c e o = inl (end_beat-Open api namespace name store b c e o)

  stop_if-IsInv :
      (b : Option SandboxSession) (c : Connection W)
      → IsOpen c
      → IsInv (stop_if api namespace name b c)
  stop_if-IsInv none c o =
      inl (record {
        unrecorded = o.unrecorded;
        s = o.s;
        held = o.held;
        beat = o.beat;
        close = o.close;
      })
  stop_if-IsInv (some b) c o = inl o

  end_close-IsInv :
      (b : Option SandboxSession) (c : Connection W)
      → c.closing ≡ b
      → IsOpen c
      → IsInv (end_close api namespace name b c)
  end_close-IsInv none c e o = inl o
  end_close-IsInv (some b) c e o = end_close-Inv api namespace name store b c e o

  act-IsInv : (a : Action) (c : Connection W) → IsOpen c → IsInv (act api namespace name a c)
  act-IsInv tick c o = tick_if-IsInv c.beating c o
  act-IsInv beats c o = end_beat-IsInv c.beating c refl o
  act-IsInv sees_stop c o = stop_if-IsInv c.beating c o
  act-IsInv closes c o =
      if-IsInv c.is_closed c _ (inl o) (inl (begin_close-Open api namespace name store c o))
  act-IsInv ends c o = end_close-IsInv c.closing c refl o

  -- A heartbeat that starts now reads a session that is not active, and sends nothing.
  begin_beat-IsSealed :
      (last : SandboxSession) (c : Connection W)
      → IsSealed last c
      → IsSealed last (begin_beat api namespace name c)
  begin_beat-IsSealed last c h =
      subst
        (λ (r : Result (Option SandboxSession) × W).
          IsSealed last (record c { world = r.1; beating = answered r.0 }))
        (sym (
          read_beat-not_active api namespace name store c.world last h.held
            (ap is_active h.is_ended.0)))
        (record {
          held = h.held;
          is_ended = h.is_ended;
          beat = tt;
          no_close = h.no_close;
          shut = h.shut;
        })

  tick_if-IsSealed :
      (last : SandboxSession) (b : Option SandboxSession) (done : Bool) (c : Connection W)
      → c.done ≡ done
      → IsSealed last c
      → IsSealed last (tick_if api namespace name b c)
  tick_if-IsSealed last (some b) done c e h = h
  tick_if-IsSealed last none true c e h =
      subst (λ t. IsSealed last (if t then c else begin_beat api namespace name c)) (sym e) h
  tick_if-IsSealed last none false c e h =
      subst (λ t. IsSealed last (if t then c else begin_beat api namespace name c)) (sym e)
        (begin_beat-IsSealed last c h)

  -- A heartbeat that was under way is refused: its version is not the stored one.
  end_beat-IsSealed :
      (last : SandboxSession) (b : Option SandboxSession) (c : Connection W)
      → c.beating ≡ b
      → IsSealed last c
      → IsSealed last (end_beat api namespace name b c)
  end_beat-IsSealed last none c e h = h
  end_beat-IsSealed last (some b) c e h =
      let (same, old) =
        subst (Stale api namespace name store last.meta.resource_version) e h.beat in
      elim (store.updated (key api namespace name store) b last c.world same h.held) [
        | inl (unchanged, failed) ↦ record {
          held = unchanged;
          is_ended = h.is_ended;
          beat = tt;
          no_close = h.no_close;
          shut = h.shut;
        }
        | inr (version, written) ↦ absurd (omega (arith, version, old))
      ]

  stop_if-IsSealed :
      (last : SandboxSession) (b : Option SandboxSession) (c : Connection W)
      → IsSealed last c
      → IsSealed last (stop_if api namespace name b c)
  stop_if-IsSealed last none c h = record {
    held = h.held;
    is_ended = h.is_ended;
    beat = h.beat;
    no_close = h.no_close;
    shut = h.shut;
  }
  stop_if-IsSealed last (some b) c h = h

  act-IsSealed :
      (last : SandboxSession) (a : Action) (c : Connection W)
      → IsSealed last c
      → IsSealed last (act api namespace name a c)
  act-IsSealed last tick c h = tick_if-IsSealed last c.beating c.done c refl h
  act-IsSealed last beats c h = end_beat-IsSealed last c.beating c refl h
  act-IsSealed last sees_stop c h = stop_if-IsSealed last c.beating c h
  act-IsSealed last closes c h =
      subst (λ t. IsSealed last (if t then c else begin_close api namespace name c)) (sym h.shut) h
  act-IsSealed last ends c h =
      subst (λ o. IsSealed last (end_close api namespace name o c)) (sym h.no_close) h

  run-IsSealed :
      (last : SandboxSession) (actions : List Action) (c : Connection W)
      → IsSealed last c
      → IsSealed last (run api namespace name actions c)
  unfolding run
  run-IsSealed last [] c h = h
  run-IsSealed last (a ∷ rest) c h =
      run-IsSealed last rest (act api namespace name a c) (act-IsSealed last a c h)

  run-IsInv :
      (actions : List Action) (c : Connection W)
      → IsInv c
      → IsInv (run api namespace name actions c)
  unfolding run
  run-IsInv [] c h = h
  run-IsInv (a ∷ rest) c (inl o) = run-IsInv rest (act api namespace name a c) (act-IsInv a c o)
  run-IsInv (a ∷ rest) c (inr (last, h)) =
      run-IsInv rest (act api namespace name a c) (inr (last, act-IsSealed last a c h))

  -- A session that is stored when its connection opens, and to which only the gateway writes: if,
  -- after any actions of the goroutine and the closer, the closer's write has succeeded, the session
  -- is stored as closed, as disconnected, and that record stays as it is, whatever comes later: a
  -- heartbeat that was under way, more ticks, or more calls of the closer.
  pub run-IsEnded :
      (s : SandboxSession) (c : Connection W) (before later : List Action)
      → store.stored c.world (key api namespace name store) ≡ some s
      → c.beating ≡ none
      → c.closing ≡ none
      → c.recorded ≡ false
      → (run api namespace name before c).recorded ≡ true
      → (last : SandboxSession) × (store.stored
            (run api namespace name before c).world
            (key api namespace name store)
          ≡ some last)
        × IsEnded last
        × (store.stored
              (run api namespace name later (run api namespace name before c)).world
              (key api namespace name store)
            ≡ some last)
  run-IsEnded s c before later held idle quiet unrecorded recorded =
      let start : IsOpen c = record {
        unrecorded = unrecorded;
        s = s;
        held = held;
        beat = subst (Upto api namespace name store s.meta.resource_version) (sym idle) tt;
        close =
            subst (IsClosing api namespace name store s.meta.resource_version c.is_closed)
              (sym quiet) tt;
      } in
      elim (run-IsInv before c (inl start)) [
        | inl o ↦ absurd (ground (arith, o.unrecorded, recorded))
        | inr (last, h) ↦ (last, h.held, h.is_ended, (run-IsSealed last later _ h).held)
      ]
