-- ===== src/Gateway/Jump/Heartbeats/Invariant.antt =====
-- What holds of a session's record and of what is about to be written to it.
use kubepark.Prelude.{
  ℕ, ◌≡◌, ◌≤◌, ◌<◌, ◌⊎◌, ◌∙◌, refl, sym, ap, subst, Bool, true, false, Bool-cases, inl, inr, Option,
  none, some, Error, Result, ok, err, ◌>>=◌, pure, arith,
}
use kubepark.Prelude.Text.{Text}
use kubepark.Api.Meta.{Key, key_of}
use kubepark.Api.Session.{SandboxSession, closed, disconnected}
use kubepark.Cluster.{Client}
use kubepark.Gateway.Store.{beaten, ended, is_active, is_closed}
use kubepark.Gateway.Store.Sessions.{IsStore, found_or_not}
use kubepark.Gateway.Jump.Heartbeats.{
  Connection, answered, is_ok, read_beat, read_close, end_beat, begin_beat, begin_close, end_close,
}

-- The record of a session that the closer has ended.
abbrev pub IsEnded : SandboxSession → Type 0
IsEnded s = (s.status.state ≡ closed) × (s.status.exit_reason ≡ disconnected)

module _ {W : Type 0} (api : Client W) (namespace name : Text) (store : IsStore api) where
  abbrev pub key : Key
  key = record { namespace = namespace; name = name }

  -- A heartbeat that was read at a version up to `v`, or before it.
  abbrev pub Upto : ℕ → Option SandboxSession → Type 0
  Upto v none = Unit
  Upto v (some b) = (key_of b.meta ≡ key) × (b.meta.resource_version ≤ v)

  abbrev pub Stale : ℕ → Option SandboxSession → Type 0
  Stale v none = Unit
  Stale v (some b) = (key_of b.meta ≡ key) × (b.meta.resource_version < v)

  abbrev pub IsClosing : ℕ → Bool → Option SandboxSession → Type 0
  IsClosing v shut none = Unit
  IsClosing v shut (some b) =
      (key_of b.meta ≡ key) × (b.meta.resource_version ≤ v) × IsEnded b × (shut ≡ true)

  -- While the closer's write has not succeeded.
  pub record Open (c : Connection W) : Type 0 where
    pub unrecorded : c.recorded ≡ false
    pub s : SandboxSession
    pub held : store.stored c.world key ≡ some s
    pub beat : Upto s.meta.resource_version c.beating
    pub close : IsClosing s.meta.resource_version c.is_closed c.closing

  -- Once it has.
  pub record Sealed (last : SandboxSession) (c : Connection W) : Type 0 where
    pub held : store.stored c.world key ≡ some last
    pub is_ended : IsEnded last
    pub beat : Stale last.meta.resource_version c.beating
    pub no_close : c.closing ≡ none
    pub shut : c.is_closed ≡ true

  get_lem :
      (w : W) (s : SandboxSession)
      → store.stored w key ≡ some s
      → api.sessions.get key w ≡ (ok s, w)
  get_lem w s held =
      store.get_stored key w ∙ ap (λ (o : Option SandboxSession). (found_or_not o, w)) held

  read_beat-active :
      (w : W) (s : SandboxSession)
      → store.stored w key ≡ some s
      → is_active s.status.state ≡ true
      → read_beat api namespace name w
        ≡ (ok (some (beaten (api.time_now w).0 s)), (api.time_now w).1)
  unfolding read_beat ◌>>=◌ pure
  read_beat-active w s held on = rw (get_lem w s held) (rw on refl)

  pub read_beat-not_active :
      (w : W) (s : SandboxSession)
      → store.stored w key ≡ some s
      → is_active s.status.state ≡ false
      → read_beat api namespace name w ≡ (ok none, w)
  unfolding read_beat ◌>>=◌ pure
  read_beat-not_active w s held off = rw (get_lem w s held) (rw off refl)

  read_close-open :
      (w : W) (s : SandboxSession)
      → store.stored w key ≡ some s
      → is_closed s.status.state ≡ false
      → read_close api namespace name w
        ≡ (ok (some (ended (api.time_now w).0 disconnected s)), (api.time_now w).1)
  unfolding read_close ◌>>=◌ pure
  read_close-open w s held unclosed = rw (get_lem w s held) (rw unclosed refl)

  pub read_close-closed :
      (w : W) (s : SandboxSession)
      → store.stored w key ≡ some s
      → is_closed s.status.state ≡ true
      → read_close api namespace name w ≡ (ok none, w)
  unfolding read_close ◌>>=◌ pure
  read_close-closed w s held over = rw (get_lem w s held) (rw over refl)

  pub begin_beat-Open : (c : Connection W) → Open c → Open (begin_beat api namespace name c)
  unfolding beaten
  begin_beat-Open c o = elim (Bool-cases (is_active o.s.status.state)) [
    | inl on ↦
        subst
          (λ (r : Result (Option SandboxSession) × W).
            Open (record c { world = r.1; beating = answered r.0 }))
          (sym (read_beat-active c.world o.s o.held on))
          (record {
            unrecorded = o.unrecorded;
            s = o.s;
            held = store.clock_stored key c.world ∙ o.held;
            beat = (store.keyed c.world key o.s o.held, ground arith);
            close = o.close;
          })
    | inr off ↦
        subst
          (λ (r : Result (Option SandboxSession) × W).
            Open (record c { world = r.1; beating = answered r.0 }))
          (sym (read_beat-not_active c.world o.s o.held off))
          (record { unrecorded = o.unrecorded; s = o.s; held = o.held; beat = tt; close = o.close })
  ]

  pub begin_close-Open : (c : Connection W) → Open c → Open (begin_close api namespace name c)
  unfolding ended
  begin_close-Open c o = elim (Bool-cases (is_closed o.s.status.state)) [
    | inl over ↦
        subst
          (λ (r : Result (Option SandboxSession) × W).
            Open
              (record c { world = r.1; is_closed = true; stopped = true; closing = answered r.0 }))
          (sym (read_close-closed c.world o.s o.held over))
          (record { unrecorded = o.unrecorded; s = o.s; held = o.held; beat = o.beat; close = tt })
    | inr unclosed ↦
        subst
          (λ (r : Result (Option SandboxSession) × W).
            Open
              (record c { world = r.1; is_closed = true; stopped = true; closing = answered r.0 }))
          (sym (read_close-open c.world o.s o.held unclosed))
          (record {
            unrecorded = o.unrecorded;
            s = o.s;
            held = store.clock_stored key c.world ∙ o.held;
            beat = o.beat;
            close = (store.keyed c.world key o.s o.held, ground arith, (refl, refl), refl);
          })
  ]

  abbrev pub Inv : Connection W → Type 0
  Inv c = Open c ⊎ ((last : SandboxSession) × Sealed last c)

  -- A later version leaves what was read behind.
  Upto-later : (v u : ℕ) (o : Option SandboxSession) → Upto v o → v < u → Stale u o
  Upto-later v u none h order = tt
  Upto-later v u (some b) (same, old) order = (same, ground (arith, old, order))

  Stale-Upto : (v : ℕ) (o : Option SandboxSession) → Stale v o → Upto v o
  Stale-Upto v none h = tt
  Stale-Upto v (some b) (same, old) = (same, ground (arith, old))

  IsClosing-later :
      (v u : ℕ) (shut : Bool) (o : Option SandboxSession)
      → IsClosing v shut o
      → v < u
      → IsClosing u shut o
  IsClosing-later v u shut none h order = tt
  IsClosing-later v u shut (some b) (same, old, over, is_shut) order =
      (same, ground (arith, old, order), over, is_shut)

  pub end_beat-Open :
      (b : SandboxSession) (c : Connection W)
      → c.beating ≡ some b
      → Open c
      → Open (end_beat api namespace name (some b) c)
  end_beat-Open b c e o =
      let (same, old) = subst (Upto o.s.meta.resource_version) e o.beat in
      elim (store.updated key b o.s c.world same o.held) [
        | inl (unchanged, failed) ↦ record {
          unrecorded = o.unrecorded;
          s = o.s;
          held = unchanged;
          beat = tt;
          close = o.close;
        }
        | inr (version, (new, held, status, later)) ↦ record {
          unrecorded = o.unrecorded;
          s = new;
          held = held;
          beat = tt;
          close = IsClosing-later _ _ c.is_closed c.closing o.close later;
        }
      ]

  -- The closer's write: if it succeeds, the session is ended, and a heartbeat that was read before
  -- is stale.
  pub end_close-Inv :
      (b : SandboxSession) (c : Connection W)
      → c.closing ≡ some b
      → Open c
      → Inv (end_close api namespace name (some b) c)
  end_close-Inv b c e o =
      let (same, old, over, shut) =
        subst (IsClosing o.s.meta.resource_version c.is_closed) e o.close in
      by_result (api.sessions.update_status b c.world).0 refl
        (store.updated key b o.s c.world same o.held) over shut
    where
      w' : W
      w' = (api.sessions.update_status b c.world).1

      by_result :
          (r : Result Unit)
          → (api.sessions.update_status b c.world).0 ≡ r
          → ((store.stored w' key ≡ some o.s)
              × ((e : Error) × ((api.sessions.update_status b c.world).0 ≡ err e)))
            ⊎ ((o.s.meta.resource_version ≡ b.meta.resource_version)
                × ((new : SandboxSession) × (store.stored w' key ≡ some new)
                    × (new.status ≡ b.status)
                    × (o.s.meta.resource_version < new.meta.resource_version)))
          → IsEnded b
          → c.is_closed ≡ true
          → Inv (record c { world = w'; closing = none; recorded = is_ok r })
      by_result (ok tt) q (inl (unchanged, (x, failed))) over shut =
          let wrong : ok tt ≡ err x = sym q ∙ failed in cc
      by_result (ok tt) q (inr (version, (new, held, status, later))) over shut = inr (
        new,
        record {
          held = held;
          is_ended = (ap (λ t. t.state) status ∙ over.0, ap (λ t. t.exit_reason) status ∙ over.1);
          beat = Upto-later _ _ c.beating o.beat later;
          no_close = refl;
          shut = shut;
        },
      )
      by_result (err x) q (inl (unchanged, failed)) over shut =
          inl (record { unrecorded = refl; s = o.s; held = unchanged; beat = o.beat; close = tt })
      by_result (err x) q (inr (version, (new, held, status, later))) over shut = inl (record {
        unrecorded = refl;
        s = new;
        held = held;
        beat = Stale-Upto _ c.beating (Upto-later _ _ c.beating o.beat later);
        close = tt;
      })
