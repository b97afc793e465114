-- ===== src/Agent/Shell/Invariant.antt =====
-- At most one shell runs, and it is the manager's.
use kubepark.Prelude.{
  ◌≡◌, ◌↔◌, refl, sym, ap, subst, ◌∙◌, true, Bool-cases, inl, inr, Option, none, some, Option-cases,
  Result, ok, err, eqb_iff, arith,
}
use kubepark.Prelude.Text.{Text}
use kubepark.Cluster.Os.{Process, File, Os}
use kubepark.Agent.Config.{Config}
use kubepark.Agent.Shell.{
  SessionManager, ensure_shell, reap, live_master, keep_started, or_start, is_shell, close_master,
  shell_command,
}
use kubepark.Agent.Shell.System.{
  IsTerminals, System, Step, comes, is_turned_away, enters, leaves, reaps, elsewhere, Reach, start,
  later,
}

module _ {W : Type 0} (os : Os W) (laws : IsTerminals os) (cfg : Config) where
  pub record HoldsShell (m : SessionManager) (w : W) : Type 0 where
    -- A shell that runs is the manager's, so that at most one runs.
    pub only : (q : Process) → laws.is_running q w ≡ true → m.shell_cmd ≡ some q
    -- The manager has a master just if it has a shell.
    pub paired : (m.ptmx ≡ none) ↔ (m.shell_cmd ≡ none)

  -- Where no master is handed out, no shell runs.
  idle :
      (m : SessionManager) (w : W)
      → HoldsShell m w
      → live_master os cfg m.ptmx m.shell_cmd w ≡ none
      → (q : Process) → laws.is_running q w ≡ true
      → ⊥
  idle m w holds e q runs =
      let shell_is = holds.only q runs in
      let waited = laws.not_waited q w runs in
      elim (Option-cases m.ptmx) [
        | inl none_is ↦ let gone = holds.paired.0 none_is in cc
        | inr (f, f_is) ↦ ground (arith, f_is, shell_is, waited)
      ]

  keep_started-HoldsShell :
      (term : Text) (m : SessionManager) (w : W)
      → HoldsShell m w
      → live_master os cfg m.ptmx m.shell_cmd w ≡ none
      → (r : Result (File × Process)) (w' : W)
      → os.start_pty (shell_command os cfg term w) w ≡ (r, w')
      → HoldsShell (keep_started os cfg m (r, w')).1.0 (keep_started os cfg m (r, w')).1.1
  keep_started-HoldsShell term m w holds e (err x) w' made = record {
    only = λ q runs. elim (laws.failed _ q w (err x) w' made runs) [
      | inl (f, p, same) ↦ cc
      | inr before ↦ holds.only q before
    ];
    paired = holds.paired;
  }
  keep_started-HoldsShell term m w holds e (ok (f, p)) w' made = record {
    only = λ q runs. elim (laws.started _ f p q w w' made runs) [
      | inl same ↦ cc
      | inr before ↦ absurd (idle m w holds e q before)
    ];
    paired = (λ h. cc, λ h. cc);
  }

  or_start-HoldsShell :
      (term : Text) (m : SessionManager) (w : W)
      → HoldsShell m w
      → (o : Option File) → live_master os cfg m.ptmx m.shell_cmd w ≡ o
      → HoldsShell (or_start os cfg term o (m, w)).1.0 (or_start os cfg term o (m, w)).1.1
  or_start-HoldsShell term m w holds (some f) e = holds
  or_start-HoldsShell term m w holds none e = keep_started-HoldsShell term m w holds e _ _ refl

  ensure_shell-HoldsShell :
      (term : Text) (m : SessionManager) (w : W)
      → HoldsShell m w
      → HoldsShell (ensure_shell os cfg term (m, w)).1.0 (ensure_shell os cfg term (m, w)).1.1
  unfolding ensure_shell
  ensure_shell-HoldsShell term m w holds = or_start-HoldsShell term m w holds _ refl

  is_shell_lem : (o : Option Process) (p : Process) → is_shell os o p ≡ true → o ≡ some p
  is_shell_lem none p h = cc
  is_shell_lem (some q) p h = ap some ((eqb_iff q p).0 h)

  close_master_lem :
      (o : Option File) (q : Process) (w : W)
      → laws.is_running q (close_master os o w) ≡ true
      → laws.is_running q w ≡ true
  close_master_lem none q w h = h
  close_master_lem (some f) q w h = laws.closed f q w h

  reap-HoldsShell :
      (p : Process) (m : SessionManager) (w : W)
      → os.is_waited p w ≡ true
      → HoldsShell m w
      → HoldsShell (reap os p (m, w)).0 (reap os p (m, w)).1
  unfolding reap
  reap-HoldsShell p m w waited holds = elim (Bool-cases (is_shell os m.shell_cmd p)) [
    | inl mine ↦ rw mine (record {
      only = λ q runs.
          let before = close_master_lem m.ptmx q w runs in
          let shell_is = is_shell_lem m.shell_cmd p mine in
          let held = holds.only q before in
          let running = laws.not_waited q w before in ground arith;
      paired = (λ h. refl, λ h. refl);
    })
    | inr other ↦ rw other holds
  ]

  -- What is true between any two steps.
  pub record IsTidy (s : System W) : Type 0 where
    pub shell : HoldsShell s.manager s.world
    -- The counter counts the clients between the two locked sections of attachShell.
    pub counted : s.manager.attached ≡ s.inside

  Step-HoldsShell :
      {s t : System W}
      → Step os laws cfg s t
      → HoldsShell s.manager s.world
      → HoldsShell t.manager t.world
  Step-HoldsShell {s} (comes term f m w e) holds =
      let kept = ensure_shell-HoldsShell term s.manager s.world holds in
      subst (λ (r : Result File × (SessionManager × W)). HoldsShell r.1.0 r.1.1) e kept
  Step-HoldsShell {s} (is_turned_away term {r} m w e) holds =
      let kept = ensure_shell-HoldsShell term s.manager s.world holds in
      subst (λ (r : Result File × (SessionManager × W)). HoldsShell r.1.0 r.1.1) e kept
  Step-HoldsShell (enters n e) holds = record { only = holds.only; paired = holds.paired }
  Step-HoldsShell (leaves n e) holds = record { only = holds.only; paired = holds.paired }
  Step-HoldsShell {s} (reaps p waited) holds = reap-HoldsShell p s.manager s.world waited holds
  Step-HoldsShell (elsewhere w fewer) holds = record {
    only = λ q runs. holds.only q (fewer q runs);
    paired = holds.paired;
  }

  keep_started-attached :
      (m : SessionManager) (r : Result (File × Process) × W)
      → (keep_started os cfg m r).1.0.attached ≡ m.attached
  keep_started-attached m (err e, w) = refl
  keep_started-attached m (ok (f, p), w) = refl

  or_start-attached :
      (term : Text) (o : Option File) (m : SessionManager) (w : W)
      → (or_start os cfg term o (m, w)).1.0.attached ≡ m.attached
  or_start-attached term (some f) m w = refl
  or_start-attached term none m w = keep_started-attached m _

  reap-attached :
      (p : Process) (m : SessionManager) (w : W) → (reap os p (m, w)).0.attached ≡ m.attached
  unfolding reap
  reap-attached p m w = ground arith

  Step-counted :
      {s t : System W}
      → Step os laws cfg s t
      → s.manager.attached ≡ s.inside
      → t.manager.attached ≡ t.inside
  unfolding ensure_shell
  Step-counted {s} (comes term f m w e) counted =
      ap (λ (r : Result File × (SessionManager × W)). r.1.0.attached) (sym e)
      ∙ or_start-attached term _ s.manager s.world
      ∙ counted
  Step-counted {s} (is_turned_away term {r} m w e) counted =
      ap (λ (r : Result File × (SessionManager × W)). r.1.0.attached) (sym e)
      ∙ or_start-attached term _ s.manager s.world
      ∙ counted
  Step-counted (enters n e) counted = omega arith
  Step-counted (leaves n e) counted = omega arith
  Step-counted {s} (reaps p waited) counted = reap-attached p s.manager s.world ∙ counted
  Step-counted (elsewhere w fewer) counted = counted

  -- In every state that is reached from a start with no shell, whatever the order of the clients,
  -- the reapers and the system, at most one shell runs, it is the manager's, the manager has a
  -- master just if it has a shell, and `attached` counts the clients that are bridged.
  pub Reach-IsTidy : {w : W} {s : System W} → Reach os laws cfg w s → IsTidy s
  Reach-IsTidy (start none_runs) = record {
    shell = record {
      only = λ q runs. let stopped = none_runs q in cc;
      paired = (λ h. refl, λ h. refl);
    };
    counted = refl;
  }
  Reach-IsTidy (later r step) =
      let before = Reach-IsTidy r in
      record {
        shell = Step-HoldsShell step before.shell;
        counted = Step-counted step before.counted;
      }
