-- ===== src/Agent/Shell/Continuity.antt =====
-- How long a shell is shared, and what is left of one that ended.
use kubepark.Prelude.{
  ◌≡◌, refl, sym, ap, ◌∙◌, subst, true, false, Bool-cases, inl, inr, Option, some, none, eqb,
  Result, ok, eqb_iff, arith,
}
use kubepark.Prelude.Text.{Text}
use kubepark.Cluster.Os.{Process, File, Os}
use kubepark.Agent.Config.{Config}
use kubepark.Agent.Shell.{SessionManager, ensure_shell, reap, live_master, shell_command, is_shell}
use kubepark.Agent.Shell.System.{
  IsTerminals, System, Step, comes, is_turned_away, enters, leaves, reaps, elsewhere, WhileRunning,
  here, next,
}

module _ {W : Type 0} (os : Os W) (laws : IsTerminals os) (cfg : Config) where
  module _ (p : Process) (f : File) where
    -- The manager has the process as its shell, with the master.
    pub record Serves (m : SessionManager) : Type 0 where
      pub shell_is : m.shell_cmd ≡ some p
      pub master_is : m.ptmx ≡ some f

    ensure_shell-Serves :
        (term : Text) (m : SessionManager) (w : W)
        → Serves m
        → laws.is_running p w ≡ true
        → ensure_shell os cfg term (m, w) ≡ (ok f, (m, w))
    unfolding ensure_shell
    ensure_shell-Serves term m w serves runs =
        let live : live_master os cfg m.ptmx m.shell_cmd w ≡ some f =
          ground (arith, serves.master_is, serves.shell_is, laws.not_waited p w runs) in
        rw live refl

    reap-Serves :
        (q : Process) (m : SessionManager) (w : W)
        → Serves m
        → laws.is_running p w ≡ true
        → os.is_waited q w ≡ true
        → Serves (reap os q (m, w)).0
    unfolding reap
    reap-Serves q m w serves runs waited = elim (Bool-cases (is_shell os m.shell_cmd q)) [
      | inl mine ↦
          let same : is_shell os (some p) q ≡ true =
            subst (λ (o : Option Process). is_shell os o q ≡ true) serves.shell_is mine in
          let held = (eqb_iff p q).0 same in
          let running = laws.not_waited p w runs in
          absurd (
            let both : true ≡ false =
              sym waited ∙ ap (λ x. os.is_waited x w) (sym held) ∙ running in
            cc)
      | inr other ↦ rw other serves
    ]

    ensured :
        (term : Text) (s : System W) (r : Result File) (m : SessionManager) (w : W)
        → Serves s.manager
        → laws.is_running p s.world ≡ true
        → ensure_shell os cfg term (s.manager, s.world) ≡ (r, (m, w))
        → Serves m
    ensured term s r m w serves runs e =
        let kept = ensure_shell-Serves term s.manager s.world serves runs in
        subst Serves (ap (λ (x : Result File × (SessionManager × W)). x.1.0) (sym kept ∙ e)) serves

    Step-Serves :
        {s t : System W}
        → Step os laws cfg s t
        → Serves s.manager
        → laws.is_running p s.world ≡ true
        → Serves t.manager
    Step-Serves {s} (comes term g m w e) serves runs = ensured term s (ok g) m w serves runs e
    Step-Serves {s} (is_turned_away term {r} m w e) serves runs = ensured term s r m w serves runs e
    Step-Serves (enters n e) serves runs = record {
      shell_is = serves.shell_is;
      master_is = serves.master_is;
    }
    Step-Serves (leaves n e) serves runs = record {
      shell_is = serves.shell_is;
      master_is = serves.master_is;
    }
    Step-Serves {s} (reaps q waited) serves runs =
        reap-Serves q s.manager s.world serves runs waited
    Step-Serves (elsewhere w fewer) serves runs = serves

    WhileRunning-runs :
        {s t : System W} → WhileRunning os laws cfg p s t → laws.is_running p t.world ≡ true
    WhileRunning-runs (here runs) = runs
    WhileRunning-runs (next before step runs) = runs

    WhileRunning-Serves :
        {s t : System W} → WhileRunning os laws cfg p s t → Serves s.manager → Serves t.manager
    WhileRunning-Serves (here runs) serves = serves
    WhileRunning-Serves (next before step runs) serves =
        Step-Serves step (WhileRunning-Serves before serves) (WhileRunning-runs before)

    -- As long as the shared shell runs, whatever clients come and go and whichever reapers get the
    -- lock, the next client is given its master, and nothing is started or changed.
    pub same_terminal :
        {s t : System W}
        → WhileRunning os laws cfg p s t
        → Serves s.manager
        → (term : Text)
        → ensure_shell os cfg term (t.manager, t.world) ≡ (ok f, (t.manager, t.world))
    same_terminal {s} {t} path serves term =
        ensure_shell-Serves term t.manager t.world (WhileRunning-Serves path serves)
          (WhileRunning-runs path)

  -- If a client comes when Wait has returned for the shell but its reaper has not got the lock yet,
  -- the client is given a new shell's master, and the reaper then does nothing: it does not close
  -- the old master, to which the manager has no reference any more.
  pub reap-ensure_shell :
      (term : Text) (p q : Process) (f g : File) (m : SessionManager) (w w' : W)
      → Serves p f m
      → os.is_waited p w ≡ true
      → os.start_pty (shell_command os cfg term w) w ≡ (ok (g, q), w')
      → ((ensure_shell os cfg term (m, w)).0 ≡ ok g)
        × ((ensure_shell os cfg term (m, w)).1.0.ptmx ≡ some g)
        × (reap os p (ensure_shell os cfg term (m, w)).1 ≡ (ensure_shell os cfg term (m, w)).1)
  unfolding ensure_shell reap
  reap-ensure_shell term p q f g m w w' serves waited made =
      let live : live_master os cfg m.ptmx m.shell_cmd w ≡ none =
        ground (arith, serves.master_is, serves.shell_is, waited) in
      let apart : eqb q p ≡ false = elim (Bool-cases (eqb q p)) [
        | inl same ↦
            let waited_too = ap (λ x. os.is_waited x w) ((eqb_iff q p).0 same) in
            let not_yet = laws.fresh (shell_command os cfg term w) g q w w' made in cc
        | inr other ↦ other
      ] in
      rw live (rw made (rw apart (refl, refl, refl)))
