-- ===== src/Agent/Shell/System.antt =====
-- Clients, reapers and the operating system, interleaved in any order.
use kubepark.Prelude.{ℕ, suc, ◌≡◌, ◌⊎◌, Bool, true, false, Result, ok}
use kubepark.Prelude.Text.{Text}
use kubepark.Cluster.Os.{Command, Process, File, Os}
use kubepark.Agent.Config.{Config}
use kubepark.Agent.Shell.{SessionManager, new_session_manager, attach, detach, ensure_shell, reap}

-- What os/exec and creack/pty document: a process runs only if it was started, Wait returns only
-- after its end, and a process that starts is a new one.
pub record IsTerminals {W : Type 0} (os : Os W) : Type 0 where
  pub is_running : Process → W → Bool
  pub not_waited : (p : Process) (w : W) → is_running p w ≡ true → os.is_waited p w ≡ false
  pub started :
      (c : Command) (f : File) (p q : Process) (w w' : W)
      → os.start_pty c w ≡ (ok (f, p), w')
      → is_running q w' ≡ true
      → (p ≡ q) ⊎ (is_running q w ≡ true)
  pub fresh :
      (c : Command) (f : File) (p : Process) (w w' : W)
      → os.start_pty c w ≡ (ok (f, p), w')
      → os.is_waited p w ≡ false
  pub failed :
      (c : Command) (q : Process) (w : W)
      → (r : Result (File × Process)) (w' : W) → os.start_pty c w ≡ (r, w')
      → is_running q w' ≡ true
      → ((f : File) × (p : Process) × (r ≡ ok (f, p))) ⊎ (is_running q w ≡ true)
  pub closed :
      (f : File) (q : Process) (w : W)
      → is_running q (os.close_file f w) ≡ true
      → is_running q w ≡ true

-- `entering` clients have the master and are not counted yet, `inside` are between the two locked
-- sections of attachShell.
pub record System (W : Type 0) : Type 0 where
  pub manager : SessionManager
  pub world : W
  pub entering : ℕ
  pub inside : ℕ

abbrev pub initial : {W : Type 0} → W → System W
initial w = record { manager = new_session_manager; world = w; entering = 0; inside = 0 }

module _ {W : Type 0} (os : Os W) (laws : IsTerminals os) (cfg : Config) where
  pub data Step (s : System W) : System W → Type 0 where
    -- A client comes, and is given a master or an error.
    comes :
        (term : Text) (f : File) (m : SessionManager) (w : W)
        → ensure_shell os cfg term (s.manager, s.world) ≡ (ok f, (m, w))
        → Step s (record s { manager = m; world = w; entering = suc s.entering })
    is_turned_away :
        (term : Text) {r : Result File} (m : SessionManager) (w : W)
        → ensure_shell os cfg term (s.manager, s.world) ≡ (r, (m, w))
        → Step s (record s { manager = m; world = w })
    enters :
        (n : ℕ)
        → s.entering ≡ suc n
        → Step s (record s { manager = attach s.manager; entering = n; inside = suc s.inside })
    leaves :
        (n : ℕ) → s.inside ≡ suc n → Step s (record s { manager = detach s.manager; inside = n })
    -- The goroutine of a process whose Wait has returned takes the lock.
    reaps :
        (p : Process)
        → os.is_waited p s.world ≡ true
        → Step s (record s {
          manager = (reap os p (s.manager, s.world)).0;
          world = (reap os p (s.manager, s.world)).1;
        })
    -- Anything else happens; it starts no shell.
    elsewhere :
        (w : W)
        → ((q : Process) → laws.is_running q w ≡ true → laws.is_running q s.world ≡ true)
        → Step s (record s { world = w })

  pub data Reach (w : W) : System W → Type 0 where
    start : ((q : Process) → laws.is_running q w ≡ false) → Reach w (initial w)
    later : {s t : System W} → Reach w s → Step s t → Reach w t

  -- Steps at whose ends the process `p` runs.
  pub data WhileRunning (p : Process) (s : System W) : System W → Type 0 where
    here : laws.is_running p s.world ≡ true → WhileRunning p s s
    next :
        {t u : System W}
        → WhileRunning p s t
        → Step t u
        → laws.is_running p u.world ≡ true
        → WhileRunning p s u
