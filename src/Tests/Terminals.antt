-- ===== src/Tests/Terminals.antt =====
-- An operating system that starts processes and has no files, and the theorems on the agent at it.
use kubepark.Prelude.{
  ℕ, suc, ◌+◌, ◌*◌, ◌≡◌, ◌⊎◌, inl, refl, sym, ap, Bool, true, false, not, ◌&&◌, ◌||◌, some, List,
  [], ◌∷◌, ◌∙◌, eqb, eqb_iff, ltb, ok, err, other, arith,
}
use kubepark.Prelude.Text.{Text, codes}
use kubepark.Api.Time.{second}
use kubepark.Cluster.Os.{Command, Process, File, Os}
use kubepark.Gateway.Jump.{public_key_handler}
use kubepark.SshCa.{unix_offset}
use kubepark.Agent.Config.{Config}
use kubepark.Agent.Commands.{shell_invocation, login_shell, join_command}
use kubepark.Agent.Server.{HostKeys, certified, owner_key_handler}
use kubepark.Agent.Server.Login.{Once, new_server-Once, sign_user_cert-both_doors}
use kubepark.Agent.Shell.{
  SessionManager, new_session_manager, ensure_shell, reap, shell_command, attach,
}
use kubepark.Agent.Shell.System.{
  IsTerminals, System, comes, enters, Reach, start, later, WhileRunning, here, next,
}
use kubepark.Agent.Shell.Invariant.{IsTidy, Reach-IsTidy}
use kubepark.Agent.Shell.Continuity.{Serves, same_terminal, reap-ensure_shell}
use kubepark.Tests.World.{alice}
use kubepark.Tests.Gates.{ssh, ca, issue_time, alice_cert, ssh-IsSsh, cert_signed}

-- The number of the next process, and those that run.
record Machine : Type 0 where
  count : ℕ
  running : List ℕ

abbrev elem : ℕ → List ℕ → Bool
elem p [] = false
elem p (q ∷ qs) = eqb q p || elem p qs

abbrev machine : Os Machine
machine = record {
  getenv = λ name w. [];
  environ = λ w. [];
  exists = λ path w. false;
  read_file = λ path w. (err (other []), w);
  write_file = λ path text mode w. (ok tt, w);
  mkdir_all = λ path mode w. (ok tt, w);
  start = λ cmd w. (ok w.count, record { count = suc w.count; running = w.count ∷ w.running });
  start_pty = λ cmd w.
      (ok (w.count, w.count), record { count = suc w.count; running = w.count ∷ w.running });
  is_waited = λ p w. ltb p w.count && not (elem p w.running);
  close_file = λ f w. w;
}

abbrev is_running : ℕ → Machine → Bool
is_running p w = elem p w.running

machine-IsTerminals : IsTerminals machine
machine-IsTerminals = record {
  is_running = is_running;
  not_waited = λ p w h. ground (arith, h);
  started = λ c f p q w w' e h. started c f p q w w' e h;
  fresh = λ c f p w w' e. ground (arith, e);
  failed = λ c q w r w' e h. inl (w.count, w.count, ap (λ x. x.0) (sym e));
  closed = λ f q w h. h;
}
  where
    started :
        (c : Command) (f : File) (p q : Process) (w w' : Machine)
        → machine.start_pty c w ≡ (ok (f, p), w')
        → is_running q w' ≡ true
        → (p ≡ q) ⊎ (is_running q w ≡ true)
    started c f p q w w' e h =
        let after : record { count = suc w.count; running = w.count ∷ w.running } ≡ w' =
          ap (λ x. x.1) e in
        let runs : is_running q (record { count = suc w.count; running = w.count ∷ w.running })
            ≡ true =
          ap (is_running q) after ∙ h in
        ground (arith, runs, e, eqb_iff w.count q)

abbrev cfg : Config
cfg = record {
  addr = codes ":2222";
  owner = alice;
  host_key_pem = codes "key";
  host_cert_authorized = codes "cert";
  user_ca_authorized = ca;
  command = codes "top" ∷ [];
  home_dir = codes "/home/sandbox";
}

abbrev idle_machine : Machine
idle_machine = record { count = 0; running = [] }

abbrev with_shell : SessionManager
with_shell = record { ptmx = some 0; shell_cmd = some 0; attached = 0 }

abbrev one_shell : Machine
one_shell = record { count = 1; running = 0 ∷ [] }

first_client :
    ensure_shell machine cfg (codes "xterm") (new_session_manager, idle_machine)
    ≡ (ok 0, (with_shell, one_shell))
unfolding ensure_shell shell_command shell_invocation login_shell join_command
first_client = refl

abbrev entering : System Machine
entering = record { manager = with_shell; world = one_shell; entering = 1; inside = 0 }

abbrev bridged : System Machine
bridged = record { manager = attach with_shell; world = one_shell; entering = 0; inside = 1 }

reached : Reach machine machine-IsTerminals cfg idle_machine bridged
unfolding machine-IsTerminals
reached =
    later (later (start (λ q. refl)) (comes (codes "xterm") 0 with_shell one_shell first_client))
      (enters 0 refl)

Reach-IsTidy_example : IsTidy machine machine-IsTerminals cfg bridged
Reach-IsTidy_example = Reach-IsTidy machine machine-IsTerminals cfg reached

goes_on : WhileRunning machine machine-IsTerminals cfg 0 entering bridged
unfolding machine-IsTerminals
goes_on = next (here refl) (enters 0 refl) refl

shell-Serves : Serves machine machine-IsTerminals cfg 0 0 with_shell
shell-Serves = record { shell_is = refl; master_is = refl }

same_terminal_example :
    ensure_shell machine cfg (codes "vt100") (attach with_shell, one_shell)
    ≡ (ok 0, (attach with_shell, one_shell))
same_terminal_example =
    same_terminal machine machine-IsTerminals cfg 0 0 goes_on shell-Serves (codes "vt100")

-- The shell has ended and was waited for, and its reaper is yet to come.
abbrev ended_shell : Machine
ended_shell = record { count = 1; running = [] }

abbrev second_shell : Machine
second_shell = record { count = 2; running = 1 ∷ [] }

reap-ensure_shell_example :
    ((ensure_shell machine cfg [] (with_shell, ended_shell)).0 ≡ ok 1)
    × ((ensure_shell machine cfg [] (with_shell, ended_shell)).1.0.ptmx ≡ some 1)
    × (reap machine 0 (ensure_shell machine cfg [] (with_shell, ended_shell)).1
        ≡ (ensure_shell machine cfg [] (with_shell, ended_shell)).1)
reap-ensure_shell_example =
    reap-ensure_shell machine machine-IsTerminals cfg [] 0 1 0 1 with_shell ended_shell second_shell
      shell-Serves refl refl

abbrev keys : HostKeys Text
keys = record {
  parse_authorized = λ t. ok (certified alice_cert);
  new_cert_signer = λ cert key. ok key;
}

abbrev no_processes : Os (Unit {0})
no_processes = record {
  getenv = λ name w. [];
  environ = λ w. [];
  exists = λ path w. false;
  read_file = λ path w. (err (other []), w);
  write_file = λ path text mode w. (ok tt, w);
  mkdir_all = λ path mode w. (ok tt, w);
  start = λ cmd w. (err (other []), w);
  start_pty = λ cmd w. (err (other []), w);
  is_waited = λ p w. false;
  close_file = λ f w. w;
}

new_server-Once_example : Once ssh keys no_processes cfg tt
new_server-Once_example = new_server-Once ssh keys no_processes cfg tt

sign_user_cert-both_doors_example :
    (public_key_handler ssh (some alice_cert) ca ((unix_offset + 200) * second)
      ≡ some (record { principal = alice; serial = 7 }))
    × (owner_key_handler ssh ca alice (certified alice_cert) ((unix_offset + 200) * second) ≡ true)
sign_user_cert-both_doors_example =
    sign_user_cert-both_doors ssh (λ k. k) ssh-IsSsh ca (codes "k") alice 3599999999999 issue_time
      ((unix_offset + 200) * second) tt alice_cert cert_signed (ground arith) (ground arith)
      (ground arith) (ground arith)
