-- ===== src/Agent/Commands/Words.antt =====
-- What a shell makes of the words of a client's command.
use mathlib.Core.List.{append_assoc}
use kubepark.Prelude.{◌≡◌, refl, Option, List, [], ◌∷◌, ◌++◌, Exec}
use kubepark.Prelude.Text.{Text}
use kubepark.Cluster.Os.{Process, Os}
use kubepark.Agent.Config.{Config}
use kubepark.Agent.Commands.{WaitError, join_command, run_exec}

join_command-space :
    (a b : Text) (words : List Text)
    → join_command ((a ++ (32 ∷ b)) ∷ words) ≡ join_command (a ∷ b ∷ words)
unfolding join_command
join_command-space a b [] = refl
join_command-space a b (word ∷ words) = append_assoc a (32 ∷ b) (32 ∷ join_command (word ∷ words))

module _ {W : Type 0} (os : Os W) (cfg : Config) (wait : Process → W → Option WaitError × W)
    (stdin_pipe : Exec W Unit) where
  -- A word with a space in it runs just as the two words around the space do: the shell is given
  -- one line, in which the ends of the client's words are lost.
  pub run_exec-space :
      (a b : Text) (words : List Text) (w : W)
      → run_exec os cfg wait stdin_pipe ((a ++ (32 ∷ b)) ∷ words) w
        ≡ run_exec os cfg wait stdin_pipe (a ∷ b ∷ words) w
  unfolding run_exec
  run_exec-space a b words w = rw (join_command-space a b words) refl
