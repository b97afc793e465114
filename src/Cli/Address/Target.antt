-- ===== src/Cli/Address/Target.antt =====
-- The gateway reads back the target that the command line names.
use kubepark.Prelude.{◌≡◌, ◌≢◌, none, [], ◌∷◌, ok}
use kubepark.Prelude.Text.{Text, codes, cut, trim_space}
use kubepark.Gateway.SshTarget.{parse_ssh_target}
use kubepark.Gateway.SshTarget.RoundTrip.{parse_ssh_target-bare, parse_ssh_target-join}
use kubepark.Agent.Config.{or_else}
use kubepark.Cli.Address.{ssh_target}

-- The target that `kubepark ssh` passes on is read by the gateway as the sandbox of that name, in the
-- namespace of the flag or else the gateway's default, if the name has no dot and no spaces are
-- around it, and one of the two namespaces is given.
pub parse_ssh_target-ssh_target :
    (name namespace default_namespace : Text)
    → name ≢ []
    → cut (codes ".") name ≡ none
    → trim_space (ssh_target name namespace) ≡ ssh_target name namespace
    → or_else namespace default_namespace ≢ []
    → parse_ssh_target (ssh_target name namespace) default_namespace
      ≡ ok (record { sandbox = name; namespace = or_else namespace default_namespace })
parse_ssh_target-ssh_target name [] d named no_dot trimmed given =
    parse_ssh_target-bare name d named given no_dot trimmed
parse_ssh_target-ssh_target name (c ∷ cs) d named no_dot trimmed given =
    parse_ssh_target-join d (record { sandbox = name; namespace = c ∷ cs }) named (λ e. cc) no_dot
      trimmed
