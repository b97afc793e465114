-- ===== src/Gateway/SshTarget.antt =====
-- internal/gateway/routing.go
pub mod RoundTrip
use kubepark.Prelude.{Option, none, some, [], ◌∷◌, Result, ok, err, other}
use kubepark.Prelude.Text.{Text, codes, cut, trim_space}

pub record SshTarget : Type 0 where
  pub sandbox : Text
  pub namespace : Text

abbrev bare_target : Text → Text → Result SshTarget
bare_target host [] = err (other (codes "target has no namespace and no default is set"))
bare_target host (c ∷ cs) = ok (record { sandbox = host; namespace = c ∷ cs })

abbrev split_target : Text → Text → Result SshTarget
split_target [] namespace = err (other (codes "invalid ssh target"))
split_target (c ∷ cs) [] = err (other (codes "invalid ssh target"))
split_target (c ∷ cs) (d ∷ ds) = ok (record { sandbox = c ∷ cs; namespace = d ∷ ds })

abbrev target_of : Text → Text → Option (Text × Text) → Result SshTarget
target_of host default_namespace none = bare_target host default_namespace
target_of host default_namespace (some (sandbox, namespace)) = split_target sandbox namespace

abbrev parse_trimmed : Text → Text → Result SshTarget
parse_trimmed [] default_namespace = err (other (codes "empty ssh target"))
parse_trimmed (c ∷ cs) default_namespace =
    target_of (c ∷ cs) default_namespace (cut (codes ".") (c ∷ cs))

unfoldable pub parse_ssh_target : Text → Text → Result SshTarget
parse_ssh_target host default_namespace = parse_trimmed (trim_space host) default_namespace
