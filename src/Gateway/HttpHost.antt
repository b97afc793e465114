-- ===== src/Gateway/HttpHost.antt =====
-- internal/gateway/httproute.go
pub mod Sound
pub mod RoundTrip
use kubepark.Prelude.{
  ℕ, Bool, true, false, ◌||◌, Option, none, some, [], ◌∷◌, ◌++◌, if◌then◌else◌, ltb, Result, ok,
  err, other,
}
use kubepark.Prelude.Text.{
  Text, codes, ◌==◌, length, cut, cut_suffix, trim_prefix, trim_space, to_lower,
}

pub record HttpTarget : Type 0 where
  pub port : Text
  pub sandbox : Text
  pub namespace : Text

pub data HostError : Type 0 where
  not_under_domain too_long no_separator no_namespace empty_component ambiguous : HostError

pub data Parsed : Type 0 where
  target : HttpTarget → Parsed
  refused : HostError → Parsed

abbrev pub max_label_len : ℕ
max_label_len = 63

abbrev pub dashes : Text
dashes = codes "--"

-- The label that names a target.
abbrev pub label_of : HttpTarget → Text
label_of t = t.port ++ (dashes ++ (t.sandbox ++ (dashes ++ t.namespace)))

abbrev check_round_trip : Text → HttpTarget → Parsed
check_round_trip label t = if label_of t == label then target t else refused ambiguous

abbrev check_components : Text → Text → Text → Text → Parsed
check_components label port sandbox namespace =
    if port == [] || sandbox == [] || namespace == []
    then refused empty_component
    else check_round_trip label (record { port = port; sandbox = sandbox; namespace = namespace })

abbrev split_rest : Text → Text → Option (Text × Text) → Parsed
split_rest label port none = refused no_namespace
split_rest label port (some (sandbox, namespace)) = check_components label port sandbox namespace

abbrev split_label : Text → Option (Text × Text) → Parsed
split_label label none = refused no_separator
split_label label (some (port, rest)) = split_rest label port (cut dashes rest)

unfoldable pub parse_label : Text → Parsed
parse_label label =
    if ltb max_label_len (length label)
    then refused too_long
    else split_label label (cut dashes label)

abbrev before_or_all : Text → Option (Text × Text) → Text
before_or_all s none = s
before_or_all s (some (before, _)) = before

-- The host in lower case, without its port.
unfoldable pub clean_host : Text → Text
clean_host host = let low = to_lower (trim_space host) in before_or_all low (cut (codes ":") low)

abbrev parse_stem : Option Text → Parsed
parse_stem none = refused not_under_domain
parse_stem (some label) = parse_label label

-- Below the base domain, or in the first label where there is no base domain.
abbrev parse_under : Text → Text → Parsed
parse_under host [] = parse_label (before_or_all host (cut (codes ".") host))
parse_under host (c ∷ cs) =
    parse_stem (cut_suffix (codes "." ++ trim_prefix (codes ".") (c ∷ cs)) host)

unfoldable pub parse_http_host : Text → Text → Parsed
parse_http_host host base_domain = parse_under (clean_host host) base_domain
