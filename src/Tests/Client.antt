-- ===== src/Tests/Client.antt =====
-- A file system as a list of files, and the theorems on the command line at it.
use kubepark.Prelude.{
  ℕ, ◌≡◌, ◌≢◌, ◌⊎◌, refl, sym, ap, ◌∙◌, false, Bool-cases, inl, inr, Option, some, none, List, [],
  ◌∷◌, ◌++◌, if◌then◌else◌, Result, ok, err, not_found, pure, raise, lift, gets, ◌>>=◌, arith,
}
use kubepark.Prelude.Text.{
  Text, codes, cut, cut_prefix, trim_space, trim_left, eq_iff, eq_refl, ◌==◌,
}
use kubepark.Cluster.Os.{Os}
use kubepark.Cluster.Ssh.{Ssh}
use kubepark.SshCa.{generate_key_pair}
use kubepark.Gateway.SshTarget.{parse_ssh_target}
use kubepark.Cli.Address.{
  split_host_port, split_below, get_elem?, take, drop, with_defaults, ssh_target,
}
use kubepark.Cli.Address.Split.{cut_last, split_host_port-cut_last}
use kubepark.Cli.Address.Target.{parse_ssh_target-ssh_target}
use kubepark.Cli.Keys.{Paths, config_dir, ensure_key_pair, cert_path}
use kubepark.Cli.Keys.Kept.{is_there, IsFileSystem, Found, Made, ensure_key_pair-Kept}
use kubepark.Cli.SshConfig.{write_ssh_config}
use kubepark.Cli.SshConfig.KnownHosts.{Forgets, write_ssh_config-Forgets}
use kubepark.Cli.Login.{
  Web, called_back, run_login, oidc_auth_code_flow, request_cert, fetch_gateway_config,
}
use kubepark.Cli.Login.Exchanged.{IsLoggedIn, run_login-IsLoggedIn}
use kubepark.Tests.World.{plain_ssh, alice, dev}

abbrev Files : Type 0
Files = List (Text × Text)

abbrev lookup : Files → Text → Option Text
lookup [] p = none
lookup ((q, t) ∷ files) p = let rest = lookup files p in if q == p then some t else rest

abbrev read_of : Option Text → Result Text
read_of none = err not_found
read_of (some t) = ok t

abbrev files : Os Files
files = record {
  getenv = λ name w. [];
  environ = λ w. [];
  exists = λ path w. is_there (lookup w path);
  read_file = λ path w. (read_of (lookup w path), w);
  write_file = λ path text mode w. (ok tt, (path, text) ∷ w);
  mkdir_all = λ path mode w. (ok tt, w);
  start = λ cmd w. (ok 0, w);
  start_pty = λ cmd w. (ok (0, 0), w);
  is_waited = λ p w. false;
  close_file = λ f w. w;
}

abbrev paths : Paths Files
paths = record {
  home_dir = λ w. (ok (codes "/me"), w);
  join = λ dir name. dir ++ (codes "/" ++ name);
}

files-IsFileSystem : IsFileSystem files paths
files-IsFileSystem = record {
  content = lookup;
  found = λ p w. refl;
  written = written;
  elsewhere = elsewhere;
  read = read;
  made = λ d q mode w. refl;
  home_read = λ q w. refl;
}
  where
    written :
        (p t : Text) (mode : ℕ) (w w' : Files)
        → ◌≡◌ {A = Result Unit × Files} (ok tt, (p, t) ∷ w) (ok tt, w')
        → lookup w' p ≡ some t
    written p t mode w w' e =
        ap (λ x. lookup x p) (sym (ap (λ x. x.1) e)) ∙ ground (arith, eq_refl p)

    elsewhere : (p q t : Text) (mode : ℕ) (w : Files) → p ≢ q → lookup ((p, t) ∷ w) q ≡ lookup w q
    elsewhere p q t mode w apart = elim (Bool-cases (p == q)) [
      | inl same ↦ absurd (apart ((eq_iff p q).0 same))
      | inr other ↦ rw other refl
    ]

    read :
        (p t : Text) (w w' : Files)
        → ◌≡◌ {A = Result Text × Files} (read_of (lookup w p), w) (ok t, w')
        → (lookup w p ≡ some t) × ((q : Text) → lookup w' q ≡ lookup w q)
    read p t w w' e =
        (by_slot (lookup w p) (ap (λ x. x.0) e), λ q. ap (λ x. lookup x q) (sym (ap (λ x. x.1) e)))
      where
        by_slot : (o : Option Text) → read_of o ≡ ok t → o ≡ some t
        by_slot none h = cc
        by_slot (some u) h = ground arith

abbrev ssh : Ssh Files
ssh = plain_ssh

abbrev priv : Text
priv = codes "/me/.kubepark/id_ed25519"

abbrev public : Text
public = codes "/me/.kubepark/id_ed25519.pub"

abbrev with_keys : Files
with_keys = (public, codes "pub") ∷ (priv, codes "priv") ∷ []

keys_made : ensure_key_pair files paths ssh [] ≡ (ok (priv, public), with_keys)
unfolding ensure_key_pair config_dir generate_key_pair ◌>>=◌ pure gets lift
keys_made = refl

ensure_key_pair-Kept_example :
    (public ≡ priv ++ codes ".pub")
    × (Found files paths files-IsFileSystem ssh [] with_keys priv public
        ⊎ Made files paths files-IsFileSystem ssh [] with_keys priv public)
ensure_key_pair-Kept_example =
    ensure_key_pair-Kept files paths files-IsFileSystem ssh [] with_keys priv public keys_made

split_host_port-cut_last_example :
    split_host_port (codes "gw:22") ≡ with_defaults (codes "gw:22") (cut_last (codes "gw:22"))
split_host_port-cut_last_example = split_host_port-cut_last (codes "gw:22")

box_no_dot : cut (codes ".") (codes "box") ≡ none
unfolding cut cut_prefix
box_no_dot = refl

box_trimmed : trim_space (codes "box.dev") ≡ codes "box.dev"
unfolding trim_space trim_left
box_trimmed = refl

parse_ssh_target-ssh_target_example :
    parse_ssh_target (ssh_target (codes "box") dev) []
    ≡ ok (record { sandbox = codes "box"; namespace = dev })
parse_ssh_target-ssh_target_example =
    parse_ssh_target-ssh_target (codes "box") dev [] (λ e. cc) box_no_dot box_trimmed (λ e. cc)

-- The file of known hosts has a key of the gateway, which ssh has noted.
abbrev noted : Files
noted =
    (codes "/me/.kubepark/known_hosts", codes "gw ssh-ed25519 AAAA")
    ∷ (codes "/ca.pub", codes "ssh-ed25519 CA")
    ∷ with_keys

abbrev configured : Result Text × Files
configured = write_ssh_config files paths ssh (codes "gw:22") (codes "jump") (codes "/ca.pub") noted

config_written : configured ≡ (ok (codes "/me/.kubepark/ssh_config"), configured.1)
unfolding write_ssh_config ensure_key_pair config_dir cert_path generate_key_pair ◌>>=◌ pure gets
    lift split_host_port split_below get_elem? take drop ◌==◌
config_written = refl

apart :
    (d : Text) → d ++ (codes "/" ++ codes "ssh_config") ≢ d ++ (codes "/" ++ codes "known_hosts")
apart [] e = cc
apart (c ∷ d) e = apart d (ground (arith, e))

write_ssh_config-Forgets_example :
    Forgets files paths files-IsFileSystem ssh
      (codes "gw:22")
      (codes "jump")
      (codes "/ca.pub")
      (codes "/me/.kubepark/ssh_config")
      noted
      configured.1
write_ssh_config-Forgets_example =
    write_ssh_config-Forgets files paths files-IsFileSystem ssh apart (codes "gw:22") (codes "jump")
      (codes "/ca.pub") (codes "/me/.kubepark/ssh_config") noted configured.1 (λ e. cc)
      config_written

abbrev web : Web Files
web = record {
  get_config = λ url w. (
    ok (record {
      issuer = codes "https://id";
      client_id = codes "cli";
      principal_claim = codes "email";
    }),
    w,
  );
  post_sign = λ url public id_token w. (ok (200, codes "certificate"), w);
  decode_signed = λ body. ok (body, alice);
  discover = λ issuer w. (ok tt, w);
  listen = λ w. (ok (codes "127.0.0.1:4000"), w);
  random_string = λ w. (codes "state", w);
  wait = λ w. (called_back (record { state = codes "state"; code = codes "code" }), w);
  exchange = λ url client_id code w. (ok (some (codes "token")), w);
}

abbrev logged_in : Files
logged_in = (codes "/me/.kubepark/id_ed25519-cert.pub", codes "certificate") ∷ with_keys

login_done : run_login web files paths ssh (codes "https://gw") [] ≡ (ok tt, logged_in)
unfolding run_login oidc_auth_code_flow request_cert fetch_gateway_config ensure_key_pair config_dir
    cert_path generate_key_pair ◌>>=◌ pure raise gets lift ◌==◌
login_done = refl

run_login-IsLoggedIn_example : IsLoggedIn web files paths ssh (codes "https://gw") [] logged_in
run_login-IsLoggedIn_example =
    run_login-IsLoggedIn web files paths ssh (codes "https://gw") [] logged_in login_done
