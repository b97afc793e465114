-- ===== src/Tests/Gates.antt =====
-- The gateway and its certificates at concrete inputs.
use kubepark.Prelude.{
  ◌≡◌, ◌≢◌, ◌⊎◌, ◌*◌, ◌+◌, ◌++◌, refl, true, false, none, some, [], ◌∷◌, ok, pure, raise, lift,
  ◌>>=◌, arith, ℕ, suc,
}
use kubepark.Prelude.Int.{pos}
use kubepark.Prelude.Text.{
  Text, codes, ◌==◌, cut, cut_prefix, cut_suffix, trim_space, trim_left, trim_prefix,
}
use kubepark.Api.Time.{Time, second, seconds}
use kubepark.Cluster.{Client}
use kubepark.Cluster.Ssh.{Certificate, user_cert, Ssh, PublicKey}
use kubepark.SshCa.{unix_offset, sign_user_cert, check_user_cert, new_serial, valid_before}
use kubepark.SshCa.Laws.{IsSsh}
use kubepark.Gateway.SshTarget.{SshTarget, parse_ssh_target}
use kubepark.Gateway.HttpHost.{
  HttpTarget, target, refused, ambiguous, label_of, parse_label, parse_http_host, clean_host,
}
use kubepark.Gateway.HttpHost.Sound.{Labels, parse_http_host-Labels, parse_label-not_ambiguous}
use kubepark.Gateway.HttpHost.RoundTrip.{IsReadable, parse_http_host-label_of}
use kubepark.Gateway.Store.{get_sandbox}
use kubepark.Gateway.Proxy.{
  Identity, Request, Authenticator, proxy_to, serve_http, find_exposed_port, authorized_for_port,
}
use kubepark.Gateway.Sign.{
  Signer, TokenVerifier, SignRequest, signed, handle_sign, sign, principal_from_claims,
}
use kubepark.Gateway.Sign.Issue.{Issued, handle_sign-Issued}
use kubepark.Gateway.Jump.{
  JumpEnv, Login, public_key_handler, bridged, rejected, prohibited, handle_direct_tcpip, authorize,
  serve_channel, open_session, close_opened, wake_and_wait, out_of_fuel,
}
use kubepark.Gateway.Jump.Waiting.{IsTimed, wake_and_wait-in_time}
use kubepark.Gateway.Jump.Serve.{
  Entitled, handle_direct_tcpip-Entitled, handle_direct_tcpip-stranger,
}
use kubepark.Tests.World.{always, bare_client, plain_ssh, box, alice, dev}

abbrev pub ssh : Ssh Unit
ssh = plain_ssh

abbrev pub ca : PublicKey
ca = codes "ca"

abbrev pub issue_time : Time
issue_time = (unix_offset + 100) * second

-- Alice's certificate for an hour from second 100 of 1970.
abbrev pub alice_cert : Certificate
alice_cert = record {
  key = codes "k";
  serial = 7;
  cert_type = user_cert;
  key_id = alice;
  valid_principals = alice ∷ [];
  valid_after = 40;
  valid_before = 3700;
  extensions =
      codes "permit-pty" ∷ codes "permit-port-forwarding" ∷ codes "permit-agent-forwarding" ∷ [];
  signature_key = some ca;
  signature = ca;
}

pub ssh-IsSsh : IsSsh ssh (λ k. k)
ssh-IsSsh = record {
  IsGenuine = λ d. Unit;
  signs = signs;
  accepts = λ d k is_authority principal now genuine a b c e f g. refl;
}
  where
    signs :
        (key : PublicKey) (c d : Certificate) (w : Unit {0})
        → ok (record c { signature_key = some key; signature = key }) ≡ ok d
        → (d ≡ record c { signature_key = some key; signature = d.signature }) × Unit {0}
    signs key c d w h = (ground arith, tt)

pub cert_signed :
    (sign_user_cert ssh ca (codes "k") alice (pos (suc 3599999999999)) issue_time tt).0
    ≡ ok alice_cert
unfolding sign_user_cert ◌>>=◌ new_serial valid_before
cert_signed = refl

abbrev alice_login : Login
alice_login = record { principal = alice; serial = 7 }

logged_in : public_key_handler ssh (some alice_cert) ca issue_time ≡ some alice_login
unfolding public_key_handler check_user_cert ◌==◌
logged_in = refl

abbrev signer : Signer
signer = record { ca = ca; ttl = seconds 3600 }

abbrev verifier : TokenVerifier
verifier = record { verify = λ raw. ok raw; claim = λ token. some alice }

abbrev sign_request : SignRequest
sign_request = record { is_post = true; body = some (codes "k", codes "token") }

answered :
    (handle_sign ssh (λ w. (issue_time, w)) signer (some verifier) sign_request tt).0
    ≡ signed alice alice
unfolding handle_sign sign principal_from_claims sign_user_cert ◌>>=◌ pure lift new_serial
    valid_before
answered = refl

handle_sign-Issued_example :
    Issued ssh (λ w. (issue_time, w)) signer (some verifier) sign_request tt alice alice
handle_sign-Issued_example =
    handle_sign-Issued ssh (λ w. (issue_time, w)) signer (some verifier) sign_request tt alice alice
      answered

abbrev box_target : SshTarget
box_target = record { sandbox = codes "box"; namespace = dev }

jump_parsed : parse_ssh_target (codes "box.dev") dev ≡ ok box_target
unfolding parse_ssh_target trim_space trim_left cut cut_prefix
jump_parsed = refl

box_no_dot : cut (codes ".") (codes "box") ≡ none
unfolding cut cut_prefix
box_no_dot = refl

box_trimmed : trim_space (codes "box.dev") ≡ codes "box.dev"
unfolding trim_space trim_left
box_trimmed = refl

abbrev pub web_target : HttpTarget
web_target = record { port = codes "web"; sandbox = codes "box"; namespace = dev }

abbrev pub domain : Text
domain = codes "kube.dev"

abbrev pub web_host : Text
web_host = codes "web--box--dev.kube.dev"

pub web_parsed : parse_http_host web_host domain ≡ target web_target
unfolding parse_http_host clean_host parse_label trim_space trim_left cut cut_prefix cut_suffix ◌==◌
web_parsed = refl

parse_http_host-Labels_example :
    (clean_host web_host ≡ label_of web_target ++ (codes "." ++ trim_prefix (codes ".") domain))
    × Labels (label_of web_target) web_target
parse_http_host-Labels_example =
    parse_http_host-Labels web_host domain web_target (λ p. cc) web_parsed

parse_label-not_ambiguous_example : parse_label (codes "web--box--dev") ≢ refused ambiguous
parse_label-not_ambiguous_example = parse_label-not_ambiguous (codes "web--box--dev")

web-IsReadable : IsReadable web_target
unfolding cut cut_prefix
web-IsReadable = record {
  port_given = λ p. cc;
  sandbox_given = λ p. cc;
  namespace_given = λ p. cc;
  port_first = refl;
  sandbox_first = refl;
  fits = ground arith;
}

web_clean :
    clean_host (label_of web_target ++ (codes "." ++ trim_prefix (codes ".") domain))
    ≡ label_of web_target ++ (codes "." ++ trim_prefix (codes ".") domain)
unfolding clean_host trim_space trim_left cut cut_prefix
web_clean = refl

parse_http_host-label_of_example :
    parse_http_host (label_of web_target ++ (codes "." ++ trim_prefix (codes ".") domain)) domain
    ≡ target web_target
parse_http_host-label_of_example =
    parse_http_host-label_of domain web_target (λ p. cc) web-IsReadable web_clean

abbrev pub api : Client Unit
api = record bare_client { sandboxes = always box }

abbrev alice_id : Identity
alice_id = record { principal = alice; groups = [] }

abbrev auth : Authenticator
auth = some (λ req. some alice_id)

abbrev request : Request
request = record { host = web_host; is_callback = false }

proxied :
    (serve_http (λ ip n. true) api auth domain request tt).0 ≡ proxy_to (codes "10.0.0.7") 8080
unfolding serve_http get_sandbox find_exposed_port authorized_for_port parse_http_host clean_host
    parse_label trim_space trim_left cut cut_prefix cut_suffix ◌==◌
proxied = refl

-- A jump host whose world is its clock.
abbrev jump : JumpEnv ℕ
jump = record {
  api = record bare_client { sandboxes = always box };
  now = λ w. (w, w);
  wait = λ w. (true, w + 2 * second);
  random_suffix = λ w. (codes "ab", w);
  dial = λ ip w. (ok tt, w);
  accept = λ w. (ok tt, w);
  bridge = λ w. w;
  default_namespace = dev;
  wake_timeout = pos (10 * second);
}

jump-IsTimed : IsTimed jump (2 * second)
unfolding get_sandbox
jump-IsTimed = record {
  clock = λ w. w;
  now_reads = λ w. ground arith;
  now_goes_on = λ w. ground arith;
  now_before = λ w. ground arith;
  get_goes_on = λ namespace name w. ground arith;
  waits = λ w h. ground arith;
}

wake_and_wait-in_time_example : (wake_and_wait jump 7 box 0).0 ≢ out_of_fuel
wake_and_wait-in_time_example =
    wake_and_wait-in_time jump (2 * second) jump-IsTimed 6 (10 * second) refl (ground arith) box 0

connected : (handle_direct_tcpip jump 7 (some (codes "box.dev")) alice [] [] 0).0 ≡ bridged
unfolding handle_direct_tcpip authorize serve_channel open_session close_opened wake_and_wait
    get_sandbox parse_ssh_target trim_space trim_left cut cut_prefix ◌==◌ ◌>>=◌ pure raise
connected = refl

handle_direct_tcpip-Entitled_example : Entitled jump 7 alice [] [] 0 (some (codes "box.dev"))
handle_direct_tcpip-Entitled_example =
    handle_direct_tcpip-Entitled jump 7 alice [] [] 0 (some (codes "box.dev")) connected

got : get_sandbox jump.api dev (codes "box") 0 ≡ (ok box, 0)
unfolding get_sandbox
got = refl

not_bob : alice ≢ codes "bob"
not_bob = λ p. cc

handle_direct_tcpip-stranger_example :
    (handle_direct_tcpip jump 7 (some (codes "box.dev")) (codes "bob") [] [] 0
      ≡ (rejected prohibited, 0))
    ⊎ (handle_direct_tcpip jump 7 (some (codes "box.dev")) (codes "bob") [] [] 0
        ≡ (rejected prohibited, 0))
handle_direct_tcpip-stranger_example =
    handle_direct_tcpip-stranger jump 7 (codes "bob") [] [] 0 (codes "box.dev") box_target box 0
      jump_parsed got not_bob
