-- ===== src/Lib.antt =====
-- kubepark: sandboxes on Kubernetes with an SSH and HTTP gateway.
--
-- The program is an operator and a gateway that meet in the API server, an agent in each sandbox, and
-- a client on the user's machine. The operator's reconcilers (internal/controller) turn Sandbox,
-- SandboxSession and AccessProfile objects into pods, claims, accounts and policies; the gateway
-- (internal/gateway) lets users in by certificates and cookies, wakes their sandboxes and records their
-- sessions, which the operator's idle test then counts. The agent (internal/agent) is the SSH server in
-- the pod, to which the gateway's channels lead; the client (cmd/kubepark) logs in, keeps the keys and
-- writes the configuration of ssh. All share the certificate authority of internal/sshca.
--
-- Files and code:
--   Prelude: Go strings as lists of bytes (Text), signed integers (Int), functions that change state
--     and may fail (Effects), and the rules by which they keep a predicate (Keeps).
--   Api: the types of api/v1alpha1 and the parts of the Kubernetes types that the program uses.
--     A time is a number of nanoseconds since Go's zero time, a duration a signed 64-bit number that
--     wraps; Time.Sub saturates.
--   Cluster: what the program calls and does not implement, as records of functions over a world W:
--     the API server's client, apimachinery and controller-runtime, crypto/ssh, and the operating
--     system (Os).
--   Podspec: internal/controller/podspec/builder.go and netpol.go.
--   SshCa: internal/sshca/sshca.go.
--   Controller: sandbox_controller.go (Env, Loop, Idle, Pods, Home, Claims, HostKey, Policy,
--     Finalize), sandbox_rbac.go (Access), rbacnames.go (Names), ca.go (HostKey),
--     sandboxsession_controller.go (Sessions), accessprofile_controller.go (Profiles) and the set-up
--     of the three (Watches) of internal/controller.
--   Gateway: routing.go (SshTarget), httproute.go (HttpHost), store.go (Store), sshjump.go and
--     dialer.go (Jump), httpproxy.go (Proxy), cookieauth.go (Cookie), signer.go and signhttp.go (Sign)
--     of internal/gateway. Jump.Server, Sign.Server and Cookie.Start are the constructors and the start
--     of a login; Jump.Heartbeats is the goroutine beside an open session.
--   Agent: agent.go (Config, Server), session.go (Commands, Shell) and sftp.go (Server) of
--     internal/agent. Shell.System lets clients, reapers and the system take their steps in any order.
--   Cmd: cmd/gateway.go (Gateway, Start), cmd/operator.go (Operator), cmd/main.go and cmd/agent.go
--     (Modes).
--   Cli: ssh.go (Address, SshConfig), keys.go (Keys), admin.go (SignCert) and login.go (Login) of
--     cmd/kubepark.
--   Tests: the theorems at concrete inputs.
-- A child module of a component holds its theorems.
--
-- A handler is a function from a state to a result and a state: the state that was reached comes back
-- beside an error too. reconcileSandbox mutates the status in memory and the world, the pair Pass.
-- The only loop without a bound in the code is the wait of wakeAndWait: wake_loop takes a number of
-- polls as fuel, and a timeout divided by the poll interval is enough of it. The other loops go over
-- lists.
--
-- Simplifications: the texts are ASCII; the texts that wrap errors are left out, and a message is the
-- list of its pieces; the version that an Update writes back into its object is left out; Go's
-- iteration over the map of a profile's rules is in the order of insertion; the `seen` maps of the code
-- have the members of the lists built beside them.
--
-- Interleavings are sequences of steps: a locked section of the agent is one step of a System, and the
-- goroutine that sends heartbeats and the closer of its session are actions on one Connection, where
-- a heartbeat and a close are each a read and a write.
--
-- Not modelled: the copying of bytes between connections, processes and terminals, and the windows'
-- sizes; the forwarding of ports in the agent and the SFTP server, which are libraries; the parsing of
-- flags and the logs; generated deep copies. OIDC (discovery, the exchange of a code, the check of a
-- token), cryptography and JSON are parameters.
pub mod Prelude
pub mod Agent
pub mod Api
pub mod Cli
pub mod Cluster
pub mod Cmd
pub mod Podspec
pub mod SshCa
pub mod Controller
pub mod Gateway
pub mod Tests
