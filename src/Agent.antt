-- ===== src/Agent.antt =====
-- internal/agent: the SSH server in a sandbox. Its processes, terminals and files are those of Os.
pub mod Config
pub mod Commands
pub mod Server
pub mod Shell
