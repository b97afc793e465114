-- ===== src/Cli.antt =====
-- cmd/kubepark: the client's command line.
pub mod Address
pub mod Keys
pub mod SshConfig
pub mod SignCert
pub mod Login
