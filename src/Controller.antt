-- ===== src/Controller.antt =====
-- The operator: what its reconcilers share, and the reconcilers.
pub mod Env
pub mod Names
pub mod Claims
pub mod Access
pub mod Home
pub mod HostKey
pub mod Policy
pub mod Idle
pub mod Pods
pub mod Loop
pub mod Finalize
pub mod Sessions
pub mod Watches
pub mod Profiles
