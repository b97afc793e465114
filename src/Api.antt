-- ===== src/Api.antt =====
-- The types of the four custom resources, and the Kubernetes objects that the controllers write,
-- with the fields that the program reads or sets.
pub mod Time
pub mod Meta
pub mod Core
pub mod Rbac
pub mod Sandbox
pub mod Template
pub mod Session
pub mod Profile
