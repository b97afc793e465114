-- ===== src/Gateway.antt =====
-- The gateway: parsing and routing, authorization, session records and the browser's login.
pub mod SshTarget
pub mod HttpHost
pub mod Store
pub mod Proxy
pub mod Jump
pub mod Cookie
pub mod Sign
